-- ===== src/Frame/Block.antt =====
-- Sources/nghttp2/nghttp2_frame.c, frame_pack_headers_shared: a header block that fills the chunks of
-- a chain up to `cur` becomes a HEADERS or PUSH_PROMISE frame and its CONTINUATION frames.
pub mod Sequence
pub mod Tests
use kitura_http.Prelude.{ℕ, List, [], ◌∷◌, ◌++◌, length, clear_bit}
use kitura_http.Result.{Result, ok, err, fault, ◌>>=◌}
use kitura_http.Buf.{Buf, Bufs, buf_len}
use kitura_http.Frame.{FrameHd, flag_end_headers, type_continuation}
use kitura_http.Frame.Control.{pack_hd_left}

-- `hd.length = nghttp2_buf_len(buf)`.
abbrev pub with_len : FrameHd → Buf → FrameHd
with_len hd b = record hd { len = buf_len b }

-- The `for` loop over the chunks between the first and the last.
unfoldable pub pack_inner : List Buf → FrameHd → Result (List Buf)
unfolding pack_hd_left
pack_inner [] hd = ok []
pack_inner (b ∷ bs) hd = do c ← pack_hd_left b (with_len hd b); cs ← pack_inner bs hd; ok (c ∷ cs)

-- The first frame, the ones between, and the last one, which ends the header block.
abbrev pub pack_chunks : Bufs → FrameHd → List Buf → Result Bufs
pack_chunks s hd [] = do
  c ← pack_hd_left s.cur (with_len hd s.cur)
  ok (record s { before = []; cur = c })
pack_chunks s hd (b ∷ bs) = do
  c ← pack_hd_left b (with_len (record hd { flags = clear_bit hd.flags flag_end_headers }) b)
  cs ← pack_inner bs (record hd { type = type_continuation; flags = 0 })
  d ←
      pack_hd_left s.cur
        (with_len (record hd { type = type_continuation; flags = flag_end_headers }) s.cur)
  ok (record s { before = c ∷ cs; cur = d })

unfoldable pub pack_headers_shared : Bufs → FrameHd → Result Bufs
unfolding pack_hd_left pack_inner
pack_headers_shared s hd = pack_chunks s hd s.before
