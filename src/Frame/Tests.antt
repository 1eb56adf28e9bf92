-- ===== src/Frame/Tests.antt =====
-- Frames packed behind an offset of ten bytes, and the theorems at them.
use kitura_http.Prelude.{ℕ, ◌<◌, ◌≡◌, ◌⊎◌, refl, List, [], ◌∷◌, true, drop, replicate, none, arith}
use kitura_http.Result.{ok, frame_size, nomem}
use kitura_http.Buf.{Buf, Bufs, done, failed, bufs_bytes}
use kitura_http.Buf.Valid.{IsValid}
use kitura_http.Frame.{FrameHd, frame_hd_init, pack_frame_hd, unpack_frame_hd, frame_trail_padlen}
use kitura_http.Frame.Header.{IsFrameHd, unpack_frame_hd-pack_frame_hd}
use kitura_http.Frame.Control.{
  Goaway, goaway_init, rst_stream_init, ping_init, window_update_init, pack_goaway,
  unpack_goaway_payload2, pack_rst_stream, unpack_rst_stream_payload, pack_ping,
  unpack_ping_payload, pack_window_update, unpack_window_update_payload,
}
use kitura_http.Frame.Control.RoundTrip.{
  IsReady, ReadsBack, rst_stream_ReadsBack, window_update_ReadsBack, ping_ReadsBack,
}
use kitura_http.Frame.Control.Spread.{goaway_reads_back, pack_goaway-ends}

abbrev ready : Buf
ready = record { room = 10; bytes = []; avail = 9 }

ready-IsReady : IsReady ready
ready-IsReady = record { room_fits = omega arith; empty = refl }

abbrev chain : Bufs
chain = record {
  before = [];
  cur = ready;
  after = [];
  chunk_length = 19;
  chunk_used = 1;
  max_chunk = 2;
  chunk_keep = 1;
  offset = 10;
  mem = true ∷ [];
}

chain-IsValid : IsValid chain
chain-IsValid = record {
  counted = refl;
  bounded = omega arith;
  offset_fits = omega arith;
  caps_before = tt;
  cap_cur = refl;
  caps_after = tt;
}

abbrev hd : ℕ → ℕ → FrameHd
hd len type = record { len = len; type = type; flags = 0; stream_id = 5; reserved = 0 }

hd-IsFrameHd : (len type : ℕ) → len < 16777216 → type < 256 → IsFrameHd (hd len type)
hd-IsFrameHd len type h k = record {
  len_fits = h;
  type_fits = k;
  flags_fit = omega arith;
  id_fits = omega arith;
  no_reserved = refl;
}

abbrev away : Goaway
away = record { hd = hd 11 7; last_stream_id = 3; error_code = 2; opaque_data = 1 ∷ 2 ∷ 3 ∷ [] }

packed_header :
    pack_frame_hd (replicate 9 0xff) (hd 300 4) ≡ 0 ∷ 1 ∷ 44 ∷ 4 ∷ 0 ∷ 0 ∷ 0 ∷ 0 ∷ 5 ∷ []
unfolding pack_frame_hd
packed_header = refl

trail : frame_trail_padlen 8 5 ≡ 4
unfolding frame_trail_padlen
trail = refl

away_done : (pack_goaway chain away).1 ≡ done
unfolding pack_goaway
away_done = refl

inits :
    (ping_init 1 none ≡ record { hd = frame_hd_init 8 6 1 0; opaque_data = replicate 8 0 })
    × ((goaway_init 3 2 (1 ∷ [])).hd ≡ frame_hd_init 9 7 0 0)
    × ((rst_stream_init 5 8).hd ≡ frame_hd_init 4 3 0 5)
    × ((window_update_init 0 5 8).hd ≡ frame_hd_init 4 8 0 5)
unfolding ping_init goaway_init rst_stream_init window_update_init frame_hd_init
inits = (refl, refl, refl, refl)

unpack_frame_hd-pack_frame_hd_example :
    unpack_frame_hd (pack_frame_hd (replicate 10 0xff) (hd 300 4)) ≡ hd 300 4
unpack_frame_hd-pack_frame_hd_example =
    unpack_frame_hd-pack_frame_hd (hd 300 4) (replicate 10 0xff)
      (hd-IsFrameHd 300 4 (omega arith) (omega arith)) (omega arith)

rst_stream_ReadsBack_example :
    ReadsBack
      (pack_rst_stream ready (record { hd = hd 4 3; error_code = 8 }))
      (hd 4 3)
      unpack_rst_stream_payload
      8
rst_stream_ReadsBack_example =
    rst_stream_ReadsBack ready ready-IsReady (record { hd = hd 4 3; error_code = 8 })
      (hd-IsFrameHd 4 3 (omega arith) (omega arith)) (omega arith) (omega arith)

window_update_ReadsBack_example :
    ReadsBack
      (pack_window_update ready (record { hd = hd 4 8; window_size_increment = 70000 }))
      (hd 4 8)
      unpack_window_update_payload
      70000
window_update_ReadsBack_example =
    window_update_ReadsBack ready ready-IsReady
      (record { hd = hd 4 8; window_size_increment = 70000 })
      (hd-IsFrameHd 4 8 (omega arith) (omega arith)) (omega arith) (omega arith)

abbrev eight : List ℕ
eight = 1 ∷ 2 ∷ 3 ∷ 4 ∷ 5 ∷ 6 ∷ 7 ∷ 8 ∷ []

ping_ReadsBack_example :
    ReadsBack
      (pack_ping ready (record { hd = hd 8 6; opaque_data = eight }))
      (hd 8 6)
      unpack_ping_payload
      eight
ping_ReadsBack_example =
    ping_ReadsBack ready ready-IsReady (record { hd = hd 8 6; opaque_data = eight })
      (hd-IsFrameHd 8 6 (omega arith) (omega arith)) refl (omega arith)

goaway_reads_back_example :
    (unpack_frame_hd (bufs_bytes (pack_goaway chain away).0) ≡ away.hd)
    × (unpack_goaway_payload2 away.hd (drop 9 (bufs_bytes (pack_goaway chain away).0)) true
        ≡ ok away)
goaway_reads_back_example =
    goaway_reads_back chain away refl refl ready-IsReady (omega arith)
      (hd-IsFrameHd 11 7 (omega arith) (omega arith)) (omega arith) (omega arith) away_done

pack_goaway-ends_example :
    ((pack_goaway chain away).1 ≡ done)
    ⊎ ((pack_goaway chain away).1 ≡ failed frame_size)
    ⊎ ((pack_goaway chain away).1 ≡ failed nomem)
pack_goaway-ends_example = pack_goaway-ends chain away chain-IsValid ready-IsReady (omega arith)
