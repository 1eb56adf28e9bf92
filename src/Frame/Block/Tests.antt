-- ===== src/Frame/Block/Tests.antt =====
-- A header block in three chunks, and the theorem at it.
use kitura_http.Prelude.{ℕ, ◌≡◌, refl, List, [], ◌∷◌, map, arith}
use kitura_http.Result.{ok, ◌>>=◌}
use kitura_http.Buf.{Buf, Bufs}
use kitura_http.Frame.{FrameHd, unpack_frame_hd}
use kitura_http.Frame.Block.{pack_headers_shared}
use kitura_http.Frame.Block.Sequence.{
  chunks, headers_of, read_hd, read_payload, pack_headers_shared_frames,
}

abbrev chunk : List ℕ → Buf
chunk bytes = record { room = 10; bytes = bytes; avail = 0 }

abbrev block : Bufs
block = record {
  before = chunk (1 ∷ 2 ∷ []) ∷ chunk (3 ∷ 4 ∷ []) ∷ [];
  cur = chunk (5 ∷ []);
  after = [];
  chunk_length = 12;
  chunk_used = 3;
  max_chunk = 4;
  chunk_keep = 1;
  offset = 10;
  mem = [];
}

abbrev hd : FrameHd
hd = record { len = 5; type = 1; flags = 5; stream_id = 3; reserved = 0 }

-- END_STREAM stays on the first frame, and END_HEADERS moves to the last.
three_flags :
    (pack_headers_shared block hd >>= λ t. ok (map (λ b. (read_hd b).flags) (chunks t)))
    ≡ ok (1 ∷ 0 ∷ 4 ∷ [])
unfolding pack_headers_shared unpack_frame_hd
three_flags = refl

pack_headers_shared_frames_example :
    (t : Bufs) × (pack_headers_shared block hd ≡ ok t)
    × (map read_hd (chunks t) ≡ headers_of hd (chunks block))
    × (map read_payload (chunks t) ≡ (1 ∷ 2 ∷ []) ∷ (3 ∷ 4 ∷ []) ∷ (5 ∷ []) ∷ [])
pack_headers_shared_frames_example =
    pack_headers_shared_frames block hd
      (record {
        len_fits = omega arith;
        type_fits = omega arith;
        flags_fit = omega arith;
        id_fits = omega arith;
        no_reserved = refl;
      })
      ((omega arith, omega arith), ((omega arith, omega arith), ((omega arith, omega arith), tt)))
