-- ===== src/Frame/Pad/Tests.antt =====
-- A DATA frame of two bytes, padded by three, and the theorem at it.
use kitura_http.Prelude.{◌≡◌, refl, [], ◌∷◌, ◌++◌, false, arith}
use kitura_http.Result.{ok, ◌>>=◌}
use kitura_http.Buf.{Buf}
use kitura_http.Frame.{FrameHd}
use kitura_http.Frame.Header.{hd_bytes}
use kitura_http.Frame.Pad.{frame_add_pad}
use kitura_http.Frame.Pad.Layout.{padded, padded_hd, frame_add_pad-padded}

abbrev hd : FrameHd
hd = record { len = 2; type = 0; flags = 1; stream_id = 3; reserved = 0 }

abbrev frame : Buf
frame = record { room = 1; bytes = hd_bytes hd ++ (7 ∷ 8 ∷ []); avail = 5 }

padded_bytes :
    (frame_add_pad frame hd 3 false >>= λ (b, h). ok b.bytes)
    ≡ ok (0 ∷ 0 ∷ 5 ∷ 0 ∷ 9 ∷ 0 ∷ 0 ∷ 0 ∷ 3 ∷ 2 ∷ 7 ∷ 8 ∷ 0 ∷ 0 ∷ [])
unfolding frame_add_pad
padded_bytes = refl

no_padding : frame_add_pad frame hd 0 false ≡ ok (frame, hd)
unfolding frame_add_pad
no_padding = refl

frame_add_pad-padded_example :
    frame_add_pad frame hd 3 false ≡ ok (padded frame hd (7 ∷ 8 ∷ []) 3, padded_hd hd 3)
frame_add_pad-padded_example =
    frame_add_pad-padded frame hd (7 ∷ 8 ∷ []) 3
      (record {
        len_fits = omega arith;
        type_fits = omega arith;
        flags_fit = omega arith;
        id_fits = omega arith;
        no_reserved = refl;
      })
      refl (omega arith) (omega arith) (omega arith) (omega arith) (omega arith)
