-- ===== src/Frame/Pad/Layout.antt =====
-- The places of the bytes of a padded frame, in RFC 7540, 6.1.
use kitura_http.Prelude.{
  ℕ, ◌+◌, ◌-◌, ◌%◌, ◌≤◌, ◌<◌, ◌≡◌, refl, ap, ◌∙◌, List, ◌∷◌, ◌++◌, true, false, set, replicate, leb,
  ◌==◌, set_bit, arith,
}
use kitura_http.Result.{ok}
use kitura_http.Wire.{get_uint32, put_uint32be}
use kitura_http.Buf.{Buf}
use kitura_http.Frame.{FrameHd, flag_padded}
use kitura_http.Frame.Header.{IsFrameHd, hd_bytes}
use kitura_http.Frame.Pad.{move_hd, pad_hd, frame_set_pad, frame_add_pad}

-- The header of the padded frame.
abbrev pub padded_hd : FrameHd → ℕ → FrameHd
padded_hd hd padlen = record hd { len = hd.len + padlen; flags = set_bit hd.flags flag_padded }

pad_hd-move_hd :
    (hd : FrameHd) (rest : List ℕ) (padlen : ℕ)
    → IsFrameHd hd
    → hd.len + padlen < 16777216
    → pad_hd (move_hd (hd_bytes hd ++ rest)) padlen
      ≡ hd_bytes (padded_hd hd padlen) ++ (hd.stream_id % 256 ∷ rest)
unfolding get_uint32 put_uint32be
pad_hd-move_hd hd rest padlen v h = ground arith

-- The buffer around the padded frame.
abbrev pub padded : Buf → FrameHd → List ℕ → ℕ → Buf
padded b hd rest padlen = record {
  room = b.room - 1;
  bytes = hd_bytes (padded_hd hd padlen) ++ ((padlen - 1) ∷ (rest ++ replicate (padlen - 1) 0));
  avail = b.avail - (padlen - 1);
}

set_pad-padded :
    (b : Buf) (hd : FrameHd) (rest : List ℕ) (padlen : ℕ)
    → IsFrameHd hd
    → b.bytes ≡ hd_bytes hd ++ rest
    → 1 ≤ b.room
    → padlen ≤ 256
    → hd.len + padlen < 16777216
    → frame_set_pad b padlen false ≡ ok (padded b hd rest padlen)
unfolding frame_set_pad
set_pad-padded b hd rest padlen v e room small fits =
    let inside : leb 1 b.room ≡ true = ground arith in
    let byte : (padlen - 1) % 256 ≡ padlen - 1 = omega arith in
    let headed = ap (λ t. pad_hd (move_hd t) padlen) e ∙ pad_hd-move_hd hd rest padlen v fits in
    let whole =
      ap
        (λ t. ok (record b {
          room = b.room - 1;
          bytes = set t 9 ((padlen - 1) % 256) ++ replicate (padlen - 1) 0;
          avail = b.avail - (padlen - 1);
        }))
        headed in
    rw inside (whole ∙ rw byte refl)

-- Padding of 1 to 256 octets in all, put into a packed frame with a byte before it and room behind
-- it, gives a frame with the flag PADDED and the longer length, whose payload is the length of the
-- padding behind it, the old payload, and that many zeros; the caller's header is that of the frame.
pub frame_add_pad-padded :
    (b : Buf) (hd : FrameHd) (rest : List ℕ) (padlen : ℕ)
    → IsFrameHd hd
    → b.bytes ≡ hd_bytes hd ++ rest
    → 1 ≤ b.room
    → padlen - 1 ≤ b.avail
    → 1 ≤ padlen
    → padlen ≤ 256
    → hd.len + padlen < 16777216
    → frame_add_pad b hd padlen false ≡ ok (padded b hd rest padlen, padded_hd hd padlen)
unfolding frame_add_pad
frame_add_pad-padded b hd rest padlen v e room behind some_pad small fits =
    let more : (padlen == 0) ≡ false = ground arith in
    let inside : leb (padlen - 1) b.avail ≡ true = ground arith in
    rw (more, inside, set_pad-padded b hd rest padlen v e room small fits) refl
