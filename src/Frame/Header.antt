-- ===== src/Frame/Header.antt =====
-- The nine bytes of the frame header: nghttp2_frame_pack_frame_hd and nghttp2_frame_unpack_frame_hd.
use kitura_http.Prelude.{ℕ, ◌/◌, ◌%◌, ◌<◌, ◌≤◌, length, ◌≡◌, List, [], ◌∷◌, ◌++◌, arith, IsByte}
use kitura_http.Frame.{FrameHd, pack_frame_hd, unpack_frame_hd}

-- What the fields of a header hold on the wire: 24, 8, 8 and 31 bits, and no reserved bit.
pub record IsFrameHd (hd : FrameHd) : Type 0 where
  pub len_fits : hd.len < 16777216
  pub type_fits : IsByte hd.type
  pub flags_fit : IsByte hd.flags
  pub id_fits : hd.stream_id < 2147483648
  pub no_reserved : hd.reserved ≡ 0

-- The nine bytes of a header, most significant byte first.
abbrev pub hd_bytes : FrameHd → List ℕ
hd_bytes hd =
    (hd.len / 65536 % 256)
    ∷ (hd.len / 256 % 256)
    ∷ (hd.len % 256)
    ∷ hd.type
    ∷ hd.flags
    ∷ (hd.stream_id / 16777216 % 256)
    ∷ (hd.stream_id / 65536 % 256)
    ∷ (hd.stream_id / 256 % 256)
    ∷ (hd.stream_id % 256)
    ∷ []

-- Packing overwrites the first nine bytes of the memory, whatever they held, and no others.
pub pack_frame_hd-hd_bytes :
    (hd : FrameHd) (b0 b1 b2 b3 b4 b5 b6 b7 b8 : ℕ) (rest : List ℕ)
    → pack_frame_hd (b0 ∷ b1 ∷ b2 ∷ b3 ∷ b4 ∷ b5 ∷ b6 ∷ b7 ∷ b8 ∷ rest) hd ≡ hd_bytes hd ++ rest
unfolding pack_frame_hd
pack_frame_hd-hd_bytes hd b0 b1 b2 b3 b4 b5 b6 b7 b8 rest = ground arith

pub unpack-hd_bytes :
    (hd : FrameHd) (rest : List ℕ) → IsFrameHd hd → unpack_frame_hd (hd_bytes hd ++ rest) ≡ hd
unfolding unpack_frame_hd
unpack-hd_bytes hd rest v = ground arith

-- Unpacking reads back the header that packing wrote over nine bytes or more, if the length has 24
-- bits, type and flags eight, the stream id 31 and no reserved bit is set.
pub unpack_frame_hd-pack_frame_hd :
    (hd : FrameHd) (buf : List ℕ)
    → IsFrameHd hd
    → 9 ≤ length buf
    → unpack_frame_hd (pack_frame_hd buf hd) ≡ hd
unpack_frame_hd-pack_frame_hd hd (b0 ∷ b1 ∷ b2 ∷ b3 ∷ b4 ∷ b5 ∷ b6 ∷ b7 ∷ b8 ∷ rest) v h =
    rw (pack_frame_hd-hd_bytes hd b0 b1 b2 b3 b4 b5 b6 b7 b8 rest) (unpack-hd_bytes hd rest v)
unpack_frame_hd-pack_frame_hd hd _ v h = absurd (omega arith)
