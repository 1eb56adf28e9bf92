-- ===== src/Hpack/Huffman/Table/Entry.antt =====
-- include/nghttp2_hd_huffman.h: an entry of the decoding table.
use kitura_http.Prelude.{ℕ}

-- nghttp2_huff_decode.
pub record HuffDecode : Type 0 where
  pub state : ℕ
  pub flags : ℕ
  pub sym : ℕ

abbrev pub to : ℕ → ℕ → ℕ → HuffDecode
to state flags sym = record { state = state; flags = flags; sym = sym }
