-- ===== src/Hpack/Huffman/Tests.antt =====
-- The string of RFC 7541, C.4.1, encoded into chunks of eight bytes, and the theorems at it.
use kitura_http.Prelude.{ℕ, ◌≡◌, ◌⊎◌, refl, List, [], ◌∷◌, ◌++◌, Bool, true, All, IsByte, arith}
use kitura_http.Result.{err, header_comp}
use kitura_http.Buf.{Buf, Bufs, done, bufs_bytes}
use kitura_http.Buf.Byte.{IsOpen}
use kitura_http.Hpack.Huffman.{symbol, huff_decode, huff_decode_context_init}
use kitura_http.Hpack.Huffman.Symbols.{huff_sym_table}
use kitura_http.Hpack.Huffman.Exact.{Encodes, Decoded, huff_decode_decides}
use kitura_http.Hpack.Huffman.Encode.{huff_encode, huff_encode_count}
use kitura_http.Hpack.Huffman.RoundTrip.{EncodeEnds, huff_encode_encodes, huff_decode-encode}

abbrev host : List ℕ
host =
    b'w' ∷ b'w' ∷ b'w' ∷ b'.' ∷ b'e' ∷ b'x' ∷ b'a' ∷ b'm' ∷ b'p' ∷ b'l' ∷ b'e' ∷ b'.' ∷ b'c' ∷ b'o'
    ∷ b'm' ∷ []

abbrev first_eight : List ℕ
first_eight = 0xf1 ∷ 0xe3 ∷ 0xc2 ∷ 0xe5 ∷ 0xf2 ∷ 0x3a ∷ 0x6b ∷ 0xa0 ∷ []

abbrev last_four : List ℕ
last_four = 0xab ∷ 0x90 ∷ 0xf4 ∷ 0xff ∷ []

abbrev encoded : List ℕ
encoded = first_eight ++ last_four

abbrev chunk : List ℕ → ℕ → Buf
chunk bytes avail = record { room = 0; bytes = bytes; avail = avail }

abbrev chain : List Buf → Buf → ℕ → List Bool → Bufs
chain before cur used mem = record {
  before = before;
  cur = cur;
  after = [];
  chunk_length = 8;
  chunk_used = used;
  max_chunk = 3;
  chunk_keep = 3;
  offset = 0;
  mem = mem;
}

abbrev empty : Bufs
empty = chain [] (chunk [] 8) 1 (true ∷ true ∷ [])

abbrev written : Bufs
written = chain (chunk first_eight 0 ∷ []) (chunk last_four 4) 2 (true ∷ [])

encode_run : huff_encode empty host ≡ (written, done)
unfolding huff_encode symbol huff_sym_table
encode_run = refl

empty-IsOpen : IsOpen empty
empty-IsOpen = record {
  valid = record {
    counted = refl;
    bounded = omega arith;
    offset_fits = omega arith;
    caps_before = tt;
    cap_cur = refl;
    caps_after = tt;
  };
  fresh = refl;
  roomy = omega arith;
  rooms = tt;
}

huff_encode_encodes_example : EncodeEnds empty host (huff_encode empty host)
huff_encode_encodes_example = huff_encode_encodes empty host empty-IsOpen (omega arith)

huff_decode-encode_example :
    (enc : List ℕ) × (bufs_bytes written ≡ bufs_bytes empty ++ enc) × Decoded (chunk [] 24) enc host
unfolding huff_encode_count symbol huff_sym_table
huff_decode-encode_example =
    huff_decode-encode empty written (chunk [] 24) host empty-IsOpen (omega arith) encode_run
      (omega arith)

huff_decode_decides_example :
    ((out : List ℕ) × All IsByte out × Encodes out encoded × Decoded (chunk [] 24) encoded out)
    ⊎ (((out : List ℕ) → All IsByte out → ¬ Encodes out encoded)
        × (huff_decode huff_decode_context_init (chunk [] 24) encoded true ≡ err header_comp))
huff_decode_decides_example = huff_decode_decides (chunk [] 24) encoded (omega arith) (omega arith)
