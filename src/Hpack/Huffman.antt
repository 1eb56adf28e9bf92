-- ===== src/Hpack/Huffman.antt =====
-- Sources/nghttp2/nghttp2_hd_huffman.c: the Huffman code of HPACK. Decoding goes through a table with
-- a row for each of the 256 values of a uint8_t, and an entry for each half of a byte.
pub mod Symbols
pub mod Table
pub mod Nodes
pub mod Tree
pub mod Checked
pub mod Facts
pub mod Parse
pub mod Outcome
pub mod Decode
pub mod Exact
pub mod Encode
pub mod RoundTrip
pub mod Tests
use kitura_http.Prelude.{
  ℕ, ◌+◌, ◌*◌, ◌/◌, ◌%◌, List, [], ◌∷◌, ◌++◌, Bool, true, false, ◌&&◌, not, test_bit, length,
  get_or, if◌then◌else◌,
}
use kitura_http.Result.{Result, ok, err, header_comp, ◌>>=◌}
use kitura_http.Buf.{Buf, buf_put}
use kitura_http.Hpack.Huffman.Symbols.{HuffSym, bits_of, huff_sym_table}
use kitura_http.Hpack.Huffman.Table.Entry.{HuffDecode, to}
use kitura_http.Hpack.Huffman.Table.All.{huff_decode_table}

-- `huff_sym_table[c]`.
unfoldable pub symbol : ℕ → HuffSym
symbol c = get_or huff_sym_table c (bits_of 0 0)

-- `huff_decode_table[state][half]`.
unfoldable pub transition : ℕ → ℕ → HuffDecode
unfolding huff_decode_table
transition state half = get_or (get_or huff_decode_table state []) half (to 0 0 0)

-- The bits of nghttp2_huff_decode_flag.
abbrev pub accepted : HuffDecode → Bool
accepted t = test_bit t.flags 1

abbrev pub has_sym : HuffDecode → Bool
has_sym t = test_bit t.flags 2

abbrev pub fails : HuffDecode → Bool
fails t = test_bit t.flags 4

-- nghttp2_hd_huff_decode_context.
pub record HuffDecodeContext : Type 0 where
  pub state : ℕ
  pub accept : Bool

abbrev pub huff_decode_context_init : HuffDecodeContext
huff_decode_context_init = record { state = 0; accept = true }

-- One half of a byte: the entry that was read, and the buffer with its symbol.
unfoldable pub half_step : ℕ → Buf → ℕ → Result (HuffDecode × Buf)
half_step state b half =
    let t = transition state half in
    if fails t
    then err header_comp
    else (if has_sym t then buf_put b (t.sym ∷ []) else ok b) >>= λ b'. ok (t, b')

unfoldable pub byte_step : HuffDecodeContext → Buf → ℕ → Result (HuffDecodeContext × Buf)
unfolding half_step
byte_step ctx b x = half_step ctx.state b (x / 16) >>= λ first.
    half_step first.0.state first.1 (x % 16) >>= λ second.
    ok (record { state = second.0.state; accept = accepted second.0 }, second.1)

unfoldable pub huff_decode_loop :
    HuffDecodeContext → Buf → List ℕ → Result (HuffDecodeContext × Buf)
unfolding byte_step
huff_decode_loop ctx b [] = ok (ctx, b)
huff_decode_loop ctx b (x ∷ src) = byte_step ctx b x >>= λ next. huff_decode_loop next.0 next.1 src

-- nghttp2_hd_huff_decode, which returns the number of bytes processed, all of them.
unfoldable pub huff_decode :
    HuffDecodeContext → Buf → List ℕ → Bool → Result (HuffDecodeContext × Buf × ℕ)
unfolding huff_decode_loop
huff_decode ctx b src final = huff_decode_loop ctx b src >>= λ end.
    if final && not end.0.accept then err header_comp else ok (end.0, end.1, length src)
