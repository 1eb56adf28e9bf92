-- ===== src/Hpack/Huffman/Exact.antt =====
-- nghttp2_hd_huff_decode on a whole string, beside RFC 7541, 5.2.
use kitura_http.Prelude.{
  ℕ, ◌*◌, ◌≤◌, ◌<◌, List, [], ◌∷◌, ◌++◌, Bool, true, ◌&&◌, none, ◌≡◌, ◌⊎◌, inl, inr, refl, sym, ap,
  ◌∙◌, All, IsByte, length, replicate, length-replicate, Bool-cases, arith, &&_split,
}
use kitura_http.Result.{ok, err, header_comp}
use kitura_http.Buf.{Buf}
use kitura_http.Hpack.Huffman.Tree.{code_tree, read, to_bits}
use kitura_http.Hpack.Huffman.Checked.{node_bits, is_padding, all_from, all_from-zero, reads_none}
use kitura_http.Hpack.Huffman.Facts.{node_unread, is_padding-eq, reads_none-eq}
use kitura_http.Hpack.Huffman.Parse.{IsSymbol, codes, byte_bits, parse_unique, not_eos}
use kitura_http.Hpack.Huffman.Outcome.{extend, Reads, Refused}
use kitura_http.Hpack.Huffman.Decode.{loop_outcome}
use kitura_http.Hpack.Huffman.{
  HuffDecodeContext, huff_decode_context_init, huff_decode_loop, huff_decode,
}

-- The bytes hold the codes of the text, and at most seven bits of padding, all of them set.
unfoldable pub Encodes : List ℕ → List ℕ → Type 0
Encodes text src = (k : ℕ) × (k < 8) × (byte_bits src ≡ codes text ++ replicate k true)

ones_test : ℕ → ℕ → Bool
ones_test k _ = reads_none (read code_tree (replicate k true)) && is_padding (replicate k true)

ones_tested : all_from ones_test 0 (replicate 8 0) ≡ true
unfolding all_from ones_test read code_tree is_padding
ones_tested = refl

ones :
    (k : ℕ)
    → k < 8
    → (read code_tree (replicate k true) ≡ none) × (is_padding (replicate k true) ≡ true)
unfolding ones_test
ones k h =
    let t =
      all_from-zero ones_test 0 (replicate 8 0) k ones_tested
        (rw (length-replicate {A = ℕ} 8 0) h) in
    let both = &&_split (reads_none (read code_tree (replicate k true))) _ t in
    (reads_none-eq _ both.0, both.1)

symbols : (xs : List ℕ) → All IsByte xs → All IsSymbol xs
symbols [] h = tt
symbols (x ∷ xs) h = (omega arith, symbols xs h.1)

start : node_bits 0 ≡ []
unfolding node_bits to_bits
start = refl

unfoldable pub Decoded : Buf → List ℕ → List ℕ → Type 0
Decoded b src out =
    (ctx : HuffDecodeContext) × (huff_decode huff_decode_context_init b src true
      ≡ ok (ctx, extend b out, length src))

abbrev Read : Buf → List ℕ → HuffDecodeContext → Buf → Type 0
Read b src ctx b' = Reads 0 (length src * 2) b (byte_bits src) ctx b'

-- The end of a string that was read: the state is accepted, and what was read is a text ...
accepts :
    (b : Buf) (src : List ℕ) {ctx : HuffDecodeContext} {b' : Buf}
    → huff_decode_loop huff_decode_context_init b src ≡ ok (ctx, b')
    → (r : Read b src ctx b') → ctx.accept ≡ true
    → Encodes r.out src × Decoded b src r.out
unfolding Encodes Decoded huff_decode
accepts b src {ctx} e r acc =
    let pad = is_padding-eq (node_bits ctx.state) (sym r.final ∙ acc) in
    let parsed : byte_bits src ≡ codes r.out ++ node_bits ctx.state = rw start at r.parsed in
    (
      (length (node_bits ctx.state), pad.1, parsed ∙ ap (λ l. codes r.out ++ l) pad.0),
      (ctx, rw (e, acc, ← r.written) refl),
    )

-- ... or it is not, and the string encodes no text.
text-Reads :
    (b : Buf) (src out : List ℕ) {ctx : HuffDecodeContext} {b' : Buf}
    → All IsByte out
    → (r : Read b src ctx b') → Encodes out src
    → (out ≡ r.out) × (ctx.accept ≡ true)
unfolding Encodes
text-Reads b src out {ctx} bytes r (k, few, bits) =
    let parsed : byte_bits src ≡ codes r.out ++ node_bits ctx.state = rw start at r.parsed in
    let pad = ones k few in
    let u =
      parse_unique out r.out (replicate k true) (node_bits ctx.state) (symbols out bytes)
        (symbols r.out r.bytes) pad.0 (node_unread ctx.state r.state_in) (sym bits ∙ parsed) in
    (u.0, r.final ∙ ap is_padding (sym u.1) ∙ pad.1)

text-Refused : (src out : List ℕ) → All IsByte out → Refused 0 (byte_bits src) → ¬ Encodes out src
unfolding Encodes
text-Refused src out bytes r (k, few, bits) =
    let parsed : byte_bits src ≡ codes r.out ++ r.rest = rw start at r.parsed in
    not_eos r.out out r.rest (replicate k true) (symbols r.out r.bytes) bytes r.eos (ones k few).0
      (sym parsed ∙ bits)

start_accepts : true ≡ is_padding (node_bits 0)
unfolding is_padding
start_accepts = rw start refl

-- Decoding a string of bytes into a buffer with twice the room, either finds the text that they
-- encode by RFC 7541, 5.2 and appends it, or the bytes encode no text and the result is
-- NGHTTP2_ERR_HEADER_COMP.
pub huff_decode_decides :
    (b : Buf) (src : List ℕ)
    → All IsByte src
    → length src * 2 ≤ b.avail
    → ((out : List ℕ) × All IsByte out × Encodes out src × Decoded b src out)
      ⊎ (((out : List ℕ) → All IsByte out → ¬ Encodes out src)
          × (huff_decode huff_decode_context_init b src true ≡ err header_comp))
unfolding huff_decode
huff_decode_decides b src hs room =
    elim (loop_outcome src huff_decode_context_init b (omega arith) start_accepts hs room) [
      | inr (e, bad) ↦ inr (λ out h. text-Refused src out h bad, rw e refl)
      | inl (ctx, b', e, r) ↦ elim (Bool-cases ctx.accept) [
        | inl acc ↦ let a = accepts b src e r acc in inl (r.out, r.bytes, a.0, a.1)
        | inr rej ↦ inr (λ out h enc. let t = text-Reads b src out h r enc in cc, rw (e, rej) refl)
      ]
    ]

-- A string that encodes a text decodes to that text, into a buffer with room for it.
pub huff_decode-encoded :
    (b : Buf) (src out : List ℕ)
    → All IsByte src
    → length src * 2 ≤ b.avail
    → All IsByte out
    → Encodes out src
    → Decoded b src out
huff_decode-encoded b src out hs room bytes enc =
    elim (loop_outcome src huff_decode_context_init b (omega arith) start_accepts hs room) [
      | inr (e, bad) ↦ absurd (text-Refused src out bytes bad enc)
      | inl (ctx, b', e, r) ↦
          let t = text-Reads b src out bytes r enc in rw t.0 (accepts b src e r t.1).1
    ]
