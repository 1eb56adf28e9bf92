-- ===== src/Hpack/Huffman/Encode/Loop.antt =====
-- nghttp2_hd_huff_encode: a symbol after the other, and the padding behind them.
use mathlib.Core.List.{append_assoc, append-nil}
use kitura_http.Prelude.{
  ℕ, ◌-◌, ◌*◌, ◌/◌, ◌^◌, ◌<◌, ◌≡◌, inl, inr, refl, sym, ap, ◌∙◌, List, [], ◌∷◌, ◌++◌, Bool, true,
  false, ltb, ◌==◌, ◌&&◌, &&_split, arith, IsByte, All, Bool-cases, ltb→lt, lt→ltb, subst, ==_iff,
  replicate, passes, passes-at,
}
use kitura_http.Hpack.Huffman.{symbol}
use kitura_http.Hpack.Huffman.Symbols.{huff_sym_table}
use kitura_http.Hpack.Huffman.Tree.{to_bits, code_bits}
use kitura_http.Hpack.Huffman.Checked.{same_bits}
use kitura_http.Hpack.Huffman.Facts.{same_bits-eq}
use kitura_http.Hpack.Huffman.Parse.{codes}
use kitura_http.Hpack.Huffman.Encode.{
  HuffOut, uint8, leaves, took, fast_orb, fast_orb_hold, fast_addb_hold, bufs_addb_hold,
  rest_of_code, huff_encode_sym, start_byte, huff_encode_loop, pad_last, aligned,
}
use kitura_http.Hpack.Huffman.Encode.Merge.{Filled, code-Long, code_fits}
use kitura_http.Hpack.Huffman.Encode.State.{
  Post, Post-bind, Post-map, Chain, Held, Holding, fast_addb_hold-Post, bufs_addb_hold-Post,
}
use kitura_http.Hpack.Huffman.Encode.Long.{Part, After}
use kitura_http.Hpack.Huffman.Encode.Rest.{rest_lem}
use kitura_http.Hpack.Huffman.Encode.Orb.{Orbed, Kept, orb_lem, hold_lem}

whole_code : (c rem : ℕ) → rem ≡ (symbol c).nbits → to_bits rem (symbol c).code ≡ code_bits c
unfolding code_bits
whole_code c rem e = ap (λ n. to_bits n (symbol c).code) e

blank : Filled 8 0 []
unfolding to_bits
blank = record { high = 0; byte = omega arith; fits = omega arith; bits = refl }

module _ (base : List ℕ) (bits : List Bool) (o : HuffOut) where
  -- huff_encode_sym.
  sym_lem :
      (c : ℕ)
      → c < 257
      → Part base bits o
      → Post (After base (bits ++ code_bits c)) (huff_encode_sym o (symbol c))
  unfolding huff_encode_sym
  sym_lem c hc p =
      let n = (symbol c).nbits in
      let v = (symbol c).code in
      let rem = o.rembits in
      let Q = After base (bits ++ code_bits c) in
      let fits = code_fits c hc in
      elim (Bool-cases (ltb n rem)) [
        | inl short ↦ rw short (
            Post-bind (Kept base bits rem c) Q (fast_orb_hold o (uint8 (v * 2 ^ (rem - n)))) _
              (hold_lem base bits o p c hc (ltb→lt n rem short))
              (λ o' q. inr (q, let r = p.rem_in in omega (arith, fits.0))))
        | inr more ↦ elim (Bool-cases (rem == n)) [
          | inl whole ↦
              let e : rem ≡ n = (==_iff rem n).0 whole in
              rw (more, whole)
                (Post-bind (Orbed base bits rem v) Q (fast_orb o (uint8 v)) _
                  (orb_lem base bits o p v (rw e fits.2))
                  (λ o' q.
                    inl
                      (record { chain = rw (whole_code c rem e) at q.0; rem = refl; avail = q.1 })))
          | inr long ↦
              let k = n - rem in
              let l = code-Long c rem hc p.rem_in.1 (ground arith) in
              let v1 = v / 2 ^ k in
              let whole =
                append_assoc bits (to_bits rem v1) _ ∙ ap (λ x. bits ++ x) (sym l.all_bits) in
              rw (more, long)
                (Post-bind (Orbed base bits rem v1) Q (fast_orb o (uint8 v1)) _
                  (orb_lem base bits o p v1 l.first_fits)
                  (λ o' q.
                    subst (λ x. Post (After base x) (rest_of_code k (aligned k v) (took o'))) whole
                      (rest_lem base k (aligned k v) (bits ++ to_bits rem v1) (took o')
                        (ground arith) l.last_in l.last_filled q.0 q.1)))
        ]
      ]

  begun : Held base bits 0 o → o.rembits ≡ 8 → o.avail ≡ o.bufs.cur.avail → Part base bits o
  begun h r a = record {
    whole = bits;
    byte = 0;
    filled_bits = [];
    held = h;
    rem_in = omega arith;
    avail = a;
    filled = subst (λ k. Filled k 0 []) (sym r) blank;
    parsed = append-nil bits;
  }

module _ (base : List ℕ) where
  -- The start of a byte.
  start_lem :
      (bits : List Bool) (o : HuffOut) → After base bits o → Post (Part base bits) (start_byte o)
  unfolding start_byte
  start_lem bits o (inr (p, less)) = let e : (o.rembits == 8) ≡ false = ground arith in rw e p
  start_lem bits o (inl f) =
      let eight = (==_iff o.rembits 8).1 f.rem in
      elim (Bool-cases (ltb 0 o.avail)) [
        | inl room ↦
            rw (eight, room)
              (Post-map (Holding base bits o 0) (Part base bits) (fast_addb_hold o 0)
                (fast_addb_hold-Post base bits o 0 f.chain (let a = f.avail in ground arith))
                (λ o' q.
                  begun base bits o' q.0 (q.3 ∙ f.rem)
                    (q.2 ∙ f.avail ∙ ap (λ s. s.cur.avail) (sym q.1))))
        | inr full ↦
            rw (eight, full)
              (Post-bind (Held base bits 0) (Part base bits) (bufs_addb_hold o 0) (leaves 8)
                (bufs_addb_hold-Post base bits o 0 f.chain)
                (λ o' q.
                  begun base bits (leaves 8 o').0
                    (record { chain = q.chain; held = q.held; room = q.room }) refl refl))
      ]

  pub loop_lem :
      (src : List ℕ) (bits : List Bool) (o : HuffOut)
      → All IsByte src
      → After base bits o
      → Post (After base (bits ++ codes src)) (huff_encode_loop o src)
  unfolding huff_encode_loop codes
  loop_lem [] bits o h a = rw (append-nil bits) a
  loop_lem (c ∷ src) bits o h a =
      let whole = append_assoc bits (code_bits c) (codes src) in
      let Q = After base (bits ++ codes (c ∷ src)) in
      Post-bind (Part base bits) Q (start_byte o) _ (start_lem bits o a) (λ o' p.
        Post-bind (After base (bits ++ code_bits c)) Q (huff_encode_sym o' (symbol c)) _
          (sym_lem base bits o' c (let b = h.0 in omega arith) p)
          (λ o'' q.
            subst (λ x. Post (After base x) (huff_encode_loop o'' src)) whole
              (loop_lem src (bits ++ code_bits c) o'' h.1 q)))

abbrev pub Padded : List ℕ → List Bool → HuffOut → Type 0
Padded base bits o = (k : ℕ) × (k < 8) × Chain base (bits ++ replicate k true) o.bufs

pad_test : ℕ → Bool
pad_test rem =
    let v = (symbol 256).code / 2 ^ ((symbol 256).nbits - rem) in
    ltb v (2 ^ rem) && same_bits (to_bits rem v) (replicate rem true)

pad_tested : passes pad_test 9 ≡ true
unfolding passes pad_test same_bits to_bits symbol huff_sym_table
pad_tested = refl

-- The padding at the end.
pub pad_lem :
    (base : List ℕ) (bits : List Bool) (o : HuffOut)
    → After base bits o
    → Post (Padded base bits) (pad_last o)
unfolding pad_last pad_test
pad_lem base bits o (inl f) =
    let e : ltb o.rembits 8 ≡ false = let r = f.rem in ground arith in
    rw e (0, omega arith, rw (append-nil bits) f.chain)
pad_lem base bits o (inr (p, less)) =
    let v = (symbol 256).code / 2 ^ ((symbol 256).nbits - o.rembits) in
    let t = &&_split (ltb v (2 ^ o.rembits)) _ (passes-at pad_test 9 p.rem_in.1 pad_tested) in
    let room : ltb 0 o.avail ≡ true = let r = p.held.room in let a = p.avail in ground arith in
    rw (lt→ltb o.rembits 8 less, room)
      (Post-map (Orbed base bits o.rembits v) (Padded base bits) (fast_orb o (uint8 v))
        (orb_lem base bits o p v (ltb→lt _ _ t.0))
        (λ o' q. (o.rembits, less, rw (same_bits-eq _ _ t.1) at q.0)))
