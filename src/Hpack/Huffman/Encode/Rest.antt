-- ===== src/Hpack/Huffman/Encode/Rest.antt =====
-- `rest_of_code`: the branches of huff_encode_sym behind the first byte of a code.
use kitura_http.Prelude.{
  ℕ, suc, ◌+◌, ◌-◌, ◌/◌, ◌^◌, ◌≤◌, ◌<◌, ◌≡◌, inl, inr, List, [], ◌++◌, ltb, arith, Bool-cases,
  ltb→lt, Bool, IsByte,
}
use kitura_http.Hpack.Huffman.Tree.{to_bits}
use kitura_http.Hpack.Huffman.Encode.{
  HuffOut, ◌>>=◌, uint8, leaves, rest_of_code, fast_addb, fast_addb_hold, addb, bufs_addb_hold,
}
use kitura_http.Hpack.Huffman.Encode.Merge.{Filled, last_bits, last_byte, whole_bits}
use kitura_http.Hpack.Huffman.Encode.State.{
  Post, Post-bind, Post-map, Chain, Held, Holding, Adding, fast_addb-Post, fast_addb_hold-Post,
  addb-Post, bufs_addb_hold-Post,
}
use kitura_http.Hpack.Huffman.Encode.Long.{After, after-Held, long_lem}

whole_nil : (n code : ℕ) → n < 8 → (whole_bits n code ≡ []) × (last_bits n ≡ n)
whole_nil n code h = ground arith

module _ (base : List ℕ) where
  abbrev Roomy : ℕ → List Bool → HuffOut → Type 0
  Roomy k bits o = Chain base bits o.bufs × (k ≤ o.bufs.cur.avail)

  fast_put :
      (k : ℕ) (bits : List Bool) (o : HuffOut) (b : ℕ)
      → IsByte b
      → Roomy (suc k) bits o
      → Post (Roomy k (bits ++ to_bits 8 b)) (fast_addb o b)
  fast_put k bits o b hb h =
      Post-map (Adding base bits o b) (Roomy k (bits ++ to_bits 8 b)) (fast_addb o b)
        (fast_addb-Post base bits o b hb h.0 (omega arith)) (λ o' q. (q.0, omega (arith, q.1, h.1)))

  fast_hold :
      (bits : List Bool) (o : HuffOut) (b : ℕ)
      → Roomy 1 bits o
      → Post (Held base bits b) (fast_addb_hold o b)
  fast_hold bits o b h =
      Post-map (Holding base bits o b) (Held base bits b) (fast_addb_hold o b)
        (fast_addb_hold-Post base bits o b h.0 (omega (arith, h.1))) (λ o' q. q.0)

  module _ (n code : ℕ) (bits : List Bool) (o : HuffOut) (size : (0 < n) × (n ≤ 32))
      (range : (0 < last_bits n) × (last_bits n ≤ 8))
      (f : Filled (8 - last_bits n) (uint8 code) (last_byte n code))
      (c : Chain base bits o.bufs) where
    short_lem :
        n < 8
        → 0 < o.bufs.cur.avail
        → Post
            (After base (bits ++ (whole_bits n code ++ last_byte n code)))
            (fast_addb_hold o (uint8 code) >>= leaves (8 - n))
    short_lem short room =
        let e = whole_nil n code short in
        rw (e.0, e.1)
          (Post-bind (Holding base bits o (uint8 code))
            (After base (bits ++ to_bits n (uint8 code / 2 ^ (8 - n))))
            (fast_addb_hold o (uint8 code)) (leaves (8 - n))
            (fast_addb_hold-Post base bits o (uint8 code) c room)
            (λ o' q.
              inr (
                after-Held base n _ bits o' (size.0, omega arith) (ground arith) (rw e.1 at f)
                  q.0)))

    -- Either path, for the bits that did not fit into the first byte.
    pub rest_lem :
        o.avail ≡ o.bufs.cur.avail
        → Post
            (After base (bits ++ (whole_bits n code ++ last_byte n code)))
            (rest_of_code n code o)
    unfolding rest_of_code
    rest_lem room = elim (Bool-cases (ltb o.avail ((n + 7) / 8))) [
      | inl slow ↦ rw slow (
          long_lem base (λ k x o. Chain base x o.bufs) addb bufs_addb_hold
            (λ k x o b hb h. addb-Post base x o b hb h)
            (λ x o b h. bufs_addb_hold-Post base x o b h) (λ k x o h. h) n code bits o size range f
            c)
      | inr enough ↦ elim (Bool-cases (ltb n 8)) [
        | inl short ↦ rw (enough, short) (short_lem (ltb→lt n 8 short) (ground arith))
        | inr long ↦
            rw (enough, long)
              (long_lem base Roomy fast_addb fast_addb_hold fast_put fast_hold (λ k x o h. h.0) n
                code bits o size range f (c, ground arith))
      ]
    ]
