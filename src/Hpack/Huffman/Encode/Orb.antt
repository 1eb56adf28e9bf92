-- ===== src/Hpack/Huffman/Encode/Orb.antt =====
-- Bits put into the byte at `last` of the current chunk.
use Prim.Native.Nat.{bit_or}
use mathlib.Core.List.{append_assoc}
use kitura_http.Prelude.{
  ℕ, ◌-◌, ◌*◌, ◌^◌, ◌<◌, ◌≡◌, refl, sym, ap, ap₂, subst, Option, none, some, ◌∙◌, List, ◌++◌, Bool,
  arith, IsByte,
}
use kitura_http.Buf.{Status, overrun}
use kitura_http.Hpack.Huffman.{symbol}
use kitura_http.Hpack.Huffman.Tree.{to_bits, code_bits}
use kitura_http.Hpack.Huffman.Encode.{
  HuffOut, uint8, took, fast_orb, fast_orb_hold, fast_addb, fast_addb_hold,
}
use kitura_http.Hpack.Huffman.Encode.Merge.{Filled, merged, merge_bits, code_fits}
use kitura_http.Hpack.Huffman.Encode.State.{
  Post, Post-map, Chain, Holding, Adding, fast_addb-Post, fast_addb_hold-Post,
}
use kitura_http.Hpack.Huffman.Encode.Long.{Part}

filled_whole : (k h : ℕ) (bs : List Bool) → k ≡ 0 → Filled k h bs → (to_bits 8 h ≡ bs) × IsByte h
filled_whole k h bs z f =
    let none_left : Filled 0 h bs = subst (λ j. Filled j h bs) z f in
    let fits = none_left.fits in
    let same : h ≡ none_left.high = none_left.byte ∙ (omega arith) in
    (ap (to_bits 8) same ∙ none_left.bits, omega arith)

held_case :
    (f : ℕ → HuffOut × Status) (o : HuffOut) (m : Option ℕ) {h : ℕ}
    → m ≡ some h
    → elim m as (λ x. HuffOut × Status) [ none ↦ (o, overrun) | some x ↦ f x ] ≡ f h
held_case f o none e = cc
held_case f o (some x) e = ap f (cc e)

orb_held : (o : HuffOut) {h : ℕ} (b : ℕ) → o.held ≡ some h → fast_orb o b ≡ fast_addb o (bit_or h b)
unfolding fast_orb
orb_held o b e = held_case (λ x. fast_addb o (bit_or x b)) o o.held e

orb_hold_held :
    (o : HuffOut) {h : ℕ} (b : ℕ)
    → o.held ≡ some h
    → fast_orb_hold o b ≡ fast_addb_hold o (bit_or h b)
unfolding fast_orb_hold
orb_hold_held o b e = held_case (λ x. fast_addb_hold o (bit_or x b)) o o.held e

shift_none : (n v : ℕ) → uint8 v ≡ uint8 (v * 2 ^ (n - n))
shift_none n v = let z : n - n ≡ 0 = omega arith in rw z (omega arith)

sub_self : (n : ℕ) → n - n ≡ 0
sub_self n = omega arith

module _ (base : List ℕ) (bits : List Bool) where
  abbrev pub Orbed : ℕ → ℕ → HuffOut → Type 0
  Orbed rem v o' =
      Chain base (bits ++ to_bits rem v) o'.bufs × ((took o').avail ≡ o'.bufs.cur.avail)

  abbrev pub Kept : ℕ → ℕ → HuffOut → Type 0
  Kept rem c o' = Part base (bits ++ code_bits c) (record o' { rembits = rem - (symbol c).nbits })

  module _ (o : HuffOut) (p : Part base bits o) where
    joined : (x : List Bool) → p.whole ++ (p.filled_bits ++ x) ≡ bits ++ x
    joined x = sym (append_assoc p.whole p.filled_bits x) ∙ ap (λ l. l ++ x) p.parsed

    -- The last bits of the byte at `last`.
    pub orb_lem : (v : ℕ) → v < 2 ^ o.rembits → Post (Orbed o.rembits v) (fast_orb o (uint8 v))
    orb_lem v hv =
        let n = o.rembits in
        let q = merge_bits n n p.filled.high v p.rem_in.1 (omega arith) p.filled.fits hv in
        let h = merged n n p.filled.high v in
        let e : bit_or p.byte (uint8 v) ≡ h = ap₂ bit_or p.filled.byte (shift_none n v) in
        let w = filled_whole (n - n) h _ (sub_self n) q in
        let bits_of : p.whole ++ to_bits 8 h ≡ bits ++ to_bits n v =
          ap (λ l. p.whole ++ l) (w.0 ∙ ap (λ l. l ++ to_bits n v) p.filled.bits)
          ∙ joined (to_bits n v) in
        rw (orb_held o (uint8 v) p.held.held, e)
          (Post-map (Adding base p.whole o h) (Orbed n v) (fast_addb o h)
            (fast_addb-Post base p.whole o h w.1 p.held.chain p.held.room)
            (λ o' x. (rw bits_of at x.0, omega (arith, x.1, x.2, p.avail))))

    -- A code that leaves bits of the byte unfilled.
    pub hold_lem :
        (c : ℕ)
        → c < 257
        → (symbol c).nbits < o.rembits
        → Post
            (Kept o.rembits c)
            (fast_orb_hold o (uint8 ((symbol c).code * 2 ^ (o.rembits - (symbol c).nbits))))
    unfolding code_bits
    hold_lem c hc less =
        let n = (symbol c).nbits in
        let bs = to_bits n (symbol c).code in
        let q =
          merge_bits o.rembits n p.filled.high (symbol c).code p.rem_in.1 (omega arith)
            p.filled.fits (code_fits c hc).2 in
        let h = merged o.rembits n p.filled.high (symbol c).code in
        let e : bit_or p.byte (uint8 ((symbol c).code * 2 ^ (o.rembits - n))) ≡ h =
          ap₂ bit_or p.filled.byte refl in
        rw (orb_hold_held o _ p.held.held, e)
          (Post-map (Holding base p.whole o h) (Kept o.rembits c) (fast_addb_hold o h)
            (fast_addb_hold-Post base p.whole o h p.held.chain p.held.room)
            (λ o' x. record {
              whole = p.whole;
              byte = h;
              filled_bits = p.filled_bits ++ bs;
              held = record { chain = x.0.chain; held = x.0.held; room = x.0.room };
              rem_in = omega (arith, p.rem_in.1);
              avail = x.2 ∙ p.avail ∙ ap (λ s. s.cur.avail) (sym x.1);
              filled = rw p.filled.bits at q;
              parsed = joined bs;
            }))
