-- ===== src/Pq/Down.antt =====
-- `bubble_down` on a heap in which one entry may be greater than its children.
use mathlib.Core.List.Perm
use kitura_http.Prelude.{
  ℕ, zero, suc, ◌+◌, ◌*◌, ◌≤◌, ◌<◌, ◌≡◌, refl, ◌≢◌, ◌⊎◌, inl, inr, List, Bool, true, false, length,
  arith, ◌==◌, Bool-cases,
}
use kitura_http.Pq.{Pq, at, parent, pq_swap, minindex, bubble_down_loop, bubble_down}
use kitura_http.Pq.Order.{
  StrictWeak, IsIndexed, Mended, Mended-swap, length-pq_swap, at-pq_swap, pq_swap-IsIndexed,
}

-- Only the edges below `i` may be out of order, among those whose parent is at `lo` or later.
pub record DownInv (lo : ℕ) (less : ℕ → ℕ → Bool) (q : List ℕ) (i : ℕ) : Type 0 where
  pub edges :
      (c : ℕ)
      → 0 < c
      → c < length q
      → lo ≤ parent c
      → parent c ≢ i
      → less (at q c) (at q (parent c)) ≡ false
  pub bridged :
      (c : ℕ)
      → 0 < c
      → c < length q
      → parent c ≡ i
      → 0 < i
      → lo ≤ parent i
      → less (at q c) (at q (parent i)) ≡ false

-- No child of `i` is less than the entry at `m`.
abbrev IsLeastChild : (ℕ → ℕ → Bool) → List ℕ → ℕ → ℕ → Type 0
IsLeastChild less q i m =
    (c : ℕ) → 0 < c → c < length q → parent c ≡ i → less (at q c) (at q m) ≡ false

record IsChild (less : ℕ → ℕ → Bool) (q : List ℕ) (i m : ℕ) : Type 0 where
  inside : m < length q
  below : i < m
  child : parent m ≡ i
  falls : less (at q m) (at q i) ≡ true

module _ (less : ℕ → ℕ → Bool) (w : StrictWeak less) where
  less_of_less : (a b d : ℕ) → less b a ≡ true → less d b ≡ true → less d a ≡ true
  less_of_less a b d p r = ground (arith, w.asym b a, w.trans b a d)

  minindex-least : (q : List ℕ) (i : ℕ) → IsLeastChild less q i (minindex less q i)
  minindex-least q i c h k e =
      let a = at q i in
      let b = at q (i * 2 + 1) in
      let d = at q (i * 2 + 2) in
      let which : (c ≡ i * 2 + 1) ⊎ (c ≡ i * 2 + 2) = omega arith in
      elim which [
        | inl f ↦ rw f (ground (arith, w.asym b b, w.asym b d, w.trans a b d))
        | inr f ↦ rw f (ground (arith, w.asym d d))
      ]

  minindex-IsChild :
      (q : List ℕ) (i : ℕ) → (minindex less q i == i) ≡ false → IsChild less q i (minindex less q i)
  minindex-IsChild q i n =
      let a = at q i in
      let b = at q (i * 2 + 1) in let d = at q (i * 2 + 2) in ground (arith, less_of_less a b d)

  swap-DownInv :
      (lo : ℕ) (pq : Pq) (i : ℕ)
      → DownInv lo less pq.q i
      → IsChild less pq.q i (minindex less pq.q i)
      → DownInv lo less (pq_swap pq i (minindex less pq.q i)).q (minindex less pq.q i)
  swap-DownInv lo pq i v s =
      let m = minindex less pq.q i in
      let size = length-pq_swap pq i m in
      let child = s.child in
      let below = s.below in
      let inside = s.inside in
      let hi : i < length pq.q = omega arith in
      let new = at-pq_swap pq i m hi inside in
      let up = w.asym (at pq.q m) (at pq.q i) s.falls in
      record {
        edges = λ c h k l n. ground (
          arith,
          size,
          new c,
          new (parent c),
          v.edges c,
          v.bridged m,
          up,
          minindex-least pq.q i c,
        );
        bridged = λ c h k e z l. ground (arith, size, new c, new (parent m), v.edges c);
      }

  pub bubble_down_loop-Mended :
      (fuel lo : ℕ) (pq : Pq) (i : ℕ)
      → length pq.q ≤ i + fuel
      → DownInv lo less pq.q i
      → IsIndexed pq
      → Mended lo less pq (bubble_down_loop less fuel pq i)
  unfolding bubble_down_loop
  bubble_down_loop-Mended zero lo pq i f v x =
      ((λ c h k l. v.edges c h k l (omega arith)), x, Perm.rfl, refl)
  bubble_down_loop-Mended (suc fuel) lo pq i f v x = elim (Bool-cases (minindex less pq.q i == i)) [
    | inl settled ↦
        rw (settled, bubble_down_loop)
          ((λ c h k l. ground (arith, v.edges c, minindex-least pq.q i c)), x, Perm.rfl, refl)
    | inr falls ↦
        let m = minindex less pq.q i in
        let s = minindex-IsChild pq.q i falls in
        let below = s.below in
        let inside = s.inside in
        let hi : i < length pq.q = omega arith in
        let size = length-pq_swap pq i m in
        rw (falls, bubble_down_loop)
          (Mended-swap lo less pq i m (bubble_down_loop less fuel (pq_swap pq i m) m) hi inside (
            bubble_down_loop-Mended fuel lo (pq_swap pq i m) m (omega arith)
              (swap-DownInv lo pq i v s) (pq_swap-IsIndexed pq i m hi inside x)))
  ]

  pub bubble_down-Mended :
      (lo : ℕ) (pq : Pq) (i : ℕ)
      → DownInv lo less pq.q i
      → IsIndexed pq
      → Mended lo less pq (bubble_down less pq i)
  unfolding bubble_down
  bubble_down-Mended lo pq i v x = bubble_down_loop-Mended (length pq.q) lo pq i (omega arith) v x
