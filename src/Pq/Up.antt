-- ===== src/Pq/Up.antt =====
-- `bubble_up` on a heap in which one entry may be less than its parent.
use mathlib.Core.List.Perm
use kitura_http.Prelude.{
  ℕ, zero, suc, ◌≤◌, ◌<◌, ◌≡◌, refl, ◌≢◌, inl, inr, List, Bool, true, false, length, arith, ◌==◌,
  Bool-cases,
}
use kitura_http.Pq.{Pq, at, parent, pq_swap, bubble_up_loop, bubble_up}
use kitura_http.Pq.Order.{
  StrictWeak, IsIndexed, length-pq_swap, at-pq_swap, Mended, Mended-swap, pq_swap-IsIndexed,
}

-- Only the edge above `i` may be out of order; its children are not less than its parent.
pub record UpInv (less : ℕ → ℕ → Bool) (q : List ℕ) (i : ℕ) : Type 0 where
  pub inside : i < length q
  pub edges : (c : ℕ) → 0 < c → c < length q → c ≢ i → less (at q c) (at q (parent c)) ≡ false
  pub bridged :
      (c : ℕ)
      → 0 < c
      → c < length q
      → parent c ≡ i
      → 0 < i
      → less (at q c) (at q (parent i)) ≡ false

module _ (less : ℕ → ℕ → Bool) (w : StrictWeak less) where
  swap-UpInv :
      (pq : Pq) (i : ℕ)
      → UpInv less pq.q i
      → 0 < i
      → less (at pq.q i) (at pq.q (parent i)) ≡ true
      → UpInv less (pq_swap pq (parent i) i).q (parent i)
  swap-UpInv pq i v pos below =
      let p = parent i in
      let inside = v.inside in
      let hp : p < length pq.q = omega arith in
      let size = length-pq_swap pq p i in
      let new = at-pq_swap pq p i hp v.inside in
      let up = w.asym (at pq.q i) (at pq.q p) below in
      record {
        inside = omega arith;
        edges = λ c h k n. ground (
          arith,
          size,
          new c,
          new (parent c),
          v.edges c,
          v.bridged c,
          up,
          w.trans (at pq.q i) (at pq.q p) (at pq.q c),
        );
        bridged = λ c h k e z. ground (
          arith,
          size,
          new c,
          new (parent p),
          v.edges c,
          v.edges p,
          w.trans (at pq.q (parent p)) (at pq.q p) (at pq.q c),
        );
      }

  pub bubble_up_loop-Mended :
      (fuel : ℕ) (pq : Pq) (i : ℕ)
      → i ≤ fuel
      → UpInv less pq.q i
      → IsIndexed pq
      → Mended 0 less pq (bubble_up_loop less fuel pq i)
  unfolding bubble_up_loop
  bubble_up_loop-Mended zero pq i f v x =
      let root : i ≡ 0 = omega arith in
      ((λ c h k z. v.edges c h k (omega arith)), x, Perm.rfl, refl)
  bubble_up_loop-Mended (suc fuel) pq i f v x = elim (Bool-cases (i == 0)) [
    | inl root ↦
        rw (root, bubble_up_loop) ((λ c h k z. v.edges c h k (ground arith)), x, Perm.rfl, refl)
    | inr deep ↦
        let p = parent i in
        let inside = v.inside in
        let pos : 0 < i = ground arith in
        let hp : p < length pq.q = omega arith in
        elim (Bool-cases (less (at pq.q i) (at pq.q p))) [
          | inl below ↦
              rw (deep, below, bubble_up_loop)
                (Mended-swap 0 less pq p i (bubble_up_loop less fuel (pq_swap pq p i) p) hp v.inside
                  (bubble_up_loop-Mended fuel (pq_swap pq p i) p (omega arith)
                    (swap-UpInv pq i v pos below) (pq_swap-IsIndexed pq p i hp v.inside x)))
          | inr settled ↦
              rw (deep, settled, bubble_up_loop)
                ((λ c h k z. ground (arith, v.edges c)), x, Perm.rfl, refl)
        ]
  ]

  pub bubble_up-Mended :
      (pq : Pq) (i : ℕ) → UpInv less pq.q i → IsIndexed pq → Mended 0 less pq (bubble_up less pq i)
  unfolding bubble_up
  bubble_up-Mended pq i v x = bubble_up_loop-Mended i pq i (omega arith) v x
