-- ===== src/Pq/Order.antt =====
-- The heap order and the back pointers of a queue, and what exchanging two entries does to them.
use mathlib.Core.List.Perm
use kitura_http.Prelude.{
  ℕ, ◌≤◌, ◌<◌, ◌≡◌, refl, ◌∙◌, List, Bool, true, false, length, arith, ◌==◌, if◌then◌else◌,
  get_or-swap, length-swap, swap-perm,
}
use mathlib.Core.List.{Perm}
use kitura_http.Prelude.Lists
use kitura_http.Pq.{Pq, at, parent, pq_swap}

-- The order that the callback is asked for: it is asymmetric, and "not less" is transitive.
pub record StrictWeak (less : ℕ → ℕ → Bool) : Type 0 where
  pub asym : (a b : ℕ) → less a b ≡ true → less b a ≡ false
  pub trans : (a b c : ℕ) → less b a ≡ false → less c b ≡ false → less c a ≡ false

-- Every entry from `lo` on is not less than its parent, where the parent is at `lo` or later.
abbrev pub IsHeapFrom : ℕ → (ℕ → ℕ → Bool) → List ℕ → Type 0
IsHeapFrom lo less q =
    (c : ℕ) → 0 < c → c < length q → lo ≤ parent c → less (at q c) (at q (parent c)) ≡ false

abbrev pub IsHeap : (ℕ → ℕ → Bool) → List ℕ → Type 0
IsHeap less q = IsHeapFrom 0 less q

-- Each entry knows its place.
abbrev pub IsIndexed : Pq → Type 0
IsIndexed pq = (i : ℕ) → i < length pq.q → pq.index (at pq.q i) ≡ i

pub pq_swap-q : (pq : Pq) (i j : ℕ) → (pq_swap pq i j).q ≡ Lists.swap 0 pq.q i j
unfolding pq_swap
pq_swap-q pq i j = refl

pub length-pq_swap : (pq : Pq) (i j : ℕ) → length (pq_swap pq i j).q ≡ length pq.q
unfolding pq_swap
length-pq_swap pq i j = length-swap 0 pq.q i j

pub capacity-pq_swap : (pq : Pq) (i j : ℕ) → (pq_swap pq i j).capacity ≡ pq.capacity
unfolding pq_swap
capacity-pq_swap pq i j = refl

module _ (pq : Pq) (i j : ℕ) (hi : i < length pq.q) (hj : j < length pq.q) where
  pub at-pq_swap :
      (c : ℕ)
      → at (pq_swap pq i j).q c
        ≡ (if j == c then at pq.q i else if i == c then at pq.q j else at pq.q c)
  unfolding pq_swap
  at-pq_swap c = get_or-swap 0 pq.q i j hi hj c

  pub pq_swap-perm : Perm (pq_swap pq i j).q pq.q
  unfolding pq_swap
  pq_swap-perm = swap-perm 0 pq.q i j hi hj

  pub pq_swap-IsIndexed : IsIndexed pq → IsIndexed (pq_swap pq i j)
  unfolding pq_swap
  pq_swap-IsIndexed x c hc =
      let inside : c < length pq.q = omega (arith, length-swap 0 pq.q i j) in
      ground (arith, get_or-swap 0 pq.q i j hi hj c, x c inside, x i hi, x j hj)

-- The queue `r` has the entries and the capacity of `pq`, in order from `lo`, each in its place.
abbrev pub Mended : ℕ → (ℕ → ℕ → Bool) → Pq → Pq → Type 0
Mended lo less pq r =
    IsHeapFrom lo less r.q × IsIndexed r × Perm r.q pq.q × (r.capacity ≡ pq.capacity)

pub Mended-swap :
    (lo : ℕ) (less : ℕ → ℕ → Bool) (pq : Pq) (i j : ℕ) (r : Pq)
    → i < length pq.q
    → j < length pq.q
    → Mended lo less (pq_swap pq i j) r
    → Mended lo less pq r
Mended-swap lo less pq i j r hi hj (heap, idx, perm, cap) =
    (heap, idx, Perm.trans perm (pq_swap-perm pq i j hi hj), cap ∙ capacity-pq_swap pq i j)

-- An entry stands in one place only.
pub IsIndexed-injective :
    (pq : Pq) (i j : ℕ)
    → IsIndexed pq
    → i < length pq.q
    → j < length pq.q
    → at pq.q i ≡ at pq.q j
    → i ≡ j
IsIndexed-injective pq i j x hi hj e = cc (x i hi, x j hj)
