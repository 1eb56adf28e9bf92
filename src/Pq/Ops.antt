-- ===== src/Pq/Ops.antt =====
-- The operations of the queue: what they do to the heap, the back pointers and the entries.
use mathlib.Core.List.{Perm}
use mathlib.Core.List.Perm
use kitura_http.Prelude.{
  ℕ, zero, suc, ◌≤◌, ◌<◌, ◌≡◌, inl, inr, List, Bool, false, some, length, arith, ◌==◌, Bool-cases,
  get_elem?-get_or,
}
use kitura_http.Result.{err, nomem}
use kitura_http.Pq.{Pq, at, parent, pq_top, pq_push}
use kitura_http.Pq.Order.{StrictWeak, IsHeap, IsIndexed, Mended}

-- A queue of exactly the entries `es`, in heap order, each of which knows its place.
pub record Holds (less : ℕ → ℕ → Bool) (es : List ℕ) (pq : Pq) : Type 0 where
  pub heap : IsHeap less pq.q
  pub indexed : IsIndexed pq
  pub same : Perm pq.q es

module _ (less : ℕ → ℕ → Bool) (w : StrictWeak less) where
  pub of_Mended : (pq r : Pq) (es : List ℕ) → Perm pq.q es → Mended 0 less pq r → Holds less es r
  of_Mended pq r es p (heap, idx, perm, cap) = record {
    heap = heap;
    indexed = idx;
    same = Perm.trans perm p;
  }

  root_least_below :
      (k : ℕ) (q : List ℕ) (i : ℕ)
      → IsHeap less q
      → i < k
      → i < length q
      → less (at q i) (at q 0) ≡ false
  root_least_below zero q i h f p = absurd (omega arith)
  root_least_below (suc k) q i h f p = elim (Bool-cases (i == 0)) [
    | inl root ↦
        let e : i ≡ 0 = ground arith in
        rw e (elim (Bool-cases (less (at q 0) (at q 0))) [ inl t ↦ cc (w.asym _ _ t) | inr n ↦ n ])
    | inr deep ↦
        w.trans (at q 0) (at q (parent i)) (at q i)
          (root_least_below k q (parent i) h (ground arith) (ground arith))
          (h i (ground arith) p (omega arith))
  ]

  -- In heap order, for a strict weak order `less`, no entry is less than the one that
  -- nghttp2_pq_top hands out.
  pub pq_top-least :
      (pq : Pq) (i : ℕ)
      → IsHeap less pq.q
      → i < length pq.q
      → (top : ℕ) × (pq_top pq ≡ some top) × (less (at pq.q i) top ≡ false)
  unfolding pq_top
  pq_top-least pq i h p = (
    at pq.q 0,
    get_elem?-get_or 0 pq.q 0 (omega arith),
    root_least_below (suc i) pq.q i h (omega arith) p,
  )

  -- With no memory for a larger array the push is refused.
  pub pq_push-nomem :
      (pq : Pq) (item : ℕ) → pq.capacity ≤ length pq.q → pq_push less pq item false ≡ err nomem
  unfolding pq_push
  pq_push-nomem pq item h = ground arith
