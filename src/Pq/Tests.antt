-- ===== src/Pq/Tests.antt =====
-- A queue of three entries, and the theorems at it.
use kitura_http.Prelude.{
  ℕ, ◌≡◌, refl, ◌⊎◌, inl, inr, List, [], ◌∷◌, false, some, ltb, ◌==◌, if◌then◌else◌, arith, ◌<◌,
}
use kitura_http.Result.{ok, ◌>>=◌}
use kitura_http.Pq.{Pq, pq_top, pq_remove}
use kitura_http.Pq.Order.{StrictWeak, IsHeap}
use kitura_http.Pq.Ops.{pq_top-least}

abbrev numbers : List ℕ
numbers = 3 ∷ 8 ∷ 5 ∷ []

abbrev places : ℕ → ℕ
places e = if e == 3 then 0 else if e == 8 then 1 else if e == 5 then 2 else 9

abbrev three : Pq
three = record { q = numbers; index = places; capacity = 4 }

ltb-StrictWeak : StrictWeak ltb
ltb-StrictWeak = record { asym = λ a b h. ground arith; trans = λ a b c h k. ground arith }

below_three : (c : ℕ) → c < 3 → (c ≡ 0) ⊎ (c ≡ 1) ⊎ (c ≡ 2)
below_three c h = omega arith

three-IsHeap : IsHeap ltb numbers
three-IsHeap c a b z = elim (below_three c b) [
  | inl e ↦ absurd (omega arith)
  | inr (inl e) ↦ rw e refl
  | inr (inr e) ↦ rw e refl
]

pq_top_run : pq_top three ≡ some 3
unfolding pq_top
pq_top_run = refl

pq_remove_run : (pq_remove ltb three 8 >>= λ r. ok r.q) ≡ ok (3 ∷ 5 ∷ [])
unfolding pq_remove
pq_remove_run = refl

pq_top-least_example : (top : ℕ) × (pq_top three ≡ some top) × (ltb 8 top ≡ false)
pq_top-least_example = pq_top-least ltb ltb-StrictWeak three 1 three-IsHeap (omega arith)
