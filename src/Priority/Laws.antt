-- ===== src/Priority/Laws.antt =====
-- The range of weights, and the default specification.
use kitura_http.Prelude.{◌≡◌, ◌↔◌, true, arith}
use kitura_http.Prelude.Int.{pos, ◌≤ℤ◌}
use kitura_http.Priority.{
  PrioritySpec, min_weight, max_weight, priority_spec_default_init, priority_spec_check_default,
  priority_spec_normalize_weight,
}

abbrev pub WeightInRange : PrioritySpec → Type 0
WeightInRange p = (pos min_weight ≤ℤ p.weight) × (p.weight ≤ℤ pos max_weight)

-- Normalizing brings every weight into 1 to 256.
pub normalize_weight-WeightInRange :
    (p : PrioritySpec) → WeightInRange (priority_spec_normalize_weight p)
unfolding priority_spec_normalize_weight
normalize_weight-WeightInRange p = ground arith

pub normalize_weight_id :
    (p : PrioritySpec) → WeightInRange p → priority_spec_normalize_weight p ≡ p
unfolding priority_spec_normalize_weight
normalize_weight_id p h = ground arith

-- A specification passes priority_spec_check_default exactly when it is the one that
-- priority_spec_default_init makes.
pub check_default_iff :
    (p : PrioritySpec) → (priority_spec_check_default p ≡ true) ↔ (p ≡ priority_spec_default_init)
unfolding priority_spec_check_default priority_spec_default_init
check_default_iff p = ground arith
