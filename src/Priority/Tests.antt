-- ===== src/Priority/Tests.antt =====
-- A dependency on stream 7 of too great a weight, and the theorems at a default one.
use kitura_http.Prelude.{◌≡◌, refl, true}
use kitura_http.Prelude.Int.{pos}
use kitura_http.Priority.{PrioritySpec, priority_spec_init, priority_spec_normalize_weight}

abbrev heavy : PrioritySpec
heavy = record { stream_id = 7; weight = pos 300; exclusive = true }

init_heavy : priority_spec_init 7 (pos 300) 5 ≡ heavy
unfolding priority_spec_init
init_heavy = refl

normalize_heavy : priority_spec_normalize_weight heavy ≡ record heavy { weight = pos 256 }
unfolding priority_spec_normalize_weight
normalize_heavy = refl
