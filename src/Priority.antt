-- ===== src/Priority.antt =====
-- Sources/nghttp2/nghttp2_priority_spec.c: the dependency of a stream. `weight` is an int32_t.
pub mod Laws
pub mod Tests
use kitura_http.Prelude.{ℕ, ◌+◌, ◌-◌, ◌%◌, Bool, true, false, not, ◌&&◌, ◌==◌, if◌then◌else◌}
use kitura_http.Prelude.Int.{ℤ, pos, negsuc, ltb_ℤ, ◌-ℤ◌}

pub record PrioritySpec : Type 0 where
  pub stream_id : ℕ
  pub weight : ℤ
  pub exclusive : Bool

abbrev pub default_weight : ℕ
default_weight = 16

abbrev pub max_weight : ℕ
max_weight = 256

abbrev pub min_weight : ℕ
min_weight = 1

-- nghttp2_priority_spec_init: any nonzero `exclusive` counts as one.
unfoldable pub priority_spec_init : ℕ → ℤ → ℕ → PrioritySpec
priority_spec_init stream_id weight exclusive = record {
  stream_id = stream_id;
  weight = weight;
  exclusive = not (exclusive == 0);
}

-- nghttp2_priority_spec_default_init.
unfoldable pub priority_spec_default_init : PrioritySpec
priority_spec_default_init = record {
  stream_id = 0;
  weight = pos default_weight;
  exclusive = false;
}

abbrev eq_pos : ℤ → ℕ → Bool
eq_pos (pos n) m = n == m
eq_pos (negsuc n) m = false

-- nghttp2_priority_spec_check_default.
unfoldable pub priority_spec_check_default : PrioritySpec → Bool
priority_spec_check_default p =
    p.stream_id == 0 && (eq_pos p.weight default_weight && not p.exclusive)

-- nghttp2_priority_spec_normalize_weight.
unfoldable pub priority_spec_normalize_weight : PrioritySpec → PrioritySpec
priority_spec_normalize_weight p =
    if ltb_ℤ p.weight (pos min_weight)
    then record p { weight = pos min_weight }
    else if ltb_ℤ (pos max_weight) p.weight
    then record p { weight = pos max_weight }
    else p

-- `(uint8_t)(weight - 1)`.
abbrev pub weight_byte : ℤ → ℕ
weight_byte (pos n) = (n + 255) % 256
weight_byte (negsuc n) = (255 - (n + 1) % 256) % 256
