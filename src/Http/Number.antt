-- ===== src/Http/Number.antt =====
-- Sources/nghttp2/nghttp2_http.c: parse_uint, and the members of a stream that hold numbers.
use kitura_http.Prelude.{
  ℕ, ◌+◌, ◌-◌, ◌*◌, ◌/◌, List, [], ◌∷◌, Bool, true, false, Option, none, some, ltb, ◌==◌,
  if◌then◌else◌,
}
use kitura_http.Http.Chars.{is_digit}

-- INT64_MAX.
abbrev pub int64_max : ℕ
int64_max = 9223372036854775807

-- The loop; `none` is the return value -1.
unfoldable pub parse_uint_loop : ℕ → List ℕ → Option ℕ
parse_uint_loop n [] = some n
parse_uint_loop n (c ∷ cs) =
    let rest = parse_uint_loop (n * 10 + (c - b'0')) cs in
    if is_digit c
    then (if ltb (int64_max / 10) n
        then none
        else if ltb (int64_max - (c - b'0')) (n * 10)
        then none
        else rest)
    else none

unfoldable pub parse_uint : List ℕ → Option ℕ
unfolding parse_uint_loop
parse_uint [] = none
parse_uint (c ∷ cs) = parse_uint_loop 0 (c ∷ cs)

-- A member that is -1 equals no number, and -1 / 100 is 0.
abbrev pub is_some {ℓ} : {A : Type ℓ} → Option A → Bool
is_some none = false
is_some (some n) = true

abbrev pub equals : Option ℕ → ℕ → Bool
equals none m = false
equals (some n) m = n == m

abbrev pub class_is : Option ℕ → ℕ → Bool
class_is none m = m == 0
class_is (some n) m = n / 100 == m
