-- ===== src/Http/Digits.antt =====
-- parse_uint beside the value of decimal digits.
use kitura_http.Prelude.{
  ℕ, ◌+◌, ◌-◌, ◌*◌, ◌≤◌, ◌≡◌, refl, List, [], ◌∷◌, ◌&&◌, Option, none, some, leb, if◌then◌else◌,
  arith,
}
use kitura_http.Http.Chars.{is_digit, all}
use kitura_http.Http.Number.{int64_max, parse_uint_loop, parse_uint}

-- The value of digits that follow the number `n`.
abbrev pub decimal : ℕ → List ℕ → ℕ
decimal n [] = n
decimal n (c ∷ cs) = decimal (n * 10 + (c - b'0')) cs

abbrev in_range : ℕ → List ℕ → Option ℕ
in_range n s = if all is_digit s && leb (decimal n s) int64_max then some (decimal n s) else none

-- What the function is for: the number, if there are digits only and it fits.
abbrev pub decimal_uint : List ℕ → Option ℕ
decimal_uint [] = none
decimal_uint (c ∷ cs) = in_range 0 (c ∷ cs)

decimal_grows : (n : ℕ) (s : List ℕ) → n ≤ decimal n s
decimal_grows n [] = omega arith
decimal_grows n (c ∷ cs) = let rest = decimal_grows (n * 10 + (c - b'0')) cs in omega arith

parse_uint_loop-in_range : (n : ℕ) (s : List ℕ) → n ≤ int64_max → parse_uint_loop n s ≡ in_range n s
unfolding parse_uint_loop
parse_uint_loop-in_range n [] h = ground arith
parse_uint_loop-in_range n (c ∷ cs) h =
    let grows = decimal_grows (n * 10 + (c - b'0')) cs in
    let rest = parse_uint_loop-in_range (n * 10 + (c - b'0')) cs in ground (arith, rest, grows)

-- parse_uint gives the value of a text of digits that fits 63 bits, and -1 for any other text.
pub parse_uint-decimal_uint : (s : List ℕ) → parse_uint s ≡ decimal_uint s
unfolding parse_uint
parse_uint-decimal_uint [] = refl
parse_uint-decimal_uint (c ∷ cs) = parse_uint_loop-in_range 0 (c ∷ cs) (omega arith)
