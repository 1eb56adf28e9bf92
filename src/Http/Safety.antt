-- ===== src/Http/Safety.antt =====
-- The header checks over all the fields of a message.
use kitura_http.Prelude.{
  ℕ, ◌≡◌, ◌≢◌, refl, ap, ap₂, ◌||◌, List, [], ◌∷◌, Bool, true, none, ◌==◌, arith, Bool-cases, inl,
  inr, All,
}
use kitura_http.Wire.{downcase, downcase_tbl}
use kitura_http.Http.{Stream, Token, authority, host, scheme, Nv}
use kitura_http.Http.Chars.{
  all, valid_name_char, valid_value_char, valid_authority_char, scheme_char, is_upper, is_lower,
  check_header_name, check_header_value, check_authority, check_scheme,
}
use kitura_http.Http.Field.{check_value, http_on_header}
use kitura_http.Http.Accept.{http_on_header_checked}

-- No NUL, line feed or carriage return, with which a field could be split in HTTP/1.1.
abbrev pub IsLineSafe : ℕ → Type 0
IsLineSafe c = (c ≢ 0) × (c ≢ 10) × (c ≢ 13)

all-All :
    {P : ℕ → Type 0} (f : ℕ → Bool)
    → ((c : ℕ) → f c ≡ true → P c)
    → (s : List ℕ) → all f s ≡ true
    → All P s
all-All f p [] h = tt
all-All f p (c ∷ cs) h = elim (Bool-cases (f c)) [
  | inl good ↦ (p c good, all-All f p cs (rw good at h))
  | inr bad ↦ cc (rw bad at h)
]

value_char-IsLineSafe : (c : ℕ) → valid_value_char c ≡ true → IsLineSafe c
unfolding valid_value_char
value_char-IsLineSafe c h = ground arith

authority_char-IsLineSafe : (c : ℕ) → valid_authority_char c ≡ true → IsLineSafe c
unfolding valid_authority_char
authority_char-IsLineSafe c h = ground arith

scheme_char-IsLineSafe : (c : ℕ) → scheme_char c ≡ true → IsLineSafe c
scheme_char-IsLineSafe c h = ground arith

check_scheme-All : (value : List ℕ) → check_scheme value ≡ true → All IsLineSafe value
unfolding check_scheme
check_scheme-All [] h = tt
check_scheme-All (c ∷ cs) h = elim (Bool-cases (is_upper c || is_lower c)) [
  | inl letter ↦ (ground arith, all-All scheme_char scheme_char-IsLineSafe cs (rw letter at h))
  | inr other ↦ cc (rw other at h)
]

plain-All : (value : List ℕ) → check_header_value value ≡ true → All IsLineSafe value
unfolding check_header_value
plain-All value h = all-All valid_value_char value_char-IsLineSafe value h

authority-All : (value : List ℕ) → check_authority value ≡ true → All IsLineSafe value
unfolding check_authority
authority-All value h = all-All valid_authority_char authority_char-IsLineSafe value h

-- Whatever the field, a value that passes its check can split no line.
check_value-All : (value : List ℕ) (t : Token) → check_value value t ≡ true → All IsLineSafe value
unfolding check_value
check_value-All value authority h = authority-All value h
check_value-All value host h = authority-All value h
check_value-All value scheme h = check_scheme-All value h
check_value-All value _ h = plain-All value h

name_char-lower : (c : ℕ) → valid_name_char c ≡ true → downcase_tbl c ≡ c
unfolding valid_name_char downcase_tbl
name_char-lower c h = ground arith

downcase-All : (s : List ℕ) → All (λ c. downcase_tbl c ≡ c) s → downcase s ≡ s
unfolding downcase
downcase-All [] h = refl
downcase-All (c ∷ cs) (e, h) = ap₂ (◌∷◌) e (downcase-All cs h)

lower_name : (s : List ℕ) → all valid_name_char s ≡ true → downcase s ≡ s
lower_name s h = downcase-All s (all-All valid_name_char name_char-lower s h)

colon-lower : (s : List ℕ) → downcase s ≡ s → downcase (b':' ∷ s) ≡ b':' ∷ s
unfolding downcase downcase_tbl
colon-lower s h = ap (λ t. b':' ∷ t) h

check_header_name-lower : (name : List ℕ) → check_header_name name ≡ true → downcase name ≡ name
unfolding check_header_name
check_header_name-lower [] h = cc
check_header_name-lower (c ∷ []) h = elim (Bool-cases (c == b':')) [
  | inl colon ↦ cc (rw colon at h)
  | inr other ↦ lower_name (c ∷ []) (rw other at h)
]
check_header_name-lower (c ∷ d ∷ cs) h = elim (Bool-cases (c == b':')) [
  | inl colon ↦
      let e : c ≡ b':' = ground arith in
      rw e (colon-lower (d ∷ cs) (lower_name (d ∷ cs) (rw colon at h)))
  | inr other ↦ lower_name (c ∷ d ∷ cs) (rw other at h)
]

-- A field that is accepted has a name in lower case, and a value without NUL, CR and LF.
pub http_on_header_safe :
    (request : Bool) (s t : Stream) (nv : Nv) (trailer : Bool)
    → http_on_header request s nv trailer ≡ (t, none)
    → (downcase nv.name ≡ nv.name) × All IsLineSafe nv.value
http_on_header_safe request s t nv trailer h =
    let (name, value, rest) = http_on_header_checked request s t nv trailer h in
    (check_header_name-lower nv.name name, check_value-All nv.value nv.token value)
