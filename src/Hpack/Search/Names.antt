-- ===== src/Hpack/Search/Names.antt =====
-- The token of a name decides the name, and the static table holds that name at the token.
use kitura_http.Prelude.{
  ℕ, zero, suc, ◌-◌, ◌≤◌, ◌<◌, ◌≡◌, refl, ap, ap₂, ◌∙◌, List, [], ◌∷◌, ◌++◌, Bool, true, ◌&&◌, ◌||◌,
  some, ltb, ◌==◌, length, take, get_or, if◌then◌else◌, Bool-cases, inl, inr, arith, &&_split,
  passes, passes-at,
}
use kitura_http.Hpack.Static.{static_table}
use kitura_http.Hpack.Token.{
  TokenCase, lookup_token, bytes_eq, is_case, find_case, short_names, middle_names, long_names,
}
use kitura_http.Hpack.Inflate.{no_static}
use kitura_http.Hpack.Search.{last_static}

pub bytes_eq-eq : (xs ys : List ℕ) → bytes_eq xs ys ≡ true → xs ≡ ys
unfolding bytes_eq
bytes_eq-eq [] [] h = refl
bytes_eq-eq (x ∷ xs) (y ∷ ys) h =
    let (same, rest) = &&_split (x == y) (bytes_eq xs ys) h in
    ap₂ (λ a l. a ∷ l) (ground arith) (bytes_eq-eq xs ys rest)
bytes_eq-eq [] (y ∷ ys) h = cc
bytes_eq-eq (x ∷ xs) [] h = cc

pub bytes_eq_refl : (xs : List ℕ) → bytes_eq xs xs ≡ true
unfolding bytes_eq
bytes_eq_refl [] = refl
bytes_eq_refl (x ∷ xs) =
    let same : (x == x) ≡ true = ground arith in rw (same, bytes_eq_refl xs) refl

abbrev text : TokenCase → List ℕ
text c = c.start ++ c.last ∷ []

snoc-take : (n : ℕ) (xs : List ℕ) → length xs ≡ suc n → xs ≡ take n xs ++ get_or xs n 0 ∷ []
snoc-take zero (x ∷ []) h = refl
snoc-take (suc n) (x ∷ xs) h = ap (λ l. x ∷ l) (snoc-take n xs (omega arith))
snoc-take zero [] h = absurd (omega arith)
snoc-take (suc n) [] h = absurd (omega arith)
snoc-take zero (x ∷ y ∷ xs) h = absurd (omega arith)

-- The names of the cases of the switch.
unfoldable text_of : ℕ → List TokenCase → List ℕ
text_of t [] = []
text_of t (c ∷ cs) = let rest = text_of t cs in if c.token == t then text c else rest

unfoldable all_cases : List TokenCase
unfolding short_names middle_names long_names
all_cases = short_names ++ (middle_names ++ long_names)

unfoldable pub name_of : ℕ → List ℕ
unfolding text_of all_cases
name_of t = text_of t all_cases

-- Each case has a length of its own, a name of its own, and stands in the static table.
consistent : List TokenCase → Bool
unfolding bytes_eq static_table name_of
consistent [] = true
consistent (c ∷ cs) =
    let rest = consistent cs in
    let static = get_or static_table c.token no_static in
    ltb 0 c.len
    && (bytes_eq (text c) (name_of c.token)
        && ((ltb last_static c.token || static.token == c.token) && rest))

all-consistent : consistent all_cases ≡ true
unfolding consistent
all-consistent = refl

statics :
    passes
      (λ i.
        bytes_eq
          (get_or static_table i no_static).name
          (name_of (get_or static_table i no_static).token))
      61
    ≡ true
unfolding passes bytes_eq static_table name_of
statics = refl

case-text : (name : List ℕ) (c : TokenCase) → 0 < c.len → is_case name c ≡ true → name ≡ text c
case-text name c pos h =
    let (len, rest) = &&_split (length name == c.len) _ h in
    let (last, start) = &&_split (get_or name (c.len - 1) 0 == c.last) _ rest in
    let e : get_or name (c.len - 1) 0 ≡ c.last = ground arith in
    snoc-take (c.len - 1) name (ground arith)
    ∙ ap₂ (λ l x. l ++ x ∷ []) (bytes_eq-eq (take (c.len - 1) name) c.start start) e

-- What the token `t` says of a name.
abbrev pub Named : List ℕ → ℕ → Type 0
Named name t = (name ≡ name_of t) × (t ≤ last_static → (get_or static_table t no_static).token ≡ t)

or_static : (t u : ℕ) → (ltb last_static t || u == t) ≡ true → t ≤ last_static → u ≡ t
or_static t u h le = ground arith

find_case-Named :
    (name : List ℕ) (t : ℕ) (cs : List TokenCase)
    → consistent cs ≡ true
    → find_case name cs ≡ some t
    → Named name t
unfolding find_case consistent
find_case-Named name t [] h e = cc
find_case-Named name t (c ∷ cs) h e =
    let (pos, more) = &&_split (ltb 0 c.len) _ h in
    let (same, more) = &&_split (bytes_eq (text c) (name_of c.token)) _ more in
    let (static, rest) =
      &&_split (ltb last_static c.token || (get_or static_table c.token no_static).token == c.token)
        _ more in
    elim (Bool-cases (is_case name c)) [
      | inl here ↦
          let token : c.token ≡ t = cc (rw here at e) in
          let le : 0 < c.len = ground arith in
          rw⁻¹ token (
            case-text name c le here ∙ bytes_eq-eq (text c) (name_of c.token) same,
            or_static c.token (get_or static_table c.token no_static).token static,
          )
      | inr other ↦ find_case-Named name t cs rest (rw other at e)
    ]

pub lookup_token-Named : (name : List ℕ) (t : ℕ) → lookup_token name ≡ some t → Named name t
unfolding lookup_token all_cases
lookup_token-Named name t e = find_case-Named name t all_cases all-consistent e

pub static-Named :
    (i t : ℕ)
    → i < 61
    → (get_or static_table i no_static).token ≡ t
    → (get_or static_table i no_static).name ≡ name_of t
static-Named i t lt e = bytes_eq-eq _ _ (passes-at _ 61 lt statics) ∙ ap name_of e
