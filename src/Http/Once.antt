-- ===== src/Http/Once.antt =====
-- The order of the fields of a request, and how often its pseudo headers stand there.
use kitura_http.Prelude.{
  ℕ, ◌+◌, ◌<◌, ◌≡◌, refl, ap, ◌∙◌, List, [], ◌∷◌, true, false, none, some, ◌==◌, arith, ltb,
  Bool-cases, inl, inr, All,
}
use kitura_http.Result.{ign_http_header}
use kitura_http.Http.{Stream, Token, authority, method, path, scheme, host, Nv}
use kitura_http.Http.Accept.{http_on_header_request}
use kitura_http.Http.Ignore.{http_on_header_ignored}
use kitura_http.Http.Field.{http_on_header, is_pseudo, closed}
use kitura_http.Http.Marks.{once, Core, core, seen, number, mark, Marks, request_field-Marks}

-- A field of the token `a` moves the bits `c` to `d`.
abbrev Counts : Token → Core → Core → Type 0
Counts a c d =
    (k : Token) → number k < 99 → once (seen c k) + once (number a == number k) ≡ once (seen d k)

mark-Counts : (a : Token) (c : Core) → number a < 99 → seen c a ≡ false → Counts a c (mark a c)
mark-Counts authority c l e authority u = rw e refl
mark-Counts method c l e method u = rw e refl
mark-Counts path c l e path u = rw e refl
mark-Counts scheme c l e scheme u = rw e refl
mark-Counts host c l e host u = rw e refl
mark-Counts a c l e k u = omega arith

untracked-Counts : (a : Token) (c d : Core) → number a ≡ 99 → d ≡ c → Counts a c d
untracked-Counts a c d e f k u =
    let other : (number a == number k) ≡ false = ground arith in rw (f, other) (omega arith)

-- Closing the pseudo headers leaves the bits of the fields.
abbrev closing : Core → Core
closing (a, m, p, s, h, d) = (a, m, p, s, h, true)

seen-closing : (c : Core) (k : Token) → seen (closing c) k ≡ seen c k
seen-closing c authority = refl
seen-closing c method = refl
seen-closing c path = refl
seen-closing c scheme = refl
seen-closing c host = refl
seen-closing c _ = refl

closing-Counts : (a : Token) (c d : Core) → Counts a c d → Counts a c (closing d)
closing-Counts a c d h k u = rw (seen-closing d k) (h k u)

untracked_number : (a : Token) → ltb (number a) 99 ≡ false → number a ≡ 99
untracked_number authority h = cc
untracked_number method h = cc
untracked_number path h = cc
untracked_number scheme h = cc
untracked_number host h = cc
untracked_number _ h = refl

mark_untracked : (a : Token) (c : Core) → ltb (number a) 99 ≡ false → mark a c ≡ c
mark_untracked authority c h = cc
mark_untracked method c h = cc
mark_untracked path c h = cc
mark_untracked scheme c h = cc
mark_untracked host c h = cc
mark_untracked _ c h = refl

Marks-Counts : (a : Token) (c d : Core) → Marks a c d → Counts a c d
Marks-Counts a c d (new, e) = elim (Bool-cases (ltb (number a) 99)) [
  | inl tracked ↦ rw e (mark-Counts a c (ground arith) (new (ground arith)))
  | inr other ↦ untracked-Counts a c d (untracked_number a other) (e ∙ mark_untracked a c other)
]

-- What a request that passed the switch leaves.
accepted-Counts :
    (s t : Stream) (nv : Nv)
    → http_on_header true s nv false ≡ (t, none)
    → Counts nv.token (core s.flags) (core t.flags)
accepted-Counts s t nv h =
    let (free, r, field, e) = http_on_header_request s t nv false h in
    let counts =
      Marks-Counts nv.token (core s.flags) (core r.flags)
        (request_field-Marks s r nv nv.token field) in
    elim (Bool-cases (is_pseudo nv)) [
      | inl colon ↦ rw (e, colon) counts
      | inr plain ↦ rw (e, plain) (closing-Counts nv.token (core s.flags) (core r.flags) counts)
    ]

abbrev pub count : Token → List Nv → ℕ
count k [] = 0
count k (nv ∷ nvs) = once (number nv.token == number k) + count k nvs

-- A server takes header fields on a stream in state `s`, which leaves it in state `u`; the list
-- holds the fields that it accepts. A field that it ignores changes nothing but the order rule.
pub data Run : Stream → List Nv → Stream → Type 0 where
  stop : {s : Stream} → Run s [] s
  accept :
      {s t u : Stream} {nv : Nv} {nvs : List Nv}
      → http_on_header true s nv false ≡ (t, none)
      → Run t nvs u
      → Run s (nv ∷ nvs) u
  ignore :
      {s t u : Stream} {nvs : List Nv} (nv : Nv)
      → http_on_header true s nv false ≡ (t, some ign_http_header)
      → Run t nvs u
      → Run s nvs u

pub Run-count :
    {s u : Stream} {nvs : List Nv} (k : Token)
    → number k < 99
    → Run s nvs u
    → once (seen (core s.flags) k) + count k nvs ≡ once (seen (core u.flags) k)
Run-count k l stop = omega arith
Run-count k l (accept {s} {t} {u} {nv} h rest) =
    let here = accepted-Counts s t nv h k l in let later = Run-count k l rest in omega arith
Run-count k l (ignore {s} {t} {u} nv h rest) =
    let e = http_on_header_ignored s t nv false h in
    let same =
      ap (λ (x : Stream). once (seen (core x.flags) k)) e
      ∙ ap once (seen-closing (core s.flags) k) in
    let later = Run-count k l rest in omega arith

abbrev IsRegular : Nv → Type 0
IsRegular nv = is_pseudo nv ≡ false

shut :
    (s : Stream) (nv : Nv)
    → s.flags.pseudo_header_disallowed ≡ true
    → closed s nv false ≡ false
    → IsRegular nv
shut s nv h e = elim (Bool-cases (is_pseudo nv)) [
  | inl colon ↦ cc (rw (colon, h) at e)
  | inr plain ↦ plain
]

-- Once closed, the pseudo headers stay closed.
stays_shut :
    (s t : Stream) (nv : Nv)
    → http_on_header true s nv false ≡ (t, none)
    → s.flags.pseudo_header_disallowed ≡ true
    → IsRegular nv × (t.flags.pseudo_header_disallowed ≡ true)
stays_shut s t nv h d =
    let (free, r, field, e) = http_on_header_request s t nv false h in
    let plain = shut s nv d free in (plain, rw (e, plain) refl)

Run-IsRegular :
    {s u : Stream} {nvs : List Nv}
    → s.flags.pseudo_header_disallowed ≡ true
    → Run s nvs u
    → All IsRegular nvs
Run-IsRegular d stop = tt
Run-IsRegular d (accept {s} {t} {u} {nv} h rest) =
    let (plain, d') = stays_shut s t nv h d in (plain, Run-IsRegular d' rest)
Run-IsRegular d (ignore {s} {t} {u} nv h rest) =
    Run-IsRegular (rw (http_on_header_ignored s t nv false h) refl) rest

-- Behind a regular field there are regular fields only.
abbrev pub PseudoFirst : List Nv → Type 0
PseudoFirst [] = Unit
PseudoFirst (nv ∷ nvs) = (IsRegular nv → All IsRegular nvs) × PseudoFirst nvs

-- Among the fields that a server accepts, from any state, no pseudo header follows a regular field.
pub Run-PseudoFirst : {s u : Stream} {nvs : List Nv} → Run s nvs u → PseudoFirst nvs
Run-PseudoFirst stop = tt
Run-PseudoFirst (accept {s} {t} {u} {nv} h rest) = (
  λ plain.
      let (free, r, field, e) = http_on_header_request s t nv false h in
      Run-IsRegular (rw (e, plain) refl) rest,
  Run-PseudoFirst rest,
)
Run-PseudoFirst (ignore nv h rest) = Run-PseudoFirst rest
