-- ===== src/Http/Marks.antt =====
-- The bits that each field of a request leaves, and those that it needs to be clear.
use kitura_http.Prelude.{
  ℕ, ◌≡◌, ◌≢◌, refl, List, Bool, true, false, Option, none, ◌==◌, if◌then◌else◌, arith, Bool-cases,
  Option-cases, inl, inr, ap, sym, ◌∙◌, ◌<◌, ◌%◌, ◌&&◌, ◌||◌, not, get_or, length,
}
use kitura_http.Result.{Error}
use kitura_http.Http.{
  Flags, Stream, Token, authority, method, path, scheme, status, host, content_length, connection,
  keep_alive, proxy_connection, transfer_encoding, upgrade, te, unlisted, Nv, Outcome, after,
}
use kitura_http.Http.Accept.{after-none}
use kitura_http.Http.Chars.{lws, lstreq, lstrieq, memieq}
use kitura_http.Http.Number.{parse_uint, is_some}
use kitura_http.Http.Field.{
  request_field, check_pseudo_header, record_method, record_path, record_scheme,
  record_content_length, check_te, with_flags, refuse, other_field, is_pseudo, str_head,
  str_connect, str_options, str_http, str_https, str_trailers,
}

abbrev pub once : Bool → ℕ
once true = 1
once false = 0

-- The bits that remember the fields of a request, and whether a regular one came.
abbrev pub Core : Type 0
Core = Bool × Bool × Bool × Bool × Bool × Bool

abbrev pub core : Flags → Core
core f = (f.authority, f.method, f.path, f.scheme, f.host, f.pseudo_header_disallowed)

abbrev pub seen : Core → Token → Bool
seen (a, m, p, s, h, d) authority = a
seen (a, m, p, s, h, d) method = m
seen (a, m, p, s, h, d) path = p
seen (a, m, p, s, h, d) scheme = s
seen (a, m, p, s, h, d) host = h
seen c _ = false

abbrev pub number : Token → ℕ
number authority = 0
number method = 1
number path = 3
number scheme = 5
number host = 37
number _ = 99

-- The call leaves the bits `c`.
record Leaves (c : Core) (o : Outcome) : Type 0 where
  bits : core o.0.flags ≡ c

Leaves-if :
    {c : Core} {x y : Outcome} (b : Bool) → Leaves c x → Leaves c y → Leaves c (if b then x else y)
Leaves-if true p q = p
Leaves-if false p q = q

same_bits : {s : Stream} {e : Option Error} → Leaves (core s.flags) (s, e)
same_bits = record { bits = refl }

module _ (s : Stream) (v : List ℕ) where
  record_method-Leaves : Leaves (core s.flags) (record_method s v)
  unfolding record_method
  record_method-Leaves = Leaves-if (lstreq str_head v) same_bits (
      Leaves-if (lstreq str_connect v)
        (Leaves-if (s.stream_id % 2 == 0) same_bits
          (Leaves-if (s.flags.path || s.flags.scheme) same_bits same_bits))
        (Leaves-if (lstreq str_options v) same_bits same_bits))

  record_path-Leaves : Leaves (core s.flags) (record_path s v)
  unfolding record_path
  record_path-Leaves =
      Leaves-if (get_or v 0 0 == b'/') same_bits
        (Leaves-if (length v == 1 && get_or v 0 0 == b'*') same_bits same_bits)

  record_scheme-Leaves : Leaves (core s.flags) (record_scheme s v)
  unfolding record_scheme
  record_scheme-Leaves =
      Leaves-if ((length v == 4 && memieq str_http v) || (length v == 5 && memieq str_https v))
        same_bits same_bits

  record_content_length-Leaves : Leaves (core s.flags) (record_content_length s v)
  unfolding record_content_length
  record_content_length-Leaves =
      Leaves-if (is_some s.content_length) same_bits (elim (Option-cases (parse_uint v)) [
        | inl e ↦ rw e same_bits
        | inr (n, e) ↦ rw e same_bits
      ])

  check_te-Leaves : Leaves (core s.flags) (check_te s v)
  unfolding check_te
  check_te-Leaves = Leaves-if (not (lstrieq str_trailers v)) same_bits same_bits

check_pseudo_step :
    (s t : Stream) (nv : Nv) (b : Bool) (f : Flags)
    → check_pseudo_header s nv b f ≡ (t, none)
    → (b ≡ false) × (t ≡ with_flags s f)
unfolding check_pseudo_header
check_pseudo_step s t nv true f h = cc
check_pseudo_step s t nv false f h = elim (Bool-cases (lws nv.value)) [
  | inl blank ↦ cc (rw blank at h)
  | inr text ↦ (refl, ap (λ (o : Outcome). o.0) (sym (rw text at h)))
]

left-core : {c : Core} {o : Outcome} (t : Stream) → Leaves c o → o ≡ (t, none) → core t.flags ≡ c
left-core t l h = sym (ap (λ (x : Outcome). core x.0.flags) h) ∙ l.bits

marked_then :
    (s t : Stream) (nv : Nv) (b : Bool) (f : Flags) (k : Stream → Outcome)
    → ((r : Stream) → Leaves (core r.flags) (k r))
    → after (check_pseudo_header s nv b f) k ≡ (t, none)
    → (b ≡ false) × (core t.flags ≡ core f)
marked_then s t nv b f k keeps h =
    let (r, marked, rest) = after-none (check_pseudo_header s nv b f) k t h in
    let (new, e) = check_pseudo_step s r nv b f marked in
    (new, left-core t (keeps r) rest ∙ ap (λ (x : Stream). core x.flags) e)

abbrev pub mark : Token → Core → Core
mark authority (a, m, p, s, h, d) = (true, m, p, s, h, d)
mark method (a, m, p, s, h, d) = (a, true, p, s, h, d)
mark path (a, m, p, s, h, d) = (a, m, true, s, h, d)
mark scheme (a, m, p, s, h, d) = (a, m, p, true, h, d)
mark host (a, m, p, s, h, d) = (a, m, p, s, true, d)
mark _ c = c

refused : (s t : Stream) → refuse s ≢ (t, none)
refused s t h = cc

if_refused :
    (b : Bool) (s t : Stream) (o : Outcome)
    → (if b then refuse s else o) ≡ (t, none)
    → o ≡ (t, none)
if_refused true s t o h = absurd (refused s t h)
if_refused false s t o h = h

-- A field of the token `a` was not seen before, if that is remembered, and it is now.
abbrev pub Marks : Token → Core → Core → Type 0
Marks a c d = (number a < 99 → seen c a ≡ false) × (d ≡ mark a c)

module _ (s t : Stream) (nv : Nv) where
  pseudo_Marks :
      (a : Token) (f : Flags)
      → check_pseudo_header s nv (seen (core s.flags) a) f ≡ (t, none)
      → core f ≡ mark a (core s.flags)
      → Marks a (core s.flags) (core t.flags)
  pseudo_Marks a f h m =
      let (new, e) = check_pseudo_step s t nv (seen (core s.flags) a) f h in
      (λ l. new, ap (λ (x : Stream). core x.flags) e ∙ m)

  after_pseudo_Marks :
      (a : Token) (f : Flags) (k : Stream → Outcome)
      → ((r : Stream) → Leaves (core r.flags) (k r))
      → after (check_pseudo_header s nv (seen (core s.flags) a) f) k ≡ (t, none)
      → core f ≡ mark a (core s.flags)
      → Marks a (core s.flags) (core t.flags)
  after_pseudo_Marks a f k keeps h m =
      let (new, e) = marked_then s t nv (seen (core s.flags) a) f k keeps h in (λ l. new, e ∙ m)

  other_Marks :
      (a : Token) (o : Outcome)
      → number a ≡ 99
      → mark a (core s.flags) ≡ core s.flags
      → Leaves (core s.flags) o
      → o ≡ (t, none)
      → Marks a (core s.flags) (core t.flags)
  other_Marks a o e m keeps h = (λ l. absurd (omega arith), left-core t keeps h ∙ sym m)

  other_field-Leaves : Leaves (core s.flags) (other_field s nv)
  other_field-Leaves = Leaves-if (is_pseudo nv) same_bits same_bits

  pub request_field-Marks :
      (a : Token) → request_field s nv a ≡ (t, none) → Marks a (core s.flags) (core t.flags)
  unfolding request_field
  request_field-Marks authority h = pseudo_Marks authority _ h refl
  request_field-Marks host h = pseudo_Marks host _ h refl
  request_field-Marks method h =
      after_pseudo_Marks method _ _ (λ r. record_method-Leaves r nv.value) h refl
  request_field-Marks path h =
      after_pseudo_Marks path _ _ (λ r. record_path-Leaves r nv.value)
        (if_refused s.flags.meth_connect s t _ h) refl
  request_field-Marks scheme h =
      after_pseudo_Marks scheme _ _ (λ r. record_scheme-Leaves r nv.value)
        (if_refused s.flags.meth_connect s t _ h) refl
  request_field-Marks content_length h =
      other_Marks content_length _ refl refl (record_content_length-Leaves s nv.value) h
  request_field-Marks te h = other_Marks te _ refl refl (check_te-Leaves s nv.value) h
  request_field-Marks status h = other_Marks status _ refl refl other_field-Leaves h
  request_field-Marks unlisted h = other_Marks unlisted _ refl refl other_field-Leaves h
  request_field-Marks connection h = absurd (refused s t h)
  request_field-Marks keep_alive h = absurd (refused s t h)
  request_field-Marks proxy_connection h = absurd (refused s t h)
  request_field-Marks transfer_encoding h = absurd (refused s t h)
  request_field-Marks upgrade h = absurd (refused s t h)
