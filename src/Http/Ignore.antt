-- ===== src/Http/Ignore.antt =====
-- The fields of a request that nghttp2_http_on_header ignores.
use kitura_http.Prelude.{
  ℕ, ◌%◌, ◌≡◌, ◌≢◌, sym, ap, List, Bool, true, false, ◌&&◌, ◌||◌, not, none, some, ◌==◌, length,
  get_or, if◌then◌else◌, Bool-cases, Option-cases, inl, inr,
}
use kitura_http.Result.{ign_http_header, http_header}
use kitura_http.Http.{
  Flags, Stream, Token, authority, method, path, scheme, status, host, content_length, connection,
  keep_alive, proxy_connection, transfer_encoding, upgrade, te, unlisted, Nv, Outcome, after,
}
use kitura_http.Http.Chars.{lws, lstreq, lstrieq, memieq, check_header_name, all, is_upper}
use kitura_http.Http.Number.{parse_uint, is_some}
use kitura_http.Http.Field.{
  request_field, check_pseudo_header, record_method, record_path, record_scheme,
  record_content_length, check_te, request_on_header, http_on_header, refuse, disallow, is_pseudo,
  closed, close_pseudo, other_field, str_head, str_connect, str_options, str_http, str_https,
  str_trailers, bad_name, bad_value, check_value,
}

-- The field is not ignored.
record Strict (o : Outcome) : Type 0 where
  answer : o.1 ≢ some ign_http_header

Strict-if : {x y : Outcome} (b : Bool) → Strict x → Strict y → Strict (if b then x else y)
Strict-if true p q = p
Strict-if false p q = q

Strict-after :
    (o : Outcome) (k : Stream → Outcome)
    → Strict o
    → ((r : Stream) → Strict (k r))
    → Strict (after o k)
Strict-after (s, none) k p q = q s
Strict-after (s, some e) k p q = record { answer = p.answer }

accepts : {s : Stream} → Strict (s, none)
accepts = record { answer = λ h. cc }

refuses : {s : Stream} → Strict (s, some http_header)
refuses = record { answer = λ h. cc }

module _ (s : Stream) (v : List ℕ) where
  record_method-Strict : Strict (record_method s v)
  unfolding record_method
  record_method-Strict = Strict-if (lstreq str_head v) accepts (
      Strict-if (lstreq str_connect v)
        (Strict-if (s.stream_id % 2 == 0) refuses
          (Strict-if (s.flags.path || s.flags.scheme) refuses accepts))
        (Strict-if (lstreq str_options v) accepts accepts))

  record_path-Strict : Strict (record_path s v)
  unfolding record_path
  record_path-Strict =
      Strict-if (get_or v 0 0 == b'/') accepts
        (Strict-if (length v == 1 && get_or v 0 0 == b'*') accepts accepts)

  record_scheme-Strict : Strict (record_scheme s v)
  unfolding record_scheme
  record_scheme-Strict =
      Strict-if ((length v == 4 && memieq str_http v) || (length v == 5 && memieq str_https v))
        accepts accepts

  record_content_length-Strict : Strict (record_content_length s v)
  unfolding record_content_length
  record_content_length-Strict =
      Strict-if (is_some s.content_length) refuses
        (elim (Option-cases (parse_uint v)) [ inl e ↦ rw e refuses | inr (n, e) ↦ rw e accepts ])

  check_te-Strict : Strict (check_te s v)
  unfolding check_te
  check_te-Strict = Strict-if (not (lstrieq str_trailers v)) refuses accepts

module _ (s : Stream) (nv : Nv) where
  check_pseudo_header-Strict : (b : Bool) (f : Flags) → Strict (check_pseudo_header s nv b f)
  unfolding check_pseudo_header
  check_pseudo_header-Strict b f = Strict-if b refuses (Strict-if (lws nv.value) refuses accepts)

  other_field-Strict : Strict (other_field s nv)
  other_field-Strict = Strict-if (is_pseudo nv) refuses accepts

  request_field-Strict : (a : Token) → Strict (request_field s nv a)
  unfolding request_field
  request_field-Strict authority = check_pseudo_header-Strict _ _
  request_field-Strict host = check_pseudo_header-Strict _ _
  request_field-Strict method =
      Strict-after _ _ (check_pseudo_header-Strict _ _) (λ r. record_method-Strict r nv.value)
  request_field-Strict path =
      Strict-if s.flags.meth_connect refuses
        (Strict-after _ _ (check_pseudo_header-Strict _ _) (λ r. record_path-Strict r nv.value))
  request_field-Strict scheme =
      Strict-if s.flags.meth_connect refuses
        (Strict-after _ _ (check_pseudo_header-Strict _ _) (λ r. record_scheme-Strict r nv.value))
  request_field-Strict content_length = record_content_length-Strict s nv.value
  request_field-Strict te = check_te-Strict s nv.value
  request_field-Strict status = other_field-Strict
  request_field-Strict unlisted = other_field-Strict
  request_field-Strict connection = refuses
  request_field-Strict keep_alive = refuses
  request_field-Strict proxy_connection = refuses
  request_field-Strict transfer_encoding = refuses
  request_field-Strict upgrade = refuses

  request_on_header-Strict : (trailer : Bool) → Strict (request_on_header s nv trailer)
  unfolding request_on_header
  request_on_header-Strict trailer = Strict-if (closed s nv trailer) refuses (
      Strict-after (request_field s nv nv.token) (close_pseudo nv) (request_field-Strict nv.token)
        (λ r. Strict-if (not (is_pseudo nv)) accepts accepts))

bad_value-disallow :
    (s t : Stream) (nv : Nv) → bad_value s nv ≡ (t, some ign_http_header) → t ≡ disallow s
unfolding bad_value
bad_value-disallow s t nv h = elim (Bool-cases (is_pseudo nv)) [
  | inl colon ↦ cc (rw colon at h)
  | inr plain ↦ ap (λ (o : Outcome). o.0) (sym (rw plain at h))
]

bad_name-disallow :
    (s t : Stream) (nv : Nv) → bad_name s nv ≡ (t, some ign_http_header) → t ≡ disallow s
unfolding bad_name
bad_name-disallow s t nv h = elim (Bool-cases (is_pseudo nv)) [
  | inl colon ↦ cc (rw colon at h)
  | inr plain ↦ by_case (all (λ c. not (is_upper c)) nv.name) (rw plain at h)
]
  where
    by_case :
        (b : Bool)
        → (if not b then refuse s else (disallow s, some ign_http_header))
          ≡ (t, some ign_http_header)
        → t ≡ disallow s
    by_case true e = ap (λ (o : Outcome). o.0) (sym e)
    by_case false e = cc

pub http_on_header_ignored :
    (s t : Stream) (nv : Nv) (trailer : Bool)
    → http_on_header true s nv trailer ≡ (t, some ign_http_header)
    → t ≡ disallow s
unfolding http_on_header
http_on_header_ignored s t nv trailer h = elim (Bool-cases (check_header_name nv.name)) [
  | inr bad ↦ bad_name-disallow s t nv (rw bad at h)
  | inl name ↦ elim (Bool-cases (check_value nv.value nv.token)) [
    | inr bad ↦ bad_value-disallow s t nv (rw (name, bad) at h)
    | inl value ↦ absurd (
        (request_on_header-Strict s nv trailer).answer
          (ap (λ (o : Outcome). o.1) (rw (name, value) at h)))
  ]
]
