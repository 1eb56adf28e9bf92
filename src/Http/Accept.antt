-- ===== src/Http/Accept.antt =====
-- What is known of a field when nghttp2_http_on_header returns 0.
use kitura_http.Prelude.{
  ◌≡◌, ◌≢◌, refl, sym, ap, Bool, true, false, none, some, Bool-cases, inl, inr, if◌then◌else◌,
  arith,
}
use kitura_http.Http.{Stream, Nv, Outcome, after}
use kitura_http.Http.Chars.{check_header_name}
use kitura_http.Http.Field.{
  check_value, http_on_header, bad_name, bad_value, request_on_header, response_on_header,
  request_field, closed, close_pseudo, is_pseudo, disallow,
}

bad_name-refuses : (s t : Stream) (nv : Nv) → bad_name s nv ≢ (t, none)
unfolding bad_name
bad_name-refuses s t nv h = ground arith

bad_value-refuses : (s t : Stream) (nv : Nv) → bad_value s nv ≢ (t, none)
unfolding bad_value
bad_value-refuses s t nv h = ground arith

pub http_on_header_checked :
    (request : Bool) (s t : Stream) (nv : Nv) (trailer : Bool)
    → http_on_header request s nv trailer ≡ (t, none)
    → (check_header_name nv.name ≡ true)
      × (check_value nv.value nv.token ≡ true)
      × ((if request then request_on_header s nv trailer else response_on_header s nv trailer)
          ≡ (t, none))
unfolding http_on_header
http_on_header_checked request s t nv trailer h = elim (Bool-cases (check_header_name nv.name)) [
  | inr bad ↦ absurd (bad_name-refuses s t nv (rw bad at h))
  | inl name ↦ elim (Bool-cases (check_value nv.value nv.token)) [
    | inr bad ↦ absurd (bad_value-refuses s t nv (rw (name, bad) at h))
    | inl value ↦ (name, value, rw (name, value) at h)
  ]
]

pub after-none :
    (o : Outcome) (k : Stream → Outcome) (t : Stream)
    → after o k ≡ (t, none)
    → (r : Stream) × (o ≡ (r, none)) × (k r ≡ (t, none))
after-none (s, none) k t h = (s, refl, h)
after-none (s, some e) k t h = cc

close_pseudo-none :
    (nv : Nv) (r t : Stream)
    → close_pseudo nv r ≡ (t, none)
    → t ≡ (if is_pseudo nv then r else disallow r)
close_pseudo-none nv r t h = elim (Bool-cases (is_pseudo nv)) [
  | inl colon ↦ rw colon (ap (λ (o : Outcome). o.0) (sym (rw colon at h)))
  | inr plain ↦ rw plain (ap (λ (o : Outcome). o.0) (sym (rw plain at h)))
]

request_on_header-none :
    (s t : Stream) (nv : Nv) (trailer : Bool)
    → request_on_header s nv trailer ≡ (t, none)
    → (closed s nv trailer ≡ false)
      × (after (request_field s nv nv.token) (close_pseudo nv) ≡ (t, none))
unfolding request_on_header
request_on_header-none s t nv trailer h = elim (Bool-cases (closed s nv trailer)) [
  | inl shut ↦ cc (rw shut at h)
  | inr free ↦ (free, rw free at h)
]

-- A field of a request passed the switch, and closed the pseudo headers if it is a regular one.
pub http_on_header_request :
    (s t : Stream) (nv : Nv) (trailer : Bool)
    → http_on_header true s nv trailer ≡ (t, none)
    → (closed s nv trailer ≡ false)
      × (r : Stream) × (request_field s nv nv.token ≡ (r, none))
      × (t ≡ (if is_pseudo nv then r else disallow r))
http_on_header_request s t nv trailer h =
    let (name, value, rest) = http_on_header_checked true s t nv trailer h in
    let (free, passed) = request_on_header-none s t nv trailer rest in
    let (r, field, close) = after-none (request_field s nv nv.token) (close_pseudo nv) t passed in
    (free, r, field, close_pseudo-none nv r t close)
