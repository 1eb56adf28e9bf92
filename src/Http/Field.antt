-- ===== src/Http/Field.antt =====
-- Sources/nghttp2/nghttp2_http.c: what each header field does to its stream.
use kitura_http.Prelude.{
  ℕ, ◌%◌, List, [], ◌∷◌, Bool, true, not, ◌&&◌, ◌||◌, Option, none, some, length, get_or, ◌==◌,
  if◌then◌else◌,
}
use kitura_http.Result.{http_header, ign_http_header, remove_http_header}
use kitura_http.Http.{
  Flags, Stream, Token, authority, method, path, scheme, status, host, content_length, connection,
  keep_alive, proxy_connection, transfer_encoding, upgrade, te, unlisted, Nv, Outcome, after,
}
use kitura_http.Http.Chars.{
  is_upper, all, check_header_name, check_header_value, check_authority, check_scheme, memieq,
  lstrieq, lstreq, lws,
}
use kitura_http.Http.Number.{parse_uint, is_some, equals, class_is}

abbrev pub ok_with : Stream → Outcome
ok_with s = (s, none)

abbrev pub refuse : Stream → Outcome
refuse s = (s, some http_header)

-- `http_flags` with one bit more.
abbrev pub with_flags : Stream → Flags → Stream
with_flags s f = record s { flags = f }

-- `nv->name->base[0] == ':'`.
abbrev pub is_pseudo : Nv → Bool
is_pseudo nv = get_or nv.name 0 0 == b':'

-- check_pseudo_header, from the bit of `flag` and the flags with that bit set.
unfoldable pub check_pseudo_header : Stream → Nv → Bool → Flags → Outcome
unfolding lws
check_pseudo_header s nv seen marked =
    if seen then refuse s else if lws nv.value then refuse s else ok_with (with_flags s marked)

abbrev pub str_head : List ℕ
str_head = b'H' ∷ b'E' ∷ b'A' ∷ b'D' ∷ []

abbrev pub str_connect : List ℕ
str_connect = b'C' ∷ b'O' ∷ b'N' ∷ b'N' ∷ b'E' ∷ b'C' ∷ b'T' ∷ []

abbrev pub str_options : List ℕ
str_options = b'O' ∷ b'P' ∷ b'T' ∷ b'I' ∷ b'O' ∷ b'N' ∷ b'S' ∷ []

abbrev pub str_http : List ℕ
str_http = b'h' ∷ b't' ∷ b't' ∷ b'p' ∷ []

abbrev pub str_https : List ℕ
str_https = b'h' ∷ b't' ∷ b't' ∷ b'p' ∷ b's' ∷ []

abbrev pub str_trailers : List ℕ
str_trailers = b't' ∷ b'r' ∷ b'a' ∷ b'i' ∷ b'l' ∷ b'e' ∷ b'r' ∷ b's' ∷ []

-- CONNECT sets its bit, also where it is then refused for a path or a scheme.
abbrev connect_method : Stream → Outcome
connect_method s =
    if s.stream_id % 2 == 0
    then refuse s
    else if s.flags.path || s.flags.scheme
    then refuse (with_flags s (record s.flags { meth_connect = true }))
    else ok_with (with_flags s (record s.flags { meth_connect = true }))

-- The two switches on the length and on the last letter; the texts differ in these.
unfoldable pub record_method : Stream → List ℕ → Outcome
unfolding lstreq
record_method s value =
    if lstreq str_head value
    then ok_with (with_flags s (record s.flags { meth_head = true }))
    else if lstreq str_connect value
    then connect_method s
    else if lstreq str_options value
    then ok_with (with_flags s (record s.flags { meth_options = true }))
    else ok_with s

unfoldable pub record_path : Stream → List ℕ → Outcome
record_path s value =
    if get_or value 0 0 == b'/'
    then ok_with (with_flags s (record s.flags { path_regular = true }))
    else if length value == 1 && get_or value 0 0 == b'*'
    then ok_with (with_flags s (record s.flags { path_asterisk = true }))
    else ok_with s

unfoldable pub record_scheme : Stream → List ℕ → Outcome
unfolding memieq
record_scheme s value =
    if (length value == 4 && memieq str_http value) || (length value == 5 && memieq str_https value)
    then ok_with (with_flags s (record s.flags { scheme_http = true }))
    else ok_with s

abbrev parsed_length : Stream → Option ℕ → Outcome
parsed_length s none = refuse s
parsed_length s (some n) = ok_with (record s { content_length = some n })

unfoldable pub record_content_length : Stream → List ℕ → Outcome
unfolding parse_uint
record_content_length s value =
    if is_some s.content_length then refuse s else parsed_length s (parse_uint value)

unfoldable pub check_te : Stream → List ℕ → Outcome
unfolding lstrieq
check_te s value = if not (lstrieq str_trailers value) then refuse s else ok_with s

-- The `default` of the switches.
abbrev pub other_field : Stream → Nv → Outcome
other_field s nv = if is_pseudo nv then refuse s else ok_with s

-- The switch of http_request_on_header.
unfoldable pub request_field : Stream → Nv → Token → Outcome
unfolding check_pseudo_header record_method record_path record_scheme record_content_length check_te
request_field s nv authority =
    check_pseudo_header s nv s.flags.authority (record s.flags { authority = true })
request_field s nv method =
    after (check_pseudo_header s nv s.flags.method (record s.flags { method = true }))
      (λ t. record_method t nv.value)
request_field s nv path =
    if s.flags.meth_connect
    then refuse s
    else after (check_pseudo_header s nv s.flags.path (record s.flags { path = true }))
        (λ t. record_path t nv.value)
request_field s nv scheme =
    if s.flags.meth_connect
    then refuse s
    else after (check_pseudo_header s nv s.flags.scheme (record s.flags { scheme = true }))
        (λ t. record_scheme t nv.value)
request_field s nv host = check_pseudo_header s nv s.flags.host (record s.flags { host = true })
request_field s nv content_length = record_content_length s nv.value
request_field s nv connection = refuse s
request_field s nv keep_alive = refuse s
request_field s nv proxy_connection = refuse s
request_field s nv transfer_encoding = refuse s
request_field s nv upgrade = refuse s
request_field s nv te = check_te s nv.value
request_field s nv status = other_field s nv
request_field s nv unlisted = other_field s nv

-- How both functions start and end: a pseudo header is refused in a trailer and behind a regular
-- field, and a regular field closes the pseudo headers.
abbrev pub closed : Stream → Nv → Bool → Bool
closed s nv trailer = is_pseudo nv && (trailer || s.flags.pseudo_header_disallowed)

abbrev pub disallow : Stream → Stream
disallow s = with_flags s (record s.flags { pseudo_header_disallowed = true })

abbrev pub close_pseudo : Nv → Stream → Outcome
close_pseudo nv s = if not (is_pseudo nv) then ok_with (disallow s) else ok_with s

unfoldable pub request_on_header : Stream → Nv → Bool → Outcome
unfolding request_field
request_on_header s nv trailer =
    if closed s nv trailer then refuse s else after (request_field s nv nv.token) (close_pseudo nv)

-- The status has three bytes, so that the cast to int16_t keeps it.
abbrev parsed_status : Stream → Option ℕ → Outcome
parsed_status s none = refuse (record s { status_code = none })
parsed_status s (some n) = ok_with (record s { status_code = some n })

unfoldable pub record_status : Stream → List ℕ → Outcome
unfolding parse_uint
record_status s value =
    if not (length value == 3) then refuse s else parsed_status s (parse_uint value)

-- The content length of a response. That of a 204 is taken out if it is "0".
unfoldable pub response_content_length : Stream → List ℕ → Outcome
unfolding record_content_length lstrieq
response_content_length s value =
    if equals s.status_code 204
    then (if is_some s.content_length
        then refuse s
        else if not (lstrieq (b'0' ∷ []) value)
        then refuse s
        else (record s { content_length = some 0 }, some remove_http_header))
    else if class_is s.status_code 1 || (equals s.status_code 200 && s.flags.meth_connect)
    then refuse s
    else record_content_length s value

-- The switch of http_response_on_header.
unfoldable pub response_field : Stream → Nv → Token → Outcome
unfolding check_pseudo_header record_status response_content_length check_te
response_field s nv status =
    after (check_pseudo_header s nv s.flags.status (record s.flags { status = true }))
      (λ t. record_status t nv.value)
response_field s nv content_length = response_content_length s nv.value
response_field s nv connection = refuse s
response_field s nv keep_alive = refuse s
response_field s nv proxy_connection = refuse s
response_field s nv transfer_encoding = refuse s
response_field s nv upgrade = refuse s
response_field s nv te = check_te s nv.value
response_field s nv authority = other_field s nv
response_field s nv method = other_field s nv
response_field s nv path = other_field s nv
response_field s nv scheme = other_field s nv
response_field s nv host = other_field s nv
response_field s nv unlisted = other_field s nv

unfoldable pub response_on_header : Stream → Nv → Bool → Outcome
unfolding response_field
response_on_header s nv trailer =
    if closed s nv trailer then refuse s else after (response_field s nv nv.token) (close_pseudo nv)

-- A field with a bad name or value: a pseudo header is refused, a regular field is ignored.
abbrev pub ignore : Stream → Outcome
ignore s = (disallow s, some ign_http_header)

unfoldable pub bad_name : Stream → Nv → Outcome
bad_name s nv =
    if is_pseudo nv
    then refuse s
    else if not (all (λ c. not (is_upper c)) nv.name)
    then refuse s
    else ignore s

unfoldable pub bad_value : Stream → Nv → Outcome
bad_value s nv = if is_pseudo nv then refuse s else ignore s

-- The check of the value that the token asks for.
unfoldable pub check_value : List ℕ → Token → Bool
unfolding check_header_value check_authority check_scheme
check_value value authority = check_authority value
check_value value host = check_authority value
check_value value scheme = check_scheme value
check_value value _ = check_header_value value

-- nghttp2_http_on_header; `request` is `session->server || frame->hd.type == NGHTTP2_PUSH_PROMISE`.
unfoldable pub http_on_header : Bool → Stream → Nv → Bool → Outcome
unfolding check_header_name check_value bad_name bad_value request_on_header response_on_header
http_on_header request s nv trailer =
    if not (check_header_name nv.name)
    then bad_name s nv
    else if not (check_value nv.value nv.token)
    then bad_value s nv
    else if request
    then request_on_header s nv trailer
    else response_on_header s nv trailer
