-- ===== src/Http/Tests.antt =====
-- A GET request, and the theorems at it.
use kitura_http.Prelude.{ℕ, ◌≡◌, refl, List, [], ◌∷◌, true, false, none, some, ◌==◌, arith, All}
use kitura_http.Result.{http_header, remove_http_header}
use kitura_http.Wire.{downcase}
use kitura_http.Frame.{FrameHd}
use kitura_http.Http.{
  Stream, stream_init, no_flags, Token, authority, method, path, scheme, content_length, unlisted,
  Nv,
}
use kitura_http.Http.Number.{parse_uint, is_some}
use kitura_http.Http.Field.{http_on_header, str_head, str_https, response_on_header}
use kitura_http.Http.Message.{
  on_request_headers, on_response_headers, on_trailer_headers, record_request_method,
}
use kitura_http.Http.Digits.{decimal_uint, parse_uint-decimal_uint}
use kitura_http.Http.Body.{receive, receive-exact}
use kitura_http.Http.Safety.{IsLineSafe, http_on_header_safe}
use kitura_http.Http.Once.{Run, stop, accept, ignore, PseudoFirst, Run-PseudoFirst}
use kitura_http.Http.Request.{IsComplete, request-IsComplete}

abbrev field : Token → List ℕ → List ℕ → Nv
field t name value = record { name = name; value = value; token = t }

abbrev method_get : Nv
method_get =
    field method (b':' ∷ b'm' ∷ b'e' ∷ b't' ∷ b'h' ∷ b'o' ∷ b'd' ∷ []) (b'G' ∷ b'E' ∷ b'T' ∷ [])

abbrev scheme_https : Nv
scheme_https = field scheme (b':' ∷ b's' ∷ b'c' ∷ b'h' ∷ b'e' ∷ b'm' ∷ b'e' ∷ []) str_https

abbrev path_root : Nv
path_root = field path (b':' ∷ b'p' ∷ b'a' ∷ b't' ∷ b'h' ∷ []) (b'/' ∷ [])

abbrev authority_a : Nv
authority_a =
    field authority (b':' ∷ b'a' ∷ b'u' ∷ b't' ∷ b'h' ∷ b'o' ∷ b'r' ∷ b'i' ∷ b't' ∷ b'y' ∷ [])
      (b'a' ∷ [])

abbrev length_12 : Nv
length_12 = field content_length (b'l' ∷ []) (b'1' ∷ b'2' ∷ [])

abbrev split_value : Nv
split_value = field unlisted (b'x' ∷ []) (b'a' ∷ 13 ∷ 10 ∷ [])

abbrev fields : List Nv
fields = method_get ∷ scheme_https ∷ path_root ∷ authority_a ∷ length_12 ∷ []

abbrev taken : Stream
taken = record {
  stream_id = 1;
  flags = record no_flags {
    authority = true;
    path = true;
    method = true;
    scheme = true;
    pseudo_header_disallowed = true;
    path_regular = true;
    scheme_http = true;
  };
  content_length = some 12;
  recv_content_length = 0;
  status_code = none;
}

-- The field that would split a line is ignored.
get_Run : Run (stream_init 1) fields taken
unfolding stream_init http_on_header
get_Run =
    accept refl
      (accept refl (accept refl (accept refl (ignore split_value refl (accept refl stop)))))

second_method : http_on_header true taken method_get false ≡ (taken, some http_header)
unfolding http_on_header
second_method = refl

response_204 :
    (response_on_header
      (record taken { status_code = some 204; content_length = none })
      (field content_length (b'l' ∷ []) (b'0' ∷ []))
      false).1
    ≡ some remove_http_header
unfolding response_on_header
response_204 = refl

abbrev hd : FrameHd
hd = record { len = 0; type = 1; flags = 5; stream_id = 1; reserved = 0 }

taken_end : on_request_headers taken hd ≡ some taken
unfolding on_request_headers
taken_end = refl

no_status : on_response_headers taken ≡ none
unfolding on_response_headers
no_status = refl

trailer_ends : on_trailer_headers taken hd ≡ some taken
unfolding on_trailer_headers
trailer_ends = refl

sent_head :
    (record_request_method (stream_init 1) ((method_get.name, str_head) ∷ [])).flags
    ≡ record no_flags { meth_head = true }
unfolding record_request_method stream_init
sent_head = refl

too_long :
    parse_uint (
      b'9' ∷ b'2' ∷ b'2' ∷ b'3' ∷ b'3' ∷ b'7' ∷ b'2' ∷ b'0' ∷ b'3' ∷ b'6' ∷ b'8' ∷ b'5' ∷ b'4'
      ∷ b'7' ∷ b'7' ∷ b'5' ∷ b'8' ∷ b'0' ∷ b'8' ∷ [])
    ≡ none
unfolding parse_uint
too_long = refl

parse_uint-decimal_uint_example : parse_uint (b'1' ∷ b'2' ∷ []) ≡ decimal_uint (b'1' ∷ b'2' ∷ [])
parse_uint-decimal_uint_example = parse_uint-decimal_uint (b'1' ∷ b'2' ∷ [])

receive-exact_example : is_some (receive taken (4 ∷ 8 ∷ [])) ≡ (12 == 12)
receive-exact_example =
    receive-exact taken 12 (4 ∷ 8 ∷ [])
      (record { final = refl; declared = refl; within = omega arith })

http_on_header_safe_example :
    (downcase method_get.name ≡ method_get.name) × All IsLineSafe method_get.value
unfolding stream_init http_on_header
http_on_header_safe_example = http_on_header_safe true (stream_init 1) _ method_get false refl

Run-PseudoFirst_example : PseudoFirst fields
Run-PseudoFirst_example = Run-PseudoFirst get_Run

request-IsComplete_example : IsComplete fields
request-IsComplete_example = request-IsComplete 1 fields taken taken hd get_Run taken_end refl
