-- ===== src/Http/Message.antt =====
-- Sources/nghttp2/nghttp2_http.c: a message at the end of its header fields, in its data, and at its
-- end. `none` is the return value -1, after which the stream is not used any more.
use kitura_http.Prelude.{
  ℕ, ◌+◌, List, [], ◌∷◌, Bool, true, false, not, ◌&&◌, ◌||◌, Option, none, some, length, take,
  get_or, ltb, ◌==◌, if◌then◌else◌, test_bit,
}
use kitura_http.Frame.{FrameHd, flag_end_stream, type_push_promise}
use kitura_http.Http.{Flags, Stream, no_flags}
use kitura_http.Http.Chars.{lstreq}
use kitura_http.Http.Number.{equals, class_is}
use kitura_http.Http.Field.{str_connect, str_head, with_flags}

unfoldable pub expect_response_body : Stream → Bool
expect_response_body s =
    not s.flags.meth_head
    && (not (class_is s.status_code 1)
        && (not (equals s.status_code 304) && not (equals s.status_code 204)))

unfoldable pub check_path : Stream → Bool
check_path s =
    not s.flags.scheme_http
    || (s.flags.path_regular || (s.flags.meth_options && s.flags.path_asterisk))

-- `http_flags & NGHTTP2_HTTP_FLAG_METH_ALL`.
abbrev pub method_flags : Flags → Flags
method_flags f = record no_flags {
  meth_connect = f.meth_connect;
  meth_head = f.meth_head;
  meth_options = f.meth_options;
  meth_upgrade_workaround = f.meth_upgrade_workaround;
}

-- `(http_flags & NGHTTP2_HTTP_FLAG_REQ_HEADERS) == NGHTTP2_HTTP_FLAG_REQ_HEADERS`.
abbrev pub req_headers : Flags → Bool
req_headers f = f.method && (f.path && f.scheme)

-- The end of nghttp2_http_on_request_headers: a promised stream is made ready for its response.
abbrev pub promised : FrameHd → Stream → Option Stream
promised hd s =
    if hd.type == type_push_promise
    then some (record s { flags = method_flags s.flags; content_length = none })
    else some s

unfoldable pub on_request_headers : Stream → FrameHd → Option Stream
unfolding check_path
on_request_headers s hd =
    if s.flags.meth_connect
    then (if not s.flags.authority then none else promised hd (record s { content_length = none }))
    else if not (req_headers s.flags) || not (s.flags.authority || s.flags.host)
    then none
    else if not (check_path s)
    then none
    else promised hd s

-- The end of nghttp2_http_on_response_headers.
abbrev final_response : Stream → Stream
final_response s =
    if not (expect_response_body s)
    then record s { content_length = some 0 }
    else if s.flags.meth_connect || s.flags.meth_upgrade_workaround
    then record s { content_length = none }
    else s

unfoldable pub on_response_headers : Stream → Option Stream
unfolding expect_response_body
on_response_headers s =
    if not s.flags.status
    then none
    else if class_is s.status_code 1
    then some (record s {
      flags = record (method_flags s.flags) { expect_final_response = true };
      content_length = none;
      status_code = none;
    })
    else some (final_response (with_flags s (record s.flags { expect_final_response = false })))

unfoldable pub on_trailer_headers : Stream → FrameHd → Option Stream
on_trailer_headers s hd = if not (test_bit hd.flags flag_end_stream) then none else some s

abbrev differs : Option ℕ → ℕ → Bool
differs none n = false
differs (some m) n = not (m == n)

unfoldable pub on_remote_end_stream : Stream → Option Stream
on_remote_end_stream s =
    if s.flags.expect_final_response
    then none
    else if differs s.content_length s.recv_content_length
    then none
    else some s

abbrev pub exceeds : ℕ → Option ℕ → Bool
exceeds n none = false
exceeds n (some m) = ltb m n

-- The count is an int64_t, which no connection fills.
unfoldable pub on_data_chunk : Stream → ℕ → Option Stream
on_data_chunk s n =
    let r = record s { recv_content_length = s.recv_content_length + n } in
    if r.flags.expect_final_response || exceeds r.recv_content_length r.content_length
    then none
    else some r

-- A field of a frame that is sent: nghttp2_nv without its flags.
abbrev is_method : List ℕ → Bool
is_method name =
    length name == 7
    && (get_or name 6 0 == b'd'
        && lstreq (b':' ∷ b'm' ∷ b'e' ∷ b't' ∷ b'h' ∷ b'o' ∷ []) (take 6 name))

abbrev sent_method : Stream → List ℕ → Stream
sent_method s value =
    if lstreq str_connect value
    then with_flags s (record s.flags { meth_connect = true })
    else if lstreq str_head value
    then with_flags s (record s.flags { meth_head = true })
    else s

-- nghttp2_http_record_request_method on the fields of a HEADERS or PUSH_PROMISE: only the first
-- `:method` counts.
unfoldable pub record_request_method : Stream → List (List ℕ × List ℕ) → Stream
unfolding lstreq
record_request_method s [] = s
record_request_method s ((name, value) ∷ nva) =
    let rest = record_request_method s nva in if is_method name then sent_method s value else rest
