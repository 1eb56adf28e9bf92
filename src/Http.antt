-- ===== src/Http.antt =====
-- Sources/nghttp2/nghttp2_http.c: the rules of HTTP messages over HTTP/2 (RFC 7540, 8.1.2), and the
-- character tables of nghttp2_helper.c. `http_flags` is a record of Booleans, one for each bit.
pub mod Chars
pub mod Number
pub mod Field
pub mod Message
pub mod Accept
pub mod Ignore
pub mod Safety
pub mod Digits
pub mod Marks
pub mod Once
pub mod Request
pub mod Body
pub mod Tests
use kitura_http.Prelude.{ℕ, List, Bool, true, false, Option, none, some}
use kitura_http.Result.{Error}

-- The bits of nghttp2_http_flag that the code tests.
pub record Flags : Type 0 where
  pub authority : Bool
  pub path : Bool
  pub method : Bool
  pub scheme : Bool
  pub host : Bool
  pub status : Bool
  pub pseudo_header_disallowed : Bool
  pub meth_connect : Bool
  pub meth_head : Bool
  pub meth_options : Bool
  pub meth_upgrade_workaround : Bool
  pub path_regular : Bool
  pub path_asterisk : Bool
  pub scheme_http : Bool
  pub expect_final_response : Bool

-- NGHTTP2_HTTP_FLAG_NONE.
abbrev pub no_flags : Flags
no_flags = record {
  authority = false;
  path = false;
  method = false;
  scheme = false;
  host = false;
  status = false;
  pseudo_header_disallowed = false;
  meth_connect = false;
  meth_head = false;
  meth_options = false;
  meth_upgrade_workaround = false;
  path_regular = false;
  path_asterisk = false;
  scheme_http = false;
  expect_final_response = false;
}

-- The members of nghttp2_stream that these functions use; `none` is the value -1.
pub record Stream : Type 0 where
  pub stream_id : ℕ
  pub flags : Flags
  pub content_length : Option ℕ
  pub recv_content_length : ℕ
  pub status_code : Option ℕ

-- nghttp2_stream_init.
unfoldable pub stream_init : ℕ → Stream
stream_init stream_id = record {
  stream_id = stream_id;
  flags = no_flags;
  content_length = none;
  recv_content_length = 0;
  status_code = none;
}

-- The values of nghttp2_token that are told apart; `unlisted` is any other one, or none at all.
pub data Token : Type 0 where
  authority method path scheme status host content_length : Token
  connection keep_alive proxy_connection transfer_encoding upgrade te unlisted : Token

-- nghttp2_hd_nv: a field with the token that was looked up for its name.
pub record Nv : Type 0 where
  pub name : List ℕ
  pub value : List ℕ
  pub token : Token

-- The stream as the call leaves it; `none` is the return value 0.
abbrev pub Outcome : Type 0
Outcome = Stream × Option Error

-- `if (rv != 0) return rv;` with the rest of the function as `k`.
abbrev pub after : Outcome → (Stream → Outcome) → Outcome
after (s, none) k = k s
after (s, some e) k = (s, some e)
