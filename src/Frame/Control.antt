-- ===== src/Frame/Control.antt =====
-- Sources/nghttp2/nghttp2_frame.c: PRIORITY, RST_STREAM, PING, GOAWAY and WINDOW_UPDATE, packed
-- into a chain whose only chunk in use is the head, and unpacked from a payload.
pub mod RoundTrip
pub mod Spread
use kitura_http.Prelude.{
  ℕ, ◌+◌, ◌-◌, ◌*◌, ◌≤◌, List, [], ◌∷◌, ◌++◌, Bool, true, false, get_or, set, take, drop, write,
  replicate, length, ltb, leb, not, ◌==◌, if◌then◌else◌, test_bit, set_bit, Option, none, some,
}
use kitura_http.Prelude.Int.{pos}
use kitura_http.Result.{Result, ok, err, fault, frame_size, buffer_error, nomem, ◌>>=◌, require}
use kitura_http.Wire.{put_uint32be, get_uint32}
use kitura_http.Buf.{
  Buf, Bufs, Status, done, failed, overrun, out_of_fuel, buf_put, buf_put_left, bufs_add, resume,
}
use kitura_http.Priority.{PrioritySpec, priority_spec_init, weight_byte}
use kitura_http.Frame.{FrameHd, frame_hd_init, pack_frame_hd, mask31}

-- `buf->pos -= NGHTTP2_FRAME_HDLEN` and the header written there. The nine bytes are not read.
unfoldable pub pack_hd_left : Buf → FrameHd → Result Buf
unfolding pack_frame_hd buf_put_left
pack_hd_left b hd = buf_put_left b (pack_frame_hd (replicate 9 0) hd)

pub record Priority : Type 0 where
  pub hd : FrameHd
  pub pri_spec : PrioritySpec

pub record RstStream : Type 0 where
  pub hd : FrameHd
  pub error_code : ℕ

pub record Ping : Type 0 where
  pub hd : FrameHd
  pub opaque_data : List ℕ

pub record Goaway : Type 0 where
  pub hd : FrameHd
  pub last_stream_id : ℕ
  pub error_code : ℕ
  pub opaque_data : List ℕ

pub record WindowUpdate : Type 0 where
  pub hd : FrameHd
  pub window_size_increment : ℕ

-- The init functions: length, type and flags of each frame; 8 zero bytes for a PING with no data.
unfoldable pub priority_init : ℕ → PrioritySpec → Priority
unfolding frame_hd_init
priority_init stream_id p = record { hd = frame_hd_init 5 0x02 0 stream_id; pri_spec = p }

unfoldable pub rst_stream_init : ℕ → ℕ → RstStream
unfolding frame_hd_init
rst_stream_init stream_id code = record { hd = frame_hd_init 4 0x03 0 stream_id; error_code = code }

unfoldable pub ping_init : ℕ → Option (List ℕ) → Ping
unfolding frame_hd_init
ping_init flags none = record { hd = frame_hd_init 8 0x06 flags 0; opaque_data = replicate 8 0 }
ping_init flags (some opaque_data) = record {
  hd = frame_hd_init 8 0x06 flags 0;
  opaque_data = take 8 opaque_data;
}

unfoldable pub goaway_init : ℕ → ℕ → List ℕ → Goaway
unfolding frame_hd_init
goaway_init last_stream_id code opaque_data = record {
  hd = frame_hd_init (8 + length opaque_data) 0x07 0 0;
  last_stream_id = last_stream_id;
  error_code = code;
  opaque_data = opaque_data;
}

unfoldable pub window_update_init : ℕ → ℕ → ℕ → WindowUpdate
unfolding frame_hd_init
window_update_init flags stream_id increment = record {
  hd = frame_hd_init 4 0x08 flags stream_id;
  window_size_increment = increment;
}

-- nghttp2_frame_pack_priority_spec, into the five bytes at `buf`.
unfoldable pub pack_priority_spec : List ℕ → PrioritySpec → List ℕ
unfolding put_uint32be
pack_priority_spec buf p =
    let b1 = write buf 0 (put_uint32be p.stream_id) in
    let b2 = if p.exclusive then set b1 0 (set_bit (get_or b1 0 0) 0x80) else b1 in
    set b2 4 (weight_byte p.weight)

-- nghttp2_frame_unpack_priority_spec, which nghttp2_frame_unpack_priority_payload calls.
unfoldable pub unpack_priority_spec : List ℕ → PrioritySpec
unfolding get_uint32 priority_spec_init
unpack_priority_spec payload =
    priority_spec_init (mask31 (get_uint32 payload)) (pos (get_or payload 4 0 + 1))
      (if test_bit (get_or payload 0 0) 0x80 then 1 else 0)

unfoldable pub pack_priority : Buf → Priority → Result Buf
unfolding pack_hd_left pack_priority_spec buf_put
pack_priority b f =
    require (leb 5 b.avail)
      (do b' ← pack_hd_left b f.hd; buf_put b' (pack_priority_spec (replicate 5 0) f.pri_spec))

unfoldable pub pack_rst_stream : Buf → RstStream → Result Buf
unfolding pack_hd_left put_uint32be buf_put
pack_rst_stream b f =
    require (leb 4 b.avail) (do b' ← pack_hd_left b f.hd; buf_put b' (put_uint32be f.error_code))

unfoldable pub unpack_rst_stream_payload : List ℕ → ℕ
unfolding get_uint32
unpack_rst_stream_payload payload = get_uint32 payload

unfoldable pub pack_ping : Buf → Ping → Result Buf
unfolding pack_hd_left buf_put
pack_ping b f =
    require (leb 8 b.avail) (do b' ← pack_hd_left b f.hd; buf_put b' (take 8 f.opaque_data))

unfoldable pub unpack_ping_payload : List ℕ → List ℕ
unpack_ping_payload payload = take 8 payload

unfoldable pub pack_window_update : Buf → WindowUpdate → Result Buf
unfolding pack_hd_left put_uint32be buf_put
pack_window_update b f =
    require (leb 4 b.avail)
      (do b' ← pack_hd_left b f.hd; buf_put b' (put_uint32be f.window_size_increment))

unfoldable pub unpack_window_update_payload : List ℕ → ℕ
unfolding get_uint32
unpack_window_update_payload payload = mask31 (get_uint32 payload)

-- `if (rv == NGHTTP2_ERR_BUFFER_ERROR) return NGHTTP2_ERR_FRAME_SIZE_ERROR;`
abbrev as_frame_size : Bufs × Status → Bufs × Status
as_frame_size (s, failed buffer_error) = (s, failed frame_size)
as_frame_size (s, status) = (s, status)

abbrev goaway_add : Bufs → Goaway → Result Buf → Bufs × Status
goaway_add s f (ok b) = as_frame_size (bufs_add (record s { cur = b }) f.opaque_data)
goaway_add s f (err e) = (s, failed e)
goaway_add s f fault = (s, overrun)

-- nghttp2_frame_pack_goaway: the opaque data may go on in further chunks. The chain is at its head.
unfoldable pub pack_goaway : Bufs → Goaway → Bufs × Status
unfolding pack_hd_left put_uint32be buf_put bufs_add
pack_goaway s f = goaway_add s f (do
  b ← pack_hd_left s.cur f.hd
  c ← buf_put b (put_uint32be f.last_stream_id)
  buf_put c (put_uint32be f.error_code))

-- nghttp2_frame_unpack_goaway_payload, from the payload and the opaque data that was set aside.
unfoldable pub unpack_goaway_payload : FrameHd → List ℕ → List ℕ → Goaway
unfolding get_uint32
unpack_goaway_payload hd payload var_gift = record {
  hd = hd;
  last_stream_id = mask31 (get_uint32 payload);
  error_code = get_uint32 (drop 4 payload);
  opaque_data = var_gift;
}

-- nghttp2_frame_unpack_goaway_payload2: the opaque data is copied if the allocator grants it.
unfoldable pub unpack_goaway_payload2 : FrameHd → List ℕ → Bool → Result Goaway
unfolding unpack_goaway_payload
unpack_goaway_payload2 hd payload granted =
    let var_gift_len = if ltb 8 (length payload) then length payload - 8 else 0 in
    if var_gift_len == 0
    then ok (unpack_goaway_payload hd payload [])
    else if granted
    then ok (unpack_goaway_payload hd payload (take var_gift_len (drop 8 payload)))
    else err nomem
