-- ===== src/Frame.antt =====
-- Sources/nghttp2/nghttp2_frame.c: the frame header and the payloads of fixed layout.
-- `stream_id` and the other int32_t ids are kept as the uint32_t that the casts give. Memory that
-- a function fills is a list of bytes; a write at `&buf[i]` overwrites from position `i`.
pub mod Header
pub mod Control
pub mod Settings
pub mod Block
pub mod Pad
pub mod Tests
use kitura_http.Prelude.{
  ℕ, zero, suc, ◌+◌, ◌-◌, ◌*◌, ◌/◌, ◌%◌, List, [], ◌∷◌, ◌++◌, Bool, true, false, get_or, set, take,
  drop, write, replicate, length, ltb, ◌==◌, if◌then◌else◌, test_bit, set_bit, Option, none, some,
}
use kitura_http.Wire.{put_uint16be, put_uint32be, get_uint16, get_uint32}

-- nghttp2_frame_hd.
pub record FrameHd : Type 0 where
  pub len : ℕ
  pub type : ℕ
  pub flags : ℕ
  pub stream_id : ℕ
  pub reserved : ℕ

-- The values of nghttp2_frame_type, nghttp2_flag and the sizes of nghttp2_frame.h.
abbrev pub frame_hdlen : ℕ
frame_hdlen = 9

abbrev pub flag_end_stream : ℕ
flag_end_stream = 0x01

abbrev pub flag_end_headers : ℕ
flag_end_headers = 0x04

abbrev pub flag_padded : ℕ
flag_padded = 0x08

abbrev pub flag_priority : ℕ
flag_priority = 0x20

abbrev pub type_continuation : ℕ
type_continuation = 0x09

abbrev pub type_push_promise : ℕ
type_push_promise = 0x05

-- `x & ((1u << 31) - 1)`, the mask of stream ids and window increments.
abbrev pub mask31 : ℕ → ℕ
mask31 x = x % 2147483648

-- nghttp2_frame_hd_init.
unfoldable pub frame_hd_init : ℕ → ℕ → ℕ → ℕ → FrameHd
frame_hd_init len type flags stream_id = record {
  len = len;
  type = type;
  flags = flags;
  stream_id = stream_id;
  reserved = 0;
}

-- nghttp2_frame_pack_frame_hd: the length is shifted by a byte, and the type overwrites its last byte.
unfoldable pub pack_frame_hd : List ℕ → FrameHd → List ℕ
unfolding put_uint32be
pack_frame_hd buf hd =
    let with_length = write buf 0 (put_uint32be (hd.len * 256)) in
    let with_type = set with_length 3 hd.type in
    let with_flags = set with_type 4 hd.flags in write with_flags 5 (put_uint32be hd.stream_id)

-- nghttp2_frame_unpack_frame_hd.
unfoldable pub unpack_frame_hd : List ℕ → FrameHd
unfolding get_uint32
unpack_frame_hd buf = record {
  len = get_uint32 buf / 256;
  type = get_or buf 3 0;
  flags = get_or buf 4 0;
  stream_id = mask31 (get_uint32 (drop 5 buf));
  reserved = 0;
}

-- nghttp2_frame_trail_padlen: the padding without its length byte.
unfoldable pub frame_trail_padlen : ℕ → ℕ → ℕ
frame_trail_padlen flags padlen =
    if padlen == 0 then 0 else padlen - (if test_bit flags flag_padded then 1 else 0)

-- nghttp2_frame_priority_len, and nghttp2_frame_headers_payload_nv_offset which calls it.
unfoldable pub frame_priority_len : ℕ → ℕ
frame_priority_len flags = if test_bit flags flag_priority then 5 else 0
