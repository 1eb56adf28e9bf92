-- ===== src/Frame/Control/RoundTrip.antt =====
-- The control frames of nghttp2_frame.c, packed into an empty buffer.
use kitura_http.Prelude.{
  ℕ, ◌-◌, ◌≤◌, ◌<◌, ◌≡◌, refl, List, [], ◌++◌, length, replicate, take, take-length, drop, leb,
  arith, IsU32,
}
use kitura_http.Result.{Result, ok, ◌>>=◌, require}
use kitura_http.Wire.{put_uint32be}
use kitura_http.Buf.{Buf, buf_put, buf_put_left}
use kitura_http.Priority.{PrioritySpec}
use kitura_http.Priority.Laws.{WeightInRange}
use kitura_http.Frame.{FrameHd, unpack_frame_hd}
use kitura_http.Frame.Header.{IsFrameHd, hd_bytes, pack_frame_hd-hd_bytes, unpack-hd_bytes}
use kitura_http.Frame.Control.{
  pack_hd_left, Priority, RstStream, Ping, WindowUpdate, pack_priority_spec, unpack_priority_spec,
  pack_priority, pack_rst_stream, unpack_rst_stream_payload, pack_ping, unpack_ping_payload,
  pack_window_update, unpack_window_update_payload,
}

-- `b` with a header and a payload in place of its contents.
abbrev pub framed : Buf → FrameHd → List ℕ → Buf
framed b hd payload = record b {
  room = b.room - 9;
  bytes = hd_bytes hd ++ payload;
  avail = b.avail - length payload;
}

-- An empty buffer with room for a frame header before its contents.
pub record IsReady (b : Buf) : Type 0 where
  pub room_fits : 9 ≤ b.room
  pub empty : b.bytes ≡ []

pub pack_hd_left-ok :
    (b : Buf) (hd : FrameHd)
    → 9 ≤ b.room
    → pack_hd_left b hd ≡ ok (record b { room = b.room - 9; bytes = hd_bytes hd ++ b.bytes })
unfolding pack_hd_left buf_put_left
pack_hd_left-ok b hd h = ground (arith, pack_frame_hd-hd_bytes hd 0 0 0 0 0 0 0 0 0 [])

module _ (b : Buf) (r : IsReady b) where
  -- The packers have this shape.
  pub frame_in :
      (need : ℕ) (hd : FrameHd) (payload : List ℕ)
      → length payload ≡ need
      → need ≤ b.avail
      → require (leb need b.avail) (pack_hd_left b hd >>= λ c. buf_put c payload)
        ≡ ok (framed b hd payload)
  unfolding buf_put
  frame_in need hd payload e h = rw (pack_hd_left-ok b hd r.room_fits, r.empty) (ground (arith, e))

-- The header and the payload of a buffer filled so.
pub framed-unpack :
    (b : Buf) (hd : FrameHd) (payload : List ℕ)
    → IsFrameHd hd
    → (unpack_frame_hd (framed b hd payload).bytes ≡ hd)
      × (drop 9 (framed b hd payload).bytes ≡ payload)
framed-unpack b hd payload v = (unpack-hd_bytes hd payload v, refl)

-- What a reader makes of the buffer: the header, and the payload after `unpack`.
abbrev pub ReadsBack {ℓ} : {A : Type ℓ} → Result Buf → FrameHd → (List ℕ → A) → A → Type ℓ
ReadsBack packed hd unpack value =
    (c : Buf) × (packed ≡ ok c) × (unpack_frame_hd c.bytes ≡ hd) × (unpack (drop 9 c.bytes) ≡ value)

-- The dependency survives with its flag and weight, which needs all 31 bits of the id.
pub priority_spec_ReadsBack :
    (p : PrioritySpec)
    → p.stream_id < 2147483648
    → WeightInRange p
    → unpack_priority_spec (pack_priority_spec (replicate 5 0) p) ≡ p
unfolding pack_priority_spec unpack_priority_spec
priority_spec_ReadsBack p fits weight = ground arith

module _ (b : Buf) (r : IsReady b) where
  -- An RST_STREAM packed into an empty buffer with room for it reads back with its header and its
  -- 32-bit error code.
  pub rst_stream_ReadsBack :
      (f : RstStream)
      → IsFrameHd f.hd
      → IsU32 f.error_code
      → 4 ≤ b.avail
      → ReadsBack (pack_rst_stream b f) f.hd unpack_rst_stream_payload f.error_code
  unfolding pack_rst_stream unpack_rst_stream_payload
  rst_stream_ReadsBack f v code h = (
    framed b f.hd (put_uint32be f.error_code),
    frame_in b r 4 f.hd (put_uint32be f.error_code) refl h,
    unpack-hd_bytes f.hd _ v,
    omega arith,
  )

  -- A WINDOW_UPDATE packed into an empty buffer with room for it reads back with its header and its
  -- increment of 31 bits.
  pub window_update_ReadsBack :
      (f : WindowUpdate)
      → IsFrameHd f.hd
      → f.window_size_increment < 2147483648
      → 4 ≤ b.avail
      → ReadsBack (pack_window_update b f) f.hd unpack_window_update_payload f.window_size_increment
  unfolding pack_window_update unpack_window_update_payload
  window_update_ReadsBack f v fits h = (
    framed b f.hd (put_uint32be f.window_size_increment),
    frame_in b r 4 f.hd (put_uint32be f.window_size_increment) refl h,
    unpack-hd_bytes f.hd _ v,
    omega arith,
  )

  -- A PING packed into an empty buffer with room for it reads back with its header and its eight
  -- bytes.
  pub ping_ReadsBack :
      (f : Ping)
      → IsFrameHd f.hd
      → length f.opaque_data ≡ 8
      → 8 ≤ b.avail
      → ReadsBack (pack_ping b f) f.hd unpack_ping_payload f.opaque_data
  unfolding pack_ping unpack_ping_payload
  ping_ReadsBack f v eight h =
      let whole = take-length 8 f.opaque_data (omega arith) in
      (
        framed b f.hd (take 8 f.opaque_data),
        frame_in b r 8 f.hd (take 8 f.opaque_data) (rw whole eight) h,
        unpack-hd_bytes f.hd _ v,
        rw (whole, whole) refl,
      )

  -- A PRIORITY packed into an empty buffer with room for it reads back with its header and its
  -- dependency, if the weight lies in 1 to 256 and the id has 31 bits.
  pub priority_ReadsBack :
      (f : Priority)
      → IsFrameHd f.hd
      → f.pri_spec.stream_id < 2147483648
      → WeightInRange f.pri_spec
      → 5 ≤ b.avail
      → ReadsBack (pack_priority b f) f.hd unpack_priority_spec f.pri_spec
  unfolding pack_priority
  priority_ReadsBack f v fits weight h = (
    framed b f.hd (pack_priority_spec (replicate 5 0) f.pri_spec),
    frame_in b r 5 f.hd (pack_priority_spec (replicate 5 0) f.pri_spec) (ground arith) h,
    unpack-hd_bytes f.hd _ v,
    priority_spec_ReadsBack f.pri_spec fits weight,
  )
