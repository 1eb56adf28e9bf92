-- ===== src/Frame/Control/Spread.antt =====
-- A GOAWAY frame whose debug data does not fit into one chunk of the chain.
use mathlib.Core.List.{append-nil}
use kitura_http.Prelude.{
  ℕ, ◌-◌, ◌≤◌, ◌<◌, ◌≡◌, refl, sym, ap, ◌∙◌, List, [], ◌∷◌, ◌++◌, true, length, take-length, drop,
  arith, IsU32, inl, inr, ◌⊎◌,
}
use kitura_http.Result.{ok, frame_size, buffer_error, nomem, ◌>>=◌}
use kitura_http.Wire.{put_uint32be}
use kitura_http.Buf.{
  Buf, Bufs, Status, done, failed, overrun, out_of_fuel, bufs_bytes, bufs_add, buf_put,
}
use kitura_http.Buf.Add.{buf_put-ok, IsFresh, bufs_add_appends}
use kitura_http.Buf.Valid.{IsValid, Ends, bufs_add-Safe}
use kitura_http.Frame.{unpack_frame_hd}
use kitura_http.Frame.Header.{IsFrameHd, hd_bytes, unpack-hd_bytes}
use kitura_http.Frame.Control.{
  Goaway, pack_hd_left, pack_goaway, goaway_add, as_frame_size, unpack_goaway_payload2,
}
use kitura_http.Frame.Control.RoundTrip.{IsReady, pack_hd_left-ok}

abbrev fixed_part : Goaway → List ℕ
fixed_part f = put_uint32be f.last_stream_id ++ put_uint32be f.error_code

abbrev with_fixed : Bufs → Goaway → Bufs
with_fixed s f = record s {
  cur = record s.cur {
    room = s.cur.room - 9;
    bytes = hd_bytes f.hd ++ fixed_part f;
    avail = s.cur.avail - 4 - 4;
  };
}

pack_fixed :
    (b : Buf) (f : Goaway)
    → IsReady b
    → 8 ≤ b.avail
    → (do
      c ← pack_hd_left b f.hd
      d ← buf_put c (put_uint32be f.last_stream_id)
      buf_put d (put_uint32be f.error_code))
      ≡ ok (record b {
        room = b.room - 9;
        bytes = hd_bytes f.hd ++ fixed_part f;
        avail = b.avail - 4 - 4;
      })
unfolding put_uint32be
pack_fixed b f r h =
    let c = record b { room = b.room - 9; bytes = hd_bytes f.hd ++ b.bytes } in
    let d = record c { bytes = c.bytes ++ put_uint32be f.last_stream_id; avail = b.avail - 4 } in
    let fits : 4 ≤ b.avail = omega arith in
    let more : 4 ≤ b.avail - 4 = omega arith in
    rw (
      pack_hd_left-ok b f.hd r.room_fits,
      buf_put-ok c (put_uint32be f.last_stream_id) fits,
      buf_put-ok d (put_uint32be f.error_code) more,
      r.empty,
    )

pub pack_goaway-add :
    (s : Bufs) (f : Goaway)
    → IsReady s.cur
    → 8 ≤ s.cur.avail
    → pack_goaway s f ≡ as_frame_size (bufs_add (with_fixed s f) f.opaque_data)
pack_goaway-add s f r h = unfold pack_goaway in ap (goaway_add s f) (pack_fixed s.cur f r h)

as_frame_size-done :
    (r : Bufs × Status) → (as_frame_size r).1 ≡ done → (as_frame_size r ≡ r) × (r.1 ≡ done)
as_frame_size-done (s, done) e = (refl, refl)
as_frame_size-done (s, failed buffer_error) e = cc
as_frame_size-done (s, failed x) e = cc
as_frame_size-done (s, overrun) e = cc
as_frame_size-done (s, out_of_fuel) e = cc

with_fixed-bytes :
    (s : Bufs) (f : Goaway)
    → s.before ≡ []
    → IsFresh s
    → bufs_bytes (with_fixed s f) ≡ hd_bytes f.hd ++ fixed_part f
unfolding bufs_bytes
with_fixed-bytes s f e h = rw (e, h) (append-nil _)

pub pack_goaway-bytes :
    (s : Bufs) (f : Goaway)
    → s.before ≡ []
    → IsFresh s
    → IsReady s.cur
    → 8 ≤ s.cur.avail
    → (pack_goaway s f).1 ≡ done
    → bufs_bytes (pack_goaway s f).0 ≡ hd_bytes f.hd ++ (fixed_part f ++ f.opaque_data)
pack_goaway-bytes s f e h r room ok_status =
    let packed = pack_goaway-add s f r room in
    let status = ap (λ (x : Bufs × Status). x.1) (sym packed) ∙ ok_status in
    let (plain, added) = as_frame_size-done (bufs_add (with_fixed s f) f.opaque_data) status in
    rw (packed, plain)
      ((bufs_add_appends (with_fixed s f) f.opaque_data h added).0
        ∙ ap (λ t. t ++ f.opaque_data) (with_fixed-bytes s f e h))

empty_of_length : (xs : List ℕ) → length xs ≡ 0 → xs ≡ []
empty_of_length [] h = refl
empty_of_length (x ∷ xs) h = absurd (omega arith)

unpack_goaway_payload2-fixed :
    (f : Goaway)
    → f.last_stream_id < 2147483648
    → IsU32 f.error_code
    → unpack_goaway_payload2 f.hd (fixed_part f ++ f.opaque_data) true ≡ ok f
unfolding unpack_goaway_payload2 put_uint32be
unpack_goaway_payload2-fixed f id code = ground (
  arith,
  take-length (length (fixed_part f ++ f.opaque_data) - 8) f.opaque_data (omega arith),
  empty_of_length f.opaque_data,
)

with_fixed-IsValid :
    (s : Bufs) (f : Goaway) → IsValid s → IsReady s.cur → 8 ≤ s.cur.avail → IsValid (with_fixed s f)
unfolding put_uint32be
with_fixed-IsValid s f v r h = record {
  counted = v.counted;
  bounded = v.bounded;
  offset_fits = v.offset_fits;
  caps_before = v.caps_before;
  cap_cur = let cap = v.cap_cur in let room = r.room_fits in omega (arith, ap length r.empty);
  caps_after = v.caps_after;
}

as_frame_size-Ends :
    (r : Bufs × Status)
    → Ends r.1
    → ((as_frame_size r).1 ≡ done)
      ⊎ ((as_frame_size r).1 ≡ failed frame_size)
      ⊎ ((as_frame_size r).1 ≡ failed nomem)
as_frame_size-Ends (s, t) (inl e) = rw e (inl refl)
as_frame_size-Ends (s, t) (inr (inl e)) = rw e (inr (inl refl))
as_frame_size-Ends (s, t) (inr (inr e)) = rw e (inr (inr refl))

-- Packing a GOAWAY into a valid chain at its head, whose first chunk has room for the fixed part,
-- ends in success, NGHTTP2_ERR_FRAME_SIZE_ERROR or NGHTTP2_ERR_NOMEM.
pub pack_goaway-ends :
    (s : Bufs) (f : Goaway)
    → IsValid s
    → IsReady s.cur
    → 8 ≤ s.cur.avail
    → ((pack_goaway s f).1 ≡ done)
      ⊎ ((pack_goaway s f).1 ≡ failed frame_size)
      ⊎ ((pack_goaway s f).1 ≡ failed nomem)
pack_goaway-ends s f v r room =
    rw (pack_goaway-add s f r room)
      (as_frame_size-Ends _ (bufs_add-Safe _ f.opaque_data (with_fixed-IsValid s f v r room)).1)

-- When packing a GOAWAY succeeds, from an empty chain with room for the fixed part in its first
-- chunk, the bytes of the whole chain read back as the header and the frame, however many chunks
-- the opaque data took.
pub goaway_reads_back :
    (s : Bufs) (f : Goaway)
    → s.before ≡ []
    → IsFresh s
    → IsReady s.cur
    → 8 ≤ s.cur.avail
    → IsFrameHd f.hd
    → f.last_stream_id < 2147483648
    → IsU32 f.error_code
    → (pack_goaway s f).1 ≡ done
    → (unpack_frame_hd (bufs_bytes (pack_goaway s f).0) ≡ f.hd)
      × (unpack_goaway_payload2 f.hd (drop 9 (bufs_bytes (pack_goaway s f).0)) true ≡ ok f)
goaway_reads_back s f e h r room hd id code packed =
    rw (pack_goaway-bytes s f e h r room packed)
      (unpack-hd_bytes f.hd _ hd, unpack_goaway_payload2-fixed f id code)
