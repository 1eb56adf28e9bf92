-- ===== src/Frame/Block/Sequence.antt =====
-- The chain of a header block, chunk by chunk, and the frames it holds after the packing.
use kitura_http.Prelude.{
  ℕ, ◌-◌, ◌≤◌, ◌<◌, ◌≡◌, refl, sym, ap, ap₂, ◌∙◌, List, [], ◌∷◌, ◌++◌, map, drop, clear_bit, All,
  arith, IsByte,
}
use kitura_http.Result.{ok}
use kitura_http.Buf.{Buf, Bufs, buf_len}
use kitura_http.Frame.{FrameHd, unpack_frame_hd, flag_end_headers, type_continuation}
use kitura_http.Frame.Header.{IsFrameHd, hd_bytes, unpack-hd_bytes}
use kitura_http.Frame.Control.{pack_hd_left}
use kitura_http.Frame.Control.RoundTrip.{pack_hd_left-ok}
use kitura_http.Frame.Block.{with_len, pack_inner, pack_chunks, pack_headers_shared}

-- The chunks from the head to `cur`.
abbrev pub chunks : Bufs → List Buf
chunks s = s.before ++ s.cur ∷ []

-- Room for a header before the payload, whose length fits 24 bits.
abbrev pub HasRoom : Buf → Type 0
HasRoom b = (9 ≤ b.room) × (buf_len b < 16777216)

-- The headers that RFC 7540, 6.10, asks for: CONTINUATION frames on the same stream follow, and only
-- the last frame has END_HEADERS.
abbrev pub continuations : FrameHd → List Buf → List FrameHd
continuations hd [] = []
continuations hd (b ∷ []) =
    record hd { len = buf_len b; type = type_continuation; flags = flag_end_headers } ∷ []
continuations hd (b ∷ c ∷ bs) =
    record hd { len = buf_len b; type = type_continuation; flags = 0 } ∷ continuations hd (c ∷ bs)

abbrev pub headers_of : FrameHd → List Buf → List FrameHd
headers_of hd [] = []
headers_of hd (b ∷ []) = record hd { len = buf_len b } ∷ []
headers_of hd (b ∷ c ∷ bs) =
    record hd { len = buf_len b; flags = clear_bit hd.flags flag_end_headers }
    ∷ continuations hd (c ∷ bs)

-- What is read from a chunk.
abbrev pub read_hd : Buf → FrameHd
read_hd b = unpack_frame_hd b.bytes

abbrev pub read_payload : Buf → List ℕ
read_payload b = drop 9 b.bytes

abbrev pub payload : Buf → List ℕ
payload b = b.bytes

one_frame :
    (b : Buf) (hd : FrameHd)
    → HasRoom b
    → IsFrameHd (with_len hd b)
    → (c : Buf) × (pack_hd_left b (with_len hd b) ≡ ok c)
      × (read_hd c ≡ with_len hd b)
      × (read_payload c ≡ payload b)
one_frame b hd (room, fits) v = (
  record b { room = b.room - 9; bytes = hd_bytes (with_len hd b) ++ b.bytes },
  pack_hd_left-ok b (with_len hd b) room,
  unpack-hd_bytes (with_len hd b) b.bytes v,
  refl,
)

-- The header with another type and other flags, on a chunk.
on_chunk :
    (hd : FrameHd) (b : Buf) (type flags : ℕ)
    → IsFrameHd hd
    → HasRoom b
    → type < 256
    → flags < 256
    → IsFrameHd (with_len (record hd { type = type; flags = flags }) b)
on_chunk hd b type flags v (room, fits) t f = record {
  len_fits = fits;
  type_fits = t;
  flags_fit = f;
  id_fits = v.id_fits;
  no_reserved = v.no_reserved;
}

continuations-more :
    (hd : FrameHd) (b : Buf) (bs : List Buf) (last : Buf)
    → continuations hd (b ∷ (bs ++ last ∷ []))
      ≡ record hd { len = buf_len b; type = type_continuation; flags = 0 }
        ∷ continuations hd (bs ++ last ∷ [])
continuations-more hd b [] last = refl
continuations-more hd b (c ∷ bs) last = refl

-- The frames between the first and the last, and then the last.
inner_frames :
    (hd : FrameHd) (bs : List Buf) (last : Buf)
    → IsFrameHd hd
    → All HasRoom (bs ++ last ∷ [])
    → (cs : List Buf) × (d : Buf) × (pack_inner bs
          (record hd { type = type_continuation; flags = 0 })
        ≡ ok cs)
      × (pack_hd_left last
            (with_len (record hd { type = type_continuation; flags = flag_end_headers }) last)
          ≡ ok d)
      × (map read_hd (cs ++ d ∷ []) ≡ continuations hd (bs ++ last ∷ []))
      × (map read_payload (cs ++ d ∷ []) ≡ map payload (bs ++ last ∷ []))
unfolding pack_inner
inner_frames hd [] last v (r, h) =
    let (d, done, header, data_part) =
      one_frame last (record hd { type = type_continuation; flags = flag_end_headers }) r
        (on_chunk hd last type_continuation flag_end_headers v r (omega arith) (omega arith)) in
    ([], d, refl, done, ap (λ x. x ∷ []) header, ap (λ x. x ∷ []) data_part)
inner_frames hd (b ∷ bs) last v (r, h) =
    let (c, packed, header, data_part) =
      one_frame b (record hd { type = type_continuation; flags = 0 }) r
        (on_chunk hd b type_continuation 0 v r (omega arith) (omega arith)) in
    let (cs, d, done, closed, headers, data_parts) = inner_frames hd bs last v h in
    (
      c ∷ cs,
      d,
      rw (packed, done) refl,
      closed,
      ap₂ (◌∷◌) header headers ∙ sym (continuations-more hd b bs last),
      ap₂ (◌∷◌) data_part data_parts,
    )

headers_of-more :
    (hd : FrameHd) (b : Buf) (bs : List Buf) (last : Buf)
    → headers_of hd (b ∷ (bs ++ last ∷ []))
      ≡ record hd { len = buf_len b; flags = clear_bit hd.flags flag_end_headers }
        ∷ continuations hd (bs ++ last ∷ [])
headers_of-more hd b [] last = refl
headers_of-more hd b (c ∷ bs) last = refl

clear_bit-IsByte : (x : ℕ) → IsByte x → IsByte (clear_bit x flag_end_headers)
clear_bit-IsByte x h = ground arith

module _ (s : Bufs) (hd : FrameHd) where
  chunk_frames :
      (before : List Buf)
      → IsFrameHd hd
      → All HasRoom (before ++ s.cur ∷ [])
      → (t : Bufs) × (pack_chunks s hd before ≡ ok t)
        × (map read_hd (chunks t) ≡ headers_of hd (before ++ s.cur ∷ []))
        × (map read_payload (chunks t) ≡ map payload (before ++ s.cur ∷ []))
  chunk_frames [] v (r, h) =
      let (c, packed, header, data_part) =
        one_frame s.cur hd r (on_chunk hd s.cur hd.type hd.flags v r v.type_fits v.flags_fit) in
      (
        record s { before = []; cur = c },
        rw packed refl,
        ap (λ x. x ∷ []) header,
        ap (λ x. x ∷ []) data_part,
      )
  chunk_frames (b ∷ bs) v (r, h) =
      let (c, packed, header, data_part) =
        one_frame b (record hd { flags = clear_bit hd.flags flag_end_headers }) r
          (on_chunk hd b hd.type (clear_bit hd.flags flag_end_headers) v r v.type_fits
            (clear_bit-IsByte hd.flags v.flags_fit)) in
      let (cs, d, done, closed, headers, data_parts) = inner_frames hd bs s.cur v h in
      (
        record s { before = c ∷ cs; cur = d },
        rw (packed, done, closed) refl,
        ap₂ (◌∷◌) header headers ∙ sym (headers_of-more hd b bs s.cur),
        ap₂ (◌∷◌) data_part data_parts,
      )

-- Packing a header block succeeds when every chunk up to `cur` has room for a header: each chunk
-- reads back as a frame with its payload, the first of the given type and the others CONTINUATION
-- frames of the same stream, and only the last of them has END_HEADERS, if the given flags have it.
pub pack_headers_shared_frames :
    (s : Bufs) (hd : FrameHd)
    → IsFrameHd hd
    → All HasRoom (chunks s)
    → (t : Bufs) × (pack_headers_shared s hd ≡ ok t)
      × (map read_hd (chunks t) ≡ headers_of hd (chunks s))
      × (map read_payload (chunks t) ≡ map payload (chunks s))
unfolding pack_headers_shared
pack_headers_shared_frames s hd v h = chunk_frames s hd s.before v h
