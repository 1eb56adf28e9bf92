-- ===== src/Hpack/Deflate/Writes.antt =====
-- The emit functions on an open chain: how each may end.
use kitura_http.Prelude.{
  ℕ, ◌+◌, ◌%◌, ◌^◌, ◌≡◌, ◌⊎◌, refl, inl, inr, List, Bool, true, false, ltb, length, if◌then◌else◌,
  Option, none, some, All, IsByte,
}
use kitura_http.Result.{Error, header_comp, buffer_error, nomem}
use kitura_http.Buf.{Bufs, Status, done, failed, overrun, out_of_fuel, resume, bufs_add, bufs_addb}
use kitura_http.Buf.Valid.{IsValid}
use kitura_http.Buf.Byte.{IsOpen}
use kitura_http.Buf.Open.{Wrote, bufs_add-Wrote, bufs_addb-Wrote}
use kitura_http.Hpack.Integer.{encode_length, count_encoded_length}
use kitura_http.Hpack.Huffman.Encode.{huff_encode, huff_encode_count}
use kitura_http.Hpack.Huffman.RoundTrip.{EncodeEnds, huff_encode_encodes}
use kitura_http.Hpack.Emit.{
  IndexingMode, emit_integer, emit_table_size, emit_indexed_block, emit_string, pack_first_byte,
  name_prefix, emit_indname_block, emit_newname_block,
}
use kitura_http.Hpack.Deflate.{Nv, emit_field}

-- The errors of the encoder.
abbrev pub Refusal : Error → Type 0
Refusal e = (e ≡ header_comp) ⊎ (e ≡ buffer_error) ⊎ (e ≡ nomem)

abbrev pub Emitted : Bufs × Status → Type 0
Emitted (t, done) = IsOpen t
Emitted (t, failed e) = IsValid t × Refusal e
Emitted (t, overrun) = ⊥
Emitted (t, out_of_fuel) = ⊥

Wrote-Emitted : (r : Bufs × Status) → Wrote r → Emitted r
Wrote-Emitted (t, done) h = h
Wrote-Emitted (t, failed e) h = (h.0, inr h.1)
Wrote-Emitted (t, overrun) h = h
Wrote-Emitted (t, out_of_fuel) h = h

encode-Emitted : (s : Bufs) (src : List ℕ) (r : Bufs × Status) → EncodeEnds s src r → Emitted r
encode-Emitted s src (t, done) h = h.open_chain
encode-Emitted s src (t, failed e) h = (h.0, inr h.1)
encode-Emitted s src (t, overrun) h = h
encode-Emitted s src (t, out_of_fuel) h = h

pub resume-Emitted :
    (k : Bufs → Bufs × Status) (r : Bufs × Status)
    → Emitted r
    → ((t : Bufs) → IsOpen t → Emitted (k t))
    → Emitted (resume k r)
resume-Emitted k (t, done) h go = go t h
resume-Emitted k (t, failed e) h go = h
resume-Emitted k (t, overrun) h go = h
resume-Emitted k (t, out_of_fuel) h go = h

either-Emitted :
    (b : Bool) (x y : Bufs × Status) → Emitted x → Emitted y → Emitted (if b then x else y)
either-Emitted true x y h k = h
either-Emitted false x y h k = k

add-Emitted : (s : Bufs) (p : List ℕ) → IsOpen s → Emitted (bufs_add s p)
add-Emitted s p o = Wrote-Emitted (bufs_add s p) (bufs_add-Wrote s p o)

pub emit_integer-Emitted :
    (s : Bufs) (first n prefix : ℕ) → IsOpen s → Emitted (emit_integer s first n prefix)
unfolding emit_integer
emit_integer-Emitted s first n prefix o =
    either-Emitted (ltb 16 (count_encoded_length n prefix)) _ _ (o.valid, inl refl)
      (add-Emitted s (encode_length first n prefix) o)

pub emit_table_size-Emitted : (s : Bufs) (n : ℕ) → IsOpen s → Emitted (emit_table_size s n)
unfolding emit_table_size
emit_table_size-Emitted s n o = emit_integer-Emitted s 0x20 n 5 o

pub emit_indexed_block-Emitted : (s : Bufs) (i : ℕ) → IsOpen s → Emitted (emit_indexed_block s i)
unfolding emit_indexed_block
emit_indexed_block-Emitted s i o = emit_integer-Emitted s 0x80 ((i + 1) % 2 ^ 64) 7 o

emit_string-Emitted :
    (s : Bufs) (str : List ℕ) → IsOpen s → All IsByte str → Emitted (emit_string s str)
unfolding emit_string
emit_string-Emitted s str o h =
    either-Emitted (ltb (huff_encode_count str) (length str)) _ _
      (resume-Emitted (λ t. huff_encode t str) (emit_integer s 0x80 (huff_encode_count str) 7)
        (emit_integer-Emitted s 0x80 (huff_encode_count str) 7 o)
        (λ t w. encode-Emitted t str (huff_encode t str) (huff_encode_encodes t str w h)))
      (resume-Emitted (λ t. bufs_add t str) (emit_integer s 0 (length str) 7)
        (emit_integer-Emitted s 0 (length str) 7 o) (λ t w. add-Emitted t str w))

-- A field with an index for its name, or with none.
pub emit_field-Emitted :
    (s : Bufs) (nv : Nv) (idx : Option ℕ) (mode : IndexingMode)
    → IsOpen s
    → All IsByte nv.name
    → All IsByte nv.value
    → Emitted (emit_field s nv idx mode)
unfolding emit_newname_block emit_indname_block
emit_field-Emitted s nv none mode o name value =
    resume-Emitted (λ u. emit_string u nv.value) _
      (resume-Emitted (λ t. emit_string t nv.name) (bufs_addb s (pack_first_byte mode))
        (Wrote-Emitted (bufs_addb s (pack_first_byte mode))
          (bufs_addb-Wrote s (pack_first_byte mode) o))
        (λ t w. emit_string-Emitted t nv.name w name))
      (λ t w. emit_string-Emitted t nv.value w value)
emit_field-Emitted s nv (some i) mode o name value =
    resume-Emitted (λ t. emit_string t nv.value)
      (emit_integer s (pack_first_byte mode) ((i + 1) % 2 ^ 64) (name_prefix mode))
      (emit_integer-Emitted s (pack_first_byte mode) ((i + 1) % 2 ^ 64) (name_prefix mode) o)
      (λ t w. emit_string-Emitted t nv.value w value)
