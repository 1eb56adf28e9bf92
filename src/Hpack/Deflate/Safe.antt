-- ===== src/Hpack/Deflate/Safe.antt =====
-- nghttp2_hd_deflate_hd_bufs as a whole, from a deflater whose map follows its table.
use kitura_http.Prelude.{
  ℕ, ◌^◌, ◌<◌, ◌≡◌, ◌⊎◌, refl, inl, inr, List, [], ◌∷◌, Bool, true, false, Option, none, some, ltb,
  if◌then◌else◌, All, IsByte, Bool-cases, arith,
}
use kitura_http.Result.{Result, ok, err, fault, nomem, header_comp}
use kitura_http.Buf.{Bufs, Status, done, failed, overrun, out_of_fuel}
use kitura_http.Buf.Valid.{IsValid}
use kitura_http.Buf.Byte.{IsOpen}
use kitura_http.Hpack.Table.{HdEntry, Context}
use kitura_http.Hpack.Inflate.{static_table_length}
use kitura_http.Hpack.Inflate.Commit.{table_get_in}
use kitura_http.Hpack.Search.{HdMap}
use kitura_http.Hpack.Search.Holds.{IsMapped}
use kitura_http.Hpack.Mapped.{add_mapped}
use kitura_http.Hpack.Mapped.Add.{AddEnds, add_mapped-ends}
use kitura_http.Hpack.Emit.{
  IndexingMode, with_indexing, without_indexing, never_indexing, emit_table_size,
  emit_indexed_block,
}
use kitura_http.Hpack.Deflate.{
  Nv, Deflater, answer, copy_name, name_for, stored, store, emit_field, emit_stored, store_and_emit,
  deflate_nv, or_fail, deflate_loop, notify_size, deflate_hd_bufs, as_size, indexing_mode,
  search_for,
}
use kitura_http.Hpack.Deflate.Writes.{
  Refusal, Emitted, resume-Emitted, emit_table_size-Emitted, emit_indexed_block-Emitted,
  emit_field-Emitted,
}

-- A deflater whose map follows its table, with a table of less than 2^31 octets.
pub record IsReady (d : Deflater) : Type 0 where
  pub entries : List HdEntry
  pub mapped : IsMapped d.ctx d.map entries
  pub small : d.ctx.hd_table_bufsize_max < 2 ^ 31

abbrev Stored : Result Deflater → Type 0
Stored (ok d) = IsReady d
Stored (err e) = Refusal e
Stored fault = ⊥

stored-Stored :
    (d : Deflater) (max : ℕ) (es : List HdEntry) (r : Result (Context × HdMap))
    → max < 2 ^ 31
    → AddEnds max es r
    → Stored (stored d r)
stored-Stored d max es (ok (c, m)) small (v, top) = record {
  entries = es;
  mapped = v;
  small = omega arith;
}
stored-Stored d max es (err e) small h = inl refl
stored-Stored d max es fault small h = h

-- The name of the entry, or a lack of memory.
abbrev Named : Deflater → Result (List ℕ × Deflater) → Type 0
Named d r = (r ≡ err nomem) ⊎ ((name : List ℕ) × (t : Deflater) × (r ≡ ok (name, t)))

copy-Named : (d : Deflater) (nv : Nv) (a : Bool × Deflater) → Named d (copy_name nv a)
copy-Named d nv (true, t) = inr (nv.name, t, refl)
copy-Named d nv (false, t) = inl refl

name_for-Named : (d : Deflater) (nv : Nv) (idx : Option ℕ) → Named d (name_for d nv idx)
name_for-Named d nv none = copy-Named d nv (answer d)
name_for-Named d nv (some i) = elim (Bool-cases (ltb i static_table_length)) [
  | inl static ↦
      let (e, found) = table_get_in d.ctx i (ground arith) in
      rw (static, found) (inr (e.name, d, refl))
  | inr dynamic ↦ rw dynamic (copy-Named d nv (answer d))
]

either-Stored :
    (b : Bool) (x y : Result Deflater) → Stored x → Stored y → Stored (if b then x else y)
either-Stored true x y h k = h
either-Stored false x y h k = k

store-Stored : (d : Deflater) (nv : Nv) (idx : Option ℕ) → IsReady d → Stored (store d nv idx)
unfolding store
store-Stored d nv idx r = elim (name_for-Named d nv idx) [
  | inl refused ↦ rw refused (inr (inr refl))
  | inr (name, t, e) ↦
      let a = answer t in
      let b = answer a.1 in
      let c = answer b.1 in
      rw e (
        either-Stored a.0 (stored c.1 (add_mapped d.ctx d.map name nv.value b.0 c.0)) (err nomem)
          (stored-Stored c.1 d.ctx.hd_table_bufsize_max _ _ r.small
            (add_mapped-ends d.ctx d.map r.entries name nv.value b.0 c.0 r.mapped r.small))
          (inr (inr refl)))
]

-- How the encoding of a field may end.
abbrev FieldEnds : Deflater × (Bufs × Status) → Type 0
FieldEnds (d, (s, done)) = IsReady d × IsOpen s
FieldEnds (d, (s, failed e)) = IsValid s × Refusal e
FieldEnds (d, (s, overrun)) = ⊥
FieldEnds (d, (s, out_of_fuel)) = ⊥

stays : (d : Deflater) (r : Bufs × Status) → IsReady d → Emitted r → FieldEnds (d, r)
stays d (s, done) v h = (v, h)
stays d (s, failed e) v h = h
stays d (s, overrun) v h = h
stays d (s, out_of_fuel) v h = h

emit_stored-ends :
    (s : Bufs) (nv : Nv) (idx : Option ℕ) (d : Deflater) (r : Result Deflater)
    → IsOpen s
    → All IsByte nv.name
    → All IsByte nv.value
    → Stored r
    → FieldEnds (emit_stored s nv idx d r)
emit_stored-ends s nv idx d (ok t) o name value h =
    stays t (emit_field s nv idx with_indexing) h
      (emit_field-Emitted s nv idx with_indexing o name value)
emit_stored-ends s nv idx d (err e) o name value h = (o.valid, h)
emit_stored-ends s nv idx d fault o name value h = h

module _ (d : Deflater) (s : Bufs) (nv : Nv) (v : IsReady d) (o : IsOpen s)
    (name : All IsByte nv.name) (value : All IsByte nv.value) where
  store_and_emit-ends :
      (idx : Option ℕ) (mode : IndexingMode) → FieldEnds (store_and_emit d s nv idx mode)
  store_and_emit-ends idx with_indexing =
      emit_stored-ends s nv idx d (store d nv idx) o name value (store-Stored d nv idx v)
  store_and_emit-ends idx without_indexing =
      stays d (emit_field s nv idx without_indexing) v
        (emit_field-Emitted s nv idx without_indexing o name value)
  store_and_emit-ends idx never_indexing =
      stays d (emit_field s nv idx never_indexing) v
        (emit_field-Emitted s nv idx never_indexing o name value)

  found-ends :
      (exact : Bool) (idx : Option ℕ) (mode : IndexingMode)
      → FieldEnds (
          if exact then (d, emit_indexed_block s (as_size idx)) else store_and_emit d s nv idx mode)
  found-ends true idx mode =
      stays d (emit_indexed_block s (as_size idx)) v (emit_indexed_block-Emitted s (as_size idx) o)
  found-ends false idx mode = store_and_emit-ends idx mode

  deflate_nv-ends : FieldEnds (deflate_nv d s nv)
  unfolding deflate_nv
  deflate_nv-ends =
      let res = search_for d nv in found-ends res.name_value_match res.index (indexing_mode d nv)

abbrev pub AreBytes : Nv → Type 0
AreBytes nv = All IsByte nv.name × All IsByte nv.value

-- How the encoding of a block may end.
abbrev pub DeflateEnds : Deflater × (Bufs × Status) → Type 0
DeflateEnds (d, (s, done)) = IsReady d × IsOpen s
DeflateEnds (d, (s, failed e)) = (d.bad ≡ true) × IsValid s × Refusal e
DeflateEnds (d, (s, overrun)) = ⊥
DeflateEnds (d, (s, out_of_fuel)) = ⊥

or_fail-ends :
    (k : Deflater → Bufs → Deflater × (Bufs × Status)) (r : Deflater × (Bufs × Status))
    → FieldEnds r
    → ((d : Deflater) (s : Bufs) → IsReady d → IsOpen s → DeflateEnds (k d s))
    → DeflateEnds (or_fail k r)
or_fail-ends k (d, (s, done)) h go = go d s h.0 h.1
or_fail-ends k (d, (s, failed e)) h go = (refl, h.0, h.1)
or_fail-ends k (d, (s, overrun)) h go = h
or_fail-ends k (d, (s, out_of_fuel)) h go = h

loop-ends :
    (nva : List Nv) (d : Deflater) (s : Bufs)
    → All AreBytes nva
    → IsReady d
    → IsOpen s
    → DeflateEnds (deflate_loop d s nva)
unfolding deflate_loop
loop-ends [] d s h v o = (v, o)
loop-ends (nv ∷ nva) d s h v o =
    or_fail-ends _ (deflate_nv d s nv) (deflate_nv-ends d s nv v o h.0.0 h.0.1)
      (λ e t w p. loop-ends nva e t h.1 w p)

first-Emitted :
    (b : Bool) (s : Bufs) (n : ℕ)
    → IsOpen s
    → Emitted (if b then emit_table_size s n else (s, done))
first-Emitted true s n o = emit_table_size-Emitted s n o
first-Emitted false s n o = o

told-ends :
    (tell : Bool) (d t : Deflater) (s : Bufs) (r : Bufs × Status)
    → IsReady d
    → IsReady t
    → IsOpen s
    → Emitted r
    → FieldEnds (if tell then (t, r) else (d, (s, done)))
told-ends true d t s r v w o h = stays t r w h
told-ends false d t s r v w o h = (v, o)

notify_size-ends : (d : Deflater) (s : Bufs) → IsReady d → IsOpen s → FieldEnds (notify_size d s)
unfolding notify_size
notify_size-ends d s v o =
    let size = d.ctx.hd_table_bufsize_max in
    let least = d.min_hd_table_bufsize_max in
    told-ends d.notify_table_size_change d _ s _ v
      (record { entries = v.entries; mapped = v.mapped; small = v.small }) o
      (resume-Emitted (λ t. emit_table_size t size) _ (first-Emitted (ltb least size) s least o)
        (λ t w. emit_table_size-Emitted t size w))

unless_bad :
    (bad : Bool) (d : Deflater) (s : Bufs) (r : Deflater × (Bufs × Status))
    → d.bad ≡ bad
    → IsOpen s
    → DeflateEnds r
    → DeflateEnds (if bad then (d, (s, failed header_comp)) else r)
unless_bad true d s r e o h = (e, o.valid, inl refl)
unless_bad false d s r e o h = h

-- Encoding any fields into an open chain, from a deflater whose map follows its table and whose table
-- is smaller than 2^31 octets, writes inside the chain only and ends: with success, the map following
-- the table again and the chain open, or with NGHTTP2_ERR_HEADER_COMP, NGHTTP2_ERR_BUFFER_ERROR or
-- NGHTTP2_ERR_NOMEM, the deflater marked as bad and a valid chain.
pub deflate_hd_bufs-ends :
    (d : Deflater) (s : Bufs) (nva : List Nv)
    → IsReady d
    → IsOpen s
    → All AreBytes nva
    → DeflateEnds (deflate_hd_bufs d s nva)
unfolding deflate_hd_bufs
deflate_hd_bufs-ends d s nva v o h = unless_bad d.bad d s _ refl o (
    or_fail-ends _ (notify_size d s) (notify_size-ends d s v o)
      (λ e t w p. loop-ends nva e t h w p))
