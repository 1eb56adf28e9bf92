-- ===== src/Hpack/Deflate/Indexed.antt =====
-- A field that stands in the tables, from the encoder to the decoder.
use kitura_http.Prelude.{
  ℕ, ◌+◌, ◌-◌, ◌%◌, ◌^◌, ◌<◌, ◌≡◌, refl, sym, ap, ◌∙◌, List, ◌++◌, Bool, true, false, Option, none,
  some, ltb, leb, length, get_or, Bool-cases, inl, inr, arith, if◌then◌else◌,
}
use kitura_http.Buf.{Bufs, done, bufs_bytes, bufs_add}
use kitura_http.Buf.Add.{bufs_add_appends}
use kitura_http.Buf.Byte.{IsOpen}
use kitura_http.Hpack.Integer.{encode_length, count_encoded_length}
use kitura_http.Hpack.Table.{HdEntry, Context, no_entry, place, ringbuf_get}
use kitura_http.Hpack.Table.Ring.{length-entries_from, get_or-entries_from}
use kitura_http.Hpack.Table.Evict.{IsTable}
use kitura_http.Hpack.Inflater.{Inflater}
use kitura_http.Hpack.Inflate.{HdNv, table_get, get_max_index}
use kitura_http.Hpack.Inflate.Run.{emitted, inflate_hd_nv}
use kitura_http.Hpack.Inflate.Takes.{Starts, inflate_hd_nv-indexed}
use kitura_http.Hpack.Search.Holds.{IsMapped, length-total}
use kitura_http.Hpack.Search.Found.{Found, search_hd_table-Found}
use kitura_http.Hpack.Emit.{emit_integer, emit_indexed_block}
use kitura_http.Hpack.Deflate.{
  Nv, Deflater, search_for, deflate_nv, as_size, is_never, indexing_mode,
}

length-held : (c : Context) (es : List HdEntry) → IsTable c es → length es ≡ c.hd_table.len
length-held c es t = ap length (sym t.held) ∙ length-entries_from c.hd_table c.hd_table.len 0

place-held :
    (c : Context) (es : List HdEntry) (j : ℕ)
    → IsTable c es
    → j < c.hd_table.len
    → place c.hd_table j ≡ get_or es j no_entry
place-held c es j t lt =
    ap (place c.hd_table) (omega arith)
    ∙ sym (get_or-entries_from c.hd_table c.hd_table.len 0 j lt)
    ∙ ap (λ l. get_or l j no_entry) t.held

-- Two tables with the same entries give the same.
table_get-same :
    (c d : Context) (es : List HdEntry) (i : ℕ)
    → IsTable c es
    → IsTable d es
    → i < get_max_index d
    → table_get c i ≡ table_get d i
unfolding table_get ringbuf_get
table_get-same c d es i t u lt = elim (Bool-cases (leb 61 i)) [
  | inr static ↦ rw static refl
  | inl dynamic ↦
      let one = length-held c es t in
      let two = length-held d es u in
      let inside : ltb (i - 61) d.hd_table.len ≡ true = ground arith in
      let there : ltb (i - 61) c.hd_table.len ≡ true = ground arith in
      let same : place c.hd_table (i - 61) ≡ place d.hd_table (i - 61) =
        place-held c es (i - 61) t (ground arith)
        ∙ sym (place-held d es (i - 61) u (ground arith)) in
      rw (dynamic, inside, there, same) refl
]

-- An integer that was written with success.
emit_integer-appends :
    (s t : Bufs) (first n prefix : ℕ)
    → IsOpen s
    → emit_integer s first n prefix ≡ (t, done)
    → bufs_bytes t ≡ bufs_bytes s ++ encode_length first n prefix
unfolding emit_integer
emit_integer-appends s t first n prefix o e =
    elim (Bool-cases (ltb 16 (count_encoded_length n prefix))) [
      | inl long ↦ cc (rw long at e)
      | inr short ↦
          let wrote : bufs_add s (encode_length first n prefix) ≡ (t, done) = rw short at e in
          ap (λ r. bufs_bytes r.0) (sym wrote)
          ∙ (bufs_add_appends s (encode_length first n prefix) o.fresh (ap (λ r. r.1) wrote)).0
    ]

-- What an encoder wrote and a decoder made of it.
abbrev pub ComesBack : Bufs → Bufs → Nv → Inflater → List ℕ → Bool → Type 0
ComesBack s t nv f rest in_final =
    (enc : List ℕ) × (g : Inflater) × (e : HdNv) × (bufs_bytes t ≡ bufs_bytes s ++ enc)
    × (inflate_hd_nv f (enc ++ rest) in_final ≡ emitted g e rest)
    × (e.name ≡ nv.name)
    × (e.value ≡ nv.value)
    × (g.ctx ≡ f.ctx)

module _ (d : Deflater) (s t : Bufs) (nv : Nv) (es : List HdEntry) (f : Inflater) (rest : List ℕ)
    (in_final : Bool) (mapped : IsMapped d.ctx d.map es) (table : IsTable f.ctx es)
    (fine : f.bad ≡ false) (st : Starts f.state) (o : IsOpen s) where
  index-ComesBack :
      (i : ℕ)
      → Found d.ctx nv.name nv.value (some i) true
      → emit_indexed_block s i ≡ (t, done)
      → ComesBack s t nv f rest in_final
  unfolding emit_indexed_block
  index-ComesBack i (lt, e, found, name, value) wrote =
      let short = length-total es in
      let size = mapped.table.accounted in
      let few = mapped.few in
      let one = length-held d.ctx es mapped.table in
      let two = length-held f.ctx es table in
      let small : (i + 1) % 2 ^ 64 ≡ i + 1 = omega arith in
      let (shift, run) =
        inflate_hd_nv-indexed f i e rest in_final fine st (omega arith) (omega arith)
          (table_get-same f.ctx d.ctx es i table mapped.table lt ∙ found) in
      (
        encode_length 0x80 (i + 1) 7,
        _,
        e,
        emit_integer-appends s t 0x80 (i + 1) 7 o
            (ap (λ n. emit_integer s 0x80 n 7) (sym small) ∙ wrote),
        run,
        name,
        value refl,
        refl,
      )

  Found-ComesBack :
      (idx : Option ℕ) (exact : Bool)
      → Found d.ctx nv.name nv.value idx exact
      → exact ≡ true
      → emit_indexed_block s (as_size idx) ≡ (t, done)
      → ComesBack s t nv f rest in_final
  Found-ComesBack none exact found e wrote = absurd (cc (sym found ∙ e))
  Found-ComesBack (some i) true found e wrote = index-ComesBack i found wrote
  Found-ComesBack (some i) false found e wrote = absurd (cc e)

in_branch : {A : Type 0} (b : Bool) (x y : A) → b ≡ true → (if b then x else y) ≡ x
in_branch true x y e = refl
in_branch false x y e = absurd (cc e)

-- When an encoder whose map follows its table finds a field in its tables and writes it with success
-- into an open chain, it leaves its own state, and a decoder between fields, whose table holds the
-- same entries, emits a field with the same name and the same value from the bytes written, whatever
-- follows them, and leaves its table.
pub inflate_hd_nv-deflate_nv :
    (d d' : Deflater) (s t : Bufs) (nv : Nv) (es : List HdEntry) (f : Inflater) (rest : List ℕ)
    (in_final : Bool)
    → IsMapped d.ctx d.map es
    → IsTable f.ctx es
    → f.bad ≡ false
    → Starts f.state
    → IsOpen s
    → (search_for d nv).name_value_match ≡ true
    → deflate_nv d s nv ≡ (d', (t, done))
    → (d' ≡ d) × ComesBack s t nv f rest in_final
unfolding deflate_nv search_for
inflate_hd_nv-deflate_nv d d' s t nv es f rest in_final mapped table fine st o match wrote =
    let res = search_for d nv in
    let direct : (d, emit_indexed_block s (as_size res.index)) ≡ (d', (t, done)) =
      sym (in_branch res.name_value_match _ _ match) ∙ wrote in
    (
      sym (ap (λ r. r.0) direct),
      Found-ComesBack d s t nv es f rest in_final mapped table fine st o res.index
          res.name_value_match
          (search_hd_table-Found d.ctx d.map es nv.name nv.value (is_never (indexing_mode d nv))
            mapped)
          match (ap (λ r. r.1) direct),
    )
