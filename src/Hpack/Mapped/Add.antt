-- ===== src/Hpack/Mapped/Add.antt =====
-- add_hd_table_incremental and hd_context_shrink_table_size with a map.
use kitura_http.Prelude.{
  ℕ, ◌+◌, ◌%◌, ◌^◌, ◌≤◌, ◌<◌, ◌≡◌, refl, sym, ap, subst, ◌∙◌, List, ◌∷◌, Bool, true, false, ltb,
  leb, ◌==◌, length, if◌then◌else◌, Bool-cases, inl, inr, arith,
}
use kitura_http.Result.{Result, ok, err, fault, nomem, ◌>>=◌}
use kitura_http.Hpack.Table.{
  HdEntry, Ringbuf, Context, entry_room, add_entry, add_after, ringbuf_push_front,
}
use kitura_http.Hpack.Table.Ring.{entries}
use kitura_http.Hpack.Table.Evict.{IsTable, SameLimits, total, keep, total-keep, evict-keep}
use kitura_http.Hpack.Table.Add.{added, new_entry, add_after-fits, keep_too_large}
use kitura_http.Hpack.Table.Grant.{Granted, add_after-Granted}
use kitura_http.Hpack.Search.{HdMap, entry_hash, bucket_of, map_insert}
use kitura_http.Hpack.Search.Holds.{IsMapped, bucket}
use kitura_http.Hpack.Mapped.{evict_mapped, shrink_mapped, insert_mapped, add_mapped}
use kitura_http.Hpack.Mapped.Keeps.{evict-IsMapped}

-- The table with its map after a call, or a lack of memory.
abbrev pub AddEnds : ℕ → List HdEntry → Result (Context × HdMap) → Type 0
AddEnds max es (ok (d, m)) = IsMapped d m es × (d.hd_table_bufsize_max ≡ max)
AddEnds max es (err e) = e ≡ nomem
AddEnds max es fault = ⊥

pushed-seq :
    (c d : Context) (name value : List ℕ) (r : Result Ringbuf)
    → (r >>= λ t. ok (add_entry c name value t)) ≡ ok d
    → d.next_seq ≡ (c.next_seq + 1) % 2 ^ 32
pushed-seq c d name value (ok t) h =
    ap (λ r. elim r [ ok x ↦ x.next_seq | err e ↦ 0 | fault ↦ 0 ]) (sym h)
pushed-seq c d name value (err e) h = cc
pushed-seq c d name value fault h = cc

add_after-seq :
    (c d : Context) (name value : List ℕ)
    → entry_room (length name) (length value) ≤ c.hd_table_bufsize_max
    → add_after c name value true true ≡ ok d
    → d.next_seq ≡ (c.next_seq + 1) % 2 ^ 32
unfolding add_after
add_after-seq c d name value le h =
    let small : ltb c.hd_table_bufsize_max (entry_room (length name) (length value)) ≡ false =
      ground arith in
    pushed-seq c d name value (ringbuf_push_front c.hd_table (new_entry c name value) true)
      (rw small at h)

insert-bucket :
    (m : HdMap) (b : ℕ) (e : HdEntry) (es : List HdEntry)
    → m b ≡ bucket b es
    → map_insert m e b ≡ bucket b (e ∷ es)
unfolding map_insert
insert-bucket m b e es h = elim (Bool-cases (bucket_of (entry_hash e) == b)) [
  | inl here ↦ rw here (ap (λ l. e ∷ l) h)
  | inr there ↦ rw there h
]

same_ends :
    {max max' : ℕ} {es es' : List HdEntry} (r : Result (Context × HdMap))
    → max ≡ max'
    → es ≡ es'
    → AddEnds max es r
    → AddEnds max' es' r
same_ends {max = max} {es' = es'} r e f h =
    subst (λ m. AddEnds m es' r) e (subst (λ l. AddEnds max l r) f h)

if_small :
    (max : ℕ) (b : Bool) (x y : Result (Context × HdMap)) (es : List HdEntry)
    → b ≡ false
    → AddEnds max es y
    → AddEnds max es (if b then x else y)
if_small max true x y es e h = absurd (cc e)
if_small max false x y es e h = h

linked :
    (r : Result Context) (d : Context) (m : HdMap) (es : List HdEntry)
    → Granted r (ok d)
    → IsMapped d m es
    → AddEnds d.hd_table_bufsize_max es (r >>= λ d. ok (d, m))
linked r d m es (inl refused) v = rw refused refl
linked r d m es (inr granted) v = rw granted (v, refl)

module _ (c : Context) (m : HdMap) (es : List HdEntry) (name value : List ℕ) (v : IsMapped c m es)
    (limit : c.hd_table_bufsize_max < 2 ^ 31) where
  -- An entry that has room.
  fitting :
      (eg bg : Bool)
      → entry_room (length name) (length value) + total es ≤ c.hd_table_bufsize_max
      → AddEnds c.hd_table_bufsize_max
          (new_entry c name value ∷ es)
          (insert_mapped c m name value eg bg)
  unfolding insert_mapped
  fitting eg bg h =
      let small : ltb c.hd_table_bufsize_max (entry_room (length name) (length value)) ≡ false =
        ground arith in
      let (d, done, (table, top, le)) = add_after-fits c es name value v.table h in
      let seq = add_after-seq c d name value (omega arith) done in
      let size = table.accounted in
      if_small _ _ _ _ _ small (
        same_ends _ top refl (
          linked _ d _ (new_entry c name value ∷ es)
            (subst (Granted (add_after c name value eg bg)) done
              (add_after-Granted c name value eg bg))
            (record {
              table = table;
              buckets = λ b. insert-bucket m b (new_entry c name value) es (v.buckets b);
              numbered = (seq, v.next_in, v.numbered);
              next_in = omega arith;
              few = omega arith;
            })))

  too_large :
      (eg bg : Bool)
      → c.hd_table_bufsize_max < entry_room (length name) (length value)
      → AddEnds c.hd_table_bufsize_max es (insert_mapped c m name value eg bg)
  unfolding insert_mapped
  too_large eg bg h =
      let large : ltb c.hd_table_bufsize_max (entry_room (length name) (length value)) ≡ true =
        ground arith in
      rw large (v, refl)

-- The table after the loop, with the entries that the loop keeps.
kept :
    (c : Context) (m : HdMap) (es : List HdEntry) (room : ℕ)
    → IsMapped c m es
    → let r = evict_mapped c.hd_table.len room c m in
      IsMapped r.0 r.1 (keep c.hd_table_bufsize_max room es) × SameLimits c r.0
kept c m es room v =
    let whole : IsMapped c m (entries c.hd_table) = subst (IsMapped c m) (sym v.table.held) v in
    let (same, mapped) = evict-IsMapped c.hd_table.len room c m whole in
    let (table, limits) = evict-keep c.hd_table.len room c whole.table (omega arith) in
    let r = evict_mapped c.hd_table.len room c m in
    let there : IsTable r.0 (keep c.hd_table_bufsize_max room (entries c.hd_table)) =
      subst (λ d. IsTable d (keep c.hd_table_bufsize_max room (entries c.hd_table))) (sym same)
        table in
    (
      subst (IsMapped r.0 r.1) (there.held ∙ ap (keep c.hd_table_bufsize_max room) v.table.held)
          mapped,
      subst (SameLimits c) (sym same) limits,
    )

-- From a table that its map follows, inserting a field leaves the table that RFC 7541, 4.4, asks for,
-- the new entry before the entries that fit beside it, and a map that follows it, with the maximum as
-- it was; or there is a lack of memory. The table is smaller than 2^31 octets.
pub add_mapped-ends :
    (c : Context) (m : HdMap) (es : List HdEntry) (name value : List ℕ)
    (entry_granted buffer_granted : Bool)
    → IsMapped c m es
    → c.hd_table_bufsize_max < 2 ^ 31
    → AddEnds c.hd_table_bufsize_max
        (added c.hd_table_bufsize_max (new_entry c name value) es)
        (add_mapped c m name value entry_granted buffer_granted)
unfolding add_mapped
add_mapped-ends c m es name value entry_granted buffer_granted v limit =
    let max = c.hd_table_bufsize_max in
    let room = entry_room (length name) (length value) in
    let r = evict_mapped c.hd_table.len room c m in
    let (left, limits) = kept c m es room v in
    let top = limits.0 in
    let bound = limit in
    let entry : new_entry r.0 name value ≡ new_entry c name value =
      ap (λ s. record { name = name; value = value; seq = s }) limits.1 in
    elim (Bool-cases (leb room max)) [
      | inl fits ↦
          let small = total-keep max room es (ground arith) in
          rw fits (
            same_ends _ top (ap (λ e. e ∷ keep max room es) entry) (
              fitting r.0 r.1 (keep max room es) name value left (omega arith) entry_granted
                buffer_granted (omega arith)))
      | inr large ↦
          let over : max < room = ground arith in
          rw large (
            same_ends _ top (keep_too_large max room es over) (
              too_large r.0 r.1 (keep max room es) name value left (omega arith) entry_granted
                buffer_granted (omega arith)))
    ]

-- Shrinking the table, too, leaves a map that follows it.
pub shrink_mapped-keep :
    (c : Context) (m : HdMap) (es : List HdEntry)
    → IsMapped c m es
    → let r = shrink_mapped c m in IsMapped r.0 r.1 (keep c.hd_table_bufsize_max 0 es)
unfolding shrink_mapped
shrink_mapped-keep c m es v = (kept c m es 0 v).0
