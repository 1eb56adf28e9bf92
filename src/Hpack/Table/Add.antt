-- ===== src/Hpack/Table/Add.antt =====
-- add_hd_table_incremental and the change of the size, beside RFC 7541, 4.3 and 4.4.
use kitura_http.Prelude.{
  ℕ, ◌+◌, ◌≤◌, ◌<◌, ◌≡◌, refl, ap, subst, ◌∙◌, List, [], ◌∷◌, true, false, length, ltb, leb,
  if◌then◌else◌, arith, Bool-cases, inl, inr,
}
use kitura_http.Result.{ok}
use kitura_http.Hpack.Table.{
  HdEntry, Context, entry_room, room_of, evict, shrink_table_size, add_entry, add_after,
  add_hd_table_incremental,
}
use kitura_http.Hpack.Table.Ring.{push_front-entries}
use kitura_http.Hpack.Table.Evict.{IsTable, SameLimits, total, keep, total-keep, evict-keep, itself}

-- The table that RFC 7541 asks for: the new entry before the entries that fit beside it, or nothing
-- where it is larger than the table.
abbrev pub added : ℕ → HdEntry → List HdEntry → List HdEntry
added max e es = if leb (room_of e) max then e ∷ keep max (room_of e) es else []

pub keep_too_large : (max used : ℕ) (es : List HdEntry) → max < used → keep max used es ≡ []
keep_too_large max used [] h = refl
keep_too_large max used (e ∷ es) h =
    let over : leb (used + room_of e) max ≡ false = ground arith in rw over refl

-- The entry that a context makes of a field.
abbrev pub new_entry : Context → List ℕ → List ℕ → HdEntry
new_entry c name value = record { name = name; value = value; seq = c.next_seq }

abbrev pub After : Context → List HdEntry → Context → Type 0
After c es d =
    IsTable d es
    × (d.hd_table_bufsize_max ≡ c.hd_table_bufsize_max)
    × (total es ≤ c.hd_table_bufsize_max)

-- The end of the function, in a table that has room for the entry unless it is too large for any.
pub add_after-fits :
    (c : Context) (es : List HdEntry) (name value : List ℕ)
    → IsTable c es
    → entry_room (length name) (length value) + total es ≤ c.hd_table_bufsize_max
    → (d : Context) × (add_after c name value true true ≡ ok d)
      × After c (new_entry c name value ∷ es) d
unfolding add_after
add_after-fits c es name value v h =
    let small : ltb c.hd_table_bufsize_max (entry_room (length name) (length value)) ≡ false =
      ground arith in
    let (t, done, ring, len, all) = push_front-entries c.hd_table (new_entry c name value) v.ring in
    let size = v.accounted in
    (
      add_entry c name value t,
      rw (small, done) refl,
      (
        record {
          ring = ring;
          held = all ∙ ap (λ l. new_entry c name value ∷ l) v.held;
          accounted = omega arith;
        },
        refl,
        h,
      ),
    )

add_after-too_large :
    (c : Context) (name value : List ℕ)
    → c.hd_table_bufsize_max < entry_room (length name) (length value)
    → add_after c name value true true ≡ ok c
unfolding add_after
add_after-too_large c name value h =
    let large : ltb c.hd_table_bufsize_max (entry_room (length name) (length value)) ≡ true =
      ground arith in
    rw large refl

module _ (c c' : Context) (es : List HdEntry) (name value : List ℕ)
    (v : IsTable c' (keep c.hd_table_bufsize_max (entry_room (length name) (length value)) es))
    (same : SameLimits c c') where
  finish :
      (d : Context) × (add_after c' name value true true ≡ ok d)
      × IsTable d (added c.hd_table_bufsize_max (new_entry c name value) es)
      × (d.hd_table_bufsize ≤ c.hd_table_bufsize_max)
      × (d.hd_table_bufsize_max ≡ c.hd_table_bufsize_max)
  finish =
      let max = c.hd_table_bufsize_max in
      let room = entry_room (length name) (length value) in
      let limit = same.0 in
      let size = v.accounted in
      let entry : new_entry c' name value ≡ new_entry c name value =
        ap (λ s. record { name = name; value = value; seq = s }) same.1 in
      elim (Bool-cases (leb room max)) [
        | inl fits ↦
            let kept = total-keep max room es (ground arith) in
            let (d, done, (table, top, le)) =
              add_after-fits c' (keep max room es) name value v (omega arith) in
            let counted = table.accounted in
            (
              d,
              done,
              rw fits (subst (λ e. IsTable d (e ∷ keep max room es)) entry table),
              omega arith,
              top ∙ limit,
            )
        | inr large ↦
            let over : max < room = ground arith in
            let none_kept = keep_too_large max room es over in
            let empty = ap total none_kept in
            (
              c',
              add_after-too_large c' name value (omega arith),
              rw large (subst (IsTable c') none_kept v),
              omega arith,
              limit,
            )
      ]

-- With memory at hand add_hd_table_incremental succeeds on a valid table. It leaves the new entry
-- before the entries that fit beside it, or none if it is larger than the table; the size is that of
-- the entries, and within the maximum, which stays.
pub add_hd_table_incremental-added :
    (c : Context) (es : List HdEntry) (name value : List ℕ)
    → IsTable c es
    → (d : Context) × (add_hd_table_incremental c name value true true ≡ ok d)
      × IsTable d (added c.hd_table_bufsize_max (new_entry c name value) es)
      × (d.hd_table_bufsize ≤ c.hd_table_bufsize_max)
      × (d.hd_table_bufsize_max ≡ c.hd_table_bufsize_max)
unfolding add_hd_table_incremental
add_hd_table_incremental-added c es name value v =
    let max = c.hd_table_bufsize_max in
    let room = entry_room (length name) (length value) in
    let (left, same) = evict-keep c.hd_table.len room c (itself v) (omega arith) in
    let c' = evict c.hd_table.len room c in
    finish c c' es name value (subst (λ l. IsTable c' (keep max room l)) v.held left) same

-- hd_context_shrink_table_size leaves the longest run of the newest entries that fits the maximum,
-- and a size within it.
pub shrink_table_size-keep :
    (c : Context) (es : List HdEntry)
    → IsTable c es
    → IsTable (shrink_table_size c) (keep c.hd_table_bufsize_max 0 es)
      × ((shrink_table_size c).hd_table_bufsize ≤ c.hd_table_bufsize_max)
unfolding shrink_table_size
shrink_table_size-keep c es v =
    let max = c.hd_table_bufsize_max in
    let (left, same) = evict-keep c.hd_table.len 0 c (itself v) (omega arith) in
    let table = subst (λ l. IsTable (evict c.hd_table.len 0 c) (keep max 0 l)) v.held left in
    let counted = table.accounted in
    let kept = total-keep max 0 es (omega arith) in (table, omega arith)
