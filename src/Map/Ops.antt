-- ===== src/Map/Ops.antt =====
-- The operations of the map, seen through nghttp2_map_find.
use kitura_http.Prelude.{
  ℕ, ◌+◌, ◌*◌, ◌≡◌, ◌≢◌, refl, sym, ap, ◌∙◌, [], Bool, true, false, Option, none, some, ◌==◌, ltb,
  if◌then◌else◌, replicate, arith, Bool-cases, Option-cases, inl, inr,
}
use kitura_http.Result.{Error, invalid_argument}
use kitura_http.Map.{
  Entry, Map, hash, map_init, initial_table_length, resize, insert_in, map_insert, map_find,
  map_remove, is_found, rehash,
}
use kitura_http.Map.Chain.{chain-replicate}
use kitura_http.Map.Find.{IsTable, find, grown-IsTable, grown-find, shrunk-IsTable, shrunk-find}
use kitura_http.Map.Rehash.{insert_new, insert_old, rehash-find, replicate-IsTable}

abbrev pub IsMap : Map → Type 0
IsMap m = IsTable m.tablelen m.table

-- The maps find the same entries.
abbrev pub Agree : Map → Map → Type 0
Agree m r = (k : ℕ) → map_find r k ≡ map_find m k

-- After the insertion of `e`: on success it was new, and is found besides the others; on an error
-- nothing is found that was not, and nothing is lost.
abbrev pub Inserted : Map → Entry → Map × Option Error → Type 0
Inserted m e (r, none) =
    (map_find m e.key ≡ none)
    × ((k : ℕ) → map_find r k ≡ (if e.key == k then some e else map_find m k))
Inserted m e (r, some x) = Agree m r

insert_in-Inserted :
    (m : Map) (e : Entry)
    → IsMap m
    → IsMap (insert_in e (m, none)).0 × Inserted m e (insert_in e (m, none))
unfolding map_find
insert_in-Inserted m e v = elim (Option-cases (find m.tablelen m.table e.key)) [
  | inl new ↦
      rw (insert_new m.tablelen m.table v e new)
        (grown-IsTable m.tablelen m.table v e new, (new, grown-find m.tablelen m.table v e new))
  | inr (f, old) ↦ rw (insert_old m.tablelen m.table e f old) (v, λ k. refl)
]

Inserted-Agree :
    (m m' : Map) (e : Entry) (r : Map × Option Error)
    → Agree m m'
    → Inserted m' e r
    → Inserted m e r
Inserted-Agree m m' e (r, none) a (new, f) =
    (sym (a e.key) ∙ new, λ k. f k ∙ ap (λ x. if e.key == k then some e else x) (a k))
Inserted-Agree m m' e (r, some x) a f = λ k. f k ∙ a k

resized :
    (m : Map) (e : Entry) (granted : Bool)
    → IsMap m
    → IsMap (insert_in e (resize m (m.tablelen * 2) granted)).0
      × Inserted m e (insert_in e (resize m (m.tablelen * 2) granted))
unfolding resize map_find
resized m e false v = (v, λ k. refl)
resized m e true v =
    let pos = v.some_chain in
    let (w, same) = rehash-find m.tablelen (m.tablelen * 2) m.table v (omega arith) in
    let m' = record m {
      table = rehash (m.tablelen * 2) (replicate (m.tablelen * 2) []) m.table;
      tablelen = m.tablelen * 2;
    } in
    let (w', inserted) = insert_in-Inserted m' e w in
    (w', Inserted-Agree m m' e (insert_in e (m', none)) same inserted)

-- nghttp2_map_insert keeps a valid map valid, with the table resized or not. On success the key was
-- new and the map finds the entry besides all others; on an error it finds what it found.
pub map_insert-Inserted :
    (m : Map) (e : Entry) (granted : Bool)
    → IsMap m
    → IsMap (map_insert m e granted).0 × Inserted m e (map_insert m e granted)
unfolding map_insert
map_insert-Inserted m e granted v = elim (Bool-cases (ltb (m.tablelen * 3) ((m.size + 1) * 4))) [
  | inl full ↦ rw full (resized m e granted v)
  | inr room ↦ rw room (insert_in-Inserted m e v)
]

insert_in-answer :
    (m : Map) (e : Entry)
    → IsMap m
    → (insert_in e (m, none)).1
      ≡ (if is_found (map_find m e.key) then some invalid_argument else none)
unfolding map_find
insert_in-answer m e v = elim (Option-cases (find m.tablelen m.table e.key)) [
  | inl new ↦ rw (insert_new m.tablelen m.table v e new, new) refl
  | inr (f, old) ↦ rw (insert_old m.tablelen m.table e f old, old) refl
]

resized-answer :
    (m : Map) (e : Entry)
    → IsMap m
    → (insert_in e (resize m (m.tablelen * 2) true)).1
      ≡ (if is_found (map_find m e.key) then some invalid_argument else none)
unfolding resize map_find
resized-answer m e v =
    let pos = v.some_chain in
    let (w, same) = rehash-find m.tablelen (m.tablelen * 2) m.table v (omega arith) in
    let m' = record m {
      table = rehash (m.tablelen * 2) (replicate (m.tablelen * 2) []) m.table;
      tablelen = m.tablelen * 2;
    } in
    insert_in-answer m' e w
    ∙ ap (λ x. if is_found x then some invalid_argument else none) (same e.key)

-- With memory at hand an insertion into a valid map fails exactly when its key is there already,
-- and with NGHTTP2_ERR_INVALID_ARGUMENT.
pub map_insert-answer :
    (m : Map) (e : Entry)
    → IsMap m
    → (map_insert m e true).1
      ≡ (if is_found (map_find m e.key) then some invalid_argument else none)
unfolding map_insert
map_insert-answer m e v = elim (Bool-cases (ltb (m.tablelen * 3) ((m.size + 1) * 4))) [
  | inl full ↦ rw full (resized-answer m e v)
  | inr room ↦ rw room (insert_in-answer m e v)
]

-- After the removal of `k`.
abbrev pub Removed : Map → ℕ → Map × Option Error → Type 0
Removed m k (r, none) =
    (map_find m k ≢ none) × ((j : ℕ) → map_find r j ≡ (if k == j then none else map_find m j))
Removed m k (r, some x) = (map_find m k ≡ none) × (r ≡ m)

-- nghttp2_map_remove keeps a valid map valid. It succeeds exactly when the key is found, and then
-- the map finds all entries but that one; otherwise it leaves the map alone.
pub map_remove-Removed :
    (m : Map) (k : ℕ) → IsMap m → IsMap (map_remove m k).0 × Removed m k (map_remove m k)
unfolding map_remove map_find
map_remove-Removed m k v = elim (Option-cases (find m.tablelen m.table k)) [
  | inl absent ↦ rw absent (v, (absent, refl))
  | inr (f, there) ↦
      rw there
        (shrunk-IsTable m.tablelen m.table v k, (λ e. cc, shrunk-find m.tablelen m.table v k))
]

-- A new map, for which the allocator gave memory, is valid and finds nothing.
pub map_init-empty :
    (m : Map) × (map_init true ≡ some m) × IsMap m × ((k : ℕ) → map_find m k ≡ none)
unfolding map_init map_find
map_init-empty = (
  _,
  refl,
  replicate-IsTable initial_table_length (omega arith),
  λ k. rw (chain-replicate initial_table_length (hash k initial_table_length)) refl,
)
