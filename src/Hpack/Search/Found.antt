-- ===== src/Hpack/Search/Found.antt =====
-- search_hd_table finds what it says it finds.
use kitura_http.Prelude.{
  ℕ, zero, suc, ◌+◌, ◌-◌, ◌≤◌, ◌<◌, ◌≡◌, refl, sym, ap, subst, ◌∙◌, List, [], ◌∷◌, Bool, true,
  false, ◌&&◌, Option, none, some, leb, ◌==◌, get_or, Bool-cases, Option-cases, inl, inr, arith,
  All, &&_split,
}
use kitura_http.Result.{ok}
use kitura_http.Hpack.Static.{static_table}
use kitura_http.Hpack.Table.{HdEntry, Context}
use kitura_http.Hpack.Token.{lookup_token, bytes_eq}
use kitura_http.Hpack.Inflate.{HdNv, table_get, get_max_index, no_static, static_nv}
use kitura_http.Hpack.Search.{
  HdMap, Wanted, last_static, entry_token, field_hash, token_eq, name_hit, find_loop, map_find,
  static_loop, search_static_table, from_map, in_tables, search_hd_table, bucket_of,
}
use kitura_http.Hpack.Search.Names.{bytes_eq-eq, Named, name_of, lookup_token-Named, static-Named}
use kitura_http.Hpack.Search.Holds.{
  IsMapped, Indexed, Stands, bucket, All-Stands, All-bucket, All-map, Stands-Indexed,
}

-- A field, as deflate_nv looks for it.
abbrev pub wanted : List ℕ → List ℕ → Bool → Wanted
wanted name value name_only = record {
  name = name;
  value = value;
  token = lookup_token name;
  hash = field_hash (lookup_token name) name;
  name_only = name_only;
}

-- An entry of the map that may be the result, and an exact match.
abbrev Hit : (HdEntry → Type 0) → Wanted → Option HdEntry × Bool → Type 0
Hit P w (none, exact) = exact ≡ false
Hit P w (some p, exact) =
    P p × (name_hit w p ≡ true) × (exact ≡ true → bytes_eq p.value w.value ≡ true)

module _ (P : HdEntry → Type 0) (w : Wanted) where
  kept-Hit :
      (r : HdEntry) (ps : List HdEntry)
      → P r
      → name_hit w r ≡ true
      → All P ps
      → Hit P w (find_loop w (some r) ps)
  unfolding find_loop
  kept-Hit r [] p hit h = (p, hit, λ e. cc)
  kept-Hit r (x ∷ ps) p hit h = elim (Bool-cases (name_hit w x && bytes_eq x.value w.value)) [
    | inl exact ↦
        let (name, value) = &&_split (name_hit w x) _ exact in rw exact (h.0, name, λ e. value)
    | inr other ↦ rw other (kept-Hit r ps p hit h.1)
  ]

  find_loop-Hit : (ps : List HdEntry) → All P ps → Hit P w (find_loop w none ps)
  unfolding find_loop
  find_loop-Hit [] h = refl
  find_loop-Hit (x ∷ ps) h = elim (Bool-cases (name_hit w x)) [
    | inr other ↦ rw other (find_loop-Hit ps h.1)
    | inl hit ↦ elim (Bool-cases w.name_only) [
      | inl only ↦ rw (hit, only) (h.0, hit, λ e. cc)
      | inr whole ↦ elim (Bool-cases (bytes_eq x.value w.value)) [
        | inl exact ↦ rw (hit, whole, exact) (h.0, hit, λ e. exact)
        | inr other ↦ rw (hit, whole, other) (kept-Hit x ps h.0 hit h.1)
      ]
    ]
  ]

-- What a result of the search says of the tables.
abbrev pub Found : Context → List ℕ → List ℕ → Option ℕ → Bool → Type 0
Found c name value none exact = exact ≡ false
Found c name value (some i) exact =
    (i < get_max_index c)
    × (nv : HdNv) × (table_get c i ≡ ok nv)
    × (nv.name ≡ name)
    × (exact ≡ true → nv.value ≡ value)

equal : (a b : ℕ) → (a == b) ≡ true → a ≡ b
equal a b h = ground arith

-- A field of the static table with the token of the name.
static-Found :
    (c : Context) (name value : List ℕ) (t i : ℕ) (exact : Bool)
    → Named name t
    → i < 61
    → (get_or static_table i no_static).token ≡ t
    → (exact ≡ true → (get_or static_table i no_static).value ≡ value)
    → Found c name value (some i) exact
unfolding table_get
static-Found c name value t i exact named lt token match =
    let static : leb 61 i ≡ false = ground arith in
    (
      omega arith,
      static_nv (get_or static_table i no_static),
      rw static refl,
      static-Named i t lt token ∙ sym named.0,
      match,
    )

module _ (c : Context) (name value : List ℕ) (only : Bool) (t : ℕ) (named : Named name t)
    (le : t ≤ 60) where
  by_token-Found : Found c name value (some t) false
  by_token-Found = static-Found c name value t t false named (omega arith) (named.1 le) (λ e. cc)

  static_loop-Found :
      (count i : ℕ)
      → i + count ≤ 61
      → let r = static_loop (wanted name value only) t count i in
        Found c name value r.index r.name_value_match
  unfolding static_loop
  static_loop-Found zero i h = by_token-Found
  static_loop-Found (suc count) i h =
      elim (Bool-cases ((get_or static_table i no_static).token == t)) [
        | inr other ↦ rw other by_token-Found
        | inl token ↦ elim (Bool-cases (bytes_eq (get_or static_table i no_static).value value)) [
          | inl exact ↦
              rw (token, exact)
                (static-Found c name value t i true named (omega arith) (equal _ _ token)
                  (λ e. bytes_eq-eq _ _ exact))
          | inr differs ↦ rw (token, differs) (static_loop-Found count (i + 1) (omega arith))
        ]
      ]

search_static_table-Found :
    (c : Context) (name value : List ℕ) (only : Bool) (t : ℕ)
    → Named name t
    → t ≤ 60
    → let r = search_static_table (wanted name value only) t in
      Found c name value r.index r.name_value_match
unfolding search_static_table
search_static_table-Found c name value true t named le = by_token-Found c name value true t named le
search_static_table-Found c name value false t named le =
    static_loop-Found c name value false t named le (61 - t) t (omega arith)

-- An entry that is not passed over has the name.
hit_name :
    (name value : List ℕ) (only : Bool) (e : HdEntry) (token : Option ℕ)
    → lookup_token name ≡ token
    → name_hit (wanted name value only) e ≡ true
    → e.name ≡ name
unfolding entry_token
hit_name name value only e none known hit =
    let (same, rest) = &&_split _ _ (rw known at hit) in
    let (hash, text) = &&_split _ _ rest in bytes_eq-eq e.name name text
hit_name name value only e (some t) known hit =
    let (same, rest) = &&_split (token_eq (some t) (entry_token e)) _ (rw known at hit) in
    elim (Option-cases (lookup_token e.name)) [
      | inl unknown ↦ cc (rw unknown at same)
      | inr (u, other) ↦
          let numbers : (t == u) ≡ true = rw other at same in
          let tokens = equal t u numbers in
          (lookup_token-Named e.name u other).0
          ∙ ap name_of (sym tokens)
          ∙ sym (lookup_token-Named name t known).0
    ]

map-Found :
    (c : Context) (name value : List ℕ) (only : Bool) (r : Option HdEntry × Bool)
    → Hit (Indexed c) (wanted name value only) r
    → let found = from_map c r in Found c name value found.index found.name_value_match
map-Found c name value only (none, exact) h = refl
map-Found c name value only (some e, exact) (indexed, hit, match) = (
  indexed.0,
  _,
  indexed.1,
  hit_name name value only e (lookup_token name) refl hit,
  λ x. bytes_eq-eq e.value value (match x),
)

in_tables-Found :
    (c : Context) (name value : List ℕ) (only : Bool) (token : Option ℕ) (r : Option HdEntry × Bool)
    → lookup_token name ≡ token
    → Hit (Indexed c) (wanted name value only) r
    → let found = in_tables c (wanted name value only) token r in
      Found c name value found.index found.name_value_match
in_tables-Found c name value only none r e h = map-Found c name value only r h
in_tables-Found c name value only (some t) (o, true) e h = map-Found c name value only (o, true) h
in_tables-Found c name value only (some t) (o, false) e h = elim (Bool-cases (leb t last_static)) [
  | inl static ↦
      rw static
        (search_static_table-Found c name value only t (lookup_token-Named name t e) (ground arith))
  | inr other ↦ rw other (map-Found c name value only (o, false) h)
]

-- When the map holds what the table holds, the search for a field gives no index, or the index of an
-- entry of the tables with the name of the field; a match has its value too.
pub search_hd_table-Found :
    (c : Context) (m : HdMap) (es : List HdEntry) (name value : List ℕ) (name_only : Bool)
    → IsMapped c m es
    → let r = search_hd_table c m (wanted name value name_only) in
      Found c name value r.index r.name_value_match
unfolding search_hd_table map_find
search_hd_table-Found c m es name value name_only v =
    let b = bucket_of (field_hash (lookup_token name) name) in
    let stand = All-bucket (Stands c.next_seq es) b es (All-Stands c.next_seq es v.numbered) in
    in_tables-Found c name value name_only (lookup_token name) _ refl (
      find_loop-Hit (Indexed c) (wanted name value name_only) (m b) (
        subst (All (Indexed c)) (sym (v.buckets b)) (
          All-map (Stands c.next_seq es) (Indexed c) (bucket b es) (λ p. Stands-Indexed c m es p v)
            stand)))
