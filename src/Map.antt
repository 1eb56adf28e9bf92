-- ===== src/Map.antt =====
-- Sources/nghttp2/nghttp2_map.c: the hash map from stream ids to streams. An entry is the number of
-- its object beside its key, which is the uint32_t that `hash` casts it to; a chain is a list.
pub mod Chain
pub mod Find
pub mod Rehash
pub mod Ops
pub mod Tests
use Prim.Native.Nat.{bit_xor}
use kitura_http.Prelude.{
  ℕ, ◌+◌, ◌-◌, ◌*◌, ◌/◌, ◌%◌, List, [], ◌∷◌, Bool, true, false, Option, none, some, length, get_or,
  set, replicate, ltb, ◌==◌, if◌then◌else◌,
}
use kitura_http.Result.{Error, nomem, invalid_argument}

pub record Entry : Type 0 where
  pub key : ℕ
  pub object : ℕ

pub record Map : Type 0 where
  pub table : List (List Entry)
  pub size : ℕ
  pub tablelen : ℕ

abbrev pub initial_table_length : ℕ
initial_table_length = 256

-- `mod` is a power of two, so that `& (mod - 1)` is the remainder.
unfoldable pub hash : ℕ → ℕ → ℕ
hash key modulus =
    let h = bit_xor key (bit_xor (key / 1048576) (key / 4096)) in
    let h' = bit_xor h (bit_xor (h / 128) (h / 16)) in h' % modulus

-- `table[h]`.
abbrev pub chain : List (List Entry) → ℕ → List Entry
chain table h = get_or table h []

-- nghttp2_map_init.
unfoldable pub map_init : Bool → Option Map
map_init true = some (record {
  table = replicate initial_table_length [];
  size = 0;
  tablelen = initial_table_length;
})
map_init false = none

-- The loop of nghttp2_map_find along a chain.
abbrev pub lookup : ℕ → List Entry → Option Entry
lookup k [] = none
lookup k (e ∷ es) = let rest = lookup k es in if e.key == k then some e else rest

abbrev pub is_found : Option Entry → Bool
is_found none = false
is_found (some e) = true

-- `insert`: `none` is NGHTTP2_ERR_INVALID_ARGUMENT. A new entry goes before the others.
unfoldable pub insert : List (List Entry) → ℕ → Entry → Option (List (List Entry))
unfolding hash
insert table tablelen e =
    let h = hash e.key tablelen in
    if is_found (lookup e.key (chain table h)) then none else some (set table h (e ∷ chain table h))

-- `insert(new_table, new_tablelen, entry)` with its result not looked at.
abbrev pub or_kept : List (List Entry) → Option (List (List Entry)) → List (List Entry)
or_kept table none = table
or_kept table (some t) = t

-- The loops of `resize`: along a chain, and over the chains.
unfoldable pub reinsert : ℕ → List (List Entry) → List Entry → List (List Entry)
unfolding insert
reinsert n table [] = table
reinsert n table (e ∷ es) = reinsert n (or_kept table (insert table n e)) es

unfoldable pub rehash : ℕ → List (List Entry) → List (List Entry) → List (List Entry)
unfolding reinsert
rehash n new_table [] = new_table
rehash n new_table (c ∷ cs) = rehash n (reinsert n new_table c) cs

unfoldable pub resize : Map → ℕ → Bool → Map × Option Error
unfolding rehash
resize m new_tablelen granted =
    if granted
    then (
      record m {
        table = rehash new_tablelen (replicate new_tablelen []) m.table;
        tablelen = new_tablelen;
      },
      none,
    )
    else (m, some nomem)

-- The rest of nghttp2_map_insert, once the table is large enough.
abbrev pub placed : Map → Option (List (List Entry)) → Map × Option Error
placed m none = (m, some invalid_argument)
placed m (some t) = (record m { table = t; size = m.size + 1 }, none)

abbrev pub insert_in : Entry → Map × Option Error → Map × Option Error
insert_in e (m, none) = placed m (insert m.table m.tablelen e)
insert_in e (m, some x) = (m, some x)

-- nghttp2_map_insert; `granted` is the answer of the allocator for a larger table.
unfoldable pub map_insert : Map → Entry → Bool → Map × Option Error
unfolding insert resize
map_insert m e granted =
    if ltb (m.tablelen * 3) ((m.size + 1) * 4)
    then insert_in e (resize m (m.tablelen * 2) granted)
    else insert_in e (m, none)

unfoldable pub map_find : Map → ℕ → Option Entry
unfolding hash
map_find m k = lookup k (chain m.table (hash k m.tablelen))

-- The loop of nghttp2_map_remove takes out the first entry with the key.
abbrev pub unlink : ℕ → List Entry → List Entry
unlink k [] = []
unlink k (e ∷ es) = let rest = unlink k es in if e.key == k then es else e ∷ rest

unfoldable pub map_remove : Map → ℕ → Map × Option Error
unfolding hash
map_remove m k =
    let h = hash k m.tablelen in
    if is_found (lookup k (chain m.table h))
    then (record m { table = set m.table h (unlink k (chain m.table h)); size = m.size - 1 }, none)
    else (m, some invalid_argument)
