-- ===== src/Hpack/Search.antt =====
-- Sources/nghttp2/nghttp2_hd.c: how the encoder of header blocks looks for a field, in the static table
-- and in the hash map that it keeps beside the dynamic table. The hash and the token of an entry are
-- those of its name, and an entry is known by its number of insertion.
pub mod Names
pub mod Holds
pub mod Found
use Prim.Native.Nat.{bit_xor}
use kitura_http.Prelude.{
  ℕ, zero, suc, ◌+◌, ◌-◌, ◌*◌, ◌%◌, ◌^◌, List, [], ◌∷◌, Bool, true, false, ◌&&◌, ◌||◌, not, Option,
  none, some, ltb, leb, ◌==◌, length, get_or, if◌then◌else◌,
}
use kitura_http.Result.{Result, ok, ◌>>=◌}
use kitura_http.Hpack.Static.{StaticEntry, static_table}
use kitura_http.Hpack.Token.{lookup_token, bytes_eq}
use kitura_http.Hpack.Table.{
  HdEntry, Context, place, entry_room, evict_last, add_after, shrink_table_size,
}
use kitura_http.Hpack.Inflate.{no_static, static_table_length}

-- NGHTTP2_TOKEN_WWW_AUTHENTICATE, the last token of the static table.
abbrev pub last_static : ℕ
last_static = 60

-- 32 bit FNV-1a.
unfoldable pub name_hash : ℕ → List ℕ → ℕ
name_hash h [] = h
name_hash h (b ∷ bs) =
    let x = bit_xor h b in
    name_hash ((x + x * 2 + x * 2 ^ 4 + x * 2 ^ 7 + x * 2 ^ 8 + x * 2 ^ 24) % 2 ^ 32) bs

-- The hash that deflate_nv gives to a field.
unfoldable pub field_hash : Option ℕ → List ℕ → ℕ
unfolding name_hash static_table
field_hash none name = name_hash 2166136261 name
field_hash (some t) name = if leb t last_static then (get_or static_table t no_static).hash else 0

unfoldable pub entry_token : HdEntry → Option ℕ
unfolding lookup_token
entry_token e = lookup_token e.name

unfoldable pub entry_hash : HdEntry → ℕ
unfolding entry_token field_hash
entry_hash e = field_hash (entry_token e) e.name

-- nghttp2_hd_map: the entries of each of the HD_MAP_SIZE buckets.
abbrev pub HdMap : Type 0
HdMap = ℕ → List HdEntry

abbrev pub map_init : HdMap
map_init b = []

-- `hash & (HD_MAP_SIZE - 1)`.
abbrev pub bucket_of : ℕ → ℕ
bucket_of hash = hash % 128

unfoldable pub map_insert : HdMap → HdEntry → HdMap
unfolding entry_hash
map_insert m e b = if bucket_of (entry_hash e) == b then e ∷ m b else m b

-- The first entry with the number `seq` is taken out.
unfoldable pub unlink : ℕ → List HdEntry → List HdEntry
unlink seq [] = []
unlink seq (p ∷ ps) = let rest = unlink seq ps in if p.seq == seq then ps else p ∷ rest

unfoldable pub map_remove : HdMap → HdEntry → HdMap
unfolding entry_hash unlink
map_remove m e b = if bucket_of (entry_hash e) == b then unlink e.seq (m b) else m b

abbrev pub token_eq : Option ℕ → Option ℕ → Bool
token_eq none none = true
token_eq (some a) (some b) = a == b
token_eq _ _ = false

-- What hd_map_find looks for.
pub record Wanted : Type 0 where
  pub name : List ℕ
  pub value : List ℕ
  pub token : Option ℕ
  pub hash : ℕ
  pub name_only : Bool

-- An entry that is not passed over.
abbrev pub name_hit : Wanted → HdEntry → Bool
name_hit w p =
    token_eq w.token (entry_token p)
    && (not (token_eq w.token none) || (w.hash == entry_hash p && bytes_eq p.name w.name))

-- The loop of hd_map_find, with `res`, which it returns, and `exact_match`.
unfoldable pub find_loop : Wanted → Option HdEntry → List HdEntry → Option HdEntry × Bool
unfolding entry_token entry_hash bytes_eq
find_loop w res [] = (res, false)
find_loop w none (p ∷ ps) =
    let passed = find_loop w none ps in
    let kept = find_loop w (some p) ps in
    if name_hit w p
    then (if w.name_only
        then (some p, false)
        else if bytes_eq p.value w.value
        then (some p, true)
        else kept)
    else passed
find_loop w (some r) (p ∷ ps) =
    let passed = find_loop w (some r) ps in
    if name_hit w p && bytes_eq p.value w.value then (some p, true) else passed

unfoldable pub map_find : HdMap → Wanted → Option HdEntry × Bool
unfolding find_loop
map_find m w = find_loop w none (m (bucket_of w.hash))

-- search_result; no index is -1.
pub record SearchResult : Type 0 where
  pub index : Option ℕ
  pub name_value_match : Bool

-- The loop of search_static_table: the entries from `i` on, `count` of them, while they have the token.
unfoldable pub static_loop : Wanted → ℕ → ℕ → ℕ → SearchResult
unfolding static_table bytes_eq
static_loop w t zero i = record { index = some t; name_value_match = false }
static_loop w t (suc count) i =
    let rest = static_loop w t count (i + 1) in
    let ent = get_or static_table i no_static in
    if not (ent.token == t)
    then record { index = some t; name_value_match = false }
    else if bytes_eq ent.value w.value
    then record { index = some i; name_value_match = true }
    else rest

unfoldable pub search_static_table : Wanted → ℕ → SearchResult
unfolding static_loop
search_static_table w t =
    if w.name_only
    then record { index = some t; name_value_match = false }
    else static_loop w t (last_static + 1 - t) t

-- The index of an entry; the numbers are uint32_t.
abbrev pub index_of : Context → HdEntry → ℕ
index_of c e = (c.next_seq + (2 ^ 32 - 1) + (2 ^ 32 - e.seq) + static_table_length) % 2 ^ 32

abbrev pub from_map : Context → Option HdEntry × Bool → SearchResult
from_map c (none, exact) = record { index = none; name_value_match = false }
from_map c (some e, exact) = record { index = some (index_of c e); name_value_match = exact }

-- The static table is looked at when the map has no exact match.
abbrev pub in_tables : Context → Wanted → Option ℕ → Option HdEntry × Bool → SearchResult
in_tables c w (some t) (found, false) =
    if leb t last_static then search_static_table w t else from_map c (found, false)
in_tables c w _ found = from_map c found

-- search_hd_table.
unfoldable pub search_hd_table : Context → HdMap → Wanted → SearchResult
unfolding map_find search_static_table
search_hd_table c m w = in_tables c w w.token (map_find m w)
