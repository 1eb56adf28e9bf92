-- ===== src/Hpack/Mapped/Tests.antt =====
-- A table of 100 octets with one entry, and the theorems of the map at it.
use kitura_http.Prelude.{◌≡◌, refl, [], ◌∷◌, true, false, some, arith}
use kitura_http.Hpack.Table.{HdEntry, Context, entry_room, no_entry}
use kitura_http.Hpack.Table.Add.{added, new_entry}
use kitura_http.Hpack.Token.{ascii}
use kitura_http.Hpack.Search.{HdMap, map_init, map_insert, name_hash, search_hd_table}
use kitura_http.Hpack.Search.Holds.{IsMapped}
use kitura_http.Hpack.Search.Found.{wanted, Found, search_hd_table-Found}
use kitura_http.Hpack.Mapped.{add_mapped}
use kitura_http.Hpack.Mapped.Add.{AddEnds, add_mapped-ends}

abbrev age : HdEntry
age = record { name = ascii "age"; value = ascii "21"; seq = 0 }

abbrev one : Context
one = record {
  hd_table = record { buffer = age ∷ no_entry ∷ []; first = 0; len = 1 };
  hd_table_bufsize = 37;
  hd_table_bufsize_max = 100;
  next_seq = 1;
}

abbrev one_map : HdMap
one_map = map_insert map_init age

-- FNV-1a of no byte and of `a`.
hash_of_a : name_hash 2166136261 (ascii "a") ≡ 3826002220
unfolding name_hash
hash_of_a = refl

-- The entry is the first one behind the static table; another age is known by its name.
finds_age :
    search_hd_table one one_map (wanted (ascii "age") (ascii "21") false)
    ≡ record { index = some 61; name_value_match = true }
unfolding search_hd_table map_insert
finds_age = refl

finds_name :
    search_hd_table one one_map (wanted (ascii "age") (ascii "22") false)
    ≡ record { index = some 20; name_value_match = false }
unfolding search_hd_table map_insert
finds_name = refl

finds_static :
    search_hd_table one one_map (wanted (ascii ":status") (ascii "404") false)
    ≡ record { index = some 12; name_value_match = true }
unfolding search_hd_table map_insert
finds_static = refl

one-IsMapped : IsMapped one one_map (age ∷ [])
unfolding entry_room map_insert
one-IsMapped = record {
  table = record {
    ring = record { first_in = omega arith; fits = omega arith };
    held = refl;
    accounted = refl;
  };
  buckets = λ b. refl;
  numbered = (refl, omega arith, tt);
  next_in = omega arith;
  few = omega arith;
}

search_hd_table-Found_example :
    let r = search_hd_table one one_map (wanted (ascii "age") (ascii "21") false) in
    Found one (ascii "age") (ascii "21") r.index r.name_value_match
search_hd_table-Found_example =
    search_hd_table-Found one one_map (age ∷ []) (ascii "age") (ascii "21") false one-IsMapped

add_mapped-ends_example :
    AddEnds 100
      (added 100 (new_entry one (ascii "etag") (ascii "x")) (age ∷ []))
      (add_mapped one one_map (ascii "etag") (ascii "x") true true)
add_mapped-ends_example =
    add_mapped-ends one one_map (age ∷ []) (ascii "etag") (ascii "x") true true one-IsMapped
      (omega arith)
