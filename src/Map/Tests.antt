-- ===== src/Map/Tests.antt =====
-- A table of one chain, which grows, and the theorems at it.
use kitura_http.Prelude.{
  ℕ, zero, suc, All, ◌≡◌, refl, [], ◌∷◌, true, false, none, some, arith, if◌then◌else◌,
}
use kitura_http.Result.{nomem, invalid_argument}
use kitura_http.Map.{Entry, Map, map_insert, map_find, map_remove, is_found, chain, hash}
use kitura_http.Map.Chain.{HashesTo, IsUnique}
use kitura_http.Map.Ops.{
  IsMap, Inserted, Removed, map_insert-Inserted, map_insert-answer, map_remove-Removed,
}

abbrev stream : ℕ → Entry
stream k = record { key = k; object = k }

abbrev one : Map
one = record { table = (stream 5 ∷ []) ∷ []; size = 1; tablelen = 1 }

find_five : map_find one 5 ≡ some (stream 5)
unfolding map_find
find_five = refl

-- The table is doubled before the third entry would fill it beyond three quarters.
grows : (map_insert one (stream 7) true).0.tablelen ≡ 2
unfolding map_insert
grows = refl

no_memory : map_insert one (stream 7) false ≡ (one, some nomem)
unfolding map_insert
no_memory = refl

twice : (map_insert one (stream 5) true).1 ≡ some invalid_argument
unfolding map_insert
twice = refl

remove_five : (map_remove one 5).0.table ≡ [] ∷ []
unfolding map_remove
remove_five = refl

one_hashed : (i : ℕ) → All (HashesTo 1 i) (chain one.table i)
unfolding hash
one_hashed zero = (refl, tt)
one_hashed (suc i) = tt

one-IsUnique : (i : ℕ) → IsUnique (chain one.table i)
one-IsUnique zero = (refl, tt)
one-IsUnique (suc i) = tt

one-IsMap : IsMap one
one-IsMap = record {
  chains = refl;
  some_chain = omega arith;
  hashed = one_hashed;
  unique = one-IsUnique;
}

map_insert-Inserted_example :
    IsMap (map_insert one (stream 7) true).0
    × Inserted one (stream 7) (map_insert one (stream 7) true)
map_insert-Inserted_example = map_insert-Inserted one (stream 7) true one-IsMap

map_insert-answer_example :
    (map_insert one (stream 7) true).1
    ≡ (if is_found (map_find one 7) then some invalid_argument else none)
map_insert-answer_example = map_insert-answer one (stream 7) one-IsMap

map_remove-Removed_example : IsMap (map_remove one 5).0 × Removed one 5 (map_remove one 5)
map_remove-Removed_example = map_remove-Removed one 5 one-IsMap
