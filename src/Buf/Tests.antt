-- ===== src/Buf/Tests.antt =====
-- Chains of two chunks of 12 bytes, 10 of them for headers, and the theorems at them.
use kitura_http.Prelude.{◌≡◌, refl, List, [], ◌∷◌, ◌++◌, Bool, true, false, arith}
use kitura_http.Result.{ok, err, buffer_error, nomem, invalid_argument}
use kitura_http.Buf.{
  Bufs, done, failed, bufs_bytes, bufs_add, bufs_addb, bufs_init3, bufs_reset, buf_reserve, new_buf,
}
use kitura_http.Buf.Add.{IsFresh, bufs_add_appends, bufs_add_fits}
use kitura_http.Buf.Valid.{IsValid, Safe, bufs_add-Safe}

abbrev pair : List Bool → Bufs
pair mem = record {
  before = [];
  cur = record { room = 10; bytes = []; avail = 2 };
  after = [];
  chunk_length = 12;
  chunk_used = 1;
  max_chunk = 2;
  chunk_keep = 1;
  offset = 10;
  mem = mem;
}

init_pair : bufs_init3 12 2 1 10 (true ∷ []) ≡ ok (pair [])
unfolding bufs_init3
init_pair = refl

init_refused : bufs_init3 12 2 3 10 (true ∷ []) ≡ err invalid_argument
unfolding bufs_init3
init_refused = refl

add_spreads : bufs_bytes (bufs_add (pair (true ∷ [])) (1 ∷ 2 ∷ 3 ∷ [])).0 ≡ 1 ∷ 2 ∷ 3 ∷ []
unfolding bufs_add bufs_bytes
add_spreads = refl

-- What fitted stays written after an error.
add_too_much :
    (bufs_bytes (bufs_add (pair (true ∷ [])) (1 ∷ 2 ∷ 3 ∷ 4 ∷ 5 ∷ [])).0 ≡ 1 ∷ 2 ∷ 3 ∷ 4 ∷ [])
    × ((bufs_add (pair (true ∷ [])) (1 ∷ 2 ∷ 3 ∷ 4 ∷ 5 ∷ [])).1 ≡ failed buffer_error)
unfolding bufs_add bufs_bytes
add_too_much = (refl, refl)

add_no_memory : (bufs_add (pair []) (1 ∷ 2 ∷ 3 ∷ [])).1 ≡ failed nomem
unfolding bufs_add
add_no_memory = refl

addb_status : (bufs_addb (pair []) 7).1 ≡ done
unfolding bufs_addb
addb_status = refl

reset_pair : bufs_reset (bufs_add (pair (true ∷ [])) (1 ∷ 2 ∷ 3 ∷ [])).0 ≡ pair []
unfolding bufs_add bufs_reset
reset_pair = refl

reserve_doubles : buf_reserve (new_buf 8) 9 true ≡ ok (new_buf 16)
unfolding buf_reserve
reserve_doubles = refl

pair-IsValid : (mem : List Bool) → IsValid (pair mem)
pair-IsValid mem = record {
  counted = refl;
  bounded = omega arith;
  offset_fits = omega arith;
  caps_before = tt;
  cap_cur = refl;
  caps_after = tt;
}

done_three : (bufs_add (pair (true ∷ [])) (1 ∷ 2 ∷ 3 ∷ [])).1 ≡ done
unfolding bufs_add
done_three = refl

bufs_add_appends_example :
    (bufs_bytes (bufs_add (pair (true ∷ [])) (1 ∷ 2 ∷ 3 ∷ [])).0
      ≡ bufs_bytes (pair (true ∷ [])) ++ (1 ∷ 2 ∷ 3 ∷ []))
    × IsFresh (bufs_add (pair (true ∷ [])) (1 ∷ 2 ∷ 3 ∷ [])).0
bufs_add_appends_example = bufs_add_appends (pair (true ∷ [])) (1 ∷ 2 ∷ 3 ∷ []) refl done_three

bufs_add_fits_example : (bufs_add (pair []) (1 ∷ 2 ∷ [])).1 ≡ done
bufs_add_fits_example = bufs_add_fits (pair []) (1 ∷ 2 ∷ []) (omega arith)

bufs_add-Safe_example : Safe (bufs_add (pair (false ∷ [])) (1 ∷ 2 ∷ 3 ∷ []))
bufs_add-Safe_example =
    bufs_add-Safe (pair (false ∷ [])) (1 ∷ 2 ∷ 3 ∷ []) (pair-IsValid (false ∷ []))
