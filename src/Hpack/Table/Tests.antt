-- ===== src/Hpack/Table/Tests.antt =====
-- A table of 100 octets with two entries, in a buffer that wraps round, and the theorems at it.
use kitura_http.Prelude.{ℕ, ◌≤◌, ◌≡◌, refl, [], ◌∷◌, true, false, length, arith}
use kitura_http.Result.{ok, err, nomem, invalid_state, ◌>>=◌}
use kitura_http.Hpack.Table.{
  HdEntry, Context, entry_room, add_hd_table_incremental, ringbuf_init, ringbuf_get,
  ringbuf_pop_back,
}
use kitura_http.Hpack.Table.Ring.{entries}
use kitura_http.Hpack.Table.Evict.{IsTable, keep}
use kitura_http.Hpack.Table.Add.{added, new_entry, add_hd_table_incremental-added}
use kitura_http.Hpack.Inflater.{Inflater, opcode, expect_table_size, inflate_init}
use kitura_http.Hpack.Table.Resize.{inflate_change_table_size, inflate_change_table_size-keep}

abbrev entry : ℕ → HdEntry
entry n = record { name = n ∷ []; value = []; seq = n }

abbrev two : Context
two = record {
  hd_table = record { buffer = entry 0 ∷ entry 1 ∷ []; first = 1; len = 2 };
  hd_table_bufsize = 66;
  hd_table_bufsize_max = 100;
  next_seq = 2;
}

two_entries : entries two.hd_table ≡ entry 1 ∷ entry 0 ∷ []
two_entries = refl

init_three : (ringbuf_init 3 true >>= λ r. ok (length r.buffer)) ≡ ok 4
unfolding ringbuf_init
init_three = refl

get_last : ringbuf_get two.hd_table 1 ≡ ok (entry 0)
unfolding ringbuf_get
get_last = refl

pop_last : (ringbuf_pop_back two.hd_table >>= λ r. ok (entries r)) ≡ ok (entry 1 ∷ [])
unfolding ringbuf_pop_back
pop_last = refl

-- The third entry fits beside two others, and needs a larger buffer.
grows :
    (add_hd_table_incremental two (7 ∷ []) [] true true >>= λ c. ok (length c.hd_table.buffer))
    ≡ ok 4
unfolding add_hd_table_incremental
grows = refl

no_memory : add_hd_table_incremental two (7 ∷ []) [] true false ≡ err nomem
unfolding add_hd_table_incremental
no_memory = refl

two-IsTable : IsTable two (entry 1 ∷ entry 0 ∷ [])
unfolding entry_room
two-IsTable = record {
  ring = record { first_in = omega arith; fits = omega arith };
  held = refl;
  accounted = refl;
}

abbrev inflater : Inflater
inflater = record (inflate_init two []) {
  settings_hd_table_bufsize_max = 100;
  min_hd_table_bufsize_max = 100;
}

in_a_block : inflate_change_table_size (record inflater { state = opcode }) 40 ≡ err invalid_state
unfolding inflate_change_table_size inflate_init
in_a_block = refl

add_hd_table_incremental-added_example :
    (d : Context) × (add_hd_table_incremental two (7 ∷ []) (8 ∷ []) true true ≡ ok d)
    × IsTable d (added 100 (new_entry two (7 ∷ []) (8 ∷ [])) (entry 1 ∷ entry 0 ∷ []))
    × (d.hd_table_bufsize ≤ 100)
    × (d.hd_table_bufsize_max ≡ 100)
add_hd_table_incremental-added_example =
    add_hd_table_incremental-added two (entry 1 ∷ entry 0 ∷ []) (7 ∷ []) (8 ∷ []) two-IsTable

inflate_change_table_size-keep_example :
    (r : Inflater) × (inflate_change_table_size inflater 40 ≡ ok r)
    × IsTable r.ctx (keep 40 0 (entry 1 ∷ entry 0 ∷ []))
    × (r.ctx.hd_table_bufsize ≤ 40)
    × (r.state ≡ expect_table_size)
unfolding inflate_init
inflate_change_table_size-keep_example =
    inflate_change_table_size-keep inflater (entry 1 ∷ entry 0 ∷ []) 40 two-IsTable refl
