-- ===== src/Hpack/Mapped.antt =====
-- Sources/nghttp2/nghttp2_hd.c: the dynamic table of an encoder, which keeps a hash map of its entries
-- beside it. The two together go through the loops of Table.
pub mod Keeps
pub mod Add
pub mod Tests
use kitura_http.Prelude.{
  ℕ, zero, suc, ◌+◌, ◌-◌, List, Bool, true, false, ◌&&◌, ltb, length, if◌then◌else◌,
}
use kitura_http.Result.{Result, ok, ◌>>=◌}
use kitura_http.Hpack.Table.{HdEntry, Context, place, entry_room, evict_last, add_after}
use kitura_http.Hpack.Search.{HdMap, map_insert, map_remove}

-- The loops that evict entries, with `hd_map_remove`.
unfoldable pub evict_mapped : ℕ → ℕ → Context → HdMap → Context × HdMap
unfolding map_remove
evict_mapped zero room c m = (c, m)
evict_mapped (suc fuel) room c m =
    let rest =
      evict_mapped fuel room (evict_last c)
        (map_remove m (place c.hd_table (c.hd_table.len - 1))) in
    if ltb c.hd_table_bufsize_max (c.hd_table_bufsize + room) && ltb 0 c.hd_table.len
    then rest
    else (c, m)

-- hd_context_shrink_table_size.
unfoldable pub shrink_mapped : Context → HdMap → Context × HdMap
unfolding evict_mapped
shrink_mapped c m = evict_mapped c.hd_table.len 0 c m

-- The end of add_hd_table_incremental, for an entry with room in the table or with none.
unfoldable pub insert_mapped :
    Context → HdMap → List ℕ → List ℕ → Bool → Bool → Result (Context × HdMap)
unfolding add_after map_insert entry_room
insert_mapped c m name value entry_granted buffer_granted =
    let added = add_after c name value entry_granted buffer_granted in
    let entry : HdEntry = record { name = name; value = value; seq = c.next_seq } in
    if ltb c.hd_table_bufsize_max (entry_room (length name) (length value))
    then ok (c, m)
    else (added >>= λ d. ok (d, map_insert m entry))

-- add_hd_table_incremental.
unfoldable pub add_mapped :
    Context → HdMap → List ℕ → List ℕ → Bool → Bool → Result (Context × HdMap)
unfolding evict_mapped insert_mapped entry_room
add_mapped c m name value entry_granted buffer_granted =
    let left = evict_mapped c.hd_table.len (entry_room (length name) (length value)) c m in
    insert_mapped left.0 left.1 name value entry_granted buffer_granted
