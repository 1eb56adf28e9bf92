-- ===== src/Hpack/Table.antt =====
-- The dynamic table of HPACK: hd_ringbuf and the context of an inflater, which passes no map. The
-- buffer has 2^k places, and `first` is only read through `& mask`, so it is kept below that size;
-- `& mask` is the remainder. A place that was never written holds no entry that is read.
pub mod Ring
pub mod Evict
pub mod Add
pub mod Resize
pub mod Grant
pub mod Tests
use kitura_http.Prelude.{
  ℕ, zero, suc, ◌+◌, ◌-◌, ◌*◌, ◌%◌, List, [], ◌∷◌, ◌++◌, Bool, true, false, Option, none, some,
  length, get_or, set, replicate, ltb, leb, ◌==◌, not, ◌&&◌, if◌then◌else◌,
}
use kitura_http.Result.{Result, ok, err, fault, nomem, require, ◌>>=◌}

-- nghttp2_hd_entry: the field and the number of its insertion.
pub record HdEntry : Type 0 where
  pub name : List ℕ
  pub value : List ℕ
  pub seq : ℕ

abbrev pub no_entry : HdEntry
no_entry = record { name = []; value = []; seq = 0 }

-- nghttp2_hd_ringbuf; `mask` is the length of the buffer minus one.
pub record Ringbuf : Type 0 where
  pub buffer : List HdEntry
  pub first : ℕ
  pub len : ℕ

-- `for (size = 1; size < bufsize; size <<= 1)`, which doubles at most `bufsize` times.
unfoldable pub double_to : ℕ → ℕ → ℕ → ℕ
double_to zero size bufsize = size
double_to (suc fuel) size bufsize =
    let rest = double_to fuel (size * 2) bufsize in if ltb size bufsize then rest else size

unfoldable pub ringbuf_init : ℕ → Bool → Result Ringbuf
unfolding double_to
ringbuf_init bufsize granted =
    if granted
    then ok
        (record { buffer = replicate (double_to bufsize 1 bufsize) no_entry; first = 0; len = 0 })
    else err nomem

-- `buffer[(first + idx) & mask]`.
abbrev pub place : Ringbuf → ℕ → HdEntry
place r idx = get_or r.buffer ((r.first + idx) % length r.buffer) no_entry

unfoldable pub ringbuf_get : Ringbuf → ℕ → Result HdEntry
ringbuf_get r idx = require (ltb idx r.len) (ok (place r idx))

-- The entries from `idx` on, `count` of them, in order.
abbrev pub entries_from : Ringbuf → ℕ → ℕ → List HdEntry
entries_from r zero idx = []
entries_from r (suc count) idx = place r idx ∷ entries_from r count (idx + 1)

unfoldable pub ringbuf_reserve : Ringbuf → ℕ → Bool → Result Ringbuf
unfolding double_to
ringbuf_reserve r bufsize granted =
    let size = double_to bufsize 1 bufsize in
    if leb bufsize (length r.buffer)
    then ok r
    else if granted
    then ok (record r {
      buffer = entries_from r r.len 0 ++ replicate (size - r.len) no_entry;
      first = 0;
    })
    else err nomem

-- `buffer[--first & mask] = ent` and `++len`.
abbrev pub put_front : HdEntry → Ringbuf → Ringbuf
put_front e r =
    let first = (r.first + length r.buffer - 1) % length r.buffer in
    record { buffer = set r.buffer first e; first = first; len = suc r.len }

unfoldable pub ringbuf_push_front : Ringbuf → HdEntry → Bool → Result Ringbuf
unfolding ringbuf_reserve
ringbuf_push_front r e granted = ringbuf_reserve r (r.len + 1) granted >>= λ t. ok (put_front e t)

unfoldable pub ringbuf_pop_back : Ringbuf → Result Ringbuf
ringbuf_pop_back r = require (ltb 0 r.len) (ok (record r { len = r.len - 1 }))

-- The members of nghttp2_hd_context that the table needs.
pub record Context : Type 0 where
  pub hd_table : Ringbuf
  pub hd_table_bufsize : ℕ
  pub hd_table_bufsize_max : ℕ
  pub next_seq : ℕ

unfoldable pub entry_room : ℕ → ℕ → ℕ
entry_room namelen valuelen = 32 + namelen + valuelen

abbrev pub room_of : HdEntry → ℕ
room_of e = entry_room (length e.name) (length e.value)

-- One round of the loops that evict entries.
abbrev pub evict_last : Context → Context
evict_last c = record c {
  hd_table = record c.hd_table { len = c.hd_table.len - 1 };
  hd_table_bufsize = c.hd_table_bufsize - room_of (place c.hd_table (c.hd_table.len - 1));
}

-- The loops, for an entry that needs `room`; each round takes out an entry, so that the number of
-- entries is fuel enough.
unfoldable pub evict : ℕ → ℕ → Context → Context
unfolding entry_room
evict zero room c = c
evict (suc fuel) room c =
    let rest = evict fuel room (evict_last c) in
    if ltb c.hd_table_bufsize_max (c.hd_table_bufsize + room) && ltb 0 c.hd_table.len
    then rest
    else c

-- hd_context_shrink_table_size.
unfoldable pub shrink_table_size : Context → Context
unfolding evict
shrink_table_size c = evict c.hd_table.len 0 c

-- The end of add_hd_table_incremental.
abbrev pub add_entry : Context → List ℕ → List ℕ → Ringbuf → Context
add_entry c name value r = record c {
  hd_table = r;
  hd_table_bufsize = c.hd_table_bufsize + entry_room (length name) (length value);
  next_seq = (c.next_seq + 1) % 4294967296;
}

-- An entry that is larger than the table is not stored. The last two arguments are the answers of
-- the allocator for the entry and for a larger buffer.
unfoldable pub add_after : Context → List ℕ → List ℕ → Bool → Bool → Result Context
unfolding ringbuf_push_front entry_room
add_after c name value entry_granted buffer_granted =
    if ltb c.hd_table_bufsize_max (entry_room (length name) (length value))
    then ok c
    else if not entry_granted
    then err nomem
    else ringbuf_push_front c.hd_table (record { name = name; value = value; seq = c.next_seq })
        buffer_granted
      >>= λ r. ok (add_entry c name value r)

-- add_hd_table_incremental. The evicted entries are gone also after an error.
unfoldable pub add_hd_table_incremental : Context → List ℕ → List ℕ → Bool → Bool → Result Context
unfolding evict add_after entry_room
add_hd_table_incremental c name value entry_granted buffer_granted =
    add_after (evict c.hd_table.len (entry_room (length name) (length value)) c) name value
      entry_granted buffer_granted
