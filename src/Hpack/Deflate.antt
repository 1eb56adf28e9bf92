-- ===== src/Hpack/Deflate.antt =====
-- Sources/nghttp2/nghttp2_hd.c: encoding header blocks, nghttp2_hd_deflate_hd_bufs. `mem` says of each
-- allocation to come for the table if it is granted.
pub mod Writes
pub mod Safe
pub mod Indexed
pub mod Tests
use kitura_http.Prelude.{
  ℕ, ◌+◌, ◌*◌, ◌/◌, ◌^◌, List, [], ◌∷◌, Bool, true, false, ◌||◌, ◌&&◌, ◌-◌, Option, none, some, min,
  ltb, ◌==◌, length, if◌then◌else◌,
}
use kitura_http.Result.{Result, ok, err, fault, nomem, header_comp, ◌>>=◌}
use kitura_http.Buf.{Bufs, Status, done, failed, overrun, out_of_fuel, resume}
use kitura_http.Hpack.Table.{Context, Ringbuf, entry_room, ringbuf_init}
use kitura_http.Hpack.Token.{lookup_token}
use kitura_http.Hpack.Inflate.{HdNv, table_get, static_table_length}
use kitura_http.Hpack.Search.{HdMap, Wanted, SearchResult, map_init, field_hash, search_hd_table}
use kitura_http.Hpack.Mapped.{add_mapped, shrink_mapped}
use kitura_http.Hpack.Emit.{
  IndexingMode, with_indexing, without_indexing, never_indexing, emit_table_size,
  emit_indexed_block, emit_indname_block, emit_newname_block,
}

-- nghttp2_nv, with NGHTTP2_NV_FLAG_NO_INDEX of its flags.
pub record Nv : Type 0 where
  pub name : List ℕ
  pub value : List ℕ
  pub no_index : Bool

-- nghttp2_hd_deflater; `bad` is a member of its context.
pub record Deflater : Type 0 where
  pub ctx : Context
  pub bad : Bool
  pub map : HdMap
  pub deflate_hd_table_bufsize_max : ℕ
  pub min_hd_table_bufsize_max : ℕ
  pub notify_table_size_change : Bool
  pub mem : List Bool

-- hd_context_init.
unfoldable pub context_init : Bool → Result Context
unfolding ringbuf_init
context_init granted = ringbuf_init (4096 / 32) granted >>= λ r.
    ok (record { hd_table = r; hd_table_bufsize = 0; hd_table_bufsize_max = 4096; next_seq = 0 })

-- nghttp2_hd_deflate_init2.
unfoldable pub deflate_init2 : ℕ → Bool → List Bool → Result Deflater
unfolding context_init
deflate_init2 size granted mem = context_init granted >>= λ c. ok (record {
  ctx = record c { hd_table_bufsize_max = if ltb size 4096 then size else 4096 };
  bad = false;
  map = map_init;
  deflate_hd_table_bufsize_max = size;
  min_hd_table_bufsize_max = 4294967295;
  notify_table_size_change = ltb size 4096;
  mem = mem;
})

unfoldable pub deflate_change_table_size : Deflater → ℕ → Deflater
unfolding shrink_mapped
deflate_change_table_size d size =
    let next = min size d.deflate_hd_table_bufsize_max in
    let left = shrink_mapped (record d.ctx { hd_table_bufsize_max = next }) d.map in
    record d {
      ctx = left.0;
      map = left.1;
      min_hd_table_bufsize_max = min d.min_hd_table_bufsize_max next;
      notify_table_size_change = true;
    }

-- hd_deflate_decide_indexing: fields that change from request to request are not indexed.
abbrev pub changes_often : Option ℕ → Bool
changes_often none = false
changes_often (some t) =
    t == 3 || (t == 20 || (t == 27 || (t == 33 || (t == 39 || (t == 40 || (t == 45 || t == 54))))))

unfoldable pub decide_indexing : Deflater → Nv → IndexingMode
unfolding lookup_token entry_room
decide_indexing d nv =
    if changes_often (lookup_token nv.name)
      || ltb (d.ctx.hd_table_bufsize_max * 3 / 4) (entry_room (length nv.name) (length nv.value))
    then without_indexing
    else with_indexing

-- Secrets: authorization, and a short cookie.
abbrev pub is_secret : Option ℕ → Nv → Bool
is_secret none nv = nv.no_index
is_secret (some t) nv = t == 22 || ((t == 31 && ltb (length nv.value) 20) || nv.no_index)

unfoldable pub indexing_mode : Deflater → Nv → IndexingMode
unfolding decide_indexing
indexing_mode d nv =
    if is_secret (lookup_token nv.name) nv then never_indexing else decide_indexing d nv

abbrev pub is_never : IndexingMode → Bool
is_never never_indexing = true
is_never _ = false

abbrev pub next_answer : Deflater → List Bool → Bool × Deflater
next_answer d [] = (false, d)
next_answer d (granted ∷ m) = (granted, record d { mem = m })

abbrev pub answer : Deflater → Bool × Deflater
answer d = next_answer d d.mem

abbrev pub copy_name : Nv → Bool × Deflater → Result (List ℕ × Deflater)
copy_name nv (true, d) = ok (nv.name, d)
copy_name nv (false, d) = err nomem

-- The name of an entry of the static table is shared, another one is copied.
abbrev pub name_for : Deflater → Nv → Option ℕ → Result (List ℕ × Deflater)
name_for d nv none = copy_name nv (answer d)
name_for d nv (some i) =
    if ltb i static_table_length
    then (table_get d.ctx i >>= λ e. ok (e.name, d))
    else copy_name nv (answer d)

abbrev pub stored : Deflater → Result (Context × HdMap) → Result Deflater
stored d (ok left) = ok (record d { ctx = left.0; map = left.1 })
stored d (err e) = err header_comp
stored d fault = fault

-- The field goes into the dynamic table.
unfoldable pub store : Deflater → Nv → Option ℕ → Result Deflater
unfolding add_mapped table_get
store d nv idx = name_for d nv idx >>= λ named.
    let (value_granted, d2) = answer named.1 in
    let (entry_granted, d3) = answer d2 in
    let (buffer_granted, d4) = answer d3 in
    if value_granted
    then stored d4 (add_mapped d.ctx d.map named.0 nv.value entry_granted buffer_granted)
    else err nomem

abbrev pub emit_field : Bufs → Nv → Option ℕ → IndexingMode → Bufs × Status
emit_field s nv none mode = emit_newname_block s nv.name nv.value mode
emit_field s nv (some i) mode = emit_indname_block s i nv.value mode

-- -1 as a size_t.
abbrev pub as_size : Option ℕ → ℕ
as_size none = 2 ^ 64 - 1
as_size (some i) = i

abbrev pub emit_stored :
    Bufs → Nv → Option ℕ → Deflater → Result Deflater → Deflater × (Bufs × Status)
emit_stored s nv idx d (ok t) = (t, emit_field s nv idx with_indexing)
emit_stored s nv idx d (err e) = (d, (s, failed e))
emit_stored s nv idx d fault = (d, (s, overrun))

abbrev pub store_and_emit :
    Deflater → Bufs → Nv → Option ℕ → IndexingMode → Deflater × (Bufs × Status)
store_and_emit d s nv idx with_indexing = emit_stored s nv idx d (store d nv idx)
store_and_emit d s nv idx mode = (d, emit_field s nv idx mode)

unfoldable pub search_for : Deflater → Nv → SearchResult
unfolding indexing_mode field_hash search_hd_table
search_for d nv =
    let token = lookup_token nv.name in
    search_hd_table d.ctx d.map (record {
      name = nv.name;
      value = nv.value;
      token = token;
      hash = field_hash token nv.name;
      name_only = is_never (indexing_mode d nv);
    })

unfoldable pub deflate_nv : Deflater → Bufs → Nv → Deflater × (Bufs × Status)
unfolding search_for indexing_mode store emit_indexed_block emit_indname_block emit_newname_block
deflate_nv d s nv =
    let res = search_for d nv in
    if res.name_value_match
    then (d, emit_indexed_block s (as_size res.index))
    else store_and_emit d s nv res.index (indexing_mode d nv)

-- `if (rv != 0) goto fail;` with the rest of the function as `k`.
abbrev pub or_fail :
    (Deflater → Bufs → Deflater × (Bufs × Status))
    → Deflater × (Bufs × Status)
    → Deflater × (Bufs × Status)
or_fail k (d, (s, done)) = k d s
or_fail k (d, (s, failed e)) = (record d { bad = true }, (s, failed e))
or_fail k (d, (s, overrun)) = (d, (s, overrun))
or_fail k (d, (s, out_of_fuel)) = (d, (s, out_of_fuel))

-- The fields one after another.
unfoldable pub deflate_loop : Deflater → Bufs → List Nv → Deflater × (Bufs × Status)
unfolding deflate_nv
deflate_loop d s [] = (d, (s, done))
deflate_loop d s (nv ∷ nva) = or_fail (λ e t. deflate_loop e t nva) (deflate_nv d s nv)

-- A change of the table's size comes first, with the smallest size in between if that was smaller.
unfoldable pub notify_size : Deflater → Bufs → Deflater × (Bufs × Status)
unfolding emit_table_size
notify_size d s =
    let least = d.min_hd_table_bufsize_max in
    let size = d.ctx.hd_table_bufsize_max in
    let told = record d {
      notify_table_size_change = false;
      min_hd_table_bufsize_max = 4294967295;
    } in
    let first = if ltb least size then emit_table_size s least else (s, done) in
    if d.notify_table_size_change
    then (told, resume (λ t. emit_table_size t size) first)
    else (d, (s, done))

-- nghttp2_hd_deflate_hd_bufs.
unfoldable pub deflate_hd_bufs : Deflater → Bufs → List Nv → Deflater × (Bufs × Status)
unfolding deflate_loop notify_size
deflate_hd_bufs d s nva =
    if d.bad
    then (d, (s, failed header_comp))
    else or_fail (λ e t. deflate_loop e t nva) (notify_size d s)

-- nghttp2_hd_deflate_bound.
unfoldable pub deflate_bound : List Nv → ℕ
deflate_bound [] = 12
deflate_bound (nv ∷ nva) = 12 + length nv.name + length nv.value + deflate_bound nva
