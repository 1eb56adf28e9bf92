-- ===== src/Hpack/Inflate.antt =====
-- Sources/nghttp2/nghttp2_hd.c: decoding header blocks, nghttp2_hd_inflate_hd_nv. The input is the list
-- of the bytes from `in` to `last`, and what a step leaves of it says how far `in` has moved.
pub mod Step
pub mod Run
pub mod Valid
pub mod Reads
pub mod Commit
pub mod Steps
pub mod Strings
pub mod Takes
pub mod Safe
pub mod Tests
use kitura_http.Prelude.{
  ℕ, zero, suc, ◌+◌, ◌-◌, ◌*◌, ◌/◌, ◌%◌, List, [], ◌∷◌, ◌++◌, Bool, true, false, ◌&&◌, ◌||◌, not,
  Option, none, some, ltb, leb, ◌==◌, min, length, take, drop, get_or, if◌then◌else◌, test_bit,
}
use kitura_http.Result.{Error, Result, ok, err, fault, nomem, header_comp, ◌>>=◌, require}
use kitura_http.Buf.{Buf, new_buf, buf_put, buf_len}
use kitura_http.Hpack.Inflater.{
  Inflater, InflateState, Opcode, expect_table_size, inflate_start, opcode, read_table_size,
  read_index, newname_check_namelen, newname_read_namelen, newname_read_namehuff, newname_read_name,
  check_valuelen, read_valuelen, read_valuehuff, read_value, opcode_none, indexed, newname, indname,
}
use kitura_http.Hpack.Integer.{Decoded, decode_length}
use kitura_http.Hpack.Static.{StaticEntry, static_table}
use kitura_http.Hpack.Table.{Context, ringbuf_get, add_hd_table_incremental, shrink_table_size}
use kitura_http.Hpack.Token.{lookup_token}
use kitura_http.Hpack.Huffman.{huff_decode, huff_decode_context_init}

-- nghttp2_hd_nv; of its flags only NGHTTP2_NV_FLAG_NO_INDEX is set here.
pub record HdNv : Type 0 where
  pub name : List ℕ
  pub value : List ℕ
  pub token : Option ℕ
  pub no_index : Bool

-- NGHTTP2_STATIC_TABLE_LENGTH.
abbrev pub static_table_length : ℕ
static_table_length = 61

abbrev pub get_max_index : Context → ℕ
get_max_index c = c.hd_table.len + static_table_length

abbrev pub static_nv : StaticEntry → HdNv
static_nv e = record { name = e.name; value = e.value; token = some e.token; no_index = false }

abbrev pub no_static : StaticEntry
no_static = record { name = []; value = []; token = 0; hash = 0 }

-- nghttp2_hd_table_get. The token of an entry is that of its name.
unfoldable pub table_get : Context → ℕ → Result HdNv
unfolding ringbuf_get static_table lookup_token
table_get c idx =
    if leb static_table_length idx
    then (ringbuf_get c.hd_table (idx - static_table_length) >>= λ e.
        ok (record {
          name = e.name;
          value = e.value;
          token = lookup_token e.name;
          no_index = false;
        }))
    else ok (static_nv (get_or static_table idx no_static))

-- hd_inflate_read_len: the inflater with `left` and `shift`, whether the integer is complete, and the
-- rest of the input. `left` and `shift` do not matter after an error.
unfoldable pub read_len : Inflater → List ℕ → ℕ → ℕ → Result (Inflater × Bool × List ℕ)
unfolding decode_length
read_len f input prefix maxlen = elim (decode_length f.left f.shift input prefix) [
  | none ↦ err header_comp
  | some d ↦
      if ltb maxlen d.res
      then err header_comp
      else ok (record f { left = d.res; shift = d.shift }, d.fin, drop d.consumed input)
]

-- hd_inflate_read_huff, on the buffer `b`.
unfoldable pub read_huff : Inflater → Buf → List ℕ → Result (Inflater × Buf × List ℕ)
unfolding huff_decode
read_huff f b input =
    huff_decode f.huff_decode_ctx b (take f.left input) (leb f.left (length input)) >>= λ r.
    ok (record f { huff_decode_ctx = r.0; left = f.left - r.2 }, r.1, drop f.left input)

-- hd_inflate_read.
unfoldable pub read_plain : Inflater → Buf → List ℕ → Result (Inflater × Buf × List ℕ)
unfolding buf_put
read_plain f b input =
    let len = min (length input) f.left in
    buf_put b (take len input) >>= λ b'. ok (record f { left = f.left - len }, b', drop len input)

-- nghttp2_rcbuf_new and nghttp2_buf_wrap_init; an allocation that `mem` does not speak of is refused.
abbrev pub next_answer : Inflater → List Bool → Bool × Inflater
next_answer f [] = (false, f)
next_answer f (granted ∷ mem) = (granted, record f { mem = mem })

abbrev pub alloc : Inflater → Bool × Inflater
alloc f = next_answer f f.mem

-- `*buf.last = '\0'`, and the length of the bytes is that of the buffer.
abbrev pub finish : Buf → Result (List ℕ)
finish b = require (ltb 0 b.avail) (ok b.bytes)

-- add_hd_table_incremental, whose two allocations are the entry and a larger ring buffer.
abbrev pub add_nv : Inflater → HdNv → Result Inflater
add_nv f nv =
    let (entry_granted, f1) = alloc f in
    let (buffer_granted, f2) = alloc f1 in
    add_hd_table_incremental f.ctx nv.name nv.value entry_granted buffer_granted >>= λ c.
    ok (record f2 { ctx = c })

abbrev pub index_nv : Inflater → HdNv → Result (Inflater × HdNv)
index_nv f nv = if f.index_required then (add_nv f nv >>= λ f'. ok (f', nv)) else ok (f, nv)

-- hd_inflate_commit_newname and hd_inflate_commit_indname. Every error of the table is a lack of memory.
unfoldable pub commit_newname : Inflater → List ℕ → List ℕ → Result (Inflater × HdNv)
unfolding add_hd_table_incremental lookup_token
commit_newname f name value =
    index_nv f
      (record { name = name; value = value; token = lookup_token name; no_index = f.no_index })

unfoldable pub commit_indname : Inflater → List ℕ → Result (Inflater × HdNv)
unfolding add_hd_table_incremental table_get
commit_indname f value = table_get f.ctx f.index >>= λ nv.
    index_nv f (record nv { value = value; no_index = f.no_index })
