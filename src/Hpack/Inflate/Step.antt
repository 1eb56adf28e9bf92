-- ===== src/Hpack/Inflate/Step.antt =====
-- Sources/nghttp2/nghttp2_hd.c, nghttp2_hd_inflate_hd_nv: the cases of the switch on the state.
use kitura_http.Prelude.{
  ℕ, ◌+◌, ◌-◌, ◌*◌, ◌/◌, ◌%◌, List, [], ◌∷◌, Bool, true, false, ◌||◌, not, ◌==◌, min, if◌then◌else◌,
  test_bit,
}
use kitura_http.Result.{Result, ok, err, fault, header_comp, nomem, ◌>>=◌}
use kitura_http.Buf.{Buf, new_buf}
use kitura_http.Hpack.Inflater.{
  Inflater, InflateState, Opcode, expect_table_size, inflate_start, opcode, read_table_size,
  read_index, newname_check_namelen, newname_read_namelen, newname_read_namehuff, newname_read_name,
  check_valuelen, read_valuelen, read_valuehuff, read_value, indexed, newname, indname,
}
use kitura_http.Hpack.Table.{shrink_table_size}
use kitura_http.Hpack.Huffman.{huff_decode_context_init}
use kitura_http.Hpack.Inflate.{
  HdNv, get_max_index, table_get, read_len, read_huff, read_plain, alloc, finish, commit_newname,
  commit_indname,
}

-- How a case of the switch ends: with `break` and the value of `busy`, at `almost_ok`, or with a field
-- that is returned. An error goes to `fail`. Each has what is left of the input.
pub data Step : Type 0 where
  next : Inflater → Bool → List ℕ → Step
  almost_ok : Inflater → List ℕ → Step
  emit : Inflater → HdNv → List ℕ → Step

-- An integer that is not complete ends the call, or `k` goes on with it.
abbrev pub with_len :
    Result (Inflater × Bool × List ℕ) → (Inflater → List ℕ → Result Step) → Result Step
with_len r k = r >>= λ x. if x.1 then k x.0 x.2 else ok (almost_ok x.0 x.2)

-- `(*in & 0xe0u) == 0x20u`, and the other tests of a first byte.
abbrev pub is_size_update : ℕ → Bool
is_size_update b = b / 32 % 8 == 1

abbrev pub is_new_name : ℕ → Bool
is_new_name b = b == 0x40 || (b == 0 || b == 0x10)

abbrev pub from_scratch : Inflater → Inflater
from_scratch f = record f { left = 0; shift = 0 }

-- A literal: `index_required` and `no_index` come from its first byte.
abbrev pub literal : Inflater → ℕ → Inflater
literal f b = record f { index_required = test_bit b 0x40; no_index = b / 16 % 16 == 1 }

-- NGHTTP2_HD_STATE_INFLATE_START and NGHTTP2_HD_STATE_OPCODE.
unfoldable pub start_step : Inflater → Bool → ℕ → List ℕ → Result Step
start_step f in_block b rest =
    if is_size_update b
    then (if in_block
        then err header_comp
        else ok (
            next (from_scratch (record f { opcode = indexed; state = read_table_size })) false
              (b ∷ rest)))
    else if test_bit b 0x80
    then ok
        (next (from_scratch (record f { opcode = indexed; state = read_index })) false (b ∷ rest))
    else if is_new_name b
    then ok (
        next
          (from_scratch (literal (record f { opcode = newname; state = newname_check_namelen }) b))
          false rest)
    else ok (
        next (from_scratch (literal (record f { opcode = indname; state = read_index }) b)) false
          (b ∷ rest))

-- NGHTTP2_HD_STATE_READ_TABLE_SIZE.
unfoldable pub table_size_step : Inflater → List ℕ → Result Step
unfolding read_len shrink_table_size
table_size_step f input =
    with_len (read_len f input 5 (min f.min_hd_table_bufsize_max f.settings_hd_table_bufsize_max))
      (λ g rest.
        let limited = record g.ctx { hd_table_bufsize_max = g.left } in
        ok (
          next
            (record g {
              min_hd_table_bufsize_max = 4294967295;
              ctx = shrink_table_size limited;
              state = inflate_start;
            })
            false rest))

abbrev pub index_prefix : Inflater → ℕ
index_prefix f = elim f.opcode [ indexed ↦ 7 | _ ↦ if f.index_required then 6 else 4 ]

abbrev pub indexed_end : Inflater → Opcode → List ℕ → Result Step
indexed_end g indexed rest =
    table_get g.ctx g.index >>= λ nv. ok (emit (record g { state = opcode }) nv rest)
indexed_end g _ rest = ok (next (record g { state = check_valuelen }) false rest)

-- NGHTTP2_HD_STATE_READ_INDEX.
unfoldable pub index_step : Inflater → List ℕ → Result Step
unfolding read_len table_get
index_step f input = with_len (read_len f input (index_prefix f) (get_max_index f.ctx)) (λ g rest.
    if g.left == 0
    then err header_comp
    else indexed_end (record g { index = g.left - 1 }) g.opcode rest)

-- hd_inflate_set_huffman_encoded, and the start of an integer.
abbrev pub set_huffman_encoded : Inflater → ℕ → Inflater
set_huffman_encoded f b = from_scratch (record f { huffman_encoded = test_bit b 0x80 })

abbrev pub hd_max_nv : ℕ
hd_max_nv = 65536

-- The buffer for a string.
abbrev pub string_buf : Inflater → ℕ → Result (Inflater × Buf)
string_buf f size =
    let (granted, g) = alloc f in if granted then ok (g, new_buf size) else err nomem

-- A string starts, with the Huffman code or without.
abbrev pub name_begins : Inflater → Bool → List ℕ → Result Step
name_begins f true rest = string_buf f (f.left * 2 + 1) >>= λ b. ok (
    next
      (record b.0 {
        namebuf = b.1;
        huff_decode_ctx = huff_decode_context_init;
        state = newname_read_namehuff;
      })
      false rest)
name_begins f false rest = string_buf f (f.left + 1) >>= λ b.
    ok (next (record b.0 { namebuf = b.1; state = newname_read_name }) false rest)

abbrev pub value_begins : Inflater → Bool → List ℕ → Result Step
value_begins f true rest = string_buf f (f.left * 2 + 1) >>= λ b. ok (
    next
      (record b.0 {
        valuebuf = b.1;
        huff_decode_ctx = huff_decode_context_init;
        state = read_valuehuff;
      })
      true rest)
value_begins f false rest = string_buf f (f.left + 1) >>= λ b.
    ok (next (record b.0 { valuebuf = b.1; state = read_value }) true rest)

-- NGHTTP2_HD_STATE_NEWNAME_READ_NAMELEN and NGHTTP2_HD_STATE_READ_VALUELEN.
unfoldable pub name_len_step : Inflater → List ℕ → Result Step
unfolding read_len
name_len_step f input =
    with_len (read_len f input 7 hd_max_nv) (λ g rest. name_begins g g.huffman_encoded rest)

unfoldable pub value_len_step : Inflater → List ℕ → Result Step
unfolding read_len
value_len_step f input =
    with_len (read_len f input 7 hd_max_nv) (λ g rest. value_begins g g.huffman_encoded rest)

-- The end of NGHTTP2_HD_STATE_NEWNAME_READ_NAMEHUFF and NGHTTP2_HD_STATE_NEWNAME_READ_NAME.
unfoldable pub name_step : Result (Inflater × Buf × List ℕ) → Result Step
name_step r = r >>= λ x.
    let g = record x.0 { namebuf = x.1 } in
    if not (g.left == 0)
    then ok (almost_ok g x.2)
    else finish g.namebuf >>= λ name. ok (next (record g { state = check_valuelen }) false x.2)

-- The end of NGHTTP2_HD_STATE_READ_VALUEHUFF and NGHTTP2_HD_STATE_READ_VALUE.
abbrev pub commit : Inflater → Opcode → List ℕ → Result (Inflater × HdNv)
commit g newname value = commit_newname g g.namebuf.bytes value
commit g _ value = commit_indname g value

unfoldable pub value_step : Result (Inflater × Buf × List ℕ) → Result Step
unfolding commit_newname commit_indname
value_step r = r >>= λ x.
    let g = record x.0 { valuebuf = x.1 } in
    if not (g.left == 0)
    then ok (almost_ok g x.2)
    else finish g.valuebuf >>= λ value.
        commit g g.opcode value >>= λ done. ok (emit (record done.0 { state = opcode }) done.1 x.2)

-- The states that look at `*in` without moving behind it, and fall through.
abbrev pub first_byte_step : Inflater → InflateState → ℕ → List ℕ → Result Step
first_byte_step f expect_table_size b rest =
    if is_size_update b then start_step f false b rest else err header_comp
first_byte_step f inflate_start b rest = start_step f false b rest
first_byte_step f opcode b rest = start_step f true b rest
first_byte_step f newname_check_namelen b rest =
    name_len_step (record (set_huffman_encoded f b) { state = newname_read_namelen }) (b ∷ rest)
first_byte_step f _ b rest =
    value_len_step (record (set_huffman_encoded f b) { state = read_valuelen }) (b ∷ rest)

abbrev pub looks_at : Inflater → InflateState → List ℕ → Result Step
looks_at f st [] = fault
looks_at f st (b ∷ rest) = first_byte_step f st b rest

-- `switch (inflater->state)`.
unfoldable pub inflate_step : Inflater → InflateState → List ℕ → Result Step
unfolding start_step table_size_step index_step name_len_step value_len_step name_step value_step
    read_huff read_plain
inflate_step f read_table_size input = table_size_step f input
inflate_step f read_index input = index_step f input
inflate_step f newname_read_namelen input = name_len_step f input
inflate_step f newname_read_namehuff input = name_step (read_huff f f.namebuf input)
inflate_step f newname_read_name input = name_step (read_plain f f.namebuf input)
inflate_step f read_valuelen input = value_len_step f input
inflate_step f read_valuehuff input = value_step (read_huff f f.valuebuf input)
inflate_step f read_value input = value_step (read_plain f f.valuebuf input)
inflate_step f st input = looks_at f st input
