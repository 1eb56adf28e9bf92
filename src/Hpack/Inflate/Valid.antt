-- ===== src/Hpack/Inflate/Valid.antt =====
-- The inflater between two rounds of its loop: its table, its buffers, and the index that it keeps.
use kitura_http.Prelude.{ℕ, ◌+◌, ◌*◌, ◌≤◌, ◌<◌, ◌≡◌, ◌⊎◌, List, [], ◌∷◌, true, IsByte, All, length}
use kitura_http.Result.{Error, Result, ok, err, fault, header_comp, nomem}
use kitura_http.Buf.{Buf}
use kitura_http.Hpack.Inflater.{
  Inflater, InflateState, Opcode, expect_table_size, inflate_start, opcode, newname_check_namelen,
  newname_read_namelen, newname_read_namehuff, newname_read_name, check_valuelen, read_valuelen,
  read_valuehuff, read_value, newname,
}
use kitura_http.Hpack.Table.{HdEntry, Context}
use kitura_http.Hpack.Table.Evict.{IsTable}
use kitura_http.Hpack.Huffman.{HuffDecodeContext}
use kitura_http.Hpack.Huffman.Checked.{node_bits, is_padding}
use kitura_http.Hpack.Inflate.{get_max_index}
use kitura_http.Hpack.Inflate.Step.{Step, next, almost_ok, emit}
use kitura_http.Hpack.Inflate.Run.{Inflated, emitted, processed, failed, crashed, out_of_fuel}

-- A decoder of Huffman codes that stands at a node of the code tree.
pub record AtNode (c : HuffDecodeContext) : Type 0 where
  pub state_in : c.state < 256
  pub final : c.accept ≡ is_padding (node_bits c.state)

abbrev pub HuffRoom : Inflater → Buf → Type 0
HuffRoom f b = (f.left * 2 + 1 ≤ b.avail) × AtNode f.huff_decode_ctx

abbrev pub PlainRoom : Inflater → Buf → Type 0
PlainRoom f b = f.left + 1 ≤ b.avail

-- The index of a name, of which a new name has none.
abbrev pub IndexIn : Context → ℕ → Opcode → Type 0
IndexIn c i newname = Unit
IndexIn c i _ = i < get_max_index c

abbrev pub Ready : Inflater → InflateState → Type 0
Ready f newname_read_namehuff = HuffRoom f f.namebuf × (f.opcode ≡ newname)
Ready f newname_read_name = PlainRoom f f.namebuf × (f.opcode ≡ newname)
Ready f newname_check_namelen = f.opcode ≡ newname
Ready f newname_read_namelen = f.opcode ≡ newname
Ready f check_valuelen = IndexIn f.ctx f.index f.opcode
Ready f read_valuelen = IndexIn f.ctx f.index f.opcode
Ready f read_valuehuff = HuffRoom f f.valuebuf × IndexIn f.ctx f.index f.opcode
Ready f read_value = PlainRoom f f.valuebuf × IndexIn f.ctx f.index f.opcode
Ready f _ = Unit

pub record IsValid (f : Inflater) : Type 0 where
  pub entries : List HdEntry
  pub table : IsTable f.ctx entries
  pub ready : Ready f f.state

-- A state that may be entered at the end of the input, or there is input.
abbrev pub Fed : InflateState → List ℕ → Type 0
Fed read_valuehuff input = Unit
Fed read_value input = Unit
Fed _ [] = ⊥
Fed _ (b ∷ input) = Unit

-- The rounds that take no byte.
abbrev pub rank : InflateState → ℕ
rank expect_table_size = 1
rank inflate_start = 1
rank opcode = 1
rank newname_read_namehuff = 1
rank newname_read_name = 1
rank read_valuehuff = 1
rank read_value = 1
rank _ = 0

abbrev pub Refusal : Error → Type 0
Refusal e = (e ≡ header_comp) ⊎ (e ≡ nomem)

-- What a round may do with at most `n` bytes left and `limit` rounds.
abbrev pub StepOk : ℕ → ℕ → Result Step → Type 0
StepOk n limit (ok (next g busy rest)) =
    IsValid g
    × All IsByte rest
    × (length rest * 2 + rank g.state < limit)
    × (length rest ≤ n)
    × (busy ≡ true → Fed g.state [])
StepOk n limit (ok (almost_ok g rest)) = IsValid g × (length rest ≤ n)
StepOk n limit (ok (emit g nv rest)) = IsValid g × (length rest ≤ n)
StepOk n limit (err e) = Refusal e
StepOk n limit fault = ⊥

abbrev pub RunOk : ℕ → Inflated → Type 0
RunOk n (emitted g nv rest) = IsValid g × (length rest ≤ n)
RunOk n (processed g final rest) = IsValid g × (length rest ≤ n)
RunOk n (failed g e) = (g.bad ≡ true) × Refusal e
RunOk n crashed = ⊥
RunOk n out_of_fuel = ⊥
