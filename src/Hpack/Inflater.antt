-- ===== src/Hpack/Inflater.antt =====
-- include/nghttp2_hd.h, nghttp2_hd_inflater: the state of the decoder of header blocks.
use kitura_http.Prelude.{ℕ, List, Bool, false}
use kitura_http.Buf.{Buf, new_buf}
use kitura_http.Hpack.Table.{Context}
use kitura_http.Hpack.Huffman.{HuffDecodeContext, huff_decode_context_init}

-- nghttp2_hd_inflate_state.
pub data InflateState : Type 0 where
  expect_table_size inflate_start opcode read_table_size read_index : InflateState
  newname_check_namelen newname_read_namelen newname_read_namehuff newname_read_name : InflateState
  check_valuelen read_valuelen read_valuehuff read_value : InflateState

-- nghttp2_hd_opcode.
pub data Opcode : Type 0 where
  opcode_none indexed newname indname : Opcode

-- nghttp2_hd_inflater. `bad` is a member of its context. The buffers for a name and a value are the
-- bytes of namercbuf and valuercbuf too. `mem` says of each allocation to come if it is granted.
pub record Inflater : Type 0 where
  pub ctx : Context
  pub bad : Bool
  pub huff_decode_ctx : HuffDecodeContext
  pub namebuf : Buf
  pub valuebuf : Buf
  pub left : ℕ
  pub index : ℕ
  pub settings_hd_table_bufsize_max : ℕ
  pub min_hd_table_bufsize_max : ℕ
  pub shift : ℕ
  pub opcode : Opcode
  pub state : InflateState
  pub huffman_encoded : Bool
  pub index_required : Bool
  pub no_index : Bool
  pub mem : List Bool

-- nghttp2_hd_inflate_init, with the context that hd_context_init makes.
unfoldable pub inflate_init : Context → List Bool → Inflater
inflate_init ctx mem = record {
  ctx = ctx;
  bad = false;
  huff_decode_ctx = huff_decode_context_init;
  namebuf = new_buf 0;
  valuebuf = new_buf 0;
  left = 0;
  index = 0;
  settings_hd_table_bufsize_max = 4096;
  min_hd_table_bufsize_max = 4294967295;
  shift = 0;
  opcode = opcode_none;
  state = inflate_start;
  huffman_encoded = false;
  index_required = false;
  no_index = false;
  mem = mem;
}
