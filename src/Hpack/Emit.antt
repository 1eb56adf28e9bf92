-- ===== src/Hpack/Emit.antt =====
-- Sources/nghttp2/nghttp2_hd.c: writing the representations of header fields (RFC 7541, 6) into a chain.
use kitura_http.Prelude.{ℕ, ◌+◌, ◌%◌, ◌^◌, List, ltb, length, if◌then◌else◌}
use kitura_http.Result.{header_comp}
use kitura_http.Buf.{Bufs, Status, failed, resume, bufs_add, bufs_addb}
use kitura_http.Hpack.Integer.{encode_length, count_encoded_length}
use kitura_http.Hpack.Huffman.Encode.{huff_encode, huff_encode_count}

-- nghttp2_hd_indexing_mode.
pub data IndexingMode : Type 0 where
  with_indexing without_indexing never_indexing : IndexingMode

-- An integer behind the bits of `first`, from an array of 16 bytes.
unfoldable pub emit_integer : Bufs → ℕ → ℕ → ℕ → Bufs × Status
unfolding encode_length count_encoded_length bufs_add
emit_integer s first n prefix =
    if ltb 16 (count_encoded_length n prefix)
    then (s, failed header_comp)
    else bufs_add s (encode_length first n prefix)

unfoldable pub emit_table_size : Bufs → ℕ → Bufs × Status
unfolding emit_integer
emit_table_size s size = emit_integer s 0x20 size 5

-- `idx + 1` is a size_t.
unfoldable pub emit_indexed_block : Bufs → ℕ → Bufs × Status
unfolding emit_integer
emit_indexed_block s idx = emit_integer s 0x80 ((idx + 1) % 2 ^ 64) 7

-- The shorter one of the Huffman encoding and the bytes themselves.
unfoldable pub emit_string : Bufs → List ℕ → Bufs × Status
unfolding emit_integer huff_encode huff_encode_count bufs_add
emit_string s str =
    let enclen = huff_encode_count str in
    if ltb enclen (length str)
    then resume (λ t. huff_encode t str) (emit_integer s 0x80 enclen 7)
    else resume (λ t. bufs_add t str) (emit_integer s 0 (length str) 7)

unfoldable pub pack_first_byte : IndexingMode → ℕ
pack_first_byte with_indexing = 0x40
pack_first_byte without_indexing = 0
pack_first_byte never_indexing = 0x10

abbrev pub name_prefix : IndexingMode → ℕ
name_prefix with_indexing = 6
name_prefix _ = 4

unfoldable pub emit_indname_block : Bufs → ℕ → List ℕ → IndexingMode → Bufs × Status
unfolding emit_integer emit_string pack_first_byte
emit_indname_block s idx value mode =
    resume (λ t. emit_string t value)
      (emit_integer s (pack_first_byte mode) ((idx + 1) % 2 ^ 64) (name_prefix mode))

unfoldable pub emit_newname_block : Bufs → List ℕ → List ℕ → IndexingMode → Bufs × Status
unfolding emit_string pack_first_byte bufs_addb
emit_newname_block s name value mode =
    resume (λ u. emit_string u value)
      (resume (λ t. emit_string t name) (bufs_addb s (pack_first_byte mode)))
