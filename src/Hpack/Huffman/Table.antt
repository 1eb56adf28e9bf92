-- ===== src/Hpack/Huffman/Table.antt =====
-- Sources/nghttp2/nghttp2_hd_huffman_data.c: the decoding table, one row of 16 entries to a state.
pub mod Entry
pub mod Part0
pub mod Part1
pub mod Part2
pub mod Part3
pub mod Part4
pub mod Part5
pub mod Part6
pub mod Part7
pub mod All
