-- ===== src/Hpack.antt =====
-- Sources/nghttp2/nghttp2_hd.c: header compression (RFC 7541).
pub mod Integer
pub mod Table
pub mod Huffman
pub mod Token
pub mod Static
pub mod Inflater
pub mod Inflate
pub mod Search
pub mod Mapped
pub mod Emit
pub mod Deflate
