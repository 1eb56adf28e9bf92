-- ===== src/Lib.antt =====
-- Kitura-HTTP2 brings HTTP/2 to a Swift web server. Its protocol core is the C library in
-- Sources/nghttp2, which this development models: the session that the Swift code drives takes
-- bytes from a socket, splits them into frames, decompresses their header blocks, keeps the flow
-- control windows and the tree of stream dependencies, and writes frames out.
--
-- Wire and Buf model nghttp2_helper.c (network byte order, downcasing) and nghttp2_buf.c (chains
-- of buffers, into which everything is written). Priority models nghttp2_priority_spec.c. Frame
-- models nghttp2_frame.c: pack_X and unpack_X are nghttp2_frame_pack_X and
-- nghttp2_frame_unpack_X; Control holds the frames of fixed layout, Settings SETTINGS, Block the
-- split of a header block into frames, Pad the padding. Pq models nghttp2_pq.c, the queue of the
-- streams that wait for sending. Window models the flow control arithmetic of nghttp2_helper.c.
-- Hpack models nghttp2_hd.c, the compression of header fields: Integer the variable-length
-- integers, Table the dynamic table in its ring buffer, Token and Static the names and the fields
-- that the code knows, Inflate the decoder of header blocks (nghttp2_hd_inflate_hd_nv), Search
-- the encoder's search for a field in both tables, Mapped the dynamic table with the hash map
-- beside it, Emit the representations that are written, Deflate the encoder
-- (nghttp2_hd_deflate_hd_bufs), Huffman the code of strings (nghttp2_hd_huffman.c and the two
-- tables of nghttp2_hd_huffman_data.c). Map models nghttp2_map.c, which maps stream ids to
-- streams, and Queue models nghttp2_queue.c. Http models nghttp2_http.c and the character tables
-- of nghttp2_helper.c: what a header field, a header block, a DATA frame and the end of a stream
-- do to the stream they belong to.
--
-- A definition keeps the name of its C function without the prefix nghttp2_ (and frame_ or hd_
-- where its module says so). Memory is a list of bytes, each a native number; a uint8_t, uint16_t
-- or uint32_t that is stored has its wrap-around written out, a size_t that counts bytes held in
-- memory does not overflow. An int32_t is an integer, or the uint32_t that the C code casts it
-- to. A call that can fail returns Result: a value, an error code, or `fault` where an assert
-- fails or memory outside an object would be touched. A function that changes what it points to
-- takes the state and returns it. The answers of the allocator are inputs: a Boolean, or a list
-- of them for the calls to come.
--
-- Loops are structural where the C loop walks an array. Those that do not take fuel that the
-- definitions themselves compute: the length of the data and the number of chunks that may still
-- be entered for nghttp2_bufs_add, since each round writes a byte or enters a chunk; the index
-- and the number of entries for the two loops of the priority queue, since each round moves the
-- entry one level up or down the tree; the number of entries for the loops that evict them from
-- the dynamic table, since each round takes one out; two rounds for each byte and two more for
-- the decoder of header blocks, since a round that takes no byte moves on to a state that takes
-- one or ends the call; ten bytes for an integer of HPACK, as many as a size_t can take.
--
-- Not modelled: the Swift code in Sources/KituraHTTP2, which forwards to the server framework;
-- nghttp2_session.c, nghttp2_stream.c and nghttp2_submit.c, on which the modelled parts do not
-- depend; memory management, options, callbacks and messages.
pub mod Prelude
pub mod Result
pub mod Wire
pub mod Buf
pub mod Priority
pub mod Frame
pub mod Pq
pub mod Window
pub mod Hpack
pub mod Http
pub mod Map
pub mod Queue
