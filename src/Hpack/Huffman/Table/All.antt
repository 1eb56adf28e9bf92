-- ===== src/Hpack/Huffman/Table/All.antt =====
-- Sources/nghttp2/nghttp2_hd_huffman_data.c: huff_decode_table, put together from its parts.
use kitura_http.Prelude.{List, ◌++◌}
use kitura_http.Hpack.Huffman.Table.Entry.{HuffDecode}
use kitura_http.Hpack.Huffman.Table.Part0.{states_0, states_8, states_16, states_24}
use kitura_http.Hpack.Huffman.Table.Part1.{states_32, states_40, states_48, states_56}
use kitura_http.Hpack.Huffman.Table.Part2.{states_64, states_72, states_80, states_88}
use kitura_http.Hpack.Huffman.Table.Part3.{states_96, states_104, states_112, states_120}
use kitura_http.Hpack.Huffman.Table.Part4.{states_128, states_136, states_144, states_152}
use kitura_http.Hpack.Huffman.Table.Part5.{states_160, states_168, states_176, states_184}
use kitura_http.Hpack.Huffman.Table.Part6.{states_192, states_200, states_208, states_216}
use kitura_http.Hpack.Huffman.Table.Part7.{states_224, states_232, states_240, states_248}

unfoldable pub huff_decode_table : List (List HuffDecode)
unfolding states_0 states_8 states_16 states_24 states_32 states_40 states_48 states_56 states_64
    states_72 states_80 states_88 states_96 states_104 states_112 states_120 states_128 states_136
    states_144 states_152 states_160 states_168 states_176 states_184 states_192 states_200
    states_208 states_216 states_224 states_232 states_240 states_248
huff_decode_table =
    (states_0 ++ states_8 ++ states_16 ++ states_24)
    ++ (states_32 ++ states_40 ++ states_48 ++ states_56)
    ++ (states_64 ++ states_72 ++ states_80 ++ states_88)
    ++ (states_96 ++ states_104 ++ states_112 ++ states_120)
    ++ (states_128 ++ states_136 ++ states_144 ++ states_152)
    ++ (states_160 ++ states_168 ++ states_176 ++ states_184)
    ++ (states_192 ++ states_200 ++ states_208 ++ states_216)
    ++ (states_224 ++ states_232 ++ states_240 ++ states_248)
