-- ===== src/Hpack/Huffman/Table/Part7.antt =====
-- Sources/nghttp2/nghttp2_hd_huffman_data.c, huff_decode_table: eight states to a list, from 224 to 255.
use kitura_http.Prelude.{List, [], ◌∷◌, ◌++◌}
use kitura_http.Hpack.Huffman.Table.Entry.{HuffDecode, to}

unfoldable pub states_224 : List (List HuffDecode)
states_224 =
    ((to 1 2 254 ∷ to 22 3 254 ∷ to 0 3 2 ∷ to 0 3 3 ∷ [])
      ++ (to 0 3 4 ∷ to 0 3 5 ∷ to 0 3 6 ∷ to 0 3 7 ∷ [])
      ++ (to 0 3 8 ∷ to 0 3 11 ∷ to 0 3 12 ∷ to 0 3 14 ∷ [])
      ++ (to 0 3 15 ∷ to 0 3 16 ∷ to 0 3 17 ∷ to 0 3 18 ∷ []))
    ∷ ((to 2 2 254 ∷ to 9 2 254 ∷ to 23 2 254 ∷ to 40 3 254 ∷ [])
        ++ (to 1 2 2 ∷ to 22 3 2 ∷ to 1 2 3 ∷ to 22 3 3 ∷ [])
        ++ (to 1 2 4 ∷ to 22 3 4 ∷ to 1 2 5 ∷ to 22 3 5 ∷ [])
        ++ (to 1 2 6 ∷ to 22 3 6 ∷ to 1 2 7 ∷ to 22 3 7 ∷ []))
    ∷ ((to 3 2 254 ∷ to 6 2 254 ∷ to 10 2 254 ∷ to 15 2 254 ∷ [])
        ++ (to 24 2 254 ∷ to 31 2 254 ∷ to 41 2 254 ∷ to 56 3 254 ∷ [])
        ++ (to 2 2 2 ∷ to 9 2 2 ∷ to 23 2 2 ∷ to 40 3 2 ∷ [])
        ++ (to 2 2 3 ∷ to 9 2 3 ∷ to 23 2 3 ∷ to 40 3 3 ∷ []))
    ∷ ((to 3 2 2 ∷ to 6 2 2 ∷ to 10 2 2 ∷ to 15 2 2 ∷ [])
        ++ (to 24 2 2 ∷ to 31 2 2 ∷ to 41 2 2 ∷ to 56 3 2 ∷ [])
        ++ (to 3 2 3 ∷ to 6 2 3 ∷ to 10 2 3 ∷ to 15 2 3 ∷ [])
        ++ (to 24 2 3 ∷ to 31 2 3 ∷ to 41 2 3 ∷ to 56 3 3 ∷ []))
    ∷ ((to 2 2 4 ∷ to 9 2 4 ∷ to 23 2 4 ∷ to 40 3 4 ∷ [])
        ++ (to 2 2 5 ∷ to 9 2 5 ∷ to 23 2 5 ∷ to 40 3 5 ∷ [])
        ++ (to 2 2 6 ∷ to 9 2 6 ∷ to 23 2 6 ∷ to 40 3 6 ∷ [])
        ++ (to 2 2 7 ∷ to 9 2 7 ∷ to 23 2 7 ∷ to 40 3 7 ∷ []))
    ∷ ((to 3 2 4 ∷ to 6 2 4 ∷ to 10 2 4 ∷ to 15 2 4 ∷ [])
        ++ (to 24 2 4 ∷ to 31 2 4 ∷ to 41 2 4 ∷ to 56 3 4 ∷ [])
        ++ (to 3 2 5 ∷ to 6 2 5 ∷ to 10 2 5 ∷ to 15 2 5 ∷ [])
        ++ (to 24 2 5 ∷ to 31 2 5 ∷ to 41 2 5 ∷ to 56 3 5 ∷ []))
    ∷ ((to 3 2 6 ∷ to 6 2 6 ∷ to 10 2 6 ∷ to 15 2 6 ∷ [])
        ++ (to 24 2 6 ∷ to 31 2 6 ∷ to 41 2 6 ∷ to 56 3 6 ∷ [])
        ++ (to 3 2 7 ∷ to 6 2 7 ∷ to 10 2 7 ∷ to 15 2 7 ∷ [])
        ++ (to 24 2 7 ∷ to 31 2 7 ∷ to 41 2 7 ∷ to 56 3 7 ∷ []))
    ∷ ((to 1 2 8 ∷ to 22 3 8 ∷ to 1 2 11 ∷ to 22 3 11 ∷ [])
        ++ (to 1 2 12 ∷ to 22 3 12 ∷ to 1 2 14 ∷ to 22 3 14 ∷ [])
        ++ (to 1 2 15 ∷ to 22 3 15 ∷ to 1 2 16 ∷ to 22 3 16 ∷ [])
        ++ (to 1 2 17 ∷ to 22 3 17 ∷ to 1 2 18 ∷ to 22 3 18 ∷ []))
    ∷ []

unfoldable pub states_232 : List (List HuffDecode)
states_232 =
    ((to 2 2 8 ∷ to 9 2 8 ∷ to 23 2 8 ∷ to 40 3 8 ∷ [])
      ++ (to 2 2 11 ∷ to 9 2 11 ∷ to 23 2 11 ∷ to 40 3 11 ∷ [])
      ++ (to 2 2 12 ∷ to 9 2 12 ∷ to 23 2 12 ∷ to 40 3 12 ∷ [])
      ++ (to 2 2 14 ∷ to 9 2 14 ∷ to 23 2 14 ∷ to 40 3 14 ∷ []))
    ∷ ((to 3 2 8 ∷ to 6 2 8 ∷ to 10 2 8 ∷ to 15 2 8 ∷ [])
        ++ (to 24 2 8 ∷ to 31 2 8 ∷ to 41 2 8 ∷ to 56 3 8 ∷ [])
        ++ (to 3 2 11 ∷ to 6 2 11 ∷ to 10 2 11 ∷ to 15 2 11 ∷ [])
        ++ (to 24 2 11 ∷ to 31 2 11 ∷ to 41 2 11 ∷ to 56 3 11 ∷ []))
    ∷ ((to 3 2 12 ∷ to 6 2 12 ∷ to 10 2 12 ∷ to 15 2 12 ∷ [])
        ++ (to 24 2 12 ∷ to 31 2 12 ∷ to 41 2 12 ∷ to 56 3 12 ∷ [])
        ++ (to 3 2 14 ∷ to 6 2 14 ∷ to 10 2 14 ∷ to 15 2 14 ∷ [])
        ++ (to 24 2 14 ∷ to 31 2 14 ∷ to 41 2 14 ∷ to 56 3 14 ∷ []))
    ∷ ((to 2 2 15 ∷ to 9 2 15 ∷ to 23 2 15 ∷ to 40 3 15 ∷ [])
        ++ (to 2 2 16 ∷ to 9 2 16 ∷ to 23 2 16 ∷ to 40 3 16 ∷ [])
        ++ (to 2 2 17 ∷ to 9 2 17 ∷ to 23 2 17 ∷ to 40 3 17 ∷ [])
        ++ (to 2 2 18 ∷ to 9 2 18 ∷ to 23 2 18 ∷ to 40 3 18 ∷ []))
    ∷ ((to 3 2 15 ∷ to 6 2 15 ∷ to 10 2 15 ∷ to 15 2 15 ∷ [])
        ++ (to 24 2 15 ∷ to 31 2 15 ∷ to 41 2 15 ∷ to 56 3 15 ∷ [])
        ++ (to 3 2 16 ∷ to 6 2 16 ∷ to 10 2 16 ∷ to 15 2 16 ∷ [])
        ++ (to 24 2 16 ∷ to 31 2 16 ∷ to 41 2 16 ∷ to 56 3 16 ∷ []))
    ∷ ((to 3 2 17 ∷ to 6 2 17 ∷ to 10 2 17 ∷ to 15 2 17 ∷ [])
        ++ (to 24 2 17 ∷ to 31 2 17 ∷ to 41 2 17 ∷ to 56 3 17 ∷ [])
        ++ (to 3 2 18 ∷ to 6 2 18 ∷ to 10 2 18 ∷ to 15 2 18 ∷ [])
        ++ (to 24 2 18 ∷ to 31 2 18 ∷ to 41 2 18 ∷ to 56 3 18 ∷ []))
    ∷ ((to 0 3 19 ∷ to 0 3 20 ∷ to 0 3 21 ∷ to 0 3 23 ∷ [])
        ++ (to 0 3 24 ∷ to 0 3 25 ∷ to 0 3 26 ∷ to 0 3 27 ∷ [])
        ++ (to 0 3 28 ∷ to 0 3 29 ∷ to 0 3 30 ∷ to 0 3 31 ∷ [])
        ++ (to 0 3 127 ∷ to 0 3 220 ∷ to 0 3 249 ∷ to 253 0 0 ∷ []))
    ∷ ((to 1 2 19 ∷ to 22 3 19 ∷ to 1 2 20 ∷ to 22 3 20 ∷ [])
        ++ (to 1 2 21 ∷ to 22 3 21 ∷ to 1 2 23 ∷ to 22 3 23 ∷ [])
        ++ (to 1 2 24 ∷ to 22 3 24 ∷ to 1 2 25 ∷ to 22 3 25 ∷ [])
        ++ (to 1 2 26 ∷ to 22 3 26 ∷ to 1 2 27 ∷ to 22 3 27 ∷ []))
    ∷ []

unfoldable pub states_240 : List (List HuffDecode)
states_240 =
    ((to 2 2 19 ∷ to 9 2 19 ∷ to 23 2 19 ∷ to 40 3 19 ∷ [])
      ++ (to 2 2 20 ∷ to 9 2 20 ∷ to 23 2 20 ∷ to 40 3 20 ∷ [])
      ++ (to 2 2 21 ∷ to 9 2 21 ∷ to 23 2 21 ∷ to 40 3 21 ∷ [])
      ++ (to 2 2 23 ∷ to 9 2 23 ∷ to 23 2 23 ∷ to 40 3 23 ∷ []))
    ∷ ((to 3 2 19 ∷ to 6 2 19 ∷ to 10 2 19 ∷ to 15 2 19 ∷ [])
        ++ (to 24 2 19 ∷ to 31 2 19 ∷ to 41 2 19 ∷ to 56 3 19 ∷ [])
        ++ (to 3 2 20 ∷ to 6 2 20 ∷ to 10 2 20 ∷ to 15 2 20 ∷ [])
        ++ (to 24 2 20 ∷ to 31 2 20 ∷ to 41 2 20 ∷ to 56 3 20 ∷ []))
    ∷ ((to 3 2 21 ∷ to 6 2 21 ∷ to 10 2 21 ∷ to 15 2 21 ∷ [])
        ++ (to 24 2 21 ∷ to 31 2 21 ∷ to 41 2 21 ∷ to 56 3 21 ∷ [])
        ++ (to 3 2 23 ∷ to 6 2 23 ∷ to 10 2 23 ∷ to 15 2 23 ∷ [])
        ++ (to 24 2 23 ∷ to 31 2 23 ∷ to 41 2 23 ∷ to 56 3 23 ∷ []))
    ∷ ((to 2 2 24 ∷ to 9 2 24 ∷ to 23 2 24 ∷ to 40 3 24 ∷ [])
        ++ (to 2 2 25 ∷ to 9 2 25 ∷ to 23 2 25 ∷ to 40 3 25 ∷ [])
        ++ (to 2 2 26 ∷ to 9 2 26 ∷ to 23 2 26 ∷ to 40 3 26 ∷ [])
        ++ (to 2 2 27 ∷ to 9 2 27 ∷ to 23 2 27 ∷ to 40 3 27 ∷ []))
    ∷ ((to 3 2 24 ∷ to 6 2 24 ∷ to 10 2 24 ∷ to 15 2 24 ∷ [])
        ++ (to 24 2 24 ∷ to 31 2 24 ∷ to 41 2 24 ∷ to 56 3 24 ∷ [])
        ++ (to 3 2 25 ∷ to 6 2 25 ∷ to 10 2 25 ∷ to 15 2 25 ∷ [])
        ++ (to 24 2 25 ∷ to 31 2 25 ∷ to 41 2 25 ∷ to 56 3 25 ∷ []))
    ∷ ((to 3 2 26 ∷ to 6 2 26 ∷ to 10 2 26 ∷ to 15 2 26 ∷ [])
        ++ (to 24 2 26 ∷ to 31 2 26 ∷ to 41 2 26 ∷ to 56 3 26 ∷ [])
        ++ (to 3 2 27 ∷ to 6 2 27 ∷ to 10 2 27 ∷ to 15 2 27 ∷ [])
        ++ (to 24 2 27 ∷ to 31 2 27 ∷ to 41 2 27 ∷ to 56 3 27 ∷ []))
    ∷ ((to 1 2 28 ∷ to 22 3 28 ∷ to 1 2 29 ∷ to 22 3 29 ∷ [])
        ++ (to 1 2 30 ∷ to 22 3 30 ∷ to 1 2 31 ∷ to 22 3 31 ∷ [])
        ++ (to 1 2 127 ∷ to 22 3 127 ∷ to 1 2 220 ∷ to 22 3 220 ∷ [])
        ++ (to 1 2 249 ∷ to 22 3 249 ∷ to 254 0 0 ∷ to 255 0 0 ∷ []))
    ∷ ((to 2 2 28 ∷ to 9 2 28 ∷ to 23 2 28 ∷ to 40 3 28 ∷ [])
        ++ (to 2 2 29 ∷ to 9 2 29 ∷ to 23 2 29 ∷ to 40 3 29 ∷ [])
        ++ (to 2 2 30 ∷ to 9 2 30 ∷ to 23 2 30 ∷ to 40 3 30 ∷ [])
        ++ (to 2 2 31 ∷ to 9 2 31 ∷ to 23 2 31 ∷ to 40 3 31 ∷ []))
    ∷ []

unfoldable pub states_248 : List (List HuffDecode)
states_248 =
    ((to 3 2 28 ∷ to 6 2 28 ∷ to 10 2 28 ∷ to 15 2 28 ∷ [])
      ++ (to 24 2 28 ∷ to 31 2 28 ∷ to 41 2 28 ∷ to 56 3 28 ∷ [])
      ++ (to 3 2 29 ∷ to 6 2 29 ∷ to 10 2 29 ∷ to 15 2 29 ∷ [])
      ++ (to 24 2 29 ∷ to 31 2 29 ∷ to 41 2 29 ∷ to 56 3 29 ∷ []))
    ∷ ((to 3 2 30 ∷ to 6 2 30 ∷ to 10 2 30 ∷ to 15 2 30 ∷ [])
        ++ (to 24 2 30 ∷ to 31 2 30 ∷ to 41 2 30 ∷ to 56 3 30 ∷ [])
        ++ (to 3 2 31 ∷ to 6 2 31 ∷ to 10 2 31 ∷ to 15 2 31 ∷ [])
        ++ (to 24 2 31 ∷ to 31 2 31 ∷ to 41 2 31 ∷ to 56 3 31 ∷ []))
    ∷ ((to 2 2 127 ∷ to 9 2 127 ∷ to 23 2 127 ∷ to 40 3 127 ∷ [])
        ++ (to 2 2 220 ∷ to 9 2 220 ∷ to 23 2 220 ∷ to 40 3 220 ∷ [])
        ++ (to 2 2 249 ∷ to 9 2 249 ∷ to 23 2 249 ∷ to 40 3 249 ∷ [])
        ++ (to 0 3 10 ∷ to 0 3 13 ∷ to 0 3 22 ∷ to 0 4 0 ∷ []))
    ∷ ((to 3 2 127 ∷ to 6 2 127 ∷ to 10 2 127 ∷ to 15 2 127 ∷ [])
        ++ (to 24 2 127 ∷ to 31 2 127 ∷ to 41 2 127 ∷ to 56 3 127 ∷ [])
        ++ (to 3 2 220 ∷ to 6 2 220 ∷ to 10 2 220 ∷ to 15 2 220 ∷ [])
        ++ (to 24 2 220 ∷ to 31 2 220 ∷ to 41 2 220 ∷ to 56 3 220 ∷ []))
    ∷ ((to 3 2 249 ∷ to 6 2 249 ∷ to 10 2 249 ∷ to 15 2 249 ∷ [])
        ++ (to 24 2 249 ∷ to 31 2 249 ∷ to 41 2 249 ∷ to 56 3 249 ∷ [])
        ++ (to 1 2 10 ∷ to 22 3 10 ∷ to 1 2 13 ∷ to 22 3 13 ∷ [])
        ++ (to 1 2 22 ∷ to 22 3 22 ∷ to 0 4 0 ∷ to 0 4 0 ∷ []))
    ∷ ((to 2 2 10 ∷ to 9 2 10 ∷ to 23 2 10 ∷ to 40 3 10 ∷ [])
        ++ (to 2 2 13 ∷ to 9 2 13 ∷ to 23 2 13 ∷ to 40 3 13 ∷ [])
        ++ (to 2 2 22 ∷ to 9 2 22 ∷ to 23 2 22 ∷ to 40 3 22 ∷ [])
        ++ (to 0 4 0 ∷ to 0 4 0 ∷ to 0 4 0 ∷ to 0 4 0 ∷ []))
    ∷ ((to 3 2 10 ∷ to 6 2 10 ∷ to 10 2 10 ∷ to 15 2 10 ∷ [])
        ++ (to 24 2 10 ∷ to 31 2 10 ∷ to 41 2 10 ∷ to 56 3 10 ∷ [])
        ++ (to 3 2 13 ∷ to 6 2 13 ∷ to 10 2 13 ∷ to 15 2 13 ∷ [])
        ++ (to 24 2 13 ∷ to 31 2 13 ∷ to 41 2 13 ∷ to 56 3 13 ∷ []))
    ∷ ((to 3 2 22 ∷ to 6 2 22 ∷ to 10 2 22 ∷ to 15 2 22 ∷ [])
        ++ (to 24 2 22 ∷ to 31 2 22 ∷ to 41 2 22 ∷ to 56 3 22 ∷ [])
        ++ (to 0 4 0 ∷ to 0 4 0 ∷ to 0 4 0 ∷ to 0 4 0 ∷ [])
        ++ (to 0 4 0 ∷ to 0 4 0 ∷ to 0 4 0 ∷ to 0 4 0 ∷ []))
    ∷ []
