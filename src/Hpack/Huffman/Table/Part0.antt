-- ===== src/Hpack/Huffman/Table/Part0.antt =====
-- Sources/nghttp2/nghttp2_hd_huffman_data.c, huff_decode_table: eight states to a list, from 0 to 31.
use kitura_http.Prelude.{List, [], ◌∷◌, ◌++◌}
use kitura_http.Hpack.Huffman.Table.Entry.{HuffDecode, to}

unfoldable pub states_0 : List (List HuffDecode)
states_0 =
    ((to 4 0 0 ∷ to 5 0 0 ∷ to 7 0 0 ∷ to 8 0 0 ∷ [])
      ++ (to 11 0 0 ∷ to 12 0 0 ∷ to 16 0 0 ∷ to 19 0 0 ∷ [])
      ++ (to 25 0 0 ∷ to 28 0 0 ∷ to 32 0 0 ∷ to 35 0 0 ∷ [])
      ++ (to 42 0 0 ∷ to 49 0 0 ∷ to 57 0 0 ∷ to 64 1 0 ∷ []))
    ∷ ((to 0 3 48 ∷ to 0 3 49 ∷ to 0 3 50 ∷ to 0 3 97 ∷ [])
        ++ (to 0 3 99 ∷ to 0 3 101 ∷ to 0 3 105 ∷ to 0 3 111 ∷ [])
        ++ (to 0 3 115 ∷ to 0 3 116 ∷ to 13 0 0 ∷ to 14 0 0 ∷ [])
        ++ (to 17 0 0 ∷ to 18 0 0 ∷ to 20 0 0 ∷ to 21 0 0 ∷ []))
    ∷ ((to 1 2 48 ∷ to 22 3 48 ∷ to 1 2 49 ∷ to 22 3 49 ∷ [])
        ++ (to 1 2 50 ∷ to 22 3 50 ∷ to 1 2 97 ∷ to 22 3 97 ∷ [])
        ++ (to 1 2 99 ∷ to 22 3 99 ∷ to 1 2 101 ∷ to 22 3 101 ∷ [])
        ++ (to 1 2 105 ∷ to 22 3 105 ∷ to 1 2 111 ∷ to 22 3 111 ∷ []))
    ∷ ((to 2 2 48 ∷ to 9 2 48 ∷ to 23 2 48 ∷ to 40 3 48 ∷ [])
        ++ (to 2 2 49 ∷ to 9 2 49 ∷ to 23 2 49 ∷ to 40 3 49 ∷ [])
        ++ (to 2 2 50 ∷ to 9 2 50 ∷ to 23 2 50 ∷ to 40 3 50 ∷ [])
        ++ (to 2 2 97 ∷ to 9 2 97 ∷ to 23 2 97 ∷ to 40 3 97 ∷ []))
    ∷ ((to 3 2 48 ∷ to 6 2 48 ∷ to 10 2 48 ∷ to 15 2 48 ∷ [])
        ++ (to 24 2 48 ∷ to 31 2 48 ∷ to 41 2 48 ∷ to 56 3 48 ∷ [])
        ++ (to 3 2 49 ∷ to 6 2 49 ∷ to 10 2 49 ∷ to 15 2 49 ∷ [])
        ++ (to 24 2 49 ∷ to 31 2 49 ∷ to 41 2 49 ∷ to 56 3 49 ∷ []))
    ∷ ((to 3 2 50 ∷ to 6 2 50 ∷ to 10 2 50 ∷ to 15 2 50 ∷ [])
        ++ (to 24 2 50 ∷ to 31 2 50 ∷ to 41 2 50 ∷ to 56 3 50 ∷ [])
        ++ (to 3 2 97 ∷ to 6 2 97 ∷ to 10 2 97 ∷ to 15 2 97 ∷ [])
        ++ (to 24 2 97 ∷ to 31 2 97 ∷ to 41 2 97 ∷ to 56 3 97 ∷ []))
    ∷ ((to 2 2 99 ∷ to 9 2 99 ∷ to 23 2 99 ∷ to 40 3 99 ∷ [])
        ++ (to 2 2 101 ∷ to 9 2 101 ∷ to 23 2 101 ∷ to 40 3 101 ∷ [])
        ++ (to 2 2 105 ∷ to 9 2 105 ∷ to 23 2 105 ∷ to 40 3 105 ∷ [])
        ++ (to 2 2 111 ∷ to 9 2 111 ∷ to 23 2 111 ∷ to 40 3 111 ∷ []))
    ∷ ((to 3 2 99 ∷ to 6 2 99 ∷ to 10 2 99 ∷ to 15 2 99 ∷ [])
        ++ (to 24 2 99 ∷ to 31 2 99 ∷ to 41 2 99 ∷ to 56 3 99 ∷ [])
        ++ (to 3 2 101 ∷ to 6 2 101 ∷ to 10 2 101 ∷ to 15 2 101 ∷ [])
        ++ (to 24 2 101 ∷ to 31 2 101 ∷ to 41 2 101 ∷ to 56 3 101 ∷ []))
    ∷ []

unfoldable pub states_8 : List (List HuffDecode)
states_8 =
    ((to 3 2 105 ∷ to 6 2 105 ∷ to 10 2 105 ∷ to 15 2 105 ∷ [])
      ++ (to 24 2 105 ∷ to 31 2 105 ∷ to 41 2 105 ∷ to 56 3 105 ∷ [])
      ++ (to 3 2 111 ∷ to 6 2 111 ∷ to 10 2 111 ∷ to 15 2 111 ∷ [])
      ++ (to 24 2 111 ∷ to 31 2 111 ∷ to 41 2 111 ∷ to 56 3 111 ∷ []))
    ∷ ((to 1 2 115 ∷ to 22 3 115 ∷ to 1 2 116 ∷ to 22 3 116 ∷ [])
        ++ (to 0 3 32 ∷ to 0 3 37 ∷ to 0 3 45 ∷ to 0 3 46 ∷ [])
        ++ (to 0 3 47 ∷ to 0 3 51 ∷ to 0 3 52 ∷ to 0 3 53 ∷ [])
        ++ (to 0 3 54 ∷ to 0 3 55 ∷ to 0 3 56 ∷ to 0 3 57 ∷ []))
    ∷ ((to 2 2 115 ∷ to 9 2 115 ∷ to 23 2 115 ∷ to 40 3 115 ∷ [])
        ++ (to 2 2 116 ∷ to 9 2 116 ∷ to 23 2 116 ∷ to 40 3 116 ∷ [])
        ++ (to 1 2 32 ∷ to 22 3 32 ∷ to 1 2 37 ∷ to 22 3 37 ∷ [])
        ++ (to 1 2 45 ∷ to 22 3 45 ∷ to 1 2 46 ∷ to 22 3 46 ∷ []))
    ∷ ((to 3 2 115 ∷ to 6 2 115 ∷ to 10 2 115 ∷ to 15 2 115 ∷ [])
        ++ (to 24 2 115 ∷ to 31 2 115 ∷ to 41 2 115 ∷ to 56 3 115 ∷ [])
        ++ (to 3 2 116 ∷ to 6 2 116 ∷ to 10 2 116 ∷ to 15 2 116 ∷ [])
        ++ (to 24 2 116 ∷ to 31 2 116 ∷ to 41 2 116 ∷ to 56 3 116 ∷ []))
    ∷ ((to 2 2 32 ∷ to 9 2 32 ∷ to 23 2 32 ∷ to 40 3 32 ∷ [])
        ++ (to 2 2 37 ∷ to 9 2 37 ∷ to 23 2 37 ∷ to 40 3 37 ∷ [])
        ++ (to 2 2 45 ∷ to 9 2 45 ∷ to 23 2 45 ∷ to 40 3 45 ∷ [])
        ++ (to 2 2 46 ∷ to 9 2 46 ∷ to 23 2 46 ∷ to 40 3 46 ∷ []))
    ∷ ((to 3 2 32 ∷ to 6 2 32 ∷ to 10 2 32 ∷ to 15 2 32 ∷ [])
        ++ (to 24 2 32 ∷ to 31 2 32 ∷ to 41 2 32 ∷ to 56 3 32 ∷ [])
        ++ (to 3 2 37 ∷ to 6 2 37 ∷ to 10 2 37 ∷ to 15 2 37 ∷ [])
        ++ (to 24 2 37 ∷ to 31 2 37 ∷ to 41 2 37 ∷ to 56 3 37 ∷ []))
    ∷ ((to 3 2 45 ∷ to 6 2 45 ∷ to 10 2 45 ∷ to 15 2 45 ∷ [])
        ++ (to 24 2 45 ∷ to 31 2 45 ∷ to 41 2 45 ∷ to 56 3 45 ∷ [])
        ++ (to 3 2 46 ∷ to 6 2 46 ∷ to 10 2 46 ∷ to 15 2 46 ∷ [])
        ++ (to 24 2 46 ∷ to 31 2 46 ∷ to 41 2 46 ∷ to 56 3 46 ∷ []))
    ∷ ((to 1 2 47 ∷ to 22 3 47 ∷ to 1 2 51 ∷ to 22 3 51 ∷ [])
        ++ (to 1 2 52 ∷ to 22 3 52 ∷ to 1 2 53 ∷ to 22 3 53 ∷ [])
        ++ (to 1 2 54 ∷ to 22 3 54 ∷ to 1 2 55 ∷ to 22 3 55 ∷ [])
        ++ (to 1 2 56 ∷ to 22 3 56 ∷ to 1 2 57 ∷ to 22 3 57 ∷ []))
    ∷ []

unfoldable pub states_16 : List (List HuffDecode)
states_16 =
    ((to 2 2 47 ∷ to 9 2 47 ∷ to 23 2 47 ∷ to 40 3 47 ∷ [])
      ++ (to 2 2 51 ∷ to 9 2 51 ∷ to 23 2 51 ∷ to 40 3 51 ∷ [])
      ++ (to 2 2 52 ∷ to 9 2 52 ∷ to 23 2 52 ∷ to 40 3 52 ∷ [])
      ++ (to 2 2 53 ∷ to 9 2 53 ∷ to 23 2 53 ∷ to 40 3 53 ∷ []))
    ∷ ((to 3 2 47 ∷ to 6 2 47 ∷ to 10 2 47 ∷ to 15 2 47 ∷ [])
        ++ (to 24 2 47 ∷ to 31 2 47 ∷ to 41 2 47 ∷ to 56 3 47 ∷ [])
        ++ (to 3 2 51 ∷ to 6 2 51 ∷ to 10 2 51 ∷ to 15 2 51 ∷ [])
        ++ (to 24 2 51 ∷ to 31 2 51 ∷ to 41 2 51 ∷ to 56 3 51 ∷ []))
    ∷ ((to 3 2 52 ∷ to 6 2 52 ∷ to 10 2 52 ∷ to 15 2 52 ∷ [])
        ++ (to 24 2 52 ∷ to 31 2 52 ∷ to 41 2 52 ∷ to 56 3 52 ∷ [])
        ++ (to 3 2 53 ∷ to 6 2 53 ∷ to 10 2 53 ∷ to 15 2 53 ∷ [])
        ++ (to 24 2 53 ∷ to 31 2 53 ∷ to 41 2 53 ∷ to 56 3 53 ∷ []))
    ∷ ((to 2 2 54 ∷ to 9 2 54 ∷ to 23 2 54 ∷ to 40 3 54 ∷ [])
        ++ (to 2 2 55 ∷ to 9 2 55 ∷ to 23 2 55 ∷ to 40 3 55 ∷ [])
        ++ (to 2 2 56 ∷ to 9 2 56 ∷ to 23 2 56 ∷ to 40 3 56 ∷ [])
        ++ (to 2 2 57 ∷ to 9 2 57 ∷ to 23 2 57 ∷ to 40 3 57 ∷ []))
    ∷ ((to 3 2 54 ∷ to 6 2 54 ∷ to 10 2 54 ∷ to 15 2 54 ∷ [])
        ++ (to 24 2 54 ∷ to 31 2 54 ∷ to 41 2 54 ∷ to 56 3 54 ∷ [])
        ++ (to 3 2 55 ∷ to 6 2 55 ∷ to 10 2 55 ∷ to 15 2 55 ∷ [])
        ++ (to 24 2 55 ∷ to 31 2 55 ∷ to 41 2 55 ∷ to 56 3 55 ∷ []))
    ∷ ((to 3 2 56 ∷ to 6 2 56 ∷ to 10 2 56 ∷ to 15 2 56 ∷ [])
        ++ (to 24 2 56 ∷ to 31 2 56 ∷ to 41 2 56 ∷ to 56 3 56 ∷ [])
        ++ (to 3 2 57 ∷ to 6 2 57 ∷ to 10 2 57 ∷ to 15 2 57 ∷ [])
        ++ (to 24 2 57 ∷ to 31 2 57 ∷ to 41 2 57 ∷ to 56 3 57 ∷ []))
    ∷ ((to 26 0 0 ∷ to 27 0 0 ∷ to 29 0 0 ∷ to 30 0 0 ∷ [])
        ++ (to 33 0 0 ∷ to 34 0 0 ∷ to 36 0 0 ∷ to 37 0 0 ∷ [])
        ++ (to 43 0 0 ∷ to 46 0 0 ∷ to 50 0 0 ∷ to 53 0 0 ∷ [])
        ++ (to 58 0 0 ∷ to 61 0 0 ∷ to 65 0 0 ∷ to 68 1 0 ∷ []))
    ∷ ((to 0 3 61 ∷ to 0 3 65 ∷ to 0 3 95 ∷ to 0 3 98 ∷ [])
        ++ (to 0 3 100 ∷ to 0 3 102 ∷ to 0 3 103 ∷ to 0 3 104 ∷ [])
        ++ (to 0 3 108 ∷ to 0 3 109 ∷ to 0 3 110 ∷ to 0 3 112 ∷ [])
        ++ (to 0 3 114 ∷ to 0 3 117 ∷ to 38 0 0 ∷ to 39 0 0 ∷ []))
    ∷ []

unfoldable pub states_24 : List (List HuffDecode)
states_24 =
    ((to 1 2 61 ∷ to 22 3 61 ∷ to 1 2 65 ∷ to 22 3 65 ∷ [])
      ++ (to 1 2 95 ∷ to 22 3 95 ∷ to 1 2 98 ∷ to 22 3 98 ∷ [])
      ++ (to 1 2 100 ∷ to 22 3 100 ∷ to 1 2 102 ∷ to 22 3 102 ∷ [])
      ++ (to 1 2 103 ∷ to 22 3 103 ∷ to 1 2 104 ∷ to 22 3 104 ∷ []))
    ∷ ((to 2 2 61 ∷ to 9 2 61 ∷ to 23 2 61 ∷ to 40 3 61 ∷ [])
        ++ (to 2 2 65 ∷ to 9 2 65 ∷ to 23 2 65 ∷ to 40 3 65 ∷ [])
        ++ (to 2 2 95 ∷ to 9 2 95 ∷ to 23 2 95 ∷ to 40 3 95 ∷ [])
        ++ (to 2 2 98 ∷ to 9 2 98 ∷ to 23 2 98 ∷ to 40 3 98 ∷ []))
    ∷ ((to 3 2 61 ∷ to 6 2 61 ∷ to 10 2 61 ∷ to 15 2 61 ∷ [])
        ++ (to 24 2 61 ∷ to 31 2 61 ∷ to 41 2 61 ∷ to 56 3 61 ∷ [])
        ++ (to 3 2 65 ∷ to 6 2 65 ∷ to 10 2 65 ∷ to 15 2 65 ∷ [])
        ++ (to 24 2 65 ∷ to 31 2 65 ∷ to 41 2 65 ∷ to 56 3 65 ∷ []))
    ∷ ((to 3 2 95 ∷ to 6 2 95 ∷ to 10 2 95 ∷ to 15 2 95 ∷ [])
        ++ (to 24 2 95 ∷ to 31 2 95 ∷ to 41 2 95 ∷ to 56 3 95 ∷ [])
        ++ (to 3 2 98 ∷ to 6 2 98 ∷ to 10 2 98 ∷ to 15 2 98 ∷ [])
        ++ (to 24 2 98 ∷ to 31 2 98 ∷ to 41 2 98 ∷ to 56 3 98 ∷ []))
    ∷ ((to 2 2 100 ∷ to 9 2 100 ∷ to 23 2 100 ∷ to 40 3 100 ∷ [])
        ++ (to 2 2 102 ∷ to 9 2 102 ∷ to 23 2 102 ∷ to 40 3 102 ∷ [])
        ++ (to 2 2 103 ∷ to 9 2 103 ∷ to 23 2 103 ∷ to 40 3 103 ∷ [])
        ++ (to 2 2 104 ∷ to 9 2 104 ∷ to 23 2 104 ∷ to 40 3 104 ∷ []))
    ∷ ((to 3 2 100 ∷ to 6 2 100 ∷ to 10 2 100 ∷ to 15 2 100 ∷ [])
        ++ (to 24 2 100 ∷ to 31 2 100 ∷ to 41 2 100 ∷ to 56 3 100 ∷ [])
        ++ (to 3 2 102 ∷ to 6 2 102 ∷ to 10 2 102 ∷ to 15 2 102 ∷ [])
        ++ (to 24 2 102 ∷ to 31 2 102 ∷ to 41 2 102 ∷ to 56 3 102 ∷ []))
    ∷ ((to 3 2 103 ∷ to 6 2 103 ∷ to 10 2 103 ∷ to 15 2 103 ∷ [])
        ++ (to 24 2 103 ∷ to 31 2 103 ∷ to 41 2 103 ∷ to 56 3 103 ∷ [])
        ++ (to 3 2 104 ∷ to 6 2 104 ∷ to 10 2 104 ∷ to 15 2 104 ∷ [])
        ++ (to 24 2 104 ∷ to 31 2 104 ∷ to 41 2 104 ∷ to 56 3 104 ∷ []))
    ∷ ((to 1 2 108 ∷ to 22 3 108 ∷ to 1 2 109 ∷ to 22 3 109 ∷ [])
        ++ (to 1 2 110 ∷ to 22 3 110 ∷ to 1 2 112 ∷ to 22 3 112 ∷ [])
        ++ (to 1 2 114 ∷ to 22 3 114 ∷ to 1 2 117 ∷ to 22 3 117 ∷ [])
        ++ (to 0 3 58 ∷ to 0 3 66 ∷ to 0 3 67 ∷ to 0 3 68 ∷ []))
    ∷ []
