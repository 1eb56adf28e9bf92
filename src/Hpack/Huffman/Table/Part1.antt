-- ===== src/Hpack/Huffman/Table/Part1.antt =====
-- Sources/nghttp2/nghttp2_hd_huffman_data.c, huff_decode_table: eight states to a list, from 32 to 63.
use kitura_http.Prelude.{List, [], ◌∷◌, ◌++◌}
use kitura_http.Hpack.Huffman.Table.Entry.{HuffDecode, to}

unfoldable pub states_32 : List (List HuffDecode)
states_32 =
    ((to 2 2 108 ∷ to 9 2 108 ∷ to 23 2 108 ∷ to 40 3 108 ∷ [])
      ++ (to 2 2 109 ∷ to 9 2 109 ∷ to 23 2 109 ∷ to 40 3 109 ∷ [])
      ++ (to 2 2 110 ∷ to 9 2 110 ∷ to 23 2 110 ∷ to 40 3 110 ∷ [])
      ++ (to 2 2 112 ∷ to 9 2 112 ∷ to 23 2 112 ∷ to 40 3 112 ∷ []))
    ∷ ((to 3 2 108 ∷ to 6 2 108 ∷ to 10 2 108 ∷ to 15 2 108 ∷ [])
        ++ (to 24 2 108 ∷ to 31 2 108 ∷ to 41 2 108 ∷ to 56 3 108 ∷ [])
        ++ (to 3 2 109 ∷ to 6 2 109 ∷ to 10 2 109 ∷ to 15 2 109 ∷ [])
        ++ (to 24 2 109 ∷ to 31 2 109 ∷ to 41 2 109 ∷ to 56 3 109 ∷ []))
    ∷ ((to 3 2 110 ∷ to 6 2 110 ∷ to 10 2 110 ∷ to 15 2 110 ∷ [])
        ++ (to 24 2 110 ∷ to 31 2 110 ∷ to 41 2 110 ∷ to 56 3 110 ∷ [])
        ++ (to 3 2 112 ∷ to 6 2 112 ∷ to 10 2 112 ∷ to 15 2 112 ∷ [])
        ++ (to 24 2 112 ∷ to 31 2 112 ∷ to 41 2 112 ∷ to 56 3 112 ∷ []))
    ∷ ((to 2 2 114 ∷ to 9 2 114 ∷ to 23 2 114 ∷ to 40 3 114 ∷ [])
        ++ (to 2 2 117 ∷ to 9 2 117 ∷ to 23 2 117 ∷ to 40 3 117 ∷ [])
        ++ (to 1 2 58 ∷ to 22 3 58 ∷ to 1 2 66 ∷ to 22 3 66 ∷ [])
        ++ (to 1 2 67 ∷ to 22 3 67 ∷ to 1 2 68 ∷ to 22 3 68 ∷ []))
    ∷ ((to 3 2 114 ∷ to 6 2 114 ∷ to 10 2 114 ∷ to 15 2 114 ∷ [])
        ++ (to 24 2 114 ∷ to 31 2 114 ∷ to 41 2 114 ∷ to 56 3 114 ∷ [])
        ++ (to 3 2 117 ∷ to 6 2 117 ∷ to 10 2 117 ∷ to 15 2 117 ∷ [])
        ++ (to 24 2 117 ∷ to 31 2 117 ∷ to 41 2 117 ∷ to 56 3 117 ∷ []))
    ∷ ((to 2 2 58 ∷ to 9 2 58 ∷ to 23 2 58 ∷ to 40 3 58 ∷ [])
        ++ (to 2 2 66 ∷ to 9 2 66 ∷ to 23 2 66 ∷ to 40 3 66 ∷ [])
        ++ (to 2 2 67 ∷ to 9 2 67 ∷ to 23 2 67 ∷ to 40 3 67 ∷ [])
        ++ (to 2 2 68 ∷ to 9 2 68 ∷ to 23 2 68 ∷ to 40 3 68 ∷ []))
    ∷ ((to 3 2 58 ∷ to 6 2 58 ∷ to 10 2 58 ∷ to 15 2 58 ∷ [])
        ++ (to 24 2 58 ∷ to 31 2 58 ∷ to 41 2 58 ∷ to 56 3 58 ∷ [])
        ++ (to 3 2 66 ∷ to 6 2 66 ∷ to 10 2 66 ∷ to 15 2 66 ∷ [])
        ++ (to 24 2 66 ∷ to 31 2 66 ∷ to 41 2 66 ∷ to 56 3 66 ∷ []))
    ∷ ((to 3 2 67 ∷ to 6 2 67 ∷ to 10 2 67 ∷ to 15 2 67 ∷ [])
        ++ (to 24 2 67 ∷ to 31 2 67 ∷ to 41 2 67 ∷ to 56 3 67 ∷ [])
        ++ (to 3 2 68 ∷ to 6 2 68 ∷ to 10 2 68 ∷ to 15 2 68 ∷ [])
        ++ (to 24 2 68 ∷ to 31 2 68 ∷ to 41 2 68 ∷ to 56 3 68 ∷ []))
    ∷ []

unfoldable pub states_40 : List (List HuffDecode)
states_40 =
    ((to 44 0 0 ∷ to 45 0 0 ∷ to 47 0 0 ∷ to 48 0 0 ∷ [])
      ++ (to 51 0 0 ∷ to 52 0 0 ∷ to 54 0 0 ∷ to 55 0 0 ∷ [])
      ++ (to 59 0 0 ∷ to 60 0 0 ∷ to 62 0 0 ∷ to 63 0 0 ∷ [])
      ++ (to 66 0 0 ∷ to 67 0 0 ∷ to 69 0 0 ∷ to 72 1 0 ∷ []))
    ∷ ((to 0 3 69 ∷ to 0 3 70 ∷ to 0 3 71 ∷ to 0 3 72 ∷ [])
        ++ (to 0 3 73 ∷ to 0 3 74 ∷ to 0 3 75 ∷ to 0 3 76 ∷ [])
        ++ (to 0 3 77 ∷ to 0 3 78 ∷ to 0 3 79 ∷ to 0 3 80 ∷ [])
        ++ (to 0 3 81 ∷ to 0 3 82 ∷ to 0 3 83 ∷ to 0 3 84 ∷ []))
    ∷ ((to 1 2 69 ∷ to 22 3 69 ∷ to 1 2 70 ∷ to 22 3 70 ∷ [])
        ++ (to 1 2 71 ∷ to 22 3 71 ∷ to 1 2 72 ∷ to 22 3 72 ∷ [])
        ++ (to 1 2 73 ∷ to 22 3 73 ∷ to 1 2 74 ∷ to 22 3 74 ∷ [])
        ++ (to 1 2 75 ∷ to 22 3 75 ∷ to 1 2 76 ∷ to 22 3 76 ∷ []))
    ∷ ((to 2 2 69 ∷ to 9 2 69 ∷ to 23 2 69 ∷ to 40 3 69 ∷ [])
        ++ (to 2 2 70 ∷ to 9 2 70 ∷ to 23 2 70 ∷ to 40 3 70 ∷ [])
        ++ (to 2 2 71 ∷ to 9 2 71 ∷ to 23 2 71 ∷ to 40 3 71 ∷ [])
        ++ (to 2 2 72 ∷ to 9 2 72 ∷ to 23 2 72 ∷ to 40 3 72 ∷ []))
    ∷ ((to 3 2 69 ∷ to 6 2 69 ∷ to 10 2 69 ∷ to 15 2 69 ∷ [])
        ++ (to 24 2 69 ∷ to 31 2 69 ∷ to 41 2 69 ∷ to 56 3 69 ∷ [])
        ++ (to 3 2 70 ∷ to 6 2 70 ∷ to 10 2 70 ∷ to 15 2 70 ∷ [])
        ++ (to 24 2 70 ∷ to 31 2 70 ∷ to 41 2 70 ∷ to 56 3 70 ∷ []))
    ∷ ((to 3 2 71 ∷ to 6 2 71 ∷ to 10 2 71 ∷ to 15 2 71 ∷ [])
        ++ (to 24 2 71 ∷ to 31 2 71 ∷ to 41 2 71 ∷ to 56 3 71 ∷ [])
        ++ (to 3 2 72 ∷ to 6 2 72 ∷ to 10 2 72 ∷ to 15 2 72 ∷ [])
        ++ (to 24 2 72 ∷ to 31 2 72 ∷ to 41 2 72 ∷ to 56 3 72 ∷ []))
    ∷ ((to 2 2 73 ∷ to 9 2 73 ∷ to 23 2 73 ∷ to 40 3 73 ∷ [])
        ++ (to 2 2 74 ∷ to 9 2 74 ∷ to 23 2 74 ∷ to 40 3 74 ∷ [])
        ++ (to 2 2 75 ∷ to 9 2 75 ∷ to 23 2 75 ∷ to 40 3 75 ∷ [])
        ++ (to 2 2 76 ∷ to 9 2 76 ∷ to 23 2 76 ∷ to 40 3 76 ∷ []))
    ∷ ((to 3 2 73 ∷ to 6 2 73 ∷ to 10 2 73 ∷ to 15 2 73 ∷ [])
        ++ (to 24 2 73 ∷ to 31 2 73 ∷ to 41 2 73 ∷ to 56 3 73 ∷ [])
        ++ (to 3 2 74 ∷ to 6 2 74 ∷ to 10 2 74 ∷ to 15 2 74 ∷ [])
        ++ (to 24 2 74 ∷ to 31 2 74 ∷ to 41 2 74 ∷ to 56 3 74 ∷ []))
    ∷ []

unfoldable pub states_48 : List (List HuffDecode)
states_48 =
    ((to 3 2 75 ∷ to 6 2 75 ∷ to 10 2 75 ∷ to 15 2 75 ∷ [])
      ++ (to 24 2 75 ∷ to 31 2 75 ∷ to 41 2 75 ∷ to 56 3 75 ∷ [])
      ++ (to 3 2 76 ∷ to 6 2 76 ∷ to 10 2 76 ∷ to 15 2 76 ∷ [])
      ++ (to 24 2 76 ∷ to 31 2 76 ∷ to 41 2 76 ∷ to 56 3 76 ∷ []))
    ∷ ((to 1 2 77 ∷ to 22 3 77 ∷ to 1 2 78 ∷ to 22 3 78 ∷ [])
        ++ (to 1 2 79 ∷ to 22 3 79 ∷ to 1 2 80 ∷ to 22 3 80 ∷ [])
        ++ (to 1 2 81 ∷ to 22 3 81 ∷ to 1 2 82 ∷ to 22 3 82 ∷ [])
        ++ (to 1 2 83 ∷ to 22 3 83 ∷ to 1 2 84 ∷ to 22 3 84 ∷ []))
    ∷ ((to 2 2 77 ∷ to 9 2 77 ∷ to 23 2 77 ∷ to 40 3 77 ∷ [])
        ++ (to 2 2 78 ∷ to 9 2 78 ∷ to 23 2 78 ∷ to 40 3 78 ∷ [])
        ++ (to 2 2 79 ∷ to 9 2 79 ∷ to 23 2 79 ∷ to 40 3 79 ∷ [])
        ++ (to 2 2 80 ∷ to 9 2 80 ∷ to 23 2 80 ∷ to 40 3 80 ∷ []))
    ∷ ((to 3 2 77 ∷ to 6 2 77 ∷ to 10 2 77 ∷ to 15 2 77 ∷ [])
        ++ (to 24 2 77 ∷ to 31 2 77 ∷ to 41 2 77 ∷ to 56 3 77 ∷ [])
        ++ (to 3 2 78 ∷ to 6 2 78 ∷ to 10 2 78 ∷ to 15 2 78 ∷ [])
        ++ (to 24 2 78 ∷ to 31 2 78 ∷ to 41 2 78 ∷ to 56 3 78 ∷ []))
    ∷ ((to 3 2 79 ∷ to 6 2 79 ∷ to 10 2 79 ∷ to 15 2 79 ∷ [])
        ++ (to 24 2 79 ∷ to 31 2 79 ∷ to 41 2 79 ∷ to 56 3 79 ∷ [])
        ++ (to 3 2 80 ∷ to 6 2 80 ∷ to 10 2 80 ∷ to 15 2 80 ∷ [])
        ++ (to 24 2 80 ∷ to 31 2 80 ∷ to 41 2 80 ∷ to 56 3 80 ∷ []))
    ∷ ((to 2 2 81 ∷ to 9 2 81 ∷ to 23 2 81 ∷ to 40 3 81 ∷ [])
        ++ (to 2 2 82 ∷ to 9 2 82 ∷ to 23 2 82 ∷ to 40 3 82 ∷ [])
        ++ (to 2 2 83 ∷ to 9 2 83 ∷ to 23 2 83 ∷ to 40 3 83 ∷ [])
        ++ (to 2 2 84 ∷ to 9 2 84 ∷ to 23 2 84 ∷ to 40 3 84 ∷ []))
    ∷ ((to 3 2 81 ∷ to 6 2 81 ∷ to 10 2 81 ∷ to 15 2 81 ∷ [])
        ++ (to 24 2 81 ∷ to 31 2 81 ∷ to 41 2 81 ∷ to 56 3 81 ∷ [])
        ++ (to 3 2 82 ∷ to 6 2 82 ∷ to 10 2 82 ∷ to 15 2 82 ∷ [])
        ++ (to 24 2 82 ∷ to 31 2 82 ∷ to 41 2 82 ∷ to 56 3 82 ∷ []))
    ∷ ((to 3 2 83 ∷ to 6 2 83 ∷ to 10 2 83 ∷ to 15 2 83 ∷ [])
        ++ (to 24 2 83 ∷ to 31 2 83 ∷ to 41 2 83 ∷ to 56 3 83 ∷ [])
        ++ (to 3 2 84 ∷ to 6 2 84 ∷ to 10 2 84 ∷ to 15 2 84 ∷ [])
        ++ (to 24 2 84 ∷ to 31 2 84 ∷ to 41 2 84 ∷ to 56 3 84 ∷ []))
    ∷ []

unfoldable pub states_56 : List (List HuffDecode)
states_56 =
    ((to 0 3 85 ∷ to 0 3 86 ∷ to 0 3 87 ∷ to 0 3 89 ∷ [])
      ++ (to 0 3 106 ∷ to 0 3 107 ∷ to 0 3 113 ∷ to 0 3 118 ∷ [])
      ++ (to 0 3 119 ∷ to 0 3 120 ∷ to 0 3 121 ∷ to 0 3 122 ∷ [])
      ++ (to 70 0 0 ∷ to 71 0 0 ∷ to 73 0 0 ∷ to 74 1 0 ∷ []))
    ∷ ((to 1 2 85 ∷ to 22 3 85 ∷ to 1 2 86 ∷ to 22 3 86 ∷ [])
        ++ (to 1 2 87 ∷ to 22 3 87 ∷ to 1 2 89 ∷ to 22 3 89 ∷ [])
        ++ (to 1 2 106 ∷ to 22 3 106 ∷ to 1 2 107 ∷ to 22 3 107 ∷ [])
        ++ (to 1 2 113 ∷ to 22 3 113 ∷ to 1 2 118 ∷ to 22 3 118 ∷ []))
    ∷ ((to 2 2 85 ∷ to 9 2 85 ∷ to 23 2 85 ∷ to 40 3 85 ∷ [])
        ++ (to 2 2 86 ∷ to 9 2 86 ∷ to 23 2 86 ∷ to 40 3 86 ∷ [])
        ++ (to 2 2 87 ∷ to 9 2 87 ∷ to 23 2 87 ∷ to 40 3 87 ∷ [])
        ++ (to 2 2 89 ∷ to 9 2 89 ∷ to 23 2 89 ∷ to 40 3 89 ∷ []))
    ∷ ((to 3 2 85 ∷ to 6 2 85 ∷ to 10 2 85 ∷ to 15 2 85 ∷ [])
        ++ (to 24 2 85 ∷ to 31 2 85 ∷ to 41 2 85 ∷ to 56 3 85 ∷ [])
        ++ (to 3 2 86 ∷ to 6 2 86 ∷ to 10 2 86 ∷ to 15 2 86 ∷ [])
        ++ (to 24 2 86 ∷ to 31 2 86 ∷ to 41 2 86 ∷ to 56 3 86 ∷ []))
    ∷ ((to 3 2 87 ∷ to 6 2 87 ∷ to 10 2 87 ∷ to 15 2 87 ∷ [])
        ++ (to 24 2 87 ∷ to 31 2 87 ∷ to 41 2 87 ∷ to 56 3 87 ∷ [])
        ++ (to 3 2 89 ∷ to 6 2 89 ∷ to 10 2 89 ∷ to 15 2 89 ∷ [])
        ++ (to 24 2 89 ∷ to 31 2 89 ∷ to 41 2 89 ∷ to 56 3 89 ∷ []))
    ∷ ((to 2 2 106 ∷ to 9 2 106 ∷ to 23 2 106 ∷ to 40 3 106 ∷ [])
        ++ (to 2 2 107 ∷ to 9 2 107 ∷ to 23 2 107 ∷ to 40 3 107 ∷ [])
        ++ (to 2 2 113 ∷ to 9 2 113 ∷ to 23 2 113 ∷ to 40 3 113 ∷ [])
        ++ (to 2 2 118 ∷ to 9 2 118 ∷ to 23 2 118 ∷ to 40 3 118 ∷ []))
    ∷ ((to 3 2 106 ∷ to 6 2 106 ∷ to 10 2 106 ∷ to 15 2 106 ∷ [])
        ++ (to 24 2 106 ∷ to 31 2 106 ∷ to 41 2 106 ∷ to 56 3 106 ∷ [])
        ++ (to 3 2 107 ∷ to 6 2 107 ∷ to 10 2 107 ∷ to 15 2 107 ∷ [])
        ++ (to 24 2 107 ∷ to 31 2 107 ∷ to 41 2 107 ∷ to 56 3 107 ∷ []))
    ∷ ((to 3 2 113 ∷ to 6 2 113 ∷ to 10 2 113 ∷ to 15 2 113 ∷ [])
        ++ (to 24 2 113 ∷ to 31 2 113 ∷ to 41 2 113 ∷ to 56 3 113 ∷ [])
        ++ (to 3 2 118 ∷ to 6 2 118 ∷ to 10 2 118 ∷ to 15 2 118 ∷ [])
        ++ (to 24 2 118 ∷ to 31 2 118 ∷ to 41 2 118 ∷ to 56 3 118 ∷ []))
    ∷ []
