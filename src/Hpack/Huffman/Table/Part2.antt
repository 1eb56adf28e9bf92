-- ===== src/Hpack/Huffman/Table/Part2.antt =====
-- Sources/nghttp2/nghttp2_hd_huffman_data.c, huff_decode_table: eight states to a list, from 64 to 95.
use kitura_http.Prelude.{List, [], ◌∷◌, ◌++◌}
use kitura_http.Hpack.Huffman.Table.Entry.{HuffDecode, to}

unfoldable pub states_64 : List (List HuffDecode)
states_64 =
    ((to 1 2 119 ∷ to 22 3 119 ∷ to 1 2 120 ∷ to 22 3 120 ∷ [])
      ++ (to 1 2 121 ∷ to 22 3 121 ∷ to 1 2 122 ∷ to 22 3 122 ∷ [])
      ++ (to 0 3 38 ∷ to 0 3 42 ∷ to 0 3 44 ∷ to 0 3 59 ∷ [])
      ++ (to 0 3 88 ∷ to 0 3 90 ∷ to 75 0 0 ∷ to 78 0 0 ∷ []))
    ∷ ((to 2 2 119 ∷ to 9 2 119 ∷ to 23 2 119 ∷ to 40 3 119 ∷ [])
        ++ (to 2 2 120 ∷ to 9 2 120 ∷ to 23 2 120 ∷ to 40 3 120 ∷ [])
        ++ (to 2 2 121 ∷ to 9 2 121 ∷ to 23 2 121 ∷ to 40 3 121 ∷ [])
        ++ (to 2 2 122 ∷ to 9 2 122 ∷ to 23 2 122 ∷ to 40 3 122 ∷ []))
    ∷ ((to 3 2 119 ∷ to 6 2 119 ∷ to 10 2 119 ∷ to 15 2 119 ∷ [])
        ++ (to 24 2 119 ∷ to 31 2 119 ∷ to 41 2 119 ∷ to 56 3 119 ∷ [])
        ++ (to 3 2 120 ∷ to 6 2 120 ∷ to 10 2 120 ∷ to 15 2 120 ∷ [])
        ++ (to 24 2 120 ∷ to 31 2 120 ∷ to 41 2 120 ∷ to 56 3 120 ∷ []))
    ∷ ((to 3 2 121 ∷ to 6 2 121 ∷ to 10 2 121 ∷ to 15 2 121 ∷ [])
        ++ (to 24 2 121 ∷ to 31 2 121 ∷ to 41 2 121 ∷ to 56 3 121 ∷ [])
        ++ (to 3 2 122 ∷ to 6 2 122 ∷ to 10 2 122 ∷ to 15 2 122 ∷ [])
        ++ (to 24 2 122 ∷ to 31 2 122 ∷ to 41 2 122 ∷ to 56 3 122 ∷ []))
    ∷ ((to 1 2 38 ∷ to 22 3 38 ∷ to 1 2 42 ∷ to 22 3 42 ∷ [])
        ++ (to 1 2 44 ∷ to 22 3 44 ∷ to 1 2 59 ∷ to 22 3 59 ∷ [])
        ++ (to 1 2 88 ∷ to 22 3 88 ∷ to 1 2 90 ∷ to 22 3 90 ∷ [])
        ++ (to 76 0 0 ∷ to 77 0 0 ∷ to 79 0 0 ∷ to 81 0 0 ∷ []))
    ∷ ((to 2 2 38 ∷ to 9 2 38 ∷ to 23 2 38 ∷ to 40 3 38 ∷ [])
        ++ (to 2 2 42 ∷ to 9 2 42 ∷ to 23 2 42 ∷ to 40 3 42 ∷ [])
        ++ (to 2 2 44 ∷ to 9 2 44 ∷ to 23 2 44 ∷ to 40 3 44 ∷ [])
        ++ (to 2 2 59 ∷ to 9 2 59 ∷ to 23 2 59 ∷ to 40 3 59 ∷ []))
    ∷ ((to 3 2 38 ∷ to 6 2 38 ∷ to 10 2 38 ∷ to 15 2 38 ∷ [])
        ++ (to 24 2 38 ∷ to 31 2 38 ∷ to 41 2 38 ∷ to 56 3 38 ∷ [])
        ++ (to 3 2 42 ∷ to 6 2 42 ∷ to 10 2 42 ∷ to 15 2 42 ∷ [])
        ++ (to 24 2 42 ∷ to 31 2 42 ∷ to 41 2 42 ∷ to 56 3 42 ∷ []))
    ∷ ((to 3 2 44 ∷ to 6 2 44 ∷ to 10 2 44 ∷ to 15 2 44 ∷ [])
        ++ (to 24 2 44 ∷ to 31 2 44 ∷ to 41 2 44 ∷ to 56 3 44 ∷ [])
        ++ (to 3 2 59 ∷ to 6 2 59 ∷ to 10 2 59 ∷ to 15 2 59 ∷ [])
        ++ (to 24 2 59 ∷ to 31 2 59 ∷ to 41 2 59 ∷ to 56 3 59 ∷ []))
    ∷ []

unfoldable pub states_72 : List (List HuffDecode)
states_72 =
    ((to 2 2 88 ∷ to 9 2 88 ∷ to 23 2 88 ∷ to 40 3 88 ∷ [])
      ++ (to 2 2 90 ∷ to 9 2 90 ∷ to 23 2 90 ∷ to 40 3 90 ∷ [])
      ++ (to 0 3 33 ∷ to 0 3 34 ∷ to 0 3 40 ∷ to 0 3 41 ∷ [])
      ++ (to 0 3 63 ∷ to 80 0 0 ∷ to 82 0 0 ∷ to 84 0 0 ∷ []))
    ∷ ((to 3 2 88 ∷ to 6 2 88 ∷ to 10 2 88 ∷ to 15 2 88 ∷ [])
        ++ (to 24 2 88 ∷ to 31 2 88 ∷ to 41 2 88 ∷ to 56 3 88 ∷ [])
        ++ (to 3 2 90 ∷ to 6 2 90 ∷ to 10 2 90 ∷ to 15 2 90 ∷ [])
        ++ (to 24 2 90 ∷ to 31 2 90 ∷ to 41 2 90 ∷ to 56 3 90 ∷ []))
    ∷ ((to 1 2 33 ∷ to 22 3 33 ∷ to 1 2 34 ∷ to 22 3 34 ∷ [])
        ++ (to 1 2 40 ∷ to 22 3 40 ∷ to 1 2 41 ∷ to 22 3 41 ∷ [])
        ++ (to 1 2 63 ∷ to 22 3 63 ∷ to 0 3 39 ∷ to 0 3 43 ∷ [])
        ++ (to 0 3 124 ∷ to 83 0 0 ∷ to 85 0 0 ∷ to 88 0 0 ∷ []))
    ∷ ((to 2 2 33 ∷ to 9 2 33 ∷ to 23 2 33 ∷ to 40 3 33 ∷ [])
        ++ (to 2 2 34 ∷ to 9 2 34 ∷ to 23 2 34 ∷ to 40 3 34 ∷ [])
        ++ (to 2 2 40 ∷ to 9 2 40 ∷ to 23 2 40 ∷ to 40 3 40 ∷ [])
        ++ (to 2 2 41 ∷ to 9 2 41 ∷ to 23 2 41 ∷ to 40 3 41 ∷ []))
    ∷ ((to 3 2 33 ∷ to 6 2 33 ∷ to 10 2 33 ∷ to 15 2 33 ∷ [])
        ++ (to 24 2 33 ∷ to 31 2 33 ∷ to 41 2 33 ∷ to 56 3 33 ∷ [])
        ++ (to 3 2 34 ∷ to 6 2 34 ∷ to 10 2 34 ∷ to 15 2 34 ∷ [])
        ++ (to 24 2 34 ∷ to 31 2 34 ∷ to 41 2 34 ∷ to 56 3 34 ∷ []))
    ∷ ((to 3 2 40 ∷ to 6 2 40 ∷ to 10 2 40 ∷ to 15 2 40 ∷ [])
        ++ (to 24 2 40 ∷ to 31 2 40 ∷ to 41 2 40 ∷ to 56 3 40 ∷ [])
        ++ (to 3 2 41 ∷ to 6 2 41 ∷ to 10 2 41 ∷ to 15 2 41 ∷ [])
        ++ (to 24 2 41 ∷ to 31 2 41 ∷ to 41 2 41 ∷ to 56 3 41 ∷ []))
    ∷ ((to 2 2 63 ∷ to 9 2 63 ∷ to 23 2 63 ∷ to 40 3 63 ∷ [])
        ++ (to 1 2 39 ∷ to 22 3 39 ∷ to 1 2 43 ∷ to 22 3 43 ∷ [])
        ++ (to 1 2 124 ∷ to 22 3 124 ∷ to 0 3 35 ∷ to 0 3 62 ∷ [])
        ++ (to 86 0 0 ∷ to 87 0 0 ∷ to 89 0 0 ∷ to 90 0 0 ∷ []))
    ∷ ((to 3 2 63 ∷ to 6 2 63 ∷ to 10 2 63 ∷ to 15 2 63 ∷ [])
        ++ (to 24 2 63 ∷ to 31 2 63 ∷ to 41 2 63 ∷ to 56 3 63 ∷ [])
        ++ (to 2 2 39 ∷ to 9 2 39 ∷ to 23 2 39 ∷ to 40 3 39 ∷ [])
        ++ (to 2 2 43 ∷ to 9 2 43 ∷ to 23 2 43 ∷ to 40 3 43 ∷ []))
    ∷ []

unfoldable pub states_80 : List (List HuffDecode)
states_80 =
    ((to 3 2 39 ∷ to 6 2 39 ∷ to 10 2 39 ∷ to 15 2 39 ∷ [])
      ++ (to 24 2 39 ∷ to 31 2 39 ∷ to 41 2 39 ∷ to 56 3 39 ∷ [])
      ++ (to 3 2 43 ∷ to 6 2 43 ∷ to 10 2 43 ∷ to 15 2 43 ∷ [])
      ++ (to 24 2 43 ∷ to 31 2 43 ∷ to 41 2 43 ∷ to 56 3 43 ∷ []))
    ∷ ((to 2 2 124 ∷ to 9 2 124 ∷ to 23 2 124 ∷ to 40 3 124 ∷ [])
        ++ (to 1 2 35 ∷ to 22 3 35 ∷ to 1 2 62 ∷ to 22 3 62 ∷ [])
        ++ (to 0 3 0 ∷ to 0 3 36 ∷ to 0 3 64 ∷ to 0 3 91 ∷ [])
        ++ (to 0 3 93 ∷ to 0 3 126 ∷ to 91 0 0 ∷ to 92 0 0 ∷ []))
    ∷ ((to 3 2 124 ∷ to 6 2 124 ∷ to 10 2 124 ∷ to 15 2 124 ∷ [])
        ++ (to 24 2 124 ∷ to 31 2 124 ∷ to 41 2 124 ∷ to 56 3 124 ∷ [])
        ++ (to 2 2 35 ∷ to 9 2 35 ∷ to 23 2 35 ∷ to 40 3 35 ∷ [])
        ++ (to 2 2 62 ∷ to 9 2 62 ∷ to 23 2 62 ∷ to 40 3 62 ∷ []))
    ∷ ((to 3 2 35 ∷ to 6 2 35 ∷ to 10 2 35 ∷ to 15 2 35 ∷ [])
        ++ (to 24 2 35 ∷ to 31 2 35 ∷ to 41 2 35 ∷ to 56 3 35 ∷ [])
        ++ (to 3 2 62 ∷ to 6 2 62 ∷ to 10 2 62 ∷ to 15 2 62 ∷ [])
        ++ (to 24 2 62 ∷ to 31 2 62 ∷ to 41 2 62 ∷ to 56 3 62 ∷ []))
    ∷ ((to 1 2 0 ∷ to 22 3 0 ∷ to 1 2 36 ∷ to 22 3 36 ∷ [])
        ++ (to 1 2 64 ∷ to 22 3 64 ∷ to 1 2 91 ∷ to 22 3 91 ∷ [])
        ++ (to 1 2 93 ∷ to 22 3 93 ∷ to 1 2 126 ∷ to 22 3 126 ∷ [])
        ++ (to 0 3 94 ∷ to 0 3 125 ∷ to 93 0 0 ∷ to 94 0 0 ∷ []))
    ∷ ((to 2 2 0 ∷ to 9 2 0 ∷ to 23 2 0 ∷ to 40 3 0 ∷ [])
        ++ (to 2 2 36 ∷ to 9 2 36 ∷ to 23 2 36 ∷ to 40 3 36 ∷ [])
        ++ (to 2 2 64 ∷ to 9 2 64 ∷ to 23 2 64 ∷ to 40 3 64 ∷ [])
        ++ (to 2 2 91 ∷ to 9 2 91 ∷ to 23 2 91 ∷ to 40 3 91 ∷ []))
    ∷ ((to 3 2 0 ∷ to 6 2 0 ∷ to 10 2 0 ∷ to 15 2 0 ∷ [])
        ++ (to 24 2 0 ∷ to 31 2 0 ∷ to 41 2 0 ∷ to 56 3 0 ∷ [])
        ++ (to 3 2 36 ∷ to 6 2 36 ∷ to 10 2 36 ∷ to 15 2 36 ∷ [])
        ++ (to 24 2 36 ∷ to 31 2 36 ∷ to 41 2 36 ∷ to 56 3 36 ∷ []))
    ∷ ((to 3 2 64 ∷ to 6 2 64 ∷ to 10 2 64 ∷ to 15 2 64 ∷ [])
        ++ (to 24 2 64 ∷ to 31 2 64 ∷ to 41 2 64 ∷ to 56 3 64 ∷ [])
        ++ (to 3 2 91 ∷ to 6 2 91 ∷ to 10 2 91 ∷ to 15 2 91 ∷ [])
        ++ (to 24 2 91 ∷ to 31 2 91 ∷ to 41 2 91 ∷ to 56 3 91 ∷ []))
    ∷ []

unfoldable pub states_88 : List (List HuffDecode)
states_88 =
    ((to 2 2 93 ∷ to 9 2 93 ∷ to 23 2 93 ∷ to 40 3 93 ∷ [])
      ++ (to 2 2 126 ∷ to 9 2 126 ∷ to 23 2 126 ∷ to 40 3 126 ∷ [])
      ++ (to 1 2 94 ∷ to 22 3 94 ∷ to 1 2 125 ∷ to 22 3 125 ∷ [])
      ++ (to 0 3 60 ∷ to 0 3 96 ∷ to 0 3 123 ∷ to 95 0 0 ∷ []))
    ∷ ((to 3 2 93 ∷ to 6 2 93 ∷ to 10 2 93 ∷ to 15 2 93 ∷ [])
        ++ (to 24 2 93 ∷ to 31 2 93 ∷ to 41 2 93 ∷ to 56 3 93 ∷ [])
        ++ (to 3 2 126 ∷ to 6 2 126 ∷ to 10 2 126 ∷ to 15 2 126 ∷ [])
        ++ (to 24 2 126 ∷ to 31 2 126 ∷ to 41 2 126 ∷ to 56 3 126 ∷ []))
    ∷ ((to 2 2 94 ∷ to 9 2 94 ∷ to 23 2 94 ∷ to 40 3 94 ∷ [])
        ++ (to 2 2 125 ∷ to 9 2 125 ∷ to 23 2 125 ∷ to 40 3 125 ∷ [])
        ++ (to 1 2 60 ∷ to 22 3 60 ∷ to 1 2 96 ∷ to 22 3 96 ∷ [])
        ++ (to 1 2 123 ∷ to 22 3 123 ∷ to 96 0 0 ∷ to 110 0 0 ∷ []))
    ∷ ((to 3 2 94 ∷ to 6 2 94 ∷ to 10 2 94 ∷ to 15 2 94 ∷ [])
        ++ (to 24 2 94 ∷ to 31 2 94 ∷ to 41 2 94 ∷ to 56 3 94 ∷ [])
        ++ (to 3 2 125 ∷ to 6 2 125 ∷ to 10 2 125 ∷ to 15 2 125 ∷ [])
        ++ (to 24 2 125 ∷ to 31 2 125 ∷ to 41 2 125 ∷ to 56 3 125 ∷ []))
    ∷ ((to 2 2 60 ∷ to 9 2 60 ∷ to 23 2 60 ∷ to 40 3 60 ∷ [])
        ++ (to 2 2 96 ∷ to 9 2 96 ∷ to 23 2 96 ∷ to 40 3 96 ∷ [])
        ++ (to 2 2 123 ∷ to 9 2 123 ∷ to 23 2 123 ∷ to 40 3 123 ∷ [])
        ++ (to 97 0 0 ∷ to 101 0 0 ∷ to 111 0 0 ∷ to 133 0 0 ∷ []))
    ∷ ((to 3 2 60 ∷ to 6 2 60 ∷ to 10 2 60 ∷ to 15 2 60 ∷ [])
        ++ (to 24 2 60 ∷ to 31 2 60 ∷ to 41 2 60 ∷ to 56 3 60 ∷ [])
        ++ (to 3 2 96 ∷ to 6 2 96 ∷ to 10 2 96 ∷ to 15 2 96 ∷ [])
        ++ (to 24 2 96 ∷ to 31 2 96 ∷ to 41 2 96 ∷ to 56 3 96 ∷ []))
    ∷ ((to 3 2 123 ∷ to 6 2 123 ∷ to 10 2 123 ∷ to 15 2 123 ∷ [])
        ++ (to 24 2 123 ∷ to 31 2 123 ∷ to 41 2 123 ∷ to 56 3 123 ∷ [])
        ++ (to 98 0 0 ∷ to 99 0 0 ∷ to 102 0 0 ∷ to 105 0 0 ∷ [])
        ++ (to 112 0 0 ∷ to 119 0 0 ∷ to 134 0 0 ∷ to 153 0 0 ∷ []))
    ∷ ((to 0 3 92 ∷ to 0 3 195 ∷ to 0 3 208 ∷ to 100 0 0 ∷ [])
        ++ (to 103 0 0 ∷ to 104 0 0 ∷ to 106 0 0 ∷ to 107 0 0 ∷ [])
        ++ (to 113 0 0 ∷ to 116 0 0 ∷ to 120 0 0 ∷ to 126 0 0 ∷ [])
        ++ (to 135 0 0 ∷ to 142 0 0 ∷ to 154 0 0 ∷ to 169 0 0 ∷ []))
    ∷ []
