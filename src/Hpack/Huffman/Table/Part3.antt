-- ===== src/Hpack/Huffman/Table/Part3.antt =====
-- Sources/nghttp2/nghttp2_hd_huffman_data.c, huff_decode_table: eight states to a list, from 96 to 127.
use kitura_http.Prelude.{List, [], ◌∷◌, ◌++◌}
use kitura_http.Hpack.Huffman.Table.Entry.{HuffDecode, to}

unfoldable pub states_96 : List (List HuffDecode)
states_96 =
    ((to 1 2 92 ∷ to 22 3 92 ∷ to 1 2 195 ∷ to 22 3 195 ∷ [])
      ++ (to 1 2 208 ∷ to 22 3 208 ∷ to 0 3 128 ∷ to 0 3 130 ∷ [])
      ++ (to 0 3 131 ∷ to 0 3 162 ∷ to 0 3 184 ∷ to 0 3 194 ∷ [])
      ++ (to 0 3 224 ∷ to 0 3 226 ∷ to 108 0 0 ∷ to 109 0 0 ∷ []))
    ∷ ((to 2 2 92 ∷ to 9 2 92 ∷ to 23 2 92 ∷ to 40 3 92 ∷ [])
        ++ (to 2 2 195 ∷ to 9 2 195 ∷ to 23 2 195 ∷ to 40 3 195 ∷ [])
        ++ (to 2 2 208 ∷ to 9 2 208 ∷ to 23 2 208 ∷ to 40 3 208 ∷ [])
        ++ (to 1 2 128 ∷ to 22 3 128 ∷ to 1 2 130 ∷ to 22 3 130 ∷ []))
    ∷ ((to 3 2 92 ∷ to 6 2 92 ∷ to 10 2 92 ∷ to 15 2 92 ∷ [])
        ++ (to 24 2 92 ∷ to 31 2 92 ∷ to 41 2 92 ∷ to 56 3 92 ∷ [])
        ++ (to 3 2 195 ∷ to 6 2 195 ∷ to 10 2 195 ∷ to 15 2 195 ∷ [])
        ++ (to 24 2 195 ∷ to 31 2 195 ∷ to 41 2 195 ∷ to 56 3 195 ∷ []))
    ∷ ((to 3 2 208 ∷ to 6 2 208 ∷ to 10 2 208 ∷ to 15 2 208 ∷ [])
        ++ (to 24 2 208 ∷ to 31 2 208 ∷ to 41 2 208 ∷ to 56 3 208 ∷ [])
        ++ (to 2 2 128 ∷ to 9 2 128 ∷ to 23 2 128 ∷ to 40 3 128 ∷ [])
        ++ (to 2 2 130 ∷ to 9 2 130 ∷ to 23 2 130 ∷ to 40 3 130 ∷ []))
    ∷ ((to 3 2 128 ∷ to 6 2 128 ∷ to 10 2 128 ∷ to 15 2 128 ∷ [])
        ++ (to 24 2 128 ∷ to 31 2 128 ∷ to 41 2 128 ∷ to 56 3 128 ∷ [])
        ++ (to 3 2 130 ∷ to 6 2 130 ∷ to 10 2 130 ∷ to 15 2 130 ∷ [])
        ++ (to 24 2 130 ∷ to 31 2 130 ∷ to 41 2 130 ∷ to 56 3 130 ∷ []))
    ∷ ((to 1 2 131 ∷ to 22 3 131 ∷ to 1 2 162 ∷ to 22 3 162 ∷ [])
        ++ (to 1 2 184 ∷ to 22 3 184 ∷ to 1 2 194 ∷ to 22 3 194 ∷ [])
        ++ (to 1 2 224 ∷ to 22 3 224 ∷ to 1 2 226 ∷ to 22 3 226 ∷ [])
        ++ (to 0 3 153 ∷ to 0 3 161 ∷ to 0 3 167 ∷ to 0 3 172 ∷ []))
    ∷ ((to 2 2 131 ∷ to 9 2 131 ∷ to 23 2 131 ∷ to 40 3 131 ∷ [])
        ++ (to 2 2 162 ∷ to 9 2 162 ∷ to 23 2 162 ∷ to 40 3 162 ∷ [])
        ++ (to 2 2 184 ∷ to 9 2 184 ∷ to 23 2 184 ∷ to 40 3 184 ∷ [])
        ++ (to 2 2 194 ∷ to 9 2 194 ∷ to 23 2 194 ∷ to 40 3 194 ∷ []))
    ∷ ((to 3 2 131 ∷ to 6 2 131 ∷ to 10 2 131 ∷ to 15 2 131 ∷ [])
        ++ (to 24 2 131 ∷ to 31 2 131 ∷ to 41 2 131 ∷ to 56 3 131 ∷ [])
        ++ (to 3 2 162 ∷ to 6 2 162 ∷ to 10 2 162 ∷ to 15 2 162 ∷ [])
        ++ (to 24 2 162 ∷ to 31 2 162 ∷ to 41 2 162 ∷ to 56 3 162 ∷ []))
    ∷ []

unfoldable pub states_104 : List (List HuffDecode)
states_104 =
    ((to 3 2 184 ∷ to 6 2 184 ∷ to 10 2 184 ∷ to 15 2 184 ∷ [])
      ++ (to 24 2 184 ∷ to 31 2 184 ∷ to 41 2 184 ∷ to 56 3 184 ∷ [])
      ++ (to 3 2 194 ∷ to 6 2 194 ∷ to 10 2 194 ∷ to 15 2 194 ∷ [])
      ++ (to 24 2 194 ∷ to 31 2 194 ∷ to 41 2 194 ∷ to 56 3 194 ∷ []))
    ∷ ((to 2 2 224 ∷ to 9 2 224 ∷ to 23 2 224 ∷ to 40 3 224 ∷ [])
        ++ (to 2 2 226 ∷ to 9 2 226 ∷ to 23 2 226 ∷ to 40 3 226 ∷ [])
        ++ (to 1 2 153 ∷ to 22 3 153 ∷ to 1 2 161 ∷ to 22 3 161 ∷ [])
        ++ (to 1 2 167 ∷ to 22 3 167 ∷ to 1 2 172 ∷ to 22 3 172 ∷ []))
    ∷ ((to 3 2 224 ∷ to 6 2 224 ∷ to 10 2 224 ∷ to 15 2 224 ∷ [])
        ++ (to 24 2 224 ∷ to 31 2 224 ∷ to 41 2 224 ∷ to 56 3 224 ∷ [])
        ++ (to 3 2 226 ∷ to 6 2 226 ∷ to 10 2 226 ∷ to 15 2 226 ∷ [])
        ++ (to 24 2 226 ∷ to 31 2 226 ∷ to 41 2 226 ∷ to 56 3 226 ∷ []))
    ∷ ((to 2 2 153 ∷ to 9 2 153 ∷ to 23 2 153 ∷ to 40 3 153 ∷ [])
        ++ (to 2 2 161 ∷ to 9 2 161 ∷ to 23 2 161 ∷ to 40 3 161 ∷ [])
        ++ (to 2 2 167 ∷ to 9 2 167 ∷ to 23 2 167 ∷ to 40 3 167 ∷ [])
        ++ (to 2 2 172 ∷ to 9 2 172 ∷ to 23 2 172 ∷ to 40 3 172 ∷ []))
    ∷ ((to 3 2 153 ∷ to 6 2 153 ∷ to 10 2 153 ∷ to 15 2 153 ∷ [])
        ++ (to 24 2 153 ∷ to 31 2 153 ∷ to 41 2 153 ∷ to 56 3 153 ∷ [])
        ++ (to 3 2 161 ∷ to 6 2 161 ∷ to 10 2 161 ∷ to 15 2 161 ∷ [])
        ++ (to 24 2 161 ∷ to 31 2 161 ∷ to 41 2 161 ∷ to 56 3 161 ∷ []))
    ∷ ((to 3 2 167 ∷ to 6 2 167 ∷ to 10 2 167 ∷ to 15 2 167 ∷ [])
        ++ (to 24 2 167 ∷ to 31 2 167 ∷ to 41 2 167 ∷ to 56 3 167 ∷ [])
        ++ (to 3 2 172 ∷ to 6 2 172 ∷ to 10 2 172 ∷ to 15 2 172 ∷ [])
        ++ (to 24 2 172 ∷ to 31 2 172 ∷ to 41 2 172 ∷ to 56 3 172 ∷ []))
    ∷ ((to 114 0 0 ∷ to 115 0 0 ∷ to 117 0 0 ∷ to 118 0 0 ∷ [])
        ++ (to 121 0 0 ∷ to 123 0 0 ∷ to 127 0 0 ∷ to 130 0 0 ∷ [])
        ++ (to 136 0 0 ∷ to 139 0 0 ∷ to 143 0 0 ∷ to 146 0 0 ∷ [])
        ++ (to 155 0 0 ∷ to 162 0 0 ∷ to 170 0 0 ∷ to 180 0 0 ∷ []))
    ∷ ((to 0 3 176 ∷ to 0 3 177 ∷ to 0 3 179 ∷ to 0 3 209 ∷ [])
        ++ (to 0 3 216 ∷ to 0 3 217 ∷ to 0 3 227 ∷ to 0 3 229 ∷ [])
        ++ (to 0 3 230 ∷ to 122 0 0 ∷ to 124 0 0 ∷ to 125 0 0 ∷ [])
        ++ (to 128 0 0 ∷ to 129 0 0 ∷ to 131 0 0 ∷ to 132 0 0 ∷ []))
    ∷ []

unfoldable pub states_112 : List (List HuffDecode)
states_112 =
    ((to 1 2 176 ∷ to 22 3 176 ∷ to 1 2 177 ∷ to 22 3 177 ∷ [])
      ++ (to 1 2 179 ∷ to 22 3 179 ∷ to 1 2 209 ∷ to 22 3 209 ∷ [])
      ++ (to 1 2 216 ∷ to 22 3 216 ∷ to 1 2 217 ∷ to 22 3 217 ∷ [])
      ++ (to 1 2 227 ∷ to 22 3 227 ∷ to 1 2 229 ∷ to 22 3 229 ∷ []))
    ∷ ((to 2 2 176 ∷ to 9 2 176 ∷ to 23 2 176 ∷ to 40 3 176 ∷ [])
        ++ (to 2 2 177 ∷ to 9 2 177 ∷ to 23 2 177 ∷ to 40 3 177 ∷ [])
        ++ (to 2 2 179 ∷ to 9 2 179 ∷ to 23 2 179 ∷ to 40 3 179 ∷ [])
        ++ (to 2 2 209 ∷ to 9 2 209 ∷ to 23 2 209 ∷ to 40 3 209 ∷ []))
    ∷ ((to 3 2 176 ∷ to 6 2 176 ∷ to 10 2 176 ∷ to 15 2 176 ∷ [])
        ++ (to 24 2 176 ∷ to 31 2 176 ∷ to 41 2 176 ∷ to 56 3 176 ∷ [])
        ++ (to 3 2 177 ∷ to 6 2 177 ∷ to 10 2 177 ∷ to 15 2 177 ∷ [])
        ++ (to 24 2 177 ∷ to 31 2 177 ∷ to 41 2 177 ∷ to 56 3 177 ∷ []))
    ∷ ((to 3 2 179 ∷ to 6 2 179 ∷ to 10 2 179 ∷ to 15 2 179 ∷ [])
        ++ (to 24 2 179 ∷ to 31 2 179 ∷ to 41 2 179 ∷ to 56 3 179 ∷ [])
        ++ (to 3 2 209 ∷ to 6 2 209 ∷ to 10 2 209 ∷ to 15 2 209 ∷ [])
        ++ (to 24 2 209 ∷ to 31 2 209 ∷ to 41 2 209 ∷ to 56 3 209 ∷ []))
    ∷ ((to 2 2 216 ∷ to 9 2 216 ∷ to 23 2 216 ∷ to 40 3 216 ∷ [])
        ++ (to 2 2 217 ∷ to 9 2 217 ∷ to 23 2 217 ∷ to 40 3 217 ∷ [])
        ++ (to 2 2 227 ∷ to 9 2 227 ∷ to 23 2 227 ∷ to 40 3 227 ∷ [])
        ++ (to 2 2 229 ∷ to 9 2 229 ∷ to 23 2 229 ∷ to 40 3 229 ∷ []))
    ∷ ((to 3 2 216 ∷ to 6 2 216 ∷ to 10 2 216 ∷ to 15 2 216 ∷ [])
        ++ (to 24 2 216 ∷ to 31 2 216 ∷ to 41 2 216 ∷ to 56 3 216 ∷ [])
        ++ (to 3 2 217 ∷ to 6 2 217 ∷ to 10 2 217 ∷ to 15 2 217 ∷ [])
        ++ (to 24 2 217 ∷ to 31 2 217 ∷ to 41 2 217 ∷ to 56 3 217 ∷ []))
    ∷ ((to 3 2 227 ∷ to 6 2 227 ∷ to 10 2 227 ∷ to 15 2 227 ∷ [])
        ++ (to 24 2 227 ∷ to 31 2 227 ∷ to 41 2 227 ∷ to 56 3 227 ∷ [])
        ++ (to 3 2 229 ∷ to 6 2 229 ∷ to 10 2 229 ∷ to 15 2 229 ∷ [])
        ++ (to 24 2 229 ∷ to 31 2 229 ∷ to 41 2 229 ∷ to 56 3 229 ∷ []))
    ∷ ((to 1 2 230 ∷ to 22 3 230 ∷ to 0 3 129 ∷ to 0 3 132 ∷ [])
        ++ (to 0 3 133 ∷ to 0 3 134 ∷ to 0 3 136 ∷ to 0 3 146 ∷ [])
        ++ (to 0 3 154 ∷ to 0 3 156 ∷ to 0 3 160 ∷ to 0 3 163 ∷ [])
        ++ (to 0 3 164 ∷ to 0 3 169 ∷ to 0 3 170 ∷ to 0 3 173 ∷ []))
    ∷ []

unfoldable pub states_120 : List (List HuffDecode)
states_120 =
    ((to 2 2 230 ∷ to 9 2 230 ∷ to 23 2 230 ∷ to 40 3 230 ∷ [])
      ++ (to 1 2 129 ∷ to 22 3 129 ∷ to 1 2 132 ∷ to 22 3 132 ∷ [])
      ++ (to 1 2 133 ∷ to 22 3 133 ∷ to 1 2 134 ∷ to 22 3 134 ∷ [])
      ++ (to 1 2 136 ∷ to 22 3 136 ∷ to 1 2 146 ∷ to 22 3 146 ∷ []))
    ∷ ((to 3 2 230 ∷ to 6 2 230 ∷ to 10 2 230 ∷ to 15 2 230 ∷ [])
        ++ (to 24 2 230 ∷ to 31 2 230 ∷ to 41 2 230 ∷ to 56 3 230 ∷ [])
        ++ (to 2 2 129 ∷ to 9 2 129 ∷ to 23 2 129 ∷ to 40 3 129 ∷ [])
        ++ (to 2 2 132 ∷ to 9 2 132 ∷ to 23 2 132 ∷ to 40 3 132 ∷ []))
    ∷ ((to 3 2 129 ∷ to 6 2 129 ∷ to 10 2 129 ∷ to 15 2 129 ∷ [])
        ++ (to 24 2 129 ∷ to 31 2 129 ∷ to 41 2 129 ∷ to 56 3 129 ∷ [])
        ++ (to 3 2 132 ∷ to 6 2 132 ∷ to 10 2 132 ∷ to 15 2 132 ∷ [])
        ++ (to 24 2 132 ∷ to 31 2 132 ∷ to 41 2 132 ∷ to 56 3 132 ∷ []))
    ∷ ((to 2 2 133 ∷ to 9 2 133 ∷ to 23 2 133 ∷ to 40 3 133 ∷ [])
        ++ (to 2 2 134 ∷ to 9 2 134 ∷ to 23 2 134 ∷ to 40 3 134 ∷ [])
        ++ (to 2 2 136 ∷ to 9 2 136 ∷ to 23 2 136 ∷ to 40 3 136 ∷ [])
        ++ (to 2 2 146 ∷ to 9 2 146 ∷ to 23 2 146 ∷ to 40 3 146 ∷ []))
    ∷ ((to 3 2 133 ∷ to 6 2 133 ∷ to 10 2 133 ∷ to 15 2 133 ∷ [])
        ++ (to 24 2 133 ∷ to 31 2 133 ∷ to 41 2 133 ∷ to 56 3 133 ∷ [])
        ++ (to 3 2 134 ∷ to 6 2 134 ∷ to 10 2 134 ∷ to 15 2 134 ∷ [])
        ++ (to 24 2 134 ∷ to 31 2 134 ∷ to 41 2 134 ∷ to 56 3 134 ∷ []))
    ∷ ((to 3 2 136 ∷ to 6 2 136 ∷ to 10 2 136 ∷ to 15 2 136 ∷ [])
        ++ (to 24 2 136 ∷ to 31 2 136 ∷ to 41 2 136 ∷ to 56 3 136 ∷ [])
        ++ (to 3 2 146 ∷ to 6 2 146 ∷ to 10 2 146 ∷ to 15 2 146 ∷ [])
        ++ (to 24 2 146 ∷ to 31 2 146 ∷ to 41 2 146 ∷ to 56 3 146 ∷ []))
    ∷ ((to 1 2 154 ∷ to 22 3 154 ∷ to 1 2 156 ∷ to 22 3 156 ∷ [])
        ++ (to 1 2 160 ∷ to 22 3 160 ∷ to 1 2 163 ∷ to 22 3 163 ∷ [])
        ++ (to 1 2 164 ∷ to 22 3 164 ∷ to 1 2 169 ∷ to 22 3 169 ∷ [])
        ++ (to 1 2 170 ∷ to 22 3 170 ∷ to 1 2 173 ∷ to 22 3 173 ∷ []))
    ∷ ((to 2 2 154 ∷ to 9 2 154 ∷ to 23 2 154 ∷ to 40 3 154 ∷ [])
        ++ (to 2 2 156 ∷ to 9 2 156 ∷ to 23 2 156 ∷ to 40 3 156 ∷ [])
        ++ (to 2 2 160 ∷ to 9 2 160 ∷ to 23 2 160 ∷ to 40 3 160 ∷ [])
        ++ (to 2 2 163 ∷ to 9 2 163 ∷ to 23 2 163 ∷ to 40 3 163 ∷ []))
    ∷ []
