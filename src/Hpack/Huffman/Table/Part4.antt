-- ===== src/Hpack/Huffman/Table/Part4.antt =====
-- Sources/nghttp2/nghttp2_hd_huffman_data.c, huff_decode_table: eight states to a list, from 128 to 159.
use kitura_http.Prelude.{List, [], ◌∷◌, ◌++◌}
use kitura_http.Hpack.Huffman.Table.Entry.{HuffDecode, to}

unfoldable pub states_128 : List (List HuffDecode)
states_128 =
    ((to 3 2 154 ∷ to 6 2 154 ∷ to 10 2 154 ∷ to 15 2 154 ∷ [])
      ++ (to 24 2 154 ∷ to 31 2 154 ∷ to 41 2 154 ∷ to 56 3 154 ∷ [])
      ++ (to 3 2 156 ∷ to 6 2 156 ∷ to 10 2 156 ∷ to 15 2 156 ∷ [])
      ++ (to 24 2 156 ∷ to 31 2 156 ∷ to 41 2 156 ∷ to 56 3 156 ∷ []))
    ∷ ((to 3 2 160 ∷ to 6 2 160 ∷ to 10 2 160 ∷ to 15 2 160 ∷ [])
        ++ (to 24 2 160 ∷ to 31 2 160 ∷ to 41 2 160 ∷ to 56 3 160 ∷ [])
        ++ (to 3 2 163 ∷ to 6 2 163 ∷ to 10 2 163 ∷ to 15 2 163 ∷ [])
        ++ (to 24 2 163 ∷ to 31 2 163 ∷ to 41 2 163 ∷ to 56 3 163 ∷ []))
    ∷ ((to 2 2 164 ∷ to 9 2 164 ∷ to 23 2 164 ∷ to 40 3 164 ∷ [])
        ++ (to 2 2 169 ∷ to 9 2 169 ∷ to 23 2 169 ∷ to 40 3 169 ∷ [])
        ++ (to 2 2 170 ∷ to 9 2 170 ∷ to 23 2 170 ∷ to 40 3 170 ∷ [])
        ++ (to 2 2 173 ∷ to 9 2 173 ∷ to 23 2 173 ∷ to 40 3 173 ∷ []))
    ∷ ((to 3 2 164 ∷ to 6 2 164 ∷ to 10 2 164 ∷ to 15 2 164 ∷ [])
        ++ (to 24 2 164 ∷ to 31 2 164 ∷ to 41 2 164 ∷ to 56 3 164 ∷ [])
        ++ (to 3 2 169 ∷ to 6 2 169 ∷ to 10 2 169 ∷ to 15 2 169 ∷ [])
        ++ (to 24 2 169 ∷ to 31 2 169 ∷ to 41 2 169 ∷ to 56 3 169 ∷ []))
    ∷ ((to 3 2 170 ∷ to 6 2 170 ∷ to 10 2 170 ∷ to 15 2 170 ∷ [])
        ++ (to 24 2 170 ∷ to 31 2 170 ∷ to 41 2 170 ∷ to 56 3 170 ∷ [])
        ++ (to 3 2 173 ∷ to 6 2 173 ∷ to 10 2 173 ∷ to 15 2 173 ∷ [])
        ++ (to 24 2 173 ∷ to 31 2 173 ∷ to 41 2 173 ∷ to 56 3 173 ∷ []))
    ∷ ((to 137 0 0 ∷ to 138 0 0 ∷ to 140 0 0 ∷ to 141 0 0 ∷ [])
        ++ (to 144 0 0 ∷ to 145 0 0 ∷ to 147 0 0 ∷ to 150 0 0 ∷ [])
        ++ (to 156 0 0 ∷ to 159 0 0 ∷ to 163 0 0 ∷ to 166 0 0 ∷ [])
        ++ (to 171 0 0 ∷ to 174 0 0 ∷ to 181 0 0 ∷ to 190 0 0 ∷ []))
    ∷ ((to 0 3 178 ∷ to 0 3 181 ∷ to 0 3 185 ∷ to 0 3 186 ∷ [])
        ++ (to 0 3 187 ∷ to 0 3 189 ∷ to 0 3 190 ∷ to 0 3 196 ∷ [])
        ++ (to 0 3 198 ∷ to 0 3 228 ∷ to 0 3 232 ∷ to 0 3 233 ∷ [])
        ++ (to 148 0 0 ∷ to 149 0 0 ∷ to 151 0 0 ∷ to 152 0 0 ∷ []))
    ∷ ((to 1 2 178 ∷ to 22 3 178 ∷ to 1 2 181 ∷ to 22 3 181 ∷ [])
        ++ (to 1 2 185 ∷ to 22 3 185 ∷ to 1 2 186 ∷ to 22 3 186 ∷ [])
        ++ (to 1 2 187 ∷ to 22 3 187 ∷ to 1 2 189 ∷ to 22 3 189 ∷ [])
        ++ (to 1 2 190 ∷ to 22 3 190 ∷ to 1 2 196 ∷ to 22 3 196 ∷ []))
    ∷ []

unfoldable pub states_136 : List (List HuffDecode)
states_136 =
    ((to 2 2 178 ∷ to 9 2 178 ∷ to 23 2 178 ∷ to 40 3 178 ∷ [])
      ++ (to 2 2 181 ∷ to 9 2 181 ∷ to 23 2 181 ∷ to 40 3 181 ∷ [])
      ++ (to 2 2 185 ∷ to 9 2 185 ∷ to 23 2 185 ∷ to 40 3 185 ∷ [])
      ++ (to 2 2 186 ∷ to 9 2 186 ∷ to 23 2 186 ∷ to 40 3 186 ∷ []))
    ∷ ((to 3 2 178 ∷ to 6 2 178 ∷ to 10 2 178 ∷ to 15 2 178 ∷ [])
        ++ (to 24 2 178 ∷ to 31 2 178 ∷ to 41 2 178 ∷ to 56 3 178 ∷ [])
        ++ (to 3 2 181 ∷ to 6 2 181 ∷ to 10 2 181 ∷ to 15 2 181 ∷ [])
        ++ (to 24 2 181 ∷ to 31 2 181 ∷ to 41 2 181 ∷ to 56 3 181 ∷ []))
    ∷ ((to 3 2 185 ∷ to 6 2 185 ∷ to 10 2 185 ∷ to 15 2 185 ∷ [])
        ++ (to 24 2 185 ∷ to 31 2 185 ∷ to 41 2 185 ∷ to 56 3 185 ∷ [])
        ++ (to 3 2 186 ∷ to 6 2 186 ∷ to 10 2 186 ∷ to 15 2 186 ∷ [])
        ++ (to 24 2 186 ∷ to 31 2 186 ∷ to 41 2 186 ∷ to 56 3 186 ∷ []))
    ∷ ((to 2 2 187 ∷ to 9 2 187 ∷ to 23 2 187 ∷ to 40 3 187 ∷ [])
        ++ (to 2 2 189 ∷ to 9 2 189 ∷ to 23 2 189 ∷ to 40 3 189 ∷ [])
        ++ (to 2 2 190 ∷ to 9 2 190 ∷ to 23 2 190 ∷ to 40 3 190 ∷ [])
        ++ (to 2 2 196 ∷ to 9 2 196 ∷ to 23 2 196 ∷ to 40 3 196 ∷ []))
    ∷ ((to 3 2 187 ∷ to 6 2 187 ∷ to 10 2 187 ∷ to 15 2 187 ∷ [])
        ++ (to 24 2 187 ∷ to 31 2 187 ∷ to 41 2 187 ∷ to 56 3 187 ∷ [])
        ++ (to 3 2 189 ∷ to 6 2 189 ∷ to 10 2 189 ∷ to 15 2 189 ∷ [])
        ++ (to 24 2 189 ∷ to 31 2 189 ∷ to 41 2 189 ∷ to 56 3 189 ∷ []))
    ∷ ((to 3 2 190 ∷ to 6 2 190 ∷ to 10 2 190 ∷ to 15 2 190 ∷ [])
        ++ (to 24 2 190 ∷ to 31 2 190 ∷ to 41 2 190 ∷ to 56 3 190 ∷ [])
        ++ (to 3 2 196 ∷ to 6 2 196 ∷ to 10 2 196 ∷ to 15 2 196 ∷ [])
        ++ (to 24 2 196 ∷ to 31 2 196 ∷ to 41 2 196 ∷ to 56 3 196 ∷ []))
    ∷ ((to 1 2 198 ∷ to 22 3 198 ∷ to 1 2 228 ∷ to 22 3 228 ∷ [])
        ++ (to 1 2 232 ∷ to 22 3 232 ∷ to 1 2 233 ∷ to 22 3 233 ∷ [])
        ++ (to 0 3 1 ∷ to 0 3 135 ∷ to 0 3 137 ∷ to 0 3 138 ∷ [])
        ++ (to 0 3 139 ∷ to 0 3 140 ∷ to 0 3 141 ∷ to 0 3 143 ∷ []))
    ∷ ((to 2 2 198 ∷ to 9 2 198 ∷ to 23 2 198 ∷ to 40 3 198 ∷ [])
        ++ (to 2 2 228 ∷ to 9 2 228 ∷ to 23 2 228 ∷ to 40 3 228 ∷ [])
        ++ (to 2 2 232 ∷ to 9 2 232 ∷ to 23 2 232 ∷ to 40 3 232 ∷ [])
        ++ (to 2 2 233 ∷ to 9 2 233 ∷ to 23 2 233 ∷ to 40 3 233 ∷ []))
    ∷ []

unfoldable pub states_144 : List (List HuffDecode)
states_144 =
    ((to 3 2 198 ∷ to 6 2 198 ∷ to 10 2 198 ∷ to 15 2 198 ∷ [])
      ++ (to 24 2 198 ∷ to 31 2 198 ∷ to 41 2 198 ∷ to 56 3 198 ∷ [])
      ++ (to 3 2 228 ∷ to 6 2 228 ∷ to 10 2 228 ∷ to 15 2 228 ∷ [])
      ++ (to 24 2 228 ∷ to 31 2 228 ∷ to 41 2 228 ∷ to 56 3 228 ∷ []))
    ∷ ((to 3 2 232 ∷ to 6 2 232 ∷ to 10 2 232 ∷ to 15 2 232 ∷ [])
        ++ (to 24 2 232 ∷ to 31 2 232 ∷ to 41 2 232 ∷ to 56 3 232 ∷ [])
        ++ (to 3 2 233 ∷ to 6 2 233 ∷ to 10 2 233 ∷ to 15 2 233 ∷ [])
        ++ (to 24 2 233 ∷ to 31 2 233 ∷ to 41 2 233 ∷ to 56 3 233 ∷ []))
    ∷ ((to 1 2 1 ∷ to 22 3 1 ∷ to 1 2 135 ∷ to 22 3 135 ∷ [])
        ++ (to 1 2 137 ∷ to 22 3 137 ∷ to 1 2 138 ∷ to 22 3 138 ∷ [])
        ++ (to 1 2 139 ∷ to 22 3 139 ∷ to 1 2 140 ∷ to 22 3 140 ∷ [])
        ++ (to 1 2 141 ∷ to 22 3 141 ∷ to 1 2 143 ∷ to 22 3 143 ∷ []))
    ∷ ((to 2 2 1 ∷ to 9 2 1 ∷ to 23 2 1 ∷ to 40 3 1 ∷ [])
        ++ (to 2 2 135 ∷ to 9 2 135 ∷ to 23 2 135 ∷ to 40 3 135 ∷ [])
        ++ (to 2 2 137 ∷ to 9 2 137 ∷ to 23 2 137 ∷ to 40 3 137 ∷ [])
        ++ (to 2 2 138 ∷ to 9 2 138 ∷ to 23 2 138 ∷ to 40 3 138 ∷ []))
    ∷ ((to 3 2 1 ∷ to 6 2 1 ∷ to 10 2 1 ∷ to 15 2 1 ∷ [])
        ++ (to 24 2 1 ∷ to 31 2 1 ∷ to 41 2 1 ∷ to 56 3 1 ∷ [])
        ++ (to 3 2 135 ∷ to 6 2 135 ∷ to 10 2 135 ∷ to 15 2 135 ∷ [])
        ++ (to 24 2 135 ∷ to 31 2 135 ∷ to 41 2 135 ∷ to 56 3 135 ∷ []))
    ∷ ((to 3 2 137 ∷ to 6 2 137 ∷ to 10 2 137 ∷ to 15 2 137 ∷ [])
        ++ (to 24 2 137 ∷ to 31 2 137 ∷ to 41 2 137 ∷ to 56 3 137 ∷ [])
        ++ (to 3 2 138 ∷ to 6 2 138 ∷ to 10 2 138 ∷ to 15 2 138 ∷ [])
        ++ (to 24 2 138 ∷ to 31 2 138 ∷ to 41 2 138 ∷ to 56 3 138 ∷ []))
    ∷ ((to 2 2 139 ∷ to 9 2 139 ∷ to 23 2 139 ∷ to 40 3 139 ∷ [])
        ++ (to 2 2 140 ∷ to 9 2 140 ∷ to 23 2 140 ∷ to 40 3 140 ∷ [])
        ++ (to 2 2 141 ∷ to 9 2 141 ∷ to 23 2 141 ∷ to 40 3 141 ∷ [])
        ++ (to 2 2 143 ∷ to 9 2 143 ∷ to 23 2 143 ∷ to 40 3 143 ∷ []))
    ∷ ((to 3 2 139 ∷ to 6 2 139 ∷ to 10 2 139 ∷ to 15 2 139 ∷ [])
        ++ (to 24 2 139 ∷ to 31 2 139 ∷ to 41 2 139 ∷ to 56 3 139 ∷ [])
        ++ (to 3 2 140 ∷ to 6 2 140 ∷ to 10 2 140 ∷ to 15 2 140 ∷ [])
        ++ (to 24 2 140 ∷ to 31 2 140 ∷ to 41 2 140 ∷ to 56 3 140 ∷ []))
    ∷ []

unfoldable pub states_152 : List (List HuffDecode)
states_152 =
    ((to 3 2 141 ∷ to 6 2 141 ∷ to 10 2 141 ∷ to 15 2 141 ∷ [])
      ++ (to 24 2 141 ∷ to 31 2 141 ∷ to 41 2 141 ∷ to 56 3 141 ∷ [])
      ++ (to 3 2 143 ∷ to 6 2 143 ∷ to 10 2 143 ∷ to 15 2 143 ∷ [])
      ++ (to 24 2 143 ∷ to 31 2 143 ∷ to 41 2 143 ∷ to 56 3 143 ∷ []))
    ∷ ((to 157 0 0 ∷ to 158 0 0 ∷ to 160 0 0 ∷ to 161 0 0 ∷ [])
        ++ (to 164 0 0 ∷ to 165 0 0 ∷ to 167 0 0 ∷ to 168 0 0 ∷ [])
        ++ (to 172 0 0 ∷ to 173 0 0 ∷ to 175 0 0 ∷ to 177 0 0 ∷ [])
        ++ (to 182 0 0 ∷ to 185 0 0 ∷ to 191 0 0 ∷ to 207 0 0 ∷ []))
    ∷ ((to 0 3 147 ∷ to 0 3 149 ∷ to 0 3 150 ∷ to 0 3 151 ∷ [])
        ++ (to 0 3 152 ∷ to 0 3 155 ∷ to 0 3 157 ∷ to 0 3 158 ∷ [])
        ++ (to 0 3 165 ∷ to 0 3 166 ∷ to 0 3 168 ∷ to 0 3 174 ∷ [])
        ++ (to 0 3 175 ∷ to 0 3 180 ∷ to 0 3 182 ∷ to 0 3 183 ∷ []))
    ∷ ((to 1 2 147 ∷ to 22 3 147 ∷ to 1 2 149 ∷ to 22 3 149 ∷ [])
        ++ (to 1 2 150 ∷ to 22 3 150 ∷ to 1 2 151 ∷ to 22 3 151 ∷ [])
        ++ (to 1 2 152 ∷ to 22 3 152 ∷ to 1 2 155 ∷ to 22 3 155 ∷ [])
        ++ (to 1 2 157 ∷ to 22 3 157 ∷ to 1 2 158 ∷ to 22 3 158 ∷ []))
    ∷ ((to 2 2 147 ∷ to 9 2 147 ∷ to 23 2 147 ∷ to 40 3 147 ∷ [])
        ++ (to 2 2 149 ∷ to 9 2 149 ∷ to 23 2 149 ∷ to 40 3 149 ∷ [])
        ++ (to 2 2 150 ∷ to 9 2 150 ∷ to 23 2 150 ∷ to 40 3 150 ∷ [])
        ++ (to 2 2 151 ∷ to 9 2 151 ∷ to 23 2 151 ∷ to 40 3 151 ∷ []))
    ∷ ((to 3 2 147 ∷ to 6 2 147 ∷ to 10 2 147 ∷ to 15 2 147 ∷ [])
        ++ (to 24 2 147 ∷ to 31 2 147 ∷ to 41 2 147 ∷ to 56 3 147 ∷ [])
        ++ (to 3 2 149 ∷ to 6 2 149 ∷ to 10 2 149 ∷ to 15 2 149 ∷ [])
        ++ (to 24 2 149 ∷ to 31 2 149 ∷ to 41 2 149 ∷ to 56 3 149 ∷ []))
    ∷ ((to 3 2 150 ∷ to 6 2 150 ∷ to 10 2 150 ∷ to 15 2 150 ∷ [])
        ++ (to 24 2 150 ∷ to 31 2 150 ∷ to 41 2 150 ∷ to 56 3 150 ∷ [])
        ++ (to 3 2 151 ∷ to 6 2 151 ∷ to 10 2 151 ∷ to 15 2 151 ∷ [])
        ++ (to 24 2 151 ∷ to 31 2 151 ∷ to 41 2 151 ∷ to 56 3 151 ∷ []))
    ∷ ((to 2 2 152 ∷ to 9 2 152 ∷ to 23 2 152 ∷ to 40 3 152 ∷ [])
        ++ (to 2 2 155 ∷ to 9 2 155 ∷ to 23 2 155 ∷ to 40 3 155 ∷ [])
        ++ (to 2 2 157 ∷ to 9 2 157 ∷ to 23 2 157 ∷ to 40 3 157 ∷ [])
        ++ (to 2 2 158 ∷ to 9 2 158 ∷ to 23 2 158 ∷ to 40 3 158 ∷ []))
    ∷ []
