-- ===== src/Hpack/Huffman/Table/Part5.antt =====
-- Sources/nghttp2/nghttp2_hd_huffman_data.c, huff_decode_table: eight states to a list, from 160 to 191.
use kitura_http.Prelude.{List, [], ◌∷◌, ◌++◌}
use kitura_http.Hpack.Huffman.Table.Entry.{HuffDecode, to}

unfoldable pub states_160 : List (List HuffDecode)
states_160 =
    ((to 3 2 152 ∷ to 6 2 152 ∷ to 10 2 152 ∷ to 15 2 152 ∷ [])
      ++ (to 24 2 152 ∷ to 31 2 152 ∷ to 41 2 152 ∷ to 56 3 152 ∷ [])
      ++ (to 3 2 155 ∷ to 6 2 155 ∷ to 10 2 155 ∷ to 15 2 155 ∷ [])
      ++ (to 24 2 155 ∷ to 31 2 155 ∷ to 41 2 155 ∷ to 56 3 155 ∷ []))
    ∷ ((to 3 2 157 ∷ to 6 2 157 ∷ to 10 2 157 ∷ to 15 2 157 ∷ [])
        ++ (to 24 2 157 ∷ to 31 2 157 ∷ to 41 2 157 ∷ to 56 3 157 ∷ [])
        ++ (to 3 2 158 ∷ to 6 2 158 ∷ to 10 2 158 ∷ to 15 2 158 ∷ [])
        ++ (to 24 2 158 ∷ to 31 2 158 ∷ to 41 2 158 ∷ to 56 3 158 ∷ []))
    ∷ ((to 1 2 165 ∷ to 22 3 165 ∷ to 1 2 166 ∷ to 22 3 166 ∷ [])
        ++ (to 1 2 168 ∷ to 22 3 168 ∷ to 1 2 174 ∷ to 22 3 174 ∷ [])
        ++ (to 1 2 175 ∷ to 22 3 175 ∷ to 1 2 180 ∷ to 22 3 180 ∷ [])
        ++ (to 1 2 182 ∷ to 22 3 182 ∷ to 1 2 183 ∷ to 22 3 183 ∷ []))
    ∷ ((to 2 2 165 ∷ to 9 2 165 ∷ to 23 2 165 ∷ to 40 3 165 ∷ [])
        ++ (to 2 2 166 ∷ to 9 2 166 ∷ to 23 2 166 ∷ to 40 3 166 ∷ [])
        ++ (to 2 2 168 ∷ to 9 2 168 ∷ to 23 2 168 ∷ to 40 3 168 ∷ [])
        ++ (to 2 2 174 ∷ to 9 2 174 ∷ to 23 2 174 ∷ to 40 3 174 ∷ []))
    ∷ ((to 3 2 165 ∷ to 6 2 165 ∷ to 10 2 165 ∷ to 15 2 165 ∷ [])
        ++ (to 24 2 165 ∷ to 31 2 165 ∷ to 41 2 165 ∷ to 56 3 165 ∷ [])
        ++ (to 3 2 166 ∷ to 6 2 166 ∷ to 10 2 166 ∷ to 15 2 166 ∷ [])
        ++ (to 24 2 166 ∷ to 31 2 166 ∷ to 41 2 166 ∷ to 56 3 166 ∷ []))
    ∷ ((to 3 2 168 ∷ to 6 2 168 ∷ to 10 2 168 ∷ to 15 2 168 ∷ [])
        ++ (to 24 2 168 ∷ to 31 2 168 ∷ to 41 2 168 ∷ to 56 3 168 ∷ [])
        ++ (to 3 2 174 ∷ to 6 2 174 ∷ to 10 2 174 ∷ to 15 2 174 ∷ [])
        ++ (to 24 2 174 ∷ to 31 2 174 ∷ to 41 2 174 ∷ to 56 3 174 ∷ []))
    ∷ ((to 2 2 175 ∷ to 9 2 175 ∷ to 23 2 175 ∷ to 40 3 175 ∷ [])
        ++ (to 2 2 180 ∷ to 9 2 180 ∷ to 23 2 180 ∷ to 40 3 180 ∷ [])
        ++ (to 2 2 182 ∷ to 9 2 182 ∷ to 23 2 182 ∷ to 40 3 182 ∷ [])
        ++ (to 2 2 183 ∷ to 9 2 183 ∷ to 23 2 183 ∷ to 40 3 183 ∷ []))
    ∷ ((to 3 2 175 ∷ to 6 2 175 ∷ to 10 2 175 ∷ to 15 2 175 ∷ [])
        ++ (to 24 2 175 ∷ to 31 2 175 ∷ to 41 2 175 ∷ to 56 3 175 ∷ [])
        ++ (to 3 2 180 ∷ to 6 2 180 ∷ to 10 2 180 ∷ to 15 2 180 ∷ [])
        ++ (to 24 2 180 ∷ to 31 2 180 ∷ to 41 2 180 ∷ to 56 3 180 ∷ []))
    ∷ []

unfoldable pub states_168 : List (List HuffDecode)
states_168 =
    ((to 3 2 182 ∷ to 6 2 182 ∷ to 10 2 182 ∷ to 15 2 182 ∷ [])
      ++ (to 24 2 182 ∷ to 31 2 182 ∷ to 41 2 182 ∷ to 56 3 182 ∷ [])
      ++ (to 3 2 183 ∷ to 6 2 183 ∷ to 10 2 183 ∷ to 15 2 183 ∷ [])
      ++ (to 24 2 183 ∷ to 31 2 183 ∷ to 41 2 183 ∷ to 56 3 183 ∷ []))
    ∷ ((to 0 3 188 ∷ to 0 3 191 ∷ to 0 3 197 ∷ to 0 3 231 ∷ [])
        ++ (to 0 3 239 ∷ to 176 0 0 ∷ to 178 0 0 ∷ to 179 0 0 ∷ [])
        ++ (to 183 0 0 ∷ to 184 0 0 ∷ to 186 0 0 ∷ to 187 0 0 ∷ [])
        ++ (to 192 0 0 ∷ to 199 0 0 ∷ to 208 0 0 ∷ to 223 0 0 ∷ []))
    ∷ ((to 1 2 188 ∷ to 22 3 188 ∷ to 1 2 191 ∷ to 22 3 191 ∷ [])
        ++ (to 1 2 197 ∷ to 22 3 197 ∷ to 1 2 231 ∷ to 22 3 231 ∷ [])
        ++ (to 1 2 239 ∷ to 22 3 239 ∷ to 0 3 9 ∷ to 0 3 142 ∷ [])
        ++ (to 0 3 144 ∷ to 0 3 145 ∷ to 0 3 148 ∷ to 0 3 159 ∷ []))
    ∷ ((to 2 2 188 ∷ to 9 2 188 ∷ to 23 2 188 ∷ to 40 3 188 ∷ [])
        ++ (to 2 2 191 ∷ to 9 2 191 ∷ to 23 2 191 ∷ to 40 3 191 ∷ [])
        ++ (to 2 2 197 ∷ to 9 2 197 ∷ to 23 2 197 ∷ to 40 3 197 ∷ [])
        ++ (to 2 2 231 ∷ to 9 2 231 ∷ to 23 2 231 ∷ to 40 3 231 ∷ []))
    ∷ ((to 3 2 188 ∷ to 6 2 188 ∷ to 10 2 188 ∷ to 15 2 188 ∷ [])
        ++ (to 24 2 188 ∷ to 31 2 188 ∷ to 41 2 188 ∷ to 56 3 188 ∷ [])
        ++ (to 3 2 191 ∷ to 6 2 191 ∷ to 10 2 191 ∷ to 15 2 191 ∷ [])
        ++ (to 24 2 191 ∷ to 31 2 191 ∷ to 41 2 191 ∷ to 56 3 191 ∷ []))
    ∷ ((to 3 2 197 ∷ to 6 2 197 ∷ to 10 2 197 ∷ to 15 2 197 ∷ [])
        ++ (to 24 2 197 ∷ to 31 2 197 ∷ to 41 2 197 ∷ to 56 3 197 ∷ [])
        ++ (to 3 2 231 ∷ to 6 2 231 ∷ to 10 2 231 ∷ to 15 2 231 ∷ [])
        ++ (to 24 2 231 ∷ to 31 2 231 ∷ to 41 2 231 ∷ to 56 3 231 ∷ []))
    ∷ ((to 2 2 239 ∷ to 9 2 239 ∷ to 23 2 239 ∷ to 40 3 239 ∷ [])
        ++ (to 1 2 9 ∷ to 22 3 9 ∷ to 1 2 142 ∷ to 22 3 142 ∷ [])
        ++ (to 1 2 144 ∷ to 22 3 144 ∷ to 1 2 145 ∷ to 22 3 145 ∷ [])
        ++ (to 1 2 148 ∷ to 22 3 148 ∷ to 1 2 159 ∷ to 22 3 159 ∷ []))
    ∷ ((to 3 2 239 ∷ to 6 2 239 ∷ to 10 2 239 ∷ to 15 2 239 ∷ [])
        ++ (to 24 2 239 ∷ to 31 2 239 ∷ to 41 2 239 ∷ to 56 3 239 ∷ [])
        ++ (to 2 2 9 ∷ to 9 2 9 ∷ to 23 2 9 ∷ to 40 3 9 ∷ [])
        ++ (to 2 2 142 ∷ to 9 2 142 ∷ to 23 2 142 ∷ to 40 3 142 ∷ []))
    ∷ []

unfoldable pub states_176 : List (List HuffDecode)
states_176 =
    ((to 3 2 9 ∷ to 6 2 9 ∷ to 10 2 9 ∷ to 15 2 9 ∷ [])
      ++ (to 24 2 9 ∷ to 31 2 9 ∷ to 41 2 9 ∷ to 56 3 9 ∷ [])
      ++ (to 3 2 142 ∷ to 6 2 142 ∷ to 10 2 142 ∷ to 15 2 142 ∷ [])
      ++ (to 24 2 142 ∷ to 31 2 142 ∷ to 41 2 142 ∷ to 56 3 142 ∷ []))
    ∷ ((to 2 2 144 ∷ to 9 2 144 ∷ to 23 2 144 ∷ to 40 3 144 ∷ [])
        ++ (to 2 2 145 ∷ to 9 2 145 ∷ to 23 2 145 ∷ to 40 3 145 ∷ [])
        ++ (to 2 2 148 ∷ to 9 2 148 ∷ to 23 2 148 ∷ to 40 3 148 ∷ [])
        ++ (to 2 2 159 ∷ to 9 2 159 ∷ to 23 2 159 ∷ to 40 3 159 ∷ []))
    ∷ ((to 3 2 144 ∷ to 6 2 144 ∷ to 10 2 144 ∷ to 15 2 144 ∷ [])
        ++ (to 24 2 144 ∷ to 31 2 144 ∷ to 41 2 144 ∷ to 56 3 144 ∷ [])
        ++ (to 3 2 145 ∷ to 6 2 145 ∷ to 10 2 145 ∷ to 15 2 145 ∷ [])
        ++ (to 24 2 145 ∷ to 31 2 145 ∷ to 41 2 145 ∷ to 56 3 145 ∷ []))
    ∷ ((to 3 2 148 ∷ to 6 2 148 ∷ to 10 2 148 ∷ to 15 2 148 ∷ [])
        ++ (to 24 2 148 ∷ to 31 2 148 ∷ to 41 2 148 ∷ to 56 3 148 ∷ [])
        ++ (to 3 2 159 ∷ to 6 2 159 ∷ to 10 2 159 ∷ to 15 2 159 ∷ [])
        ++ (to 24 2 159 ∷ to 31 2 159 ∷ to 41 2 159 ∷ to 56 3 159 ∷ []))
    ∷ ((to 0 3 171 ∷ to 0 3 206 ∷ to 0 3 215 ∷ to 0 3 225 ∷ [])
        ++ (to 0 3 236 ∷ to 0 3 237 ∷ to 188 0 0 ∷ to 189 0 0 ∷ [])
        ++ (to 193 0 0 ∷ to 196 0 0 ∷ to 200 0 0 ∷ to 203 0 0 ∷ [])
        ++ (to 209 0 0 ∷ to 216 0 0 ∷ to 224 0 0 ∷ to 238 0 0 ∷ []))
    ∷ ((to 1 2 171 ∷ to 22 3 171 ∷ to 1 2 206 ∷ to 22 3 206 ∷ [])
        ++ (to 1 2 215 ∷ to 22 3 215 ∷ to 1 2 225 ∷ to 22 3 225 ∷ [])
        ++ (to 1 2 236 ∷ to 22 3 236 ∷ to 1 2 237 ∷ to 22 3 237 ∷ [])
        ++ (to 0 3 199 ∷ to 0 3 207 ∷ to 0 3 234 ∷ to 0 3 235 ∷ []))
    ∷ ((to 2 2 171 ∷ to 9 2 171 ∷ to 23 2 171 ∷ to 40 3 171 ∷ [])
        ++ (to 2 2 206 ∷ to 9 2 206 ∷ to 23 2 206 ∷ to 40 3 206 ∷ [])
        ++ (to 2 2 215 ∷ to 9 2 215 ∷ to 23 2 215 ∷ to 40 3 215 ∷ [])
        ++ (to 2 2 225 ∷ to 9 2 225 ∷ to 23 2 225 ∷ to 40 3 225 ∷ []))
    ∷ ((to 3 2 171 ∷ to 6 2 171 ∷ to 10 2 171 ∷ to 15 2 171 ∷ [])
        ++ (to 24 2 171 ∷ to 31 2 171 ∷ to 41 2 171 ∷ to 56 3 171 ∷ [])
        ++ (to 3 2 206 ∷ to 6 2 206 ∷ to 10 2 206 ∷ to 15 2 206 ∷ [])
        ++ (to 24 2 206 ∷ to 31 2 206 ∷ to 41 2 206 ∷ to 56 3 206 ∷ []))
    ∷ []

unfoldable pub states_184 : List (List HuffDecode)
states_184 =
    ((to 3 2 215 ∷ to 6 2 215 ∷ to 10 2 215 ∷ to 15 2 215 ∷ [])
      ++ (to 24 2 215 ∷ to 31 2 215 ∷ to 41 2 215 ∷ to 56 3 215 ∷ [])
      ++ (to 3 2 225 ∷ to 6 2 225 ∷ to 10 2 225 ∷ to 15 2 225 ∷ [])
      ++ (to 24 2 225 ∷ to 31 2 225 ∷ to 41 2 225 ∷ to 56 3 225 ∷ []))
    ∷ ((to 2 2 236 ∷ to 9 2 236 ∷ to 23 2 236 ∷ to 40 3 236 ∷ [])
        ++ (to 2 2 237 ∷ to 9 2 237 ∷ to 23 2 237 ∷ to 40 3 237 ∷ [])
        ++ (to 1 2 199 ∷ to 22 3 199 ∷ to 1 2 207 ∷ to 22 3 207 ∷ [])
        ++ (to 1 2 234 ∷ to 22 3 234 ∷ to 1 2 235 ∷ to 22 3 235 ∷ []))
    ∷ ((to 3 2 236 ∷ to 6 2 236 ∷ to 10 2 236 ∷ to 15 2 236 ∷ [])
        ++ (to 24 2 236 ∷ to 31 2 236 ∷ to 41 2 236 ∷ to 56 3 236 ∷ [])
        ++ (to 3 2 237 ∷ to 6 2 237 ∷ to 10 2 237 ∷ to 15 2 237 ∷ [])
        ++ (to 24 2 237 ∷ to 31 2 237 ∷ to 41 2 237 ∷ to 56 3 237 ∷ []))
    ∷ ((to 2 2 199 ∷ to 9 2 199 ∷ to 23 2 199 ∷ to 40 3 199 ∷ [])
        ++ (to 2 2 207 ∷ to 9 2 207 ∷ to 23 2 207 ∷ to 40 3 207 ∷ [])
        ++ (to 2 2 234 ∷ to 9 2 234 ∷ to 23 2 234 ∷ to 40 3 234 ∷ [])
        ++ (to 2 2 235 ∷ to 9 2 235 ∷ to 23 2 235 ∷ to 40 3 235 ∷ []))
    ∷ ((to 3 2 199 ∷ to 6 2 199 ∷ to 10 2 199 ∷ to 15 2 199 ∷ [])
        ++ (to 24 2 199 ∷ to 31 2 199 ∷ to 41 2 199 ∷ to 56 3 199 ∷ [])
        ++ (to 3 2 207 ∷ to 6 2 207 ∷ to 10 2 207 ∷ to 15 2 207 ∷ [])
        ++ (to 24 2 207 ∷ to 31 2 207 ∷ to 41 2 207 ∷ to 56 3 207 ∷ []))
    ∷ ((to 3 2 234 ∷ to 6 2 234 ∷ to 10 2 234 ∷ to 15 2 234 ∷ [])
        ++ (to 24 2 234 ∷ to 31 2 234 ∷ to 41 2 234 ∷ to 56 3 234 ∷ [])
        ++ (to 3 2 235 ∷ to 6 2 235 ∷ to 10 2 235 ∷ to 15 2 235 ∷ [])
        ++ (to 24 2 235 ∷ to 31 2 235 ∷ to 41 2 235 ∷ to 56 3 235 ∷ []))
    ∷ ((to 194 0 0 ∷ to 195 0 0 ∷ to 197 0 0 ∷ to 198 0 0 ∷ [])
        ++ (to 201 0 0 ∷ to 202 0 0 ∷ to 204 0 0 ∷ to 205 0 0 ∷ [])
        ++ (to 210 0 0 ∷ to 213 0 0 ∷ to 217 0 0 ∷ to 220 0 0 ∷ [])
        ++ (to 225 0 0 ∷ to 231 0 0 ∷ to 239 0 0 ∷ to 246 0 0 ∷ []))
    ∷ ((to 0 3 192 ∷ to 0 3 193 ∷ to 0 3 200 ∷ to 0 3 201 ∷ [])
        ++ (to 0 3 202 ∷ to 0 3 205 ∷ to 0 3 210 ∷ to 0 3 213 ∷ [])
        ++ (to 0 3 218 ∷ to 0 3 219 ∷ to 0 3 238 ∷ to 0 3 240 ∷ [])
        ++ (to 0 3 242 ∷ to 0 3 243 ∷ to 0 3 255 ∷ to 206 0 0 ∷ []))
    ∷ []
