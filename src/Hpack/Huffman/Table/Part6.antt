-- ===== src/Hpack/Huffman/Table/Part6.antt =====
-- Sources/nghttp2/nghttp2_hd_huffman_data.c, huff_decode_table: eight states to a list, from 192 to 223.
use kitura_http.Prelude.{List, [], ◌∷◌, ◌++◌}
use kitura_http.Hpack.Huffman.Table.Entry.{HuffDecode, to}

unfoldable pub states_192 : List (List HuffDecode)
states_192 =
    ((to 1 2 192 ∷ to 22 3 192 ∷ to 1 2 193 ∷ to 22 3 193 ∷ [])
      ++ (to 1 2 200 ∷ to 22 3 200 ∷ to 1 2 201 ∷ to 22 3 201 ∷ [])
      ++ (to 1 2 202 ∷ to 22 3 202 ∷ to 1 2 205 ∷ to 22 3 205 ∷ [])
      ++ (to 1 2 210 ∷ to 22 3 210 ∷ to 1 2 213 ∷ to 22 3 213 ∷ []))
    ∷ ((to 2 2 192 ∷ to 9 2 192 ∷ to 23 2 192 ∷ to 40 3 192 ∷ [])
        ++ (to 2 2 193 ∷ to 9 2 193 ∷ to 23 2 193 ∷ to 40 3 193 ∷ [])
        ++ (to 2 2 200 ∷ to 9 2 200 ∷ to 23 2 200 ∷ to 40 3 200 ∷ [])
        ++ (to 2 2 201 ∷ to 9 2 201 ∷ to 23 2 201 ∷ to 40 3 201 ∷ []))
    ∷ ((to 3 2 192 ∷ to 6 2 192 ∷ to 10 2 192 ∷ to 15 2 192 ∷ [])
        ++ (to 24 2 192 ∷ to 31 2 192 ∷ to 41 2 192 ∷ to 56 3 192 ∷ [])
        ++ (to 3 2 193 ∷ to 6 2 193 ∷ to 10 2 193 ∷ to 15 2 193 ∷ [])
        ++ (to 24 2 193 ∷ to 31 2 193 ∷ to 41 2 193 ∷ to 56 3 193 ∷ []))
    ∷ ((to 3 2 200 ∷ to 6 2 200 ∷ to 10 2 200 ∷ to 15 2 200 ∷ [])
        ++ (to 24 2 200 ∷ to 31 2 200 ∷ to 41 2 200 ∷ to 56 3 200 ∷ [])
        ++ (to 3 2 201 ∷ to 6 2 201 ∷ to 10 2 201 ∷ to 15 2 201 ∷ [])
        ++ (to 24 2 201 ∷ to 31 2 201 ∷ to 41 2 201 ∷ to 56 3 201 ∷ []))
    ∷ ((to 2 2 202 ∷ to 9 2 202 ∷ to 23 2 202 ∷ to 40 3 202 ∷ [])
        ++ (to 2 2 205 ∷ to 9 2 205 ∷ to 23 2 205 ∷ to 40 3 205 ∷ [])
        ++ (to 2 2 210 ∷ to 9 2 210 ∷ to 23 2 210 ∷ to 40 3 210 ∷ [])
        ++ (to 2 2 213 ∷ to 9 2 213 ∷ to 23 2 213 ∷ to 40 3 213 ∷ []))
    ∷ ((to 3 2 202 ∷ to 6 2 202 ∷ to 10 2 202 ∷ to 15 2 202 ∷ [])
        ++ (to 24 2 202 ∷ to 31 2 202 ∷ to 41 2 202 ∷ to 56 3 202 ∷ [])
        ++ (to 3 2 205 ∷ to 6 2 205 ∷ to 10 2 205 ∷ to 15 2 205 ∷ [])
        ++ (to 24 2 205 ∷ to 31 2 205 ∷ to 41 2 205 ∷ to 56 3 205 ∷ []))
    ∷ ((to 3 2 210 ∷ to 6 2 210 ∷ to 10 2 210 ∷ to 15 2 210 ∷ [])
        ++ (to 24 2 210 ∷ to 31 2 210 ∷ to 41 2 210 ∷ to 56 3 210 ∷ [])
        ++ (to 3 2 213 ∷ to 6 2 213 ∷ to 10 2 213 ∷ to 15 2 213 ∷ [])
        ++ (to 24 2 213 ∷ to 31 2 213 ∷ to 41 2 213 ∷ to 56 3 213 ∷ []))
    ∷ ((to 1 2 218 ∷ to 22 3 218 ∷ to 1 2 219 ∷ to 22 3 219 ∷ [])
        ++ (to 1 2 238 ∷ to 22 3 238 ∷ to 1 2 240 ∷ to 22 3 240 ∷ [])
        ++ (to 1 2 242 ∷ to 22 3 242 ∷ to 1 2 243 ∷ to 22 3 243 ∷ [])
        ++ (to 1 2 255 ∷ to 22 3 255 ∷ to 0 3 203 ∷ to 0 3 204 ∷ []))
    ∷ []

unfoldable pub states_200 : List (List HuffDecode)
states_200 =
    ((to 2 2 218 ∷ to 9 2 218 ∷ to 23 2 218 ∷ to 40 3 218 ∷ [])
      ++ (to 2 2 219 ∷ to 9 2 219 ∷ to 23 2 219 ∷ to 40 3 219 ∷ [])
      ++ (to 2 2 238 ∷ to 9 2 238 ∷ to 23 2 238 ∷ to 40 3 238 ∷ [])
      ++ (to 2 2 240 ∷ to 9 2 240 ∷ to 23 2 240 ∷ to 40 3 240 ∷ []))
    ∷ ((to 3 2 218 ∷ to 6 2 218 ∷ to 10 2 218 ∷ to 15 2 218 ∷ [])
        ++ (to 24 2 218 ∷ to 31 2 218 ∷ to 41 2 218 ∷ to 56 3 218 ∷ [])
        ++ (to 3 2 219 ∷ to 6 2 219 ∷ to 10 2 219 ∷ to 15 2 219 ∷ [])
        ++ (to 24 2 219 ∷ to 31 2 219 ∷ to 41 2 219 ∷ to 56 3 219 ∷ []))
    ∷ ((to 3 2 238 ∷ to 6 2 238 ∷ to 10 2 238 ∷ to 15 2 238 ∷ [])
        ++ (to 24 2 238 ∷ to 31 2 238 ∷ to 41 2 238 ∷ to 56 3 238 ∷ [])
        ++ (to 3 2 240 ∷ to 6 2 240 ∷ to 10 2 240 ∷ to 15 2 240 ∷ [])
        ++ (to 24 2 240 ∷ to 31 2 240 ∷ to 41 2 240 ∷ to 56 3 240 ∷ []))
    ∷ ((to 2 2 242 ∷ to 9 2 242 ∷ to 23 2 242 ∷ to 40 3 242 ∷ [])
        ++ (to 2 2 243 ∷ to 9 2 243 ∷ to 23 2 243 ∷ to 40 3 243 ∷ [])
        ++ (to 2 2 255 ∷ to 9 2 255 ∷ to 23 2 255 ∷ to 40 3 255 ∷ [])
        ++ (to 1 2 203 ∷ to 22 3 203 ∷ to 1 2 204 ∷ to 22 3 204 ∷ []))
    ∷ ((to 3 2 242 ∷ to 6 2 242 ∷ to 10 2 242 ∷ to 15 2 242 ∷ [])
        ++ (to 24 2 242 ∷ to 31 2 242 ∷ to 41 2 242 ∷ to 56 3 242 ∷ [])
        ++ (to 3 2 243 ∷ to 6 2 243 ∷ to 10 2 243 ∷ to 15 2 243 ∷ [])
        ++ (to 24 2 243 ∷ to 31 2 243 ∷ to 41 2 243 ∷ to 56 3 243 ∷ []))
    ∷ ((to 3 2 255 ∷ to 6 2 255 ∷ to 10 2 255 ∷ to 15 2 255 ∷ [])
        ++ (to 24 2 255 ∷ to 31 2 255 ∷ to 41 2 255 ∷ to 56 3 255 ∷ [])
        ++ (to 2 2 203 ∷ to 9 2 203 ∷ to 23 2 203 ∷ to 40 3 203 ∷ [])
        ++ (to 2 2 204 ∷ to 9 2 204 ∷ to 23 2 204 ∷ to 40 3 204 ∷ []))
    ∷ ((to 3 2 203 ∷ to 6 2 203 ∷ to 10 2 203 ∷ to 15 2 203 ∷ [])
        ++ (to 24 2 203 ∷ to 31 2 203 ∷ to 41 2 203 ∷ to 56 3 203 ∷ [])
        ++ (to 3 2 204 ∷ to 6 2 204 ∷ to 10 2 204 ∷ to 15 2 204 ∷ [])
        ++ (to 24 2 204 ∷ to 31 2 204 ∷ to 41 2 204 ∷ to 56 3 204 ∷ []))
    ∷ ((to 211 0 0 ∷ to 212 0 0 ∷ to 214 0 0 ∷ to 215 0 0 ∷ [])
        ++ (to 218 0 0 ∷ to 219 0 0 ∷ to 221 0 0 ∷ to 222 0 0 ∷ [])
        ++ (to 226 0 0 ∷ to 228 0 0 ∷ to 232 0 0 ∷ to 235 0 0 ∷ [])
        ++ (to 240 0 0 ∷ to 243 0 0 ∷ to 247 0 0 ∷ to 250 0 0 ∷ []))
    ∷ []

unfoldable pub states_208 : List (List HuffDecode)
states_208 =
    ((to 0 3 211 ∷ to 0 3 212 ∷ to 0 3 214 ∷ to 0 3 221 ∷ [])
      ++ (to 0 3 222 ∷ to 0 3 223 ∷ to 0 3 241 ∷ to 0 3 244 ∷ [])
      ++ (to 0 3 245 ∷ to 0 3 246 ∷ to 0 3 247 ∷ to 0 3 248 ∷ [])
      ++ (to 0 3 250 ∷ to 0 3 251 ∷ to 0 3 252 ∷ to 0 3 253 ∷ []))
    ∷ ((to 1 2 211 ∷ to 22 3 211 ∷ to 1 2 212 ∷ to 22 3 212 ∷ [])
        ++ (to 1 2 214 ∷ to 22 3 214 ∷ to 1 2 221 ∷ to 22 3 221 ∷ [])
        ++ (to 1 2 222 ∷ to 22 3 222 ∷ to 1 2 223 ∷ to 22 3 223 ∷ [])
        ++ (to 1 2 241 ∷ to 22 3 241 ∷ to 1 2 244 ∷ to 22 3 244 ∷ []))
    ∷ ((to 2 2 211 ∷ to 9 2 211 ∷ to 23 2 211 ∷ to 40 3 211 ∷ [])
        ++ (to 2 2 212 ∷ to 9 2 212 ∷ to 23 2 212 ∷ to 40 3 212 ∷ [])
        ++ (to 2 2 214 ∷ to 9 2 214 ∷ to 23 2 214 ∷ to 40 3 214 ∷ [])
        ++ (to 2 2 221 ∷ to 9 2 221 ∷ to 23 2 221 ∷ to 40 3 221 ∷ []))
    ∷ ((to 3 2 211 ∷ to 6 2 211 ∷ to 10 2 211 ∷ to 15 2 211 ∷ [])
        ++ (to 24 2 211 ∷ to 31 2 211 ∷ to 41 2 211 ∷ to 56 3 211 ∷ [])
        ++ (to 3 2 212 ∷ to 6 2 212 ∷ to 10 2 212 ∷ to 15 2 212 ∷ [])
        ++ (to 24 2 212 ∷ to 31 2 212 ∷ to 41 2 212 ∷ to 56 3 212 ∷ []))
    ∷ ((to 3 2 214 ∷ to 6 2 214 ∷ to 10 2 214 ∷ to 15 2 214 ∷ [])
        ++ (to 24 2 214 ∷ to 31 2 214 ∷ to 41 2 214 ∷ to 56 3 214 ∷ [])
        ++ (to 3 2 221 ∷ to 6 2 221 ∷ to 10 2 221 ∷ to 15 2 221 ∷ [])
        ++ (to 24 2 221 ∷ to 31 2 221 ∷ to 41 2 221 ∷ to 56 3 221 ∷ []))
    ∷ ((to 2 2 222 ∷ to 9 2 222 ∷ to 23 2 222 ∷ to 40 3 222 ∷ [])
        ++ (to 2 2 223 ∷ to 9 2 223 ∷ to 23 2 223 ∷ to 40 3 223 ∷ [])
        ++ (to 2 2 241 ∷ to 9 2 241 ∷ to 23 2 241 ∷ to 40 3 241 ∷ [])
        ++ (to 2 2 244 ∷ to 9 2 244 ∷ to 23 2 244 ∷ to 40 3 244 ∷ []))
    ∷ ((to 3 2 222 ∷ to 6 2 222 ∷ to 10 2 222 ∷ to 15 2 222 ∷ [])
        ++ (to 24 2 222 ∷ to 31 2 222 ∷ to 41 2 222 ∷ to 56 3 222 ∷ [])
        ++ (to 3 2 223 ∷ to 6 2 223 ∷ to 10 2 223 ∷ to 15 2 223 ∷ [])
        ++ (to 24 2 223 ∷ to 31 2 223 ∷ to 41 2 223 ∷ to 56 3 223 ∷ []))
    ∷ ((to 3 2 241 ∷ to 6 2 241 ∷ to 10 2 241 ∷ to 15 2 241 ∷ [])
        ++ (to 24 2 241 ∷ to 31 2 241 ∷ to 41 2 241 ∷ to 56 3 241 ∷ [])
        ++ (to 3 2 244 ∷ to 6 2 244 ∷ to 10 2 244 ∷ to 15 2 244 ∷ [])
        ++ (to 24 2 244 ∷ to 31 2 244 ∷ to 41 2 244 ∷ to 56 3 244 ∷ []))
    ∷ []

unfoldable pub states_216 : List (List HuffDecode)
states_216 =
    ((to 1 2 245 ∷ to 22 3 245 ∷ to 1 2 246 ∷ to 22 3 246 ∷ [])
      ++ (to 1 2 247 ∷ to 22 3 247 ∷ to 1 2 248 ∷ to 22 3 248 ∷ [])
      ++ (to 1 2 250 ∷ to 22 3 250 ∷ to 1 2 251 ∷ to 22 3 251 ∷ [])
      ++ (to 1 2 252 ∷ to 22 3 252 ∷ to 1 2 253 ∷ to 22 3 253 ∷ []))
    ∷ ((to 2 2 245 ∷ to 9 2 245 ∷ to 23 2 245 ∷ to 40 3 245 ∷ [])
        ++ (to 2 2 246 ∷ to 9 2 246 ∷ to 23 2 246 ∷ to 40 3 246 ∷ [])
        ++ (to 2 2 247 ∷ to 9 2 247 ∷ to 23 2 247 ∷ to 40 3 247 ∷ [])
        ++ (to 2 2 248 ∷ to 9 2 248 ∷ to 23 2 248 ∷ to 40 3 248 ∷ []))
    ∷ ((to 3 2 245 ∷ to 6 2 245 ∷ to 10 2 245 ∷ to 15 2 245 ∷ [])
        ++ (to 24 2 245 ∷ to 31 2 245 ∷ to 41 2 245 ∷ to 56 3 245 ∷ [])
        ++ (to 3 2 246 ∷ to 6 2 246 ∷ to 10 2 246 ∷ to 15 2 246 ∷ [])
        ++ (to 24 2 246 ∷ to 31 2 246 ∷ to 41 2 246 ∷ to 56 3 246 ∷ []))
    ∷ ((to 3 2 247 ∷ to 6 2 247 ∷ to 10 2 247 ∷ to 15 2 247 ∷ [])
        ++ (to 24 2 247 ∷ to 31 2 247 ∷ to 41 2 247 ∷ to 56 3 247 ∷ [])
        ++ (to 3 2 248 ∷ to 6 2 248 ∷ to 10 2 248 ∷ to 15 2 248 ∷ [])
        ++ (to 24 2 248 ∷ to 31 2 248 ∷ to 41 2 248 ∷ to 56 3 248 ∷ []))
    ∷ ((to 2 2 250 ∷ to 9 2 250 ∷ to 23 2 250 ∷ to 40 3 250 ∷ [])
        ++ (to 2 2 251 ∷ to 9 2 251 ∷ to 23 2 251 ∷ to 40 3 251 ∷ [])
        ++ (to 2 2 252 ∷ to 9 2 252 ∷ to 23 2 252 ∷ to 40 3 252 ∷ [])
        ++ (to 2 2 253 ∷ to 9 2 253 ∷ to 23 2 253 ∷ to 40 3 253 ∷ []))
    ∷ ((to 3 2 250 ∷ to 6 2 250 ∷ to 10 2 250 ∷ to 15 2 250 ∷ [])
        ++ (to 24 2 250 ∷ to 31 2 250 ∷ to 41 2 250 ∷ to 56 3 250 ∷ [])
        ++ (to 3 2 251 ∷ to 6 2 251 ∷ to 10 2 251 ∷ to 15 2 251 ∷ [])
        ++ (to 24 2 251 ∷ to 31 2 251 ∷ to 41 2 251 ∷ to 56 3 251 ∷ []))
    ∷ ((to 3 2 252 ∷ to 6 2 252 ∷ to 10 2 252 ∷ to 15 2 252 ∷ [])
        ++ (to 24 2 252 ∷ to 31 2 252 ∷ to 41 2 252 ∷ to 56 3 252 ∷ [])
        ++ (to 3 2 253 ∷ to 6 2 253 ∷ to 10 2 253 ∷ to 15 2 253 ∷ [])
        ++ (to 24 2 253 ∷ to 31 2 253 ∷ to 41 2 253 ∷ to 56 3 253 ∷ []))
    ∷ ((to 0 3 254 ∷ to 227 0 0 ∷ to 229 0 0 ∷ to 230 0 0 ∷ [])
        ++ (to 233 0 0 ∷ to 234 0 0 ∷ to 236 0 0 ∷ to 237 0 0 ∷ [])
        ++ (to 241 0 0 ∷ to 242 0 0 ∷ to 244 0 0 ∷ to 245 0 0 ∷ [])
        ++ (to 248 0 0 ∷ to 249 0 0 ∷ to 251 0 0 ∷ to 252 0 0 ∷ []))
    ∷ []
