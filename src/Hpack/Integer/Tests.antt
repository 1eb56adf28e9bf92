-- ===== src/Hpack/Integer/Tests.antt =====
-- The examples of RFC 7541, C.1, and the theorems at them.
use kitura_http.Prelude.{◌≡◌, refl, [], ◌∷◌, false, none, some}
use kitura_http.Hpack.Integer.{encode_length, decode_length}

encode_1337 : encode_length 0 1337 5 ≡ 31 ∷ 154 ∷ 10 ∷ []
unfolding encode_length
encode_1337 = refl

-- The bits above the prefix stay.
encode_10 : encode_length 0xe0 10 5 ≡ 0xea ∷ []
unfolding encode_length
encode_10 = refl

-- An integer that is cut off is not final, and one above 2^32 - 1 is refused.
decode_cut :
    decode_length 0 0 (31 ∷ 154 ∷ []) 5
    ≡ some (record { res = 57; shift = 7; fin = false; consumed = 2 })
unfolding decode_length
decode_cut = refl

decode_too_large : decode_length 0 0 (31 ∷ 255 ∷ 255 ∷ 255 ∷ 255 ∷ 31 ∷ []) 5 ≡ none
unfolding decode_length
decode_too_large = refl
