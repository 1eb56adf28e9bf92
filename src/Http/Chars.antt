-- ===== src/Http/Chars.antt =====
-- Sources/nghttp2/nghttp2_helper.c and nghttp2_http.c: which bytes a name and a value may hold.
use kitura_http.Prelude.{
  ℕ, ◌+◌, List, [], ◌∷◌, Bool, true, false, ◌&&◌, ◌||◌, leb, ◌==◌, length, if◌then◌else◌,
}

abbrev pub between : ℕ → ℕ → ℕ → Bool
between lo c hi = leb lo c && leb c hi

abbrev pub is_upper : ℕ → Bool
is_upper c = between b'A' c b'Z'

abbrev pub is_lower : ℕ → Bool
is_lower c = between b'a' c b'z'

abbrev pub is_digit : ℕ → Bool
is_digit c = between b'0' c b'9'

-- VALID_HD_NAME_CHARS: '!', '#' to ''', '*', '+', '-', '.', digits, '^' to 'z', '|' and '~'.
unfoldable pub valid_name_char : ℕ → Bool
valid_name_char c =
    (c == 0x21 || between 0x23 c 0x27)
    || ((between 0x2a c 0x2b || between 0x2d c 0x2e)
        || (is_digit c || (between 0x5e c 0x7a || (c == 0x7c || c == 0x7e))))

-- VALID_HD_VALUE_CHARS: a tab, and all but the control characters.
unfoldable pub valid_value_char : ℕ → Bool
valid_value_char c = c == 0x09 || (between 0x20 c 0x7e || between 0x80 c 0xff)

-- VALID_AUTHORITY_CHARS: '!', '$' to '.', '0' to ';', '=', '@' to '[', ']', '_', 'a' to 'z' and '~'.
unfoldable pub valid_authority_char : ℕ → Bool
valid_authority_char c =
    (c == 0x21 || between 0x24 c 0x2e)
    || ((between 0x30 c 0x3b || c == 0x3d)
        || ((between 0x40 c 0x5b || c == 0x5d) || (c == 0x5f || (is_lower c || c == 0x7e))))

abbrev pub all : (ℕ → Bool) → List ℕ → Bool
all f [] = true
all f (c ∷ cs) = let rest = all f cs in if f c then rest else false

-- nghttp2_check_header_name: a leading ':' is left out, but it may not stand alone.
unfoldable pub check_header_name : List ℕ → Bool
unfolding valid_name_char
check_header_name [] = false
check_header_name (c ∷ []) = if c == b':' then false else all valid_name_char (c ∷ [])
check_header_name (c ∷ d ∷ cs) =
    if c == b':' then all valid_name_char (d ∷ cs) else all valid_name_char (c ∷ d ∷ cs)

-- nghttp2_check_header_value.
unfoldable pub check_header_value : List ℕ → Bool
unfolding valid_value_char
check_header_value value = all valid_value_char value

unfoldable pub check_authority : List ℕ → Bool
unfolding valid_authority_char
check_authority value = all valid_authority_char value

abbrev pub scheme_char : ℕ → Bool
scheme_char c =
    (is_upper c || is_lower c) || (is_digit c || (c == b'+' || (c == b'-' || c == b'.')))

unfoldable pub check_scheme : List ℕ → Bool
check_scheme [] = false
check_scheme (c ∷ cs) = if is_upper c || is_lower c then all scheme_char cs else false

-- `downcase` and `memieq` of nghttp2_http.c, on two arrays of the same length.
abbrev downcase_char : ℕ → ℕ
downcase_char c = if is_upper c then c + 32 else c

unfoldable pub memieq : List ℕ → List ℕ → Bool
memieq (x ∷ xs) (y ∷ ys) =
    let rest = memieq xs ys in if downcase_char x == downcase_char y then rest else false
memieq _ _ = true

-- lstrieq, and lstreq of nghttp2_helper.h.
unfoldable pub lstrieq : List ℕ → List ℕ → Bool
unfolding memieq
lstrieq a b = length a == length b && memieq a b

unfoldable pub lstreq : List ℕ → List ℕ → Bool
lstreq [] [] = true
lstreq (x ∷ xs) (y ∷ ys) = let rest = lstreq xs ys in if x == y then rest else false
lstreq _ _ = false

-- lws: nothing but spaces and tabs.
unfoldable pub lws : List ℕ → Bool
lws s = all (λ c. c == b' ' || c == 0x09) s
