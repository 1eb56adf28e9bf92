-- ===== src/Wire.antt =====
-- Sources/nghttp2/nghttp2_helper.c: integers in network byte order, and the downcase table.
-- A byte buffer is a list of numbers below 256. Reading past the end is undefined in C; here it
-- gives 0, and callers have a buffer that is long enough.
pub mod RoundTrip
use kitura_http.Prelude.{
  ℕ, ◌+◌, ◌-◌, ◌*◌, ◌/◌, ◌%◌, List, [], ◌∷◌, map, ◌&&◌, get_or, leb, if◌then◌else◌,
}

-- `htons` and `memcpy`: the argument is a uint16_t, so higher bits are dropped.
unfoldable pub put_uint16be : ℕ → List ℕ
put_uint16be n = (n / 256 % 256) ∷ (n % 256) ∷ []

-- `htonl` and `memcpy`: the argument is a uint32_t, so higher bits are dropped.
unfoldable pub put_uint32be : ℕ → List ℕ
put_uint32be n = (n / 16777216 % 256) ∷ (n / 65536 % 256) ∷ (n / 256 % 256) ∷ (n % 256) ∷ []

-- `memcpy` and `ntohs`, from the front of the buffer.
unfoldable pub get_uint16 : List ℕ → ℕ
get_uint16 b = get_or b 0 0 * 256 + get_or b 1 0

-- `memcpy` and `ntohl`.
unfoldable pub get_uint32 : List ℕ → ℕ
get_uint32 b = get_or b 0 0 * 16777216 + get_or b 1 0 * 65536 + get_or b 2 0 * 256 + get_or b 3 0

-- DOWNCASE_TBL: 'A' to 'Z' are moved to 'a' to 'z', every other byte stays.
unfoldable pub downcase_tbl : ℕ → ℕ
downcase_tbl c = if leb b'A' c && leb c b'Z' then c + 32 else c

-- The loop of `nghttp2_downcase` over the bytes of a name.
unfoldable pub downcase : List ℕ → List ℕ
unfolding downcase_tbl
downcase s = map downcase_tbl s
