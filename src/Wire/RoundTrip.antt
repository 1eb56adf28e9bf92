-- ===== src/Wire/RoundTrip.antt =====
-- Numbers and their bytes in network order, and downcasing.
use kitura_http.Prelude.{ℕ, ◌≡◌, refl, ap₂, List, [], ◌∷◌, ◌++◌, arith, All, IsByte, IsU16, IsU32}
use kitura_http.Wire.{put_uint16be, put_uint32be, get_uint16, get_uint32, downcase_tbl, downcase}

pub get_uint16-put_uint16be :
    (n : ℕ) (rest : List ℕ) → IsU16 n → get_uint16 (put_uint16be n ++ rest) ≡ n
unfolding get_uint16 put_uint16be
get_uint16-put_uint16be n rest h = omega arith

-- Reading four bytes gives back the 32-bit number that was written, whatever follows.
pub get_uint32-put_uint32be :
    (n : ℕ) (rest : List ℕ) → IsU32 n → get_uint32 (put_uint32be n ++ rest) ≡ n
unfolding get_uint32 put_uint32be
get_uint32-put_uint32be n rest h = omega arith

pub put_uint32be-IsByte : (n : ℕ) → All IsByte (put_uint32be n)
unfolding put_uint32be
put_uint32be-IsByte n = omega arith

pub put_uint16be-IsByte : (n : ℕ) → All IsByte (put_uint16be n)
unfolding put_uint16be
put_uint16be-IsByte n = omega arith

downcase_tbl_twice : (c : ℕ) → downcase_tbl (downcase_tbl c) ≡ downcase_tbl c
unfolding downcase_tbl
downcase_tbl_twice c = ground arith

pub downcase_twice : (s : List ℕ) → downcase (downcase s) ≡ downcase s
unfolding downcase
downcase_twice [] = refl
downcase_twice (c ∷ s) = ap₂ (◌∷◌) (unfold downcase_tbl in downcase_tbl_twice c) (downcase_twice s)
