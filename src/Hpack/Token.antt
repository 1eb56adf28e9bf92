-- ===== src/Hpack/Token.antt =====
-- Sources/nghttp2/nghttp2_hd.c, lookup_token: the token of a name that the code knows. The cases of the
-- switch stand in tables: the length, the last byte, the bytes before it, and the token.
use Prim.Native.Char.{code}
use Prim.Native.String.{String}
use kitura_http.Prelude.{
  ℕ, ◌-◌, List, [], ◌∷◌, ◌++◌, Bool, true, false, ◌&&◌, Option, none, some, length, take, get_or,
  ◌==◌, if◌then◌else◌,
}

-- The bytes of an ASCII text.
abbrev pub ascii : String → List ℕ
ascii String.[] = []
ascii (String.◌∷◌ c s) = code c ∷ ascii s

-- memcmp on two arrays, whose lengths are compared too.
unfoldable pub bytes_eq : List ℕ → List ℕ → Bool
bytes_eq [] [] = true
bytes_eq (x ∷ xs) (y ∷ ys) = x == y && bytes_eq xs ys
bytes_eq xs ys = false

pub record TokenCase : Type 0 where
  pub len : ℕ
  pub last : ℕ
  pub start : List ℕ
  pub token : ℕ

abbrev known : ℕ → ℕ → String → ℕ → TokenCase
known len last start token = record { len = len; last = last; start = ascii start; token = token }

unfoldable pub short_names : List TokenCase
short_names =
    known 2 b'e' "t" 61
    ∷ known 3 b'a' "vi" 59
    ∷ known 3 b'e' "ag" 20
    ∷ known 4 b'e' "dat" 32
    ∷ known 4 b'g' "eta" 33
    ∷ known 4 b'k' "lin" 44
    ∷ known 4 b'm' "fro" 36
    ∷ known 4 b't' "hos" 37
    ∷ known 4 b'y' "var" 58
    ∷ known 5 b'e' "rang" 49
    ∷ known 5 b'h' ":pat" 3
    ∷ known 5 b'w' "allo" 21
    ∷ known 6 b'e' "cooki" 31
    ∷ known 6 b'r' "serve" 53
    ∷ known 6 b't' "accep" 18
    ∷ known 6 b't' "expec" 34
    ∷ known 7 b'd' ":metho" 1
    ∷ known 7 b'e' ":schem" 5
    ∷ known 7 b'e' "upgrad" 65
    ∷ known 7 b'h' "refres" 51
    ∷ known 7 b'r' "refere" 50
    ∷ known 7 b's' ":statu" 7
    ∷ known 7 b's' "expire" 35
    ∷ known 8 b'e' "if-rang" 41
    ∷ known 8 b'h' "if-matc" 38
    ∷ known 8 b'n' "locatio" 45
    ∷ []

unfoldable pub middle_names : List TokenCase
middle_names =
    known 10 b'e' "keep-aliv" 63
    ∷ known 10 b'e' "set-cooki" 54
    ∷ known 10 b'n' "connectio" 62
    ∷ known 10 b't' "user-agen" 57
    ∷ known 10 b'y' ":authorit" 0
    ∷ known 11 b'r' "retry-afte" 52
    ∷ known 12 b'e' "content-typ" 30
    ∷ known 12 b's' "max-forward" 46
    ∷ known 13 b'd' "last-modifie" 43
    ∷ known 13 b'e' "content-rang" 29
    ∷ known 13 b'h' "if-none-matc" 40
    ∷ known 13 b'l' "cache-contro" 23
    ∷ known 13 b'n' "authorizatio" 22
    ∷ known 13 b's' "accept-range" 17
    ∷ []

unfoldable pub long_names : List TokenCase
long_names =
    known 14 b'h' "content-lengt" 27
    ∷ known 14 b't' "accept-charse" 14
    ∷ known 15 b'e' "accept-languag" 16
    ∷ known 15 b'g' "accept-encodin" 15
    ∷ known 16 b'e' "content-languag" 26
    ∷ known 16 b'e' "www-authenticat" 60
    ∷ known 16 b'g' "content-encodin" 25
    ∷ known 16 b'n' "content-locatio" 28
    ∷ known 16 b'n' "proxy-connectio" 64
    ∷ known 17 b'e' "if-modified-sinc" 39
    ∷ known 17 b'g' "transfer-encodin" 56
    ∷ known 18 b'e' "proxy-authenticat" 47
    ∷ known 19 b'e' "if-unmodified-sinc" 42
    ∷ known 19 b'n' "content-dispositio" 24
    ∷ known 19 b'n' "proxy-authorizatio" 48
    ∷ known 25 b'y' "strict-transport-securit" 55
    ∷ known 27 b'n' "access-control-allow-origi" 19
    ∷ []

abbrev pub is_case : List ℕ → TokenCase → Bool
is_case name c =
    length name == c.len
    && (get_or name (c.len - 1) 0 == c.last && bytes_eq (take (c.len - 1) name) c.start)

unfoldable pub find_case : List ℕ → List TokenCase → Option ℕ
unfolding bytes_eq
find_case name [] = none
find_case name (c ∷ cs) =
    let rest = find_case name cs in if is_case name c then some c.token else rest

-- `none` is the return value -1.
unfoldable pub lookup_token : List ℕ → Option ℕ
unfolding find_case short_names middle_names long_names
lookup_token name = find_case name (short_names ++ (middle_names ++ long_names))
