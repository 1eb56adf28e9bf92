-- ===== src/Hpack/Huffman/Parse.antt =====
-- Texts of codes: the bits of a list of symbols, and of bytes, and how they are told apart.
use kitura_http.Prelude.{
  ℕ, ◌<◌, List, [], ◌∷◌, ◌++◌, Bool, none, some, ◌≡◌, ◌≢◌, refl, sym, ap, ap₂, ◌∙◌, All, arith,
}
use mathlib.Core.List.{append_assoc}
use kitura_http.Hpack.Huffman.Tree.{to_bits, code_bits, code_tree, read, read-append}
use kitura_http.Hpack.Huffman.Facts.{code_read}

unfoldable pub codes : List ℕ → List Bool
codes [] = []
codes (c ∷ cs) = code_bits c ++ codes cs

unfoldable pub byte_bits : List ℕ → List Bool
byte_bits [] = []
byte_bits (x ∷ xs) = to_bits 8 x ++ byte_bits xs

pub codes-append : (xs ys : List ℕ) → codes (xs ++ ys) ≡ codes xs ++ codes ys
unfolding codes
codes-append [] ys = refl
codes-append (x ∷ xs) ys =
    rw (codes-append xs ys) (sym (append_assoc (code_bits x) (codes xs) (codes ys)))

pub byte_bits-append : (xs ys : List ℕ) → byte_bits (xs ++ ys) ≡ byte_bits xs ++ byte_bits ys
unfolding byte_bits
byte_bits-append [] ys = refl
byte_bits-append (x ∷ xs) ys =
    rw (byte_bits-append xs ys) (sym (append_assoc (to_bits 8 x) (byte_bits xs) (byte_bits ys)))

abbrev pub IsSymbol : ℕ → Type 0
IsSymbol c = c < 257

read_code :
    (c : ℕ) (xs : List Bool) → IsSymbol c → read code_tree (code_bits c ++ xs) ≡ some (c, xs)
read_code c xs h = read-append code_tree (code_bits c) xs (code_read c h)

first_code :
    (c : ℕ) (cs : List ℕ) (p : List Bool)
    → IsSymbol c
    → read code_tree (codes (c ∷ cs) ++ p) ≡ some (c, codes cs ++ p)
unfolding codes
first_code c cs p h =
    ap (read code_tree) (append_assoc (code_bits c) (codes cs) p) ∙ read_code c (codes cs ++ p) h

-- What starts with no code cannot be continued to a code, so a text has one parse.
pub parse_unique :
    (xs ys : List ℕ) (p q : List Bool)
    → All IsSymbol xs
    → All IsSymbol ys
    → read code_tree p ≡ none
    → read code_tree q ≡ none
    → codes xs ++ p ≡ codes ys ++ q
    → (xs ≡ ys) × (p ≡ q)
unfolding codes
parse_unique [] [] p q hx hy hp hq e = (refl, e)
parse_unique [] (y ∷ ys) p q hx hy hp hq e =
    let r = sym hp ∙ ap (read code_tree) e ∙ first_code y ys q hy.0 in cc
parse_unique (x ∷ xs) [] p q hx hy hp hq e =
    let r = sym hq ∙ ap (read code_tree) (sym e) ∙ first_code x xs p hx.0 in cc
parse_unique (x ∷ xs) (y ∷ ys) p q hx hy hp hq e =
    let r = sym (first_code x xs p hx.0) ∙ ap (read code_tree) e ∙ first_code y ys q hy.0 in
    let rest = parse_unique xs ys p q hx.1 hy.1 hp hq (cc r) in
    let head : x ≡ y = cc r in (ap₂ ◌∷◌ head rest.0, rest.1)

-- A text of bytes does not hold the code of EOS.
pub not_eos :
    (xs ys : List ℕ) (p q : List Bool) {tail : List Bool}
    → All IsSymbol xs
    → All (λ y. y < 256) ys
    → read code_tree p ≡ some (256, tail)
    → read code_tree q ≡ none
    → codes xs ++ p ≢ codes ys ++ q
unfolding read codes
not_eos [] [] p q hx hy hp hq e = let r = sym hp ∙ ap (read code_tree) e ∙ hq in cc
not_eos [] (y ∷ ys) p q {tail} hx hy hp hq e =
    let r = sym hp ∙ ap (read code_tree) e ∙ first_code y ys q (omega arith) in
    let same : 256 ≡ y = cc r in omega arith
not_eos (x ∷ xs) [] p q hx hy hp hq e =
    let r = sym hq ∙ ap (read code_tree) (sym e) ∙ first_code x xs p hx.0 in cc
not_eos (x ∷ xs) (y ∷ ys) p q hx hy hp hq e =
    let r =
      sym (first_code x xs p hx.0) ∙ ap (read code_tree) e ∙ first_code y ys q (omega arith) in
    not_eos xs ys p q hx.1 hy.1 hp hq (cc r)
