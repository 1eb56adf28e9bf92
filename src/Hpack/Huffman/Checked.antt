-- ===== src/Hpack/Huffman/Checked.antt =====
-- huff_decode_table beside huff_sym_table: a Boolean test of each entry, and the runs of the tests.
use kitura_http.Prelude.{
  ℕ, zero, suc, ◌+◌, ◌<◌, List, [], ◌∷◌, ◌++◌, Bool, true, false, ◌&&◌, not, Option, none, some,
  ltb, ◌==◌, ◌≡◌, refl, get_or, length, if◌then◌else◌, arith, &&_split,
}
use kitura_http.Hpack.Huffman.Symbols.{bits_of, HuffSym, huff_sym_table}
use kitura_http.Hpack.Huffman.Nodes.{nodes}
use kitura_http.Hpack.Huffman.Table.Entry.{HuffDecode}
use kitura_http.Hpack.Huffman.Table.All.{huff_decode_table}
use kitura_http.Hpack.Huffman.{accepted, has_sym, fails, symbol}
use kitura_http.Hpack.Huffman.Tree.{to_bits, code_bits, code_tree, read}

unfoldable pub node_bits : ℕ → List Bool
unfolding nodes
node_bits s = let n = get_or nodes s (bits_of 0 0) in to_bits n.nbits n.code

abbrev pub same_bit : Bool → Bool → Bool
same_bit true b = b
same_bit false b = not b

unfoldable pub same_bits : List Bool → List Bool → Bool
same_bits [] [] = true
same_bits (x ∷ xs) (y ∷ ys) = same_bit x y && same_bits xs ys
same_bits xs ys = false

unfoldable pub all_set : List Bool → Bool
all_set [] = true
all_set (b ∷ bs) = b && all_set bs

-- At most seven bits, all of them set.
unfoldable pub is_padding : List Bool → Bool
unfolding all_set
is_padding bs = all_set bs && ltb (length bs) 8

abbrev pub reads_whole : ℕ → Option (ℕ × List Bool) → Bool
reads_whole c (some (d, [])) = c == d
reads_whole c r = false

abbrev pub reads_sym : ℕ → Option (ℕ × List Bool) → Bool
reads_sym c (some (d, rest)) = c == d
reads_sym c none = false

abbrev pub reads_none : Option (ℕ × List Bool) → Bool
reads_none none = true
reads_none (some r) = false

-- The bits of an entry's symbol and of its new state are those of the old state and the half byte.
unfoldable pub entry_test : List Bool → ℕ → HuffDecode → Bool
entry_test node half t =
    if fails t
    then reads_sym 256 (read code_tree (node ++ to_bits 4 half))
    else same_bits (node ++ to_bits 4 half)
        ((if has_sym t then code_bits t.sym else []) ++ node_bits t.state)
      && (same_bit (accepted t) (is_padding (node_bits t.state))
          && (ltb t.state 256 && ltb t.sym 256))

-- A test of every element and its position, from `k` on.
unfoldable pub all_from {ℓ} : {A : Type ℓ} → (ℕ → A → Bool) → ℕ → List A → Bool
all_from f k [] = true
all_from f k (x ∷ xs) = f k x && all_from f (suc k) xs

all_from-get_or {ℓ} :
    {A : Type ℓ} (f : ℕ → A → Bool) (d : A) (k : ℕ) (xs : List A) (i : ℕ)
    → all_from f k xs ≡ true
    → i < length xs
    → f (k + i) (get_or xs i d) ≡ true
unfolding all_from
all_from-get_or f d k [] i h l = absurd (omega arith)
all_from-get_or f d k (x ∷ xs) zero h l =
    let e : k + 0 ≡ k = omega arith in rw e (&&_split (f k x) _ h).0
all_from-get_or f d k (x ∷ xs) (suc i) h l =
    let e : k + suc i ≡ suc k + i = omega arith in
    rw e (all_from-get_or f d (suc k) xs i (&&_split (f k x) _ h).1 (omega arith))

pub all_from-zero {ℓ} :
    {A : Type ℓ} (f : ℕ → A → Bool) (d : A) (xs : List A) (i : ℕ)
    → all_from f 0 xs ≡ true
    → i < length xs
    → f i (get_or xs i d) ≡ true
all_from-zero f d xs i h l =
    let e : 0 + i ≡ i = omega arith in rw e at (all_from-get_or f d 0 xs i h l)

unfoldable pub row_test : ℕ → List HuffDecode → Bool
row_test s row = (length row == 16) && all_from (entry_test (node_bits s)) 0 row

pub rows_tested : all_from row_test 0 huff_decode_table ≡ true
unfolding all_from row_test huff_decode_table entry_test code_bits node_bits same_bits is_padding
    to_bits read code_tree symbol huff_sym_table
rows_tested = refl

unfoldable pub code_test : ℕ → HuffSym → Bool
code_test c s = reads_whole c (read code_tree (to_bits s.nbits s.code))

pub codes_tested : all_from code_test 0 huff_sym_table ≡ true
unfolding all_from code_test huff_sym_table to_bits read code_tree
codes_tested = refl

unfoldable pub node_test : ℕ → HuffSym → Bool
node_test s n = reads_none (read code_tree (to_bits n.nbits n.code))

pub nodes_tested : all_from node_test 0 nodes ≡ true
unfolding all_from node_test nodes to_bits read code_tree
nodes_tested = refl
