-- ===== src/Hpack/Huffman/Tree.antt =====
-- The Huffman code of RFC 7541, appendix B, as bits: the code tree, and how a code is read off it.
use kitura_http.Prelude.{
  ℕ, zero, suc, ◌+◌, ◌/◌, ◌%◌, ◌^◌, List, [], ◌∷◌, ◌++◌, Bool, true, false, Option, none, some,
  ◌==◌, ◌≡◌,
}
use kitura_http.Hpack.Huffman.Symbols.{HuffSym, huff_sym_table}
use kitura_http.Hpack.Huffman.{symbol}

-- The lowest `n` bits of a number, the highest of them first.
unfoldable pub to_bits : ℕ → ℕ → List Bool
to_bits zero v = []
to_bits (suc n) v = (v / 2 ^ n % 2 == 1) ∷ to_bits n v

unfoldable pub code_bits : ℕ → List Bool
code_bits c = to_bits (symbol c).nbits (symbol c).code

pub data Tree : Type 0 where
  empty : Tree
  leaf : ℕ → Tree
  node : Tree → Tree → Tree

abbrev pub left : Tree → Tree
left empty = empty
left (leaf c) = empty
left (node l r) = l

abbrev pub right : Tree → Tree
right empty = empty
right (leaf c) = empty
right (node l r) = r

unfoldable pub insert : List Bool → ℕ → Tree → Tree
insert [] c t = leaf c
insert (false ∷ bs) c t = node (insert bs c (left t)) (right t)
insert (true ∷ bs) c t = node (left t) (insert bs c (right t))

unfoldable pub tree_of : ℕ → List HuffSym → Tree
unfolding insert to_bits
tree_of c [] = empty
tree_of c (s ∷ ss) = insert (to_bits s.nbits s.code) c (tree_of (c + 1) ss)

unfoldable pub code_tree : Tree
unfolding tree_of huff_sym_table
code_tree = tree_of 0 huff_sym_table

-- The symbol whose code the bits start with, and the bits behind that.
unfoldable pub read : Tree → List Bool → Option (ℕ × List Bool)
read empty bs = none
read (leaf c) bs = some (c, bs)
read (node l r) [] = none
read (node l r) (false ∷ bs) = read l bs
read (node l r) (true ∷ bs) = read r bs

pub read-append :
    (t : Tree) (bs xs : List Bool) {c : ℕ} {rest : List Bool}
    → read t bs ≡ some (c, rest)
    → read t (bs ++ xs) ≡ some (c, rest ++ xs)
unfolding read
read-append empty bs xs h = cc
read-append (leaf c) bs xs h = cc
read-append (node l r) [] xs h = cc
read-append (node l r) (false ∷ bs) xs h = read-append l bs xs h
read-append (node l r) (true ∷ bs) xs h = read-append r bs xs h
