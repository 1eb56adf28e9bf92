-- ===== src/Hpack/Huffman/Facts.antt =====
-- huff_decode_table beside huff_sym_table: what the tests of its entries mean.
use kitura_http.Prelude.{
  ℕ, ◌<◌, List, [], ◌∷◌, ◌++◌, Bool, true, false, Option, none, some, ltb, ◌==◌, ◌≡◌, refl, sym,
  get_or, length, if◌then◌else◌, arith, &&_split, ltb→lt, ==_iff, ap₂, replicate,
}
use kitura_http.Hpack.Huffman.Symbols.{bits_of, huff_sym_table}
use kitura_http.Hpack.Huffman.Nodes.{nodes}
use kitura_http.Hpack.Huffman.Table.Entry.{HuffDecode, to}
use kitura_http.Hpack.Huffman.Table.All.{huff_decode_table}
use kitura_http.Hpack.Huffman.{transition, accepted, has_sym, fails, symbol}
use kitura_http.Hpack.Huffman.Tree.{to_bits, code_bits, code_tree, read}
use kitura_http.Hpack.Huffman.Checked.{
  node_bits, same_bit, same_bits, all_set, is_padding, reads_whole, reads_sym, reads_none,
  entry_test, all_from-zero, row_test, rows_tested, code_test, codes_tested, node_test,
  nodes_tested,
}

pub same_bits-eq : (xs ys : List Bool) → same_bits xs ys ≡ true → xs ≡ ys
unfolding same_bits
same_bits-eq [] [] h = refl
same_bits-eq [] (y ∷ ys) h = cc
same_bits-eq (x ∷ xs) [] h = cc
same_bits-eq (true ∷ xs) (true ∷ ys) h = ap₂ ◌∷◌ refl (same_bits-eq xs ys h)
same_bits-eq (false ∷ xs) (false ∷ ys) h = ap₂ ◌∷◌ refl (same_bits-eq xs ys h)
same_bits-eq (true ∷ xs) (false ∷ ys) h = cc
same_bits-eq (false ∷ xs) (true ∷ ys) h = cc

same_bit-eq : (x y : Bool) → same_bit x y ≡ true → x ≡ y
same_bit-eq true y h = sym h
same_bit-eq false true h = cc
same_bit-eq false false h = refl

reads_whole-eq : (c : ℕ) (r : Option (ℕ × List Bool)) → reads_whole c r ≡ true → r ≡ some (c, [])
reads_whole-eq c none h = cc
reads_whole-eq c (some (d, [])) h = ground (arith, ==_iff c d)
reads_whole-eq c (some (d, b ∷ bs)) h = cc

reads_sym-eq :
    (c : ℕ) (r : Option (ℕ × List Bool))
    → reads_sym c r ≡ true
    → (rest : List Bool) × (r ≡ some (c, rest))
reads_sym-eq c none h = cc
reads_sym-eq c (some (d, rest)) h = (rest, ground (arith, ==_iff c d))

pub reads_none-eq : (r : Option (ℕ × List Bool)) → reads_none r ≡ true → r ≡ none
reads_none-eq none h = refl
reads_none-eq (some r) h = cc

all_set-eq : (bs : List Bool) → all_set bs ≡ true → bs ≡ replicate (length bs) true
unfolding all_set
all_set-eq [] h = refl
all_set-eq (true ∷ bs) h = ap₂ ◌∷◌ refl (all_set-eq bs h)
all_set-eq (false ∷ bs) h = cc

pub is_padding-eq :
    (bs : List Bool) → is_padding bs ≡ true → (bs ≡ replicate (length bs) true) × (length bs < 8)
unfolding is_padding
is_padding-eq bs h =
    let both = &&_split (all_set bs) _ h in (all_set-eq bs both.0, ltb→lt _ _ both.1)

rows : length huff_decode_table ≡ 256
unfolding huff_decode_table
rows = refl

entry_tested :
    (s half : ℕ) → s < 256 → half < 16 → entry_test (node_bits s) half (transition s half) ≡ true
unfolding transition row_test
entry_tested s half hs hh =
    let row = get_or huff_decode_table s [] in
    let t = all_from-zero row_test [] huff_decode_table s rows_tested (rw rows hs) in
    let both = &&_split (length row == 16) _ t in
    let wide = (==_iff (length row) 16).0 both.0 in
    all_from-zero (entry_test (node_bits s)) (to 0 0 0) row half both.1 (rw wide hh)

symbols : length huff_sym_table ≡ 257
unfolding huff_sym_table
symbols = refl

node_number : length nodes ≡ 256
unfolding nodes
node_number = refl

pub code_read : (c : ℕ) → c < 257 → read code_tree (code_bits c) ≡ some (c, [])
unfolding code_bits symbol code_test
code_read c h =
    reads_whole-eq c _
      (all_from-zero code_test (bits_of 0 0) huff_sym_table c codes_tested (rw symbols h))

pub node_unread : (s : ℕ) → s < 256 → read code_tree (node_bits s) ≡ none
unfolding node_bits node_test
node_unread s h =
    reads_none-eq _ (all_from-zero node_test (bits_of 0 0) nodes s nodes_tested (rw node_number h))

-- An entry that does not fail accounts for the bits of its state and of the half byte.
pub record Accounts (s half : ℕ) (t : HuffDecode) : Type 0 where
  pub bits :
      node_bits s ++ to_bits 4 half
      ≡ (if has_sym t then code_bits t.sym else []) ++ node_bits t.state
  pub final : accepted t ≡ is_padding (node_bits t.state)
  pub state_in : t.state < 256
  pub sym_in : t.sym < 256

pub accounts :
    (s half : ℕ)
    → s < 256
    → half < 16
    → fails (transition s half) ≡ false
    → Accounts s half (transition s half)
unfolding entry_test
accounts s half hs hh fine =
    let t = transition s half in
    let good = rw fine at (entry_tested s half hs hh) in
    let bits = &&_split (same_bits _ _) _ good in
    let last = &&_split (same_bit (accepted t) (is_padding (node_bits t.state))) _ bits.1 in
    let range = &&_split (ltb _ _) _ last.1 in
    record {
      bits = same_bits-eq _ _ bits.0;
      final = same_bit-eq (accepted t) (is_padding (node_bits t.state)) last.0;
      state_in = ltb→lt _ _ range.0;
      sym_in = ltb→lt _ _ range.1;
    }

-- An entry that fails has read the code of EOS.
pub fails_eos :
    (s half : ℕ)
    → s < 256
    → half < 16
    → fails (transition s half) ≡ true
    → (rest : List Bool) × (read code_tree (node_bits s ++ to_bits 4 half) ≡ some (256, rest))
unfolding entry_test
fails_eos s half hs hh bad = reads_sym-eq 256 _ (rw bad at (entry_tested s half hs hh))
