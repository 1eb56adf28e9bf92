-- ===== src/Hpack/Huffman/Encode/Merge.antt =====
-- The bits of a byte that is put together from parts, and of the bytes of a long code.
use Prim.Native.Nat.{bit_or}
use kitura_http.Prelude.{
  ℕ, suc, ◌-◌, ◌*◌, ◌/◌, ◌^◌, ◌≤◌, ◌<◌, List, [], ◌++◌, Bool, true, false, ◌&&◌, ◌==◌, ◌≡◌, refl,
  ltb, leb, if◌then◌else◌, &&_split, ltb→lt, leb→le, ==_iff, passes, passes-at, arith,
}
use kitura_http.Hpack.Huffman.{symbol}
use kitura_http.Hpack.Huffman.Symbols.{huff_sym_table}
use kitura_http.Hpack.Huffman.Tree.{to_bits, code_bits}
use kitura_http.Hpack.Huffman.Checked.{same_bits}
use kitura_http.Hpack.Huffman.Facts.{same_bits-eq}
use kitura_http.Hpack.Huffman.Encode.{uint8, less, aligned}

-- `g` in the high bits, and `n` bits `v` behind it, which leave `rem - n` of the bits unfilled.
abbrev pub merged : ℕ → ℕ → ℕ → ℕ → ℕ
merged rem n g v = bit_or (g * 2 ^ rem) (uint8 (v * 2 ^ (rem - n)))

-- A byte whose low `k` bits are unfilled, with the bits `bs` in the others.
pub record Filled (k h : ℕ) (bs : List Bool) : Type 0 where
  pub high : ℕ
  pub byte : h ≡ high * 2 ^ k
  pub fits : high < 2 ^ (8 - k)
  pub bits : to_bits (8 - k) high ≡ bs

filled_test : ℕ → ℕ → List Bool → Bool
filled_test k h bs =
    let high = h / 2 ^ k in
    (h == high * 2 ^ k) && (ltb high (2 ^ (8 - k)) && same_bits (to_bits (8 - k) high) bs)

filled : (k h : ℕ) (bs : List Bool) → filled_test k h bs ≡ true → Filled k h bs
unfolding filled_test
filled k h bs t =
    let whole = &&_split (h == h / 2 ^ k * 2 ^ k) _ t in
    let parts = &&_split (ltb (h / 2 ^ k) (2 ^ (8 - k))) _ whole.1 in
    record {
      high = h / 2 ^ k;
      byte = (==_iff _ _).0 whole.0;
      fits = ltb→lt _ _ parts.0;
      bits = same_bits-eq _ _ parts.1;
    }

merge_test : ℕ → ℕ → ℕ → ℕ → Bool
merge_test rem n g v = filled_test (rem - n) (merged rem n g v) (to_bits (8 - rem) g ++ to_bits n v)

abbrev values_test : ℕ → ℕ → ℕ → Bool
values_test rem n g = passes (merge_test rem n g) (2 ^ n)

abbrev highs_test : ℕ → ℕ → Bool
highs_test rem n = passes (values_test rem n) (2 ^ (8 - rem))

abbrev counts_test : ℕ → Bool
counts_test rem = passes (highs_test rem) (suc rem)

merge_tested : passes counts_test 9 ≡ true
unfolding passes merge_test filled_test same_bits to_bits
merge_tested = refl

pub merge_bits :
    (rem n g v : ℕ)
    → rem < 9
    → n ≤ rem
    → g < 2 ^ (8 - rem)
    → v < 2 ^ n
    → Filled (rem - n) (merged rem n g v) (to_bits (8 - rem) g ++ to_bits n v)
unfolding merge_test
merge_bits rem n g v hr hn hg hv =
    let counts = passes-at counts_test 9 hr merge_tested in
    let highs = passes-at (highs_test rem) (suc rem) {k = n} (omega arith) counts in
    let values = passes-at (values_test rem n) (2 ^ (8 - rem)) hg highs in
    filled _ _ _ (passes-at (merge_test rem n g) (2 ^ n) hv values)

abbrev pub bits_above : ℕ → ℕ → ℕ → List Bool
bits_above k n code = if ltb k n then to_bits 8 (uint8 (code / 2 ^ k)) else []

abbrev pub last_bits : ℕ → ℕ
last_bits n = less 8 (less 16 (less 24 n))

-- The whole bytes that a long code is cut into; the last byte stands behind them.
abbrev pub whole_bits : ℕ → ℕ → List Bool
whole_bits n code =
    bits_above 24 n code
    ++ (bits_above 16 (less 24 n) code ++ bits_above 8 (less 16 (less 24 n)) code)

-- The last byte of a long code, and the bits of it that are filled.
abbrev pub last_byte : ℕ → ℕ → List Bool
last_byte n code = to_bits (last_bits n) (uint8 code / 2 ^ (8 - last_bits n))

long_test : ℕ → ℕ → Bool
long_test c rem =
    let n = (symbol c).nbits in
    let v = (symbol c).code in
    let k = n - rem in
    let code = aligned k v in
    if leb n rem
    then true
    else (ltb (v / 2 ^ k) (2 ^ rem) && (ltb 0 (last_bits k) && leb (last_bits k) 8))
      && (filled_test (8 - last_bits k) (uint8 code) (last_byte k code)
          && same_bits (code_bits c)
              (to_bits rem (v / 2 ^ k) ++ (whole_bits k code ++ last_byte k code)))

abbrev rems_test : ℕ → Bool
rems_test c = passes (long_test c) 9

long_tested : passes rems_test 257 ≡ true
unfolding passes long_test filled_test same_bits to_bits code_bits symbol huff_sym_table
long_tested = refl

-- A code that does not fit into the `rem` bits that are left.
pub record Long (c rem k code : ℕ) : Type 0 where
  pub first_fits : (symbol c).code / 2 ^ k < 2 ^ rem
  pub last_in : (0 < last_bits k) × (last_bits k ≤ 8)
  pub last_filled : Filled (8 - last_bits k) (uint8 code) (last_byte k code)
  pub all_bits :
      code_bits c ≡ to_bits rem ((symbol c).code / 2 ^ k) ++ (whole_bits k code ++ last_byte k code)

pub code-Long :
    (c rem : ℕ)
    → c < 257
    → rem < 9
    → leb (symbol c).nbits rem ≡ false
    → Long c rem ((symbol c).nbits - rem) (aligned ((symbol c).nbits - rem) (symbol c).code)
unfolding long_test
code-Long c rem hc hr more =
    let a = passes-at rems_test 257 hc long_tested in
    let k = (symbol c).nbits - rem in
    let b = rw more at (passes-at (long_test c) 9 hr a) in
    let p =
      &&_split
        (ltb ((symbol c).code / 2 ^ k) (2 ^ rem) && (ltb 0 (last_bits k) && leb (last_bits k) 8)) _
        b in
    let q = &&_split (ltb ((symbol c).code / 2 ^ k) (2 ^ rem)) _ p.0 in
    let r = &&_split (ltb 0 (last_bits k)) _ q.1 in
    let s = &&_split (filled_test _ _ _) _ p.1 in
    record {
      first_fits = ltb→lt _ _ q.0;
      last_in = (ltb→lt _ _ r.0, leb→le _ _ r.1);
      last_filled = filled _ _ _ s.0;
      all_bits = same_bits-eq _ _ s.1;
    }

short_test : ℕ → Bool
short_test c = let n = (symbol c).nbits in (ltb 0 n && leb n 30) && ltb (symbol c).code (2 ^ n)

short_tested : passes short_test 257 ≡ true
unfolding passes short_test symbol huff_sym_table
short_tested = refl

pub code_fits :
    (c : ℕ)
    → c < 257
    → (0 < (symbol c).nbits) × ((symbol c).nbits ≤ 30) × ((symbol c).code < 2 ^ (symbol c).nbits)
unfolding short_test
code_fits c h =
    let t = passes-at short_test 257 h short_tested in
    let p = &&_split (ltb 0 (symbol c).nbits && leb (symbol c).nbits 30) _ t in
    let q = &&_split (ltb 0 (symbol c).nbits) _ p.0 in
    (ltb→lt _ _ q.0, leb→le _ _ q.1, ltb→lt _ _ p.1)
