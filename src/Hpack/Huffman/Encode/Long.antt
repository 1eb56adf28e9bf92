-- ===== src/Hpack/Huffman/Encode/Long.antt =====
-- The bytes of a code behind the first, on the slow and on the fast path of huff_encode_sym.
use mathlib.Core.List.{append_assoc, append-nil}
use kitura_http.Prelude.{
  ℕ, suc, ◌+◌, ◌-◌, ◌/◌, ◌^◌, ◌≤◌, ◌<◌, ◌≡◌, ◌⊎◌, inl, inr, refl, List, ◌++◌, Bool, false, ltb,
  ◌==◌, arith, IsByte, Bool-cases, if◌then◌else◌, ==_iff,
}
use kitura_http.Buf.{Status}
use kitura_http.Hpack.Huffman.Tree.{to_bits}
use kitura_http.Hpack.Huffman.Encode.{HuffOut, ◌>>=◌, uint8, less, above, leaves, long_code}
use kitura_http.Hpack.Huffman.Encode.Merge.{Filled, bits_above, last_bits, last_byte, whole_bits}
use kitura_http.Hpack.Huffman.Encode.State.{Post, Post-bind, Chain, Held}

-- A chain of whole bytes, or one whose last byte has `rembits` bits unfilled.
pub record Full (base : List ℕ) (bits : List Bool) (o : HuffOut) : Type 0 where
  pub chain : Chain base bits o.bufs
  pub rem : o.rembits ≡ 8
  pub avail : o.avail ≡ o.bufs.cur.avail

pub record Part (base : List ℕ) (bits : List Bool) (o : HuffOut) : Type 0 where
  pub whole : List Bool
  pub byte : ℕ
  pub filled_bits : List Bool
  pub held : Held base whole byte o
  pub rem_in : (0 < o.rembits) × (o.rembits < 9)
  pub avail : o.avail ≡ o.bufs.cur.avail
  pub filled : Filled o.rembits byte filled_bits
  pub parsed : whole ++ filled_bits ≡ bits

abbrev pub After : List ℕ → List Bool → HuffOut → Type 0
After base bits o = Full base bits o ⊎ (Part base bits o × (o.rembits < 8))

uint8-IsByte : (n : ℕ) → IsByte (uint8 n)
uint8-IsByte n = omega arith

more : ℕ → ℕ → ℕ
more k n = if ltb k n then 1 else 0

puts_needed :
    (n : ℕ)
    → (0 < n) × (n ≤ 32)
    → more 24 n + (more 16 (less 24 n) + (more 8 (less 16 (less 24 n)) + 1)) ≡ (n + 7) / 8
unfolding more
puts_needed n h = ground arith

eight_bits : (n x : ℕ) → n ≡ 8 → to_bits n (x / 2 ^ (8 - n)) ≡ to_bits 8 x
eight_bits n x e = let one : x / 1 ≡ x = omega arith in rw (e, one) refl

regroup :
    (bits a b c d : List Bool) → (((bits ++ a) ++ b) ++ c) ++ d ≡ bits ++ ((a ++ (b ++ c)) ++ d)
regroup bits a b c d = simp append_assoc

-- What is held behind whole bytes, once `rembits` is set.
pub after-Held :
    (base : List ℕ) (n b : ℕ) {bs : List Bool} (bits : List Bool) (o : HuffOut)
    → (0 < n) × (n ≤ 8)
    → (n == 8) ≡ false
    → Filled (8 - n) b bs
    → Held base bits b o
    → Part base (bits ++ bs) (leaves (8 - n) o).0 × (8 - n < 8)
after-Held base n b {bs} bits o range short f q = (
  record {
    whole = bits;
    byte = b;
    filled_bits = bs;
    held = record { chain = q.chain; held = q.held; room = q.room };
    rem_in = ground arith;
    avail = refl;
    filled = f;
    parsed = refl;
  },
  let r = range.0 in omega arith,
)

-- `P k` says that `put` may be called `k` times more.
module _ (base : List ℕ) (P : ℕ → List Bool → HuffOut → Type 0)
    (put hold : HuffOut → ℕ → HuffOut × Status)
    (put_lem : (k : ℕ) (bits : List Bool) (o : HuffOut) (b : ℕ)
      → IsByte b
      → P (suc k) bits o
      → Post (P k (bits ++ to_bits 8 b)) (put o b))
    (hold_lem : (bits : List Bool) (o : HuffOut) (b : ℕ)
      → P 1 bits o
      → Post (Held base bits b) (hold o b))
    (chain_of : (k : ℕ) (bits : List Bool) (o : HuffOut)
      → P k bits o
      → Chain base bits o.bufs) where
  above_lem :
      (k n code j : ℕ) (bits : List Bool) (o : HuffOut)
      → P (more k n + j) bits o
      → Post (P j (bits ++ bits_above k n code)) (above put k n code o)
  unfolding more
  above_lem k n code j bits o p = elim (Bool-cases (ltb k n)) [
    | inl big ↦
        let e : 1 + j ≡ suc j = omega arith in
        rw big (put_lem j bits o _ (uint8-IsByte _) (rw e at (rw big at p)))
    | inr small ↦
        let e : 0 + j ≡ j = omega arith in rw (small, append-nil bits) (rw e at (rw small at p))
  ]

  last_lem :
      (n code : ℕ) (bits : List Bool) (o : HuffOut)
      → (0 < n) × (n ≤ 8)
      → Filled (8 - n) (uint8 code) (to_bits n (uint8 code / 2 ^ (8 - n)))
      → P 1 bits o
      → Post (After base (bits ++ to_bits n (uint8 code / 2 ^ (8 - n)))) (
          if n == 8
          then put o (uint8 code) >>= leaves 8
          else hold o (uint8 code) >>= leaves (8 - n))
  last_lem n code bits o range f p =
      let Q = After base (bits ++ to_bits n (uint8 code / 2 ^ (8 - n))) in
      elim (Bool-cases (n == 8)) [
        | inl eight ↦ rw eight (
            Post-bind (P 0 (bits ++ to_bits 8 (uint8 code))) Q (put o (uint8 code)) (leaves 8)
              (put_lem 0 bits o _ (uint8-IsByte code) p)
              (λ o' q. inl (record {
                chain = rw (eight_bits n (uint8 code) ((==_iff n 8).0 eight)) (chain_of 0 _ o' q);
                rem = refl;
                avail = refl;
              })))
        | inr seven ↦ rw seven (
            Post-bind (Held base bits (uint8 code)) Q (hold o (uint8 code)) (leaves (8 - n))
              (hold_lem bits o _ p) (λ o' q. inr (after-Held base n _ bits o' range seven f q)))
      ]

  pub long_lem :
      (n code : ℕ) (bits : List Bool) (o : HuffOut)
      → (0 < n) × (n ≤ 32)
      → (0 < last_bits n) × (last_bits n ≤ 8)
      → Filled (8 - last_bits n) (uint8 code) (last_byte n code)
      → P ((n + 7) / 8) bits o
      → Post
          (After base (bits ++ (whole_bits n code ++ last_byte n code)))
          (long_code put hold n code o)
  unfolding long_code
  long_lem n code bits o size range f p =
      let n1 = less 24 n in
      let n2 = less 16 n1 in
      let a = bits_above 24 n code in
      let b = bits_above 16 n1 code in
      let c = bits_above 8 n2 code in
      let Q = After base (bits ++ (whole_bits n code ++ last_byte n code)) in
      let same = regroup bits a b c (last_byte n code) in
      Post-bind (P 1 (((bits ++ a) ++ b) ++ c)) Q _ _
        (Post-bind (P (more 8 n2 + 1) ((bits ++ a) ++ b)) (P 1 (((bits ++ a) ++ b) ++ c)) _
          (above put 8 n2 code)
          (Post-bind (P (more 16 n1 + (more 8 n2 + 1)) (bits ++ a))
            (P (more 8 n2 + 1) ((bits ++ a) ++ b)) _ (above put 16 n1 code)
            (above_lem 24 n code (more 16 n1 + (more 8 n2 + 1)) bits o (rw (puts_needed n size) p))
            (λ o' q. above_lem 16 n1 code _ _ o' q))
          (λ o' q. above_lem 8 n2 code _ _ o' q))
        (λ o' q. rw (← same) (last_lem (last_bits n) code _ o' range f q))
