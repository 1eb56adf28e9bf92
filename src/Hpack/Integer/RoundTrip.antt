-- ===== src/Hpack/Integer/RoundTrip.antt =====
-- decode_length on the bytes that encode_length writes.
use native.Mathlib.Nat.{
  le-div_iff_mul-le, pow-le-pow_right, one-le-pow, pow-suc, div-add-mod, mul-add-mod_self_left,
  mod-eq_of_lt,
}
use native.Mathlib.Numerals.{towards_suc}
use kitura_http.Prelude.{
  ℕ, zero, suc, ◌+◌, ◌-◌, ◌*◌, ◌/◌, ◌%◌, ◌^◌, ◌≤◌, ◌<◌, ◌≡◌, refl, ap, ◌∙◌, List, ◌∷◌, ◌++◌, true,
  false, Option, some, ltb, leb, length, ◌==◌, if◌then◌else◌, arith, Bool-cases, inl, inr,
}
use kitura_http.Hpack.Integer.{
  count_tail, count_encoded_length, encode_tail, encode_length, after_prefix, Decoded, uint32_max,
  decode_loop, decode_length,
}

length-encode_tail : (fuel n : ℕ) → length (encode_tail fuel n) ≡ count_tail fuel n
unfolding encode_tail count_tail
length-encode_tail zero n = refl
length-encode_tail (suc fuel) n = ground (arith, length-encode_tail fuel (n / 128))

-- An encoded integer takes as many bytes as count_encoded_length says.
pub length-encode_length :
    (first n prefix : ℕ) → length (encode_length first n prefix) ≡ count_encoded_length n prefix
unfolding encode_length count_encoded_length
length-encode_length first n prefix = ground (arith, length-encode_tail 9 (n - (2 ^ prefix - 1)))

next_power : (s : ℕ) → 2 ^ (s + 7) ≡ 2 ^ s * 128
next_power s = simp towards_suc (omega arith)

pow_pos : (s : ℕ) → 0 < 2 ^ s
pow_pos s = one-le-pow s 2 (omega arith)

-- A power of two below 2^32 has an exponent below 32.
small_shift : (s : ℕ) → 2 ^ s < 4294967296 → s < 32
small_shift s h = elim (Bool-cases (leb 32 s)) [
  | inl big ↦
      let le : 32 ≤ s = ground arith in
      let up : 2 ^ 32 ≤ 2 ^ s = pow-le-pow_right (omega arith) le in absurd (omega arith)
  | inr small ↦ ground arith
]

-- The three tests of a round pass where the sum fits 32 bits.
add_fits : (add s n : ℕ) → n + add * 2 ^ s < 4294967296 → add ≤ uint32_max / 2 ^ s
add_fits add s n h = (le-div_iff_mul-le (pow_pos s)).1 (omega arith)

-- A round takes the low seven bits of what is left, and the next ones stand seven bits higher.
round_value : (v s acc : ℕ) → acc + v * 2 ^ s ≡ (acc + v % 128 * 2 ^ s) + v / 128 * 2 ^ (s + 7)
round_value v s acc =
    let whole = ap (λ (t : ℕ). 2 ^ s * t) (div-add-mod v 128) in
    rw (next_power s) (omega (arith, whole))

-- A byte with the low bits `add`, and with the top bit set or clear.
one_round :
    (b add n s used : ℕ) (rest : List ℕ)
    → b % 128 ≡ add
    → s < 32
    → n + add * 2 ^ s < 4294967296
    → decode_loop (b ∷ rest) n s used ≡ (
        if b / 128 % 2 == 0
        then some (record { res = n + add * 2 ^ s; shift = s; fin = true; consumed = used + 1 })
        else decode_loop rest (n + add * 2 ^ s) (s + 7) (used + 1))
unfolding decode_loop
one_round b add n s used rest e hs h = rw e (ground (arith, add_fits add s n h))

-- The integer `v` was read in `used` bytes.
abbrev pub Reads : Option Decoded → ℕ → ℕ → Type 0
Reads r v used =
    (shift : ℕ) × (r ≡ some (record { res = v; shift = shift; fin = true; consumed = used }))

last_Reads :
    (w n s used : ℕ) (rest : List ℕ)
    → w < 128
    → s < 32
    → n + w * 2 ^ s < 4294967296
    → Reads (decode_loop (w % 256 ∷ rest) n s used) (n + w * 2 ^ s) (used + 1)
last_Reads w n s used rest hw hs h =
    let clear : (w % 256 / 128 % 2 == 0) ≡ true = ground arith in
    (s, one_round (w % 256) w n s used rest (omega arith) hs h ∙ rw clear)

inner_byte :
    (w n s used : ℕ) (rest : List ℕ)
    → s < 32
    → n + w % 128 * 2 ^ s < 4294967296
    → decode_loop ((128 + w % 128) ∷ rest) n s used
      ≡ decode_loop rest (n + w % 128 * 2 ^ s) (s + 7) (used + 1)
inner_byte w n s used rest hs h =
    let set : ((128 + w % 128) / 128 % 2 == 0) ≡ false = ground arith in
    one_round (128 + w % 128) (w % 128) n s used rest (omega arith) hs h ∙ rw set

Reads-eq :
    {r r' : Option Decoded} {v v' u u' : ℕ}
    → r' ≡ r
    → v ≡ v'
    → u ≡ u'
    → Reads r v u
    → Reads r' v' u'
Reads-eq e f g (shift, h) = (shift, cc)

decode_loop-encode_tail :
    (fuel w n s used : ℕ) (rest : List ℕ)
    → w < 128 ^ suc fuel
    → s < 32
    → n + w * 2 ^ s < 4294967296
    → Reads
        (decode_loop (encode_tail fuel w ++ rest) n s used)
        (n + w * 2 ^ s)
        (used + length (encode_tail fuel w))
unfolding encode_tail
decode_loop-encode_tail zero w n s used rest hw hs h = last_Reads w n s used rest hw hs h
decode_loop-encode_tail (suc fuel) w n s used rest hw hs h = elim (Bool-cases (ltb w 128)) [
  | inl small ↦ rw small (last_Reads w n s used rest (ground arith) hs h)
  | inr big ↦
      let e = round_value w s n in
      let seven = next_power s in
      let q : 1 ≤ w / 128 = ground arith in
      let p : 2 ^ (s + 7) ≤ w / 128 * 2 ^ (s + 7) = grind arith in
      rw big (
        Reads-eq (inner_byte w n s used (encode_tail fuel (w / 128) ++ rest) hs (omega arith))
          (omega arith) (omega arith)
          (decode_loop-encode_tail fuel (w / 128) (n + w % 128 * 2 ^ s) (s + 7) (used + 1) rest
            (omega (arith, pow-suc 128 (suc fuel))) (small_shift (s + 7) (omega arith))
            (omega arith)))
]

-- The bits of a first byte: those above the prefix are kept, and the prefix holds `x`.
prefix_bits : (first x P : ℕ) → 0 < P → x < P → (first - first % P + x) % P ≡ x
prefix_bits first x P h lt =
    let split = div-add-mod first P in
    let e : first - first % P ≡ P * (first / P) = omega (arith, split) in
    rw e (mul-add-mod_self_left P (first / P) x ∙ mod-eq_of_lt lt)

after_prefix-encode_tail :
    (fuel m k : ℕ) (rest : List ℕ)
    → after_prefix (encode_tail fuel m ++ rest) k 0 ≡ decode_loop (encode_tail fuel m ++ rest) k 0 1
unfolding encode_tail
after_prefix-encode_tail zero m k rest = refl
after_prefix-encode_tail (suc fuel) m k rest = elim (Bool-cases (ltb m 128)) [
  | inl small ↦ rw small refl
  | inr big ↦ rw big refl
]

two_le_pow : (prefix : ℕ) → 0 < prefix → 2 ≤ 2 ^ prefix
two_le_pow prefix h = pow-le-pow_right {n = 2} (omega arith) {i = 1} h

pub decode_length-encode_length :
    (first n prefix : ℕ) (rest : List ℕ)
    → 0 < prefix
    → n < 4294967296
    → Reads
        (decode_length 0 0 (encode_length first n prefix ++ rest) prefix)
        n
        (length (encode_length first n prefix))
unfolding decode_length encode_length
decode_length-encode_length first n prefix rest h fits =
    let P = 2 ^ prefix in
    let two = two_le_pow prefix h in
    elim (Bool-cases (ltb n (P - 1))) [
      | inl short ↦
          let lt : n < P - 1 = ground arith in
          let bits = prefix_bits first n P (omega arith) (omega arith) in
          let part : (n == P - 1) ≡ false = ground arith in (0, rw (short, bits, part) refl)
      | inr long ↦
          let le : P - 1 ≤ n = ground arith in
          let bits = prefix_bits first (P - 1) P (omega arith) (omega arith) in
          let full : (P - 1 == P - 1) ≡ true = ground arith in
          rw (long, bits, full)
            (Reads-eq (after_prefix-encode_tail 9 (n - (P - 1)) (P - 1) rest) (omega arith)
              (omega arith)
              (decode_loop-encode_tail 9 (n - (P - 1)) (P - 1) 0 1 rest (omega arith) (omega arith)
                (omega arith)))
    ]
