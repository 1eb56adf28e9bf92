-- ===== src/Hpack/Integer.antt =====
-- The integers of HPACK: count_encoded_length, encode_length and decode_length. An integer fills the
-- low `prefix` bits of a byte, and seven bits of each byte that follows.
pub mod RoundTrip
pub mod Tests
use kitura_http.Prelude.{
  ℕ, zero, suc, ◌+◌, ◌-◌, ◌*◌, ◌/◌, ◌%◌, ◌^◌, List, [], ◌∷◌, Bool, true, false, Option, none, some,
  ltb, leb, ◌==◌, not, if◌then◌else◌,
}

-- The loop that counts the bytes behind the first; a size_t needs ten at most.
unfoldable pub count_tail : ℕ → ℕ → ℕ
count_tail zero n = 1
count_tail (suc fuel) n = let rest = count_tail fuel (n / 128) in if ltb n 128 then 1 else rest + 1

unfoldable pub count_encoded_length : ℕ → ℕ → ℕ
unfolding count_tail
count_encoded_length n prefix =
    let k = 2 ^ prefix - 1 in if ltb n k then 1 else count_tail 9 (n - k) + 1

-- The loop that writes them: `(1 << 7) | (n & 0x7f)` while more is to come.
unfoldable pub encode_tail : ℕ → ℕ → List ℕ
encode_tail zero n = (n % 256) ∷ []
encode_tail (suc fuel) n =
    let rest = encode_tail fuel (n / 128) in
    if ltb n 128 then (n % 256) ∷ [] else (128 + n % 128) ∷ rest

-- `*buf & ~k`, and then `| n` or `| k` on the bits that this cleared.
abbrev pub keep_high : ℕ → ℕ → ℕ
keep_high first prefix = first - first % 2 ^ prefix

unfoldable pub encode_length : ℕ → ℕ → ℕ → List ℕ
unfolding encode_tail
encode_length first n prefix =
    let k = 2 ^ prefix - 1 in
    if ltb n k
    then (keep_high first prefix + n) ∷ []
    else (keep_high first prefix + k) ∷ encode_tail 9 (n - k)

-- What decode_length hands back: `*res`, `*shift_ptr`, `*fin` and the number of bytes processed.
pub record Decoded : Type 0 where
  pub res : ℕ
  pub shift : ℕ
  pub fin : Bool
  pub consumed : ℕ

abbrev pub uint32_max : ℕ
uint32_max = 4294967295

-- The `for` loop, over the bytes from `in` to `last`; `none` is the return value -1.
unfoldable pub decode_loop : List ℕ → ℕ → ℕ → ℕ → Option Decoded
decode_loop [] n shift used = some (record { res = n; shift = shift; fin = false; consumed = used })
decode_loop (b ∷ bs) n shift used =
    let add = b % 128 in
    let more = decode_loop bs (n + add * 2 ^ shift) (shift + 7) (used + 1) in
    let last =
      some (record { res = n + add * 2 ^ shift; shift = shift; fin = true; consumed = used + 1 }) in
    if leb 32 shift
    then none
    else if ltb (uint32_max / 2 ^ shift) add
    then none
    else if ltb (uint32_max - add * 2 ^ shift) n
    then none
    else if b / 128 % 2 == 0
    then last
    else more

-- After a full prefix: `if (++in == last)`, or on to the loop.
abbrev pub after_prefix : List ℕ → ℕ → ℕ → Option Decoded
after_prefix [] k shift = some (record { res = k; shift = 0; fin = false; consumed = 1 })
after_prefix (c ∷ cs) k shift = decode_loop (c ∷ cs) k shift 1

-- The branch for `initial` 0 reads the prefix; the caller passes at least one byte.
unfoldable pub decode_length : ℕ → ℕ → List ℕ → ℕ → Option Decoded
unfolding decode_loop
decode_length initial shift [] prefix =
    some (record { res = initial; shift = 0; fin = false; consumed = 0 })
decode_length initial shift (b ∷ bs) prefix =
    let k = 2 ^ prefix - 1 in
    let first = some (record { res = b % 2 ^ prefix; shift = 0; fin = true; consumed = 1 }) in
    if initial == 0
    then (if not (b % 2 ^ prefix == k) then first else after_prefix bs k shift)
    else decode_loop (b ∷ bs) initial shift 0
