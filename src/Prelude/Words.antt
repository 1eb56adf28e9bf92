-- ===== src/Prelude/Words.antt =====
-- Words as native numbers: `x & (2 ^ k - 1)` is `x % 2 ^ k`, a shift is `/` or `*`, and a flag
-- word is read, set and cleared one bit at a time through a mask that is a power of two.
use Prim.Native.Nat.{ℕ, ◌+◌, ◌-◌, ◌/◌, ◌%◌, ◌<◌}
use mathlib.Core.Bool.{Bool}
use kitura_http.Prelude.Tests.{◌==◌, if◌then◌else◌}

abbrev pub IsByte : ℕ → Type 0
IsByte b = b < 256

abbrev pub IsU16 : ℕ → Type 0
IsU16 n = n < 65536

abbrev pub IsU32 : ℕ → Type 0
IsU32 n = n < 4294967296

-- `x & m` is not 0, for a mask `m` of one bit.
abbrev pub test_bit : ℕ → ℕ → Bool
test_bit x m = x / m % 2 == 1

-- `x | m` and `x & ~m`, for a mask `m` of one bit.
abbrev pub set_bit : ℕ → ℕ → ℕ
set_bit x m = if test_bit x m then x else x + m

abbrev pub clear_bit : ℕ → ℕ → ℕ
clear_bit x m = if test_bit x m then x - m else x
