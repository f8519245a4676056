-- ===== src/Common/Words.antt =====
-- Machine words: a w-bit integer is its bit pattern, a number below 2 ^ w.
use Prim.Native.Nat.{ℕ, ◌+◌, ◌-◌, ◌*◌, ◌/◌, ◌%◌, ◌^◌}
use mathlib.Core.Bool.{Bool}
use riscv_hypervisor.Common.Tests.{leb, if◌then◌else◌}

-- Casts to the unsigned types; `int` has the patterns of `u32`.
abbrev pub u8 : ℕ → ℕ
u8 n = n % 2 ^ 8

abbrev pub u32 : ℕ → ℕ
u32 n = n % 2 ^ 32

abbrev pub u64 : ℕ → ℕ
u64 n = n % 2 ^ 64

-- Subtraction of 64-bit words, which wraps.
abbrev pub sub64 : ℕ → ℕ → ℕ
sub64 a b = (a + 2 ^ 64 - b) % 2 ^ 64

-- `x << k` and `x >> k` of 64-bit words.
abbrev pub shl64 : ℕ → ℕ → ℕ
shl64 x k = x * 2 ^ k % 2 ^ 64

abbrev pub shr : ℕ → ℕ → ℕ
shr x k = x / 2 ^ k

-- The sign bit of an `int`, and the conversion of an `int` to a 64-bit word.
abbrev pub is_negative : ℕ → Bool
is_negative x = leb (2 ^ 31) x

abbrev pub sign_extend : ℕ → ℕ
sign_extend x = if is_negative x then 2 ^ 64 - 2 ^ 32 + x else x
