-- ===== src/Bits.antt =====
-- lib/bits.c: a field of a word, and the number of its set bits. An `int` is its 32-bit pattern.
pub mod Value
pub mod Count
use riscv_hypervisor.Common.{
  ℕ, zero, suc, ◌+◌, ◌-◌, ◌%◌, ◌*◌, ◌^◌, Option, none, some, ◌||◌, ltb, ◌==◌, if◌then◌else◌, shl64,
  shr, is_negative, sign_extend, bit_and, bit_or,
}

-- The loop `mask = mask << 1 | 1`, with the rounds that are left.
unfoldable pub grow_mask : ℕ → ℕ → ℕ
grow_mask zero mask = mask
grow_mask (suc rounds) mask = grow_mask rounds (bit_or (shl64 mask 1) 1)

-- The -1 that a bad `offset` or `bits` returns is the largest `uint64`.
unfoldable pub get_value : ℕ → ℕ → ℕ → ℕ
get_value val offset bits =
    if is_negative offset || ltb 63 offset
    then 2 ^ 64 - 1
    else if is_negative bits || ltb 63 bits
    then 2 ^ 64 - 1
    else bit_and (shr val offset) (grow_mask bits 0)

-- The loop over the `int` `i`, which is widened to 64 bits with its sign before the `&`.
-- `none` means that the fuel ran out.
unfoldable pub count_loop : ℕ → ℕ → ℕ → ℕ → Option ℕ
count_loop zero i num count = none
count_loop (suc fuel) i num count =
    let count' = if bit_and num (sign_extend i) == 0 then count else count + 1 in
    let rest = count_loop fuel (i * 2 % 2 ^ 32) num count' in if i == 0 then some count else rest

-- `i` runs through the 32 powers of two of an `int`, and is 0 in the 33rd test.
unfoldable pub count_set_bits : ℕ → Option ℕ
unfolding count_loop
count_set_bits num = count_loop 33 1 num 0
