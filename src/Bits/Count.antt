-- ===== src/Bits/Count.antt =====
-- `count_set_bits` against a plain count of binary digits.
use native.Mathlib.Nat.{pow-suc, one-le-pow, pow-le-pow_right, zero-mul}
use riscv_hypervisor.Common.{
  ℕ, zero, suc, ◌+◌, ◌-◌, ◌*◌, ◌/◌, ◌%◌, ◌^◌, ◌≤◌, ◌<◌, ◌≡◌, some, false, arith, ◌⊎◌, inl, inr,
  ◌==◌, if◌then◌else◌, bit_and, min, sign_extend,
}
use riscv_hypervisor.Common.Masks.{bit_and-ones, bit_and-two_pow, bit_and-shifted, div-suc-pow}
use riscv_hypervisor.Bits.{count_loop, count_set_bits}

-- The number of ones among the lowest `k` binary digits.
unfoldable pub ones : ℕ → ℕ → ℕ
ones zero x = 0
ones (suc k) x = x % 2 + ones k (x / 2)

-- The last round: bit 31 of the `int` is its sign, which the widening copies to all bits above.
sign_bit : (num : ℕ) → num < 2 ^ 64 → bit_and num (sign_extend (2 ^ 31)) ≡ num / 2 ^ 31 * 2 ^ 31
sign_bit num h = omega (arith, bit_and-shifted 31 (2 ^ 33 - 1) num, bit_and-ones 33 (num / 2 ^ 31))

count_loop-last :
    (num count : ℕ)
    → num < 2 ^ 64
    → count_loop 2 (2 ^ 31) num count ≡ some (count + min 1 (num / 2 ^ 31))
unfolding count_loop
count_loop-last num count h = ground (arith, sign_bit num h)

mod-two : (x : ℕ) → (x % 2 ≡ 0) ⊎ (x % 2 ≡ 1)
mod-two x = omega arith

pub widened : (k : ℕ) → k < 31 → sign_extend (2 ^ k) ≡ 2 ^ k
widened k h =
    let small : 2 ^ suc k ≤ 2 ^ 31 = pow-le-pow_right (omega arith) {j = 31} (omega arith) in
    ground (arith, pow-suc 2 k, one-le-pow k 2)

-- What one round below the sign adds to the count.
tally :
    (k num count : ℕ)
    → k < 31
    → (if bit_and num (sign_extend (2 ^ k)) == 0 then count else count + 1)
      ≡ count + num / 2 ^ k % 2
tally k num count h =
    rw (widened k h, bit_and-two_pow k num)
      (elim (mod-two (num / 2 ^ k)) [
        | inl even ↦ rw even (ground (arith, zero-mul (2 ^ k)))
        | inr odd ↦ rw odd (ground (arith, one-le-pow k 2))
      ])

count_loop-round :
    (fuel k num count : ℕ)
    → k < 31
    → count_loop (suc fuel) (2 ^ k) num count
      ≡ count_loop fuel (2 ^ suc k) num (count + num / 2 ^ k % 2)
unfolding count_loop
count_loop-round fuel k num count h =
    let small : 2 ^ suc k ≤ 2 ^ 31 = pow-le-pow_right (omega arith) {j = 31} (omega arith) in
    let next : 2 ^ k * 2 % 2 ^ 32 ≡ 2 ^ suc k = omega (arith, pow-suc 2 k) in
    let goes_on : (2 ^ k == 0) ≡ false = ground (arith, one-le-pow k 2) in
    rw (tally k num count h, next, goes_on)

count_loop-ones :
    (left k num count : ℕ)
    → k + left ≡ 31
    → num < 2 ^ 64
    → count_loop (suc (suc left)) (2 ^ k) num count
      ≡ some (count + ones left (num / 2 ^ k) + min 1 (num / 2 ^ 31))
unfolding ones
count_loop-ones zero k num count e h =
    let last : k ≡ 31 = omega arith in rw last (ground (arith, count_loop-last num count h))
count_loop-ones (suc left) k num count e h =
    rw
      (
        count_loop-round (suc (suc left)) k num count (omega arith),
        count_loop-ones left (suc k) num (count + num / 2 ^ k % 2) (omega arith) h,
        div-suc-pow,
      )
      (ground arith)

-- For a 64-bit number count_set_bits ends with the number of ones in bits 0 to 30, and one more
-- if any bit above is set.
pub count_set_bits-ones :
    (num : ℕ) → num < 2 ^ 64 → count_set_bits num ≡ some (ones 31 num + min 1 (num / 2 ^ 31))
unfolding count_set_bits
count_set_bits-ones num h = ground (arith, count_loop-ones 31 0 num 0 (omega arith) h)
