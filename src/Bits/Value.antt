-- ===== src/Bits/Value.antt =====
-- `get_value` as arithmetic.
use native.Mathlib.Nat.{pow-suc, one-le-pow, pow-le-pow_right, add-zero, add-suc, suc-add}
use riscv_hypervisor.Common.{
  ℕ, zero, suc, ◌+◌, ◌-◌, ◌*◌, ◌/◌, ◌%◌, ◌^◌, ◌≤◌, ◌<◌, ◌≡◌, ap, ◌⊎◌, arith, bit_and, bit_or, shl64,
}
use riscv_hypervisor.Common.Masks.{bit_and-ones, bit_or-disjoint}
use riscv_hypervisor.Bits.{grow_mask, get_value}

mask-suc : (k : ℕ) → k < 64 → bit_or (shl64 (2 ^ k - 1) 1) 1 ≡ 2 ^ (suc k) - 1
mask-suc k h =
    let small : 2 ^ k ≤ 2 ^ 63 = pow-le-pow_right (omega arith) {j = 63} (omega arith) in
    let fits : (2 ^ k - 1) * 2 % 2 ^ 64 ≡ (2 ^ k - 1) * 2 = omega arith in
    rw fits
      (omega (arith, bit_or-disjoint 1 (2 ^ k - 1) 1 (omega arith), one-le-pow k 2, pow-suc 2 k))

grow_mask-ones :
    (rounds k : ℕ) → k + rounds ≤ 64 → grow_mask rounds (2 ^ k - 1) ≡ 2 ^ (k + rounds) - 1
unfolding grow_mask
grow_mask-ones zero k h = rw add-zero
grow_mask-ones (suc rounds) k h =
    rw (mask-suc k (omega arith), grow_mask-ones rounds (suc k) (omega arith), suc-add, add-suc)

-- With offset and width below 64, get_value is the field of that width from that offset on.
pub get_value-field :
    (val offset bits : ℕ)
    → offset < 64
    → bits < 64
    → get_value val offset bits ≡ val / 2 ^ offset % 2 ^ bits
unfolding get_value
get_value-field val offset bits ho hb = ground (
  arith,
  ap (bit_and (val / 2 ^ offset)) (grow_mask-ones bits 0 (omega arith)),
  bit_and-ones bits (val / 2 ^ offset),
)

-- Out of its bounds it is all ones.
pub get_value-bad :
    (val offset bits : ℕ) → (63 < offset) ⊎ (63 < bits) → get_value val offset bits ≡ 2 ^ 64 - 1
unfolding get_value
get_value-bad val offset bits h = ground arith
