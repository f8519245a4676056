-- ===== src/Common/BitTests.antt =====
-- One binary digit of `&` and `|`.
use riscv_hypervisor.Common.{
  ℕ, zero, suc, ◌/◌, ◌%◌, ◌^◌, bit_and, bit_or, min, max, ◌≡◌, refl, arith,
}
use riscv_hypervisor.Common.Digits.{bit_and_step, bit_or_step}
use riscv_hypervisor.Common.Masks.{div-pow-suc}

-- Bit `k` of a word.
abbrev pub bit : ℕ → ℕ → ℕ
bit k x = x / 2 ^ k % 2

bit_and-half : (x y : ℕ) → bit_and x y / 2 ≡ bit_and (x / 2) (y / 2)
bit_and-half x y = omega (arith, bit_and_step x y)

bit_or-half : (x y : ℕ) → bit_or x y / 2 ≡ bit_or (x / 2) (y / 2)
bit_or-half x y = omega (arith, bit_or_step x y)

pub bit-bit_and : (k x y : ℕ) → bit k (bit_and x y) ≡ min (bit k x) (bit k y)
bit-bit_and zero x y = omega (arith, bit_and_step x y)
bit-bit_and (suc k) x y =
    rw (div-pow-suc, div-pow-suc, div-pow-suc, bit_and-half) (bit-bit_and k (x / 2) (y / 2))

pub bit-bit_or : (k x y : ℕ) → bit k (bit_or x y) ≡ max (bit k x) (bit k y)
bit-bit_or zero x y = omega (arith, bit_or_step x y)
bit-bit_or (suc k) x y =
    rw (div-pow-suc, div-pow-suc, div-pow-suc, bit_or-half) (bit-bit_or k (x / 2) (y / 2))

pub bit-zero : (k : ℕ) → bit k 0 ≡ 0
bit-zero zero = refl
bit-zero (suc k) = rw div-pow-suc (bit-zero k)
