-- ===== src/Common/Masks.antt =====
-- Masks and disjoint fields as arithmetic, at every width.
use native.Mathlib.Nat.{
  pow-suc, pow-succ', one-le-pow, div-div-eq-div-mul, div-add-mod, div-one, mul-one, one-mul,
}
use riscv_hypervisor.Common.{
  ℕ, zero, suc, ◌+◌, ◌-◌, ◌*◌, ◌/◌, ◌%◌, ◌^◌, ◌≤◌, ◌<◌, bit_and, bit_or, ◌≡◌, refl, ap, arith,
}
use riscv_hypervisor.Common.Digits.{bit_and_step, bit_or_step}

-- Induction on a bound for the number, since a step halves it.
bit_and-zero_below : (n x : ℕ) → x ≤ n → bit_and x 0 ≡ 0
bit_and-zero_below n zero h = refl
bit_and-zero_below zero (suc x) h = absurd (omega arith)
bit_and-zero_below (suc n) (suc x) h =
    omega (arith, bit_and_step (suc x) 0, bit_and-zero_below n (suc x / 2) (omega arith))

pub bit_and-zero : (x : ℕ) → bit_and x 0 ≡ 0
bit_and-zero x = bit_and-zero_below x x (omega arith)

bit_or-zero_below : (n x : ℕ) → x ≤ n → bit_or x 0 ≡ x
bit_or-zero_below n zero h = refl
bit_or-zero_below zero (suc x) h = absurd (omega arith)
bit_or-zero_below (suc n) (suc x) h =
    omega (arith, bit_or_step (suc x) 0, bit_or-zero_below n (suc x / 2) (omega arith))

pub bit_or-zero : (x : ℕ) → bit_or x 0 ≡ x
bit_or-zero x = bit_or-zero_below x x (omega arith)

pub double : (q k : ℕ) → q * 2 ^ suc k ≡ 2 * (q * 2 ^ k)
double q k = omega (arith, ap (λ (t : ℕ). q * t) (pow-suc 2 k))

pub div-pow-suc : (x k : ℕ) → x / 2 ^ suc k ≡ x / 2 / 2 ^ k
div-pow-suc x k = rw (pow-succ', ← div-div-eq-div-mul)

pub div-suc-pow : (x k : ℕ) → x / 2 ^ suc k ≡ x / 2 ^ k / 2
div-suc-pow x k = rw (pow-suc, ← div-div-eq-div-mul)

mod-pow-suc : (x k : ℕ) → x % 2 ^ suc k ≡ x / 2 % 2 ^ k * 2 + x % 2
mod-pow-suc x k = omega (
  arith,
  div-add-mod x (2 ^ suc k),
  div-add-mod (x / 2) (2 ^ k),
  ap (λ (t : ℕ). 2 ^ suc k * t) (div-pow-suc x k),
  ap (λ (t : ℕ). t * (x / 2 / 2 ^ k)) (pow-succ' 2 k),
)

-- `x & (m << k)` sees only the bits of `x` from `k` on.
pub bit_and-shifted : (k m x : ℕ) → bit_and x (m * 2 ^ k) ≡ bit_and (x / 2 ^ k) m * 2 ^ k
bit_and-shifted zero m x = simp (div-one, mul-one)
bit_and-shifted (suc k) m x = rw div-pow-suc (
    ground (
      arith,
      bit_and_step x (m * 2 ^ suc k),
      double m k,
      double (bit_and (x / 2 / 2 ^ k) m) k,
      bit_and-shifted k m (x / 2),
    ))

-- `x & (2^k - 1)` is the remainder.
pub bit_and-ones : (k x : ℕ) → bit_and x (2 ^ k - 1) ≡ x % 2 ^ k
bit_and-ones zero x = omega (arith, bit_and-zero x)
bit_and-ones (suc k) x = ground (
  arith,
  bit_and_step x (2 ^ suc k - 1),
  pow-suc 2 k,
  one-le-pow k 2,
  mod-pow-suc x k,
  bit_and-ones k (x / 2),
)

-- `(q << k) | r` is a sum when `r` has `k` bits.
pub bit_or-disjoint : (k q r : ℕ) → r < 2 ^ k → bit_or (q * 2 ^ k) r ≡ q * 2 ^ k + r
bit_or-disjoint zero q r h = ground (arith, bit_or-zero q)
bit_or-disjoint (suc k) q r h =
    ground
      (arith, bit_or_step (q * 2 ^ suc k) r, double q k, bit_or-disjoint k q (r / 2) (omega arith))

-- One bit of a word.
pub bit_and-two_pow : (k x : ℕ) → bit_and x (2 ^ k) ≡ x / 2 ^ k % 2 * 2 ^ k
bit_and-two_pow k x =
    omega (arith, ap (bit_and x) (one-mul (2 ^ k)), bit_and-shifted k 1 x, bit_one)
  where
    bit_one : bit_and (x / 2 ^ k) 1 * 2 ^ k ≡ x / 2 ^ k % 2 * 2 ^ k
    bit_one = rw (bit_and-ones 1 (x / 2 ^ k))

bit_and_zero : (n y : ℕ) → y ≤ n → bit_and 0 y ≡ 0
bit_and_zero n zero h = refl
bit_and_zero zero (suc y) h = absurd (omega arith)
bit_and_zero (suc n) (suc y) h =
    omega (arith, bit_and_step 0 (suc y), bit_and_zero n (suc y / 2) (omega arith))

-- The same bit with the mask in front.
pub two_pow-bit_and : (k x : ℕ) → bit_and (2 ^ k) x ≡ x / 2 ^ k % 2 * 2 ^ k
two_pow-bit_and zero x =
    ground (arith, bit_and_step 1 x, bit_and_zero (x / 2) (x / 2) (omega arith), div-one x)
two_pow-bit_and (suc k) x = rw div-pow-suc (
    ground (
      arith,
      bit_and_step (2 ^ suc k) x,
      pow-suc 2 k,
      double (x / 2 / 2 ^ k % 2) k,
      two_pow-bit_and k (x / 2),
    ))
