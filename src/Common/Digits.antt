-- ===== src/Common/Digits.antt =====
-- `&` and `|` at variables, one binary digit at a time. The native operations stand for a recursion
-- with fuel; here the fuel is dropped.
use Prim.Native.Nat.{digits, bit_and-bitwise, bit_or-bitwise}
use native.Mathlib.Nat.{le_refl}
use riscv_hypervisor.Common.{
  ℕ, zero, suc, ◌+◌, ◌*◌, ◌/◌, ◌%◌, ◌≤◌, bit_and, bit_or, min, max, ◌≡◌, refl, arith,
}

module _ (rest : ℕ → ℕ) (op : ℕ → ℕ → ℕ) where
  -- Any two amounts of fuel that cover the first argument agree.
  digits_enough : (f g x y : ℕ) → x ≤ f → x ≤ g → digits rest op f x y ≡ digits rest op g x y
  digits_enough zero zero x y xf xg = refl
  digits_enough zero (suc g) zero y xf xg = refl
  digits_enough zero (suc g) (suc x) y xf xg = absurd (omega arith)
  digits_enough (suc f) zero zero y xf xg = refl
  digits_enough (suc f) zero (suc x) y xf xg = absurd (omega arith)
  digits_enough (suc f) (suc g) zero y xf xg = refl
  digits_enough (suc f) (suc g) (suc x) y xf xg =
      omega (arith, digits_enough f g (suc x / 2) (y / 2) (omega arith) (omega arith))

pub bit_and_step : (x y : ℕ) → bit_and x y ≡ bit_and (x / 2) (y / 2) * 2 + min (x % 2) (y % 2)
bit_and_step zero y = omega (arith, bit_and-bitwise 0 y, bit_and-bitwise 0 (y / 2))
bit_and_step (suc x) y = omega (
  arith,
  bit_and-bitwise (suc x) y,
  bit_and-bitwise (suc x / 2) (y / 2),
  digits_enough (λ _. 0) min x (suc x / 2) (suc x / 2) (y / 2) (omega arith) (le_refl _),
)

pub bit_or_step : (x y : ℕ) → bit_or x y ≡ bit_or (x / 2) (y / 2) * 2 + max (x % 2) (y % 2)
bit_or_step zero y = omega (arith, bit_or-bitwise 0 y, bit_or-bitwise 0 (y / 2))
bit_or_step (suc x) y = omega (
  arith,
  bit_or-bitwise (suc x) y,
  bit_or-bitwise (suc x / 2) (y / 2),
  digits_enough (λ b. b) max x (suc x / 2) (suc x / 2) (y / 2) (omega arith) (le_refl _),
)

bit_or_comm_below : (n x y : ℕ) → x ≤ n → y ≤ n → bit_or x y ≡ bit_or y x
bit_or_comm_below zero zero zero hx hy = refl
bit_or_comm_below zero zero (suc y) hx hy = absurd (omega arith)
bit_or_comm_below zero (suc x) y hx hy = absurd (omega arith)
bit_or_comm_below (suc n) x y hx hy = omega (
  arith,
  bit_or_step x y,
  bit_or_step y x,
  bit_or_comm_below n (x / 2) (y / 2) (omega arith) (omega arith),
)

pub bit_or_comm : (x y : ℕ) → bit_or x y ≡ bit_or y x
bit_or_comm x y = bit_or_comm_below (max x y) x y (omega arith) (omega arith)
