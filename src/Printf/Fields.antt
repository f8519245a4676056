-- ===== src/Printf/Fields.antt =====
-- The arithmetic of digits at the top of a word.
use native.Mathlib.Nat.{
  pow-succ', pow-zero, zero-add, suc-add, mul-pos, div-add-mod, mod-lt, mod-eq_of_lt, div-eq_of_lt,
  add-mul, mul_comm, mul_assoc, mul-lt-mul_of_pos_right, mul-add-div_right, mul-add-mod_self_right,
}
use riscv_hypervisor.Common.{ℕ, zero, suc, ◌+◌, ◌*◌, ◌/◌, ◌%◌, ◌^◌, ◌<◌, ◌≡◌, ap, arith}
use riscv_hypervisor.Printf.{shift_loop}

-- A field at the top of a word: its first digit, and what is left once that is shifted out.
pub split_field : (p m v : ℕ) → v * m ≡ v / p * (p * m) + v % p * m
split_field p m v = omega (
  arith,
  ap (λ (t : ℕ). t * m) (div-add-mod v p),
  add-mul (p * (v / p)) (v % p) m,
  mul_comm p (v / p),
  ap (λ (t : ℕ). t * m) (mul_comm p (v / p)),
  mul_assoc (v / p) p m,
)

pub rest-lt : (p m v : ℕ) → 0 < p → 0 < m → v % p * m < p * m
rest-lt p m v pp pm = mul-lt-mul_of_pos_right (mod-lt v pp) pm

pub first_digit : (c m p v : ℕ) → p * m ≡ c → 0 < p → 0 < m → v * m / c ≡ v / p
first_digit c m p v e pp pm =
    let below : v % p * m < c = omega (arith, rest-lt p m v pp pm) in
    let split : v * m ≡ v / p * c + v % p * m =
      omega (arith, split_field p m v, ap (λ (t : ℕ). v / p * t) e) in
    rw (split, mul-add-div_right {m = c} (omega arith) (v / p) (v % p * m), div-eq_of_lt below)
      (omega arith)

pub rest_digits :
    (base c m p v : ℕ)
    → p * m ≡ c
    → 0 < p
    → 0 < m
    → 0 < base
    → v * m * base % (base * c) ≡ v % p * (m * base)
rest_digits base c m p v e pp pm pb =
    let whole : p * (m * base) ≡ base * c =
      omega (arith, mul_assoc p m base, ap (λ (t : ℕ). t * base) e, mul_comm c base) in
    let shifted : 0 < m * base = mul-pos pm pb in
    let below : v % p * (m * base) < base * c = omega (arith, rest-lt p (m * base) v pp shifted) in
    let split : v * m * base ≡ v / p * (base * c) + v % p * (m * base) =
      omega
        (arith, split_field p (m * base) v, ap (λ (t : ℕ). v / p * t) whole, mul_assoc v m base) in
    rw (split, mul-add-mod_self_right (v / p) (base * c) (v % p * (m * base)), mod-eq_of_lt below)

pub read_step : (acc base p v : ℕ) → (acc * base + v / p) * p + v % p ≡ acc * (base * p) + v
read_step acc base p v = omega (
  arith,
  add-mul (acc * base) (v / p) p,
  mul_assoc acc base p,
  div-add-mod v p,
  mul_comm p (v / p),
)

pub pow-add : (b m n : ℕ) → b ^ (m + n) ≡ b ^ m * b ^ n
pow-add b zero n =
    omega (
      arith,
      pow-zero b,
      ap (λ (t : ℕ). t * b ^ n) (pow-zero b),
      ap (λ (t : ℕ). b ^ t) (zero-add n),
    )
pow-add b (suc m) n = rw (suc-add, pow-succ', pow-succ', pow-add b m n, mul_assoc)

-- Shifting a field to the top of the word cuts what is above it.
pub field_mod : (p m v : ℕ) → 0 < p → 0 < m → v * m % (p * m) ≡ v % p * m
field_mod p m v pp pm = rw (
  split_field p m v,
  mul-add-mod_self_right (v / p) (p * m) (v % p * m),
  mod-eq_of_lt (rest-lt p m v pp pm),
)

pub mod-mul_mod : (a x m : ℕ) → a % m * x % m ≡ a * x % m
mod-mul_mod a x m =
    let split : a * x ≡ a / m * x * m + a % m * x = omega (
      arith,
      ap (λ (t : ℕ). t * x) (div-add-mod a m),
      add-mul (m * (a / m)) (a % m) x,
      mul_assoc m (a / m) x,
      mul_comm m (a / m * x),
    ) in
    rw (split, mul-add-mod_self_right (a / m * x) m (a % m * x))

pub shift_loop-mul :
    (left bits base num : ℕ)
    → 2 ^ bits ≡ base
    → num < 2 ^ 64
    → shift_loop left bits num ≡ num * base ^ left % 2 ^ 64
unfolding shift_loop
shift_loop-mul zero bits base num width fits =
    omega (arith, ap (λ (t : ℕ). num * t) (pow-zero base))
shift_loop-mul (suc left) bits base num width fits =
    rw (width, shift_loop-mul left bits base (num * base % 2 ^ 64) width (omega arith), mod-mul_mod)
      (rw (pow-succ' base left, mul_assoc))
