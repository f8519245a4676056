-- ===== src/Lock/Count.antt =====
-- How many of the first `n` harts have a property, as their places change one at a time.
use riscv_hypervisor.Common.{
  ℕ, zero, suc, ◌+◌, ◌≤◌, ◌<◌, ◌≡◌, refl, arith, ◌==◌, Bool-cases, inl, inr,
}
use riscv_hypervisor.Lock.{Pc, update}

module _ (weight : Pc → ℕ) where
  pub total : ℕ → (ℕ → Pc) → ℕ
  total zero pc = 0
  total (suc n) pc = weight (pc n) + total n pc

  total-above :
      (n : ℕ) (pc : ℕ → Pc) (i : ℕ) (p : Pc) → n ≤ i → total n (update pc i p) ≡ total n pc
  unfolding total
  total-above zero pc i p h = refl
  total-above (suc n) pc i p h = ground (arith, total-above n pc i p)

  pub total-update :
      (n : ℕ) (pc : ℕ → Pc) (i : ℕ) (p : Pc)
      → i < n
      → total n (update pc i p) + weight (pc i) ≡ total n pc + weight p
  unfolding total
  total-update zero pc i p h = absurd (omega arith)
  total-update (suc n) pc i p h = elim (Bool-cases (i == n)) [
    | inl same ↦ ground (arith, total-above n pc i p)
    | inr other ↦ ground (arith, total-update n pc i p)
  ]

  pub total-le : ((p : Pc) → weight p ≤ 1) → (n : ℕ) (pc : ℕ → Pc) → total n pc ≤ n
  unfolding total
  total-le small zero pc = omega arith
  total-le small (suc n) pc = omega (arith, small (pc n), total-le small n pc)

  -- One hart without the property leaves room, and one with it counts.
  pub total-weight :
      ((p : Pc) → weight p ≤ 1)
      → (n : ℕ) (pc : ℕ → Pc) (i : ℕ) → i < n
      → (weight (pc i) ≤ total n pc) × (total n pc + 1 ≤ n + weight (pc i))
  unfolding total
  total-weight small zero pc i h = absurd (omega arith)
  total-weight small (suc n) pc i h = elim (Bool-cases (i == n)) [
    | inl same ↦ ground (arith, small (pc n), total-le small n pc)
    | inr other ↦ ground (arith, small (pc n), total-weight small n pc i)
  ]

  pub total-outside : (n : ℕ) → weight Pc.outside ≡ 0 → total n (λ _. Pc.outside) ≡ 0
  unfolding total
  total-outside zero e = refl
  total-outside (suc n) e = omega (arith, total-outside n e)
