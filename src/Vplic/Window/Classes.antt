-- ===== src/Vplic/Window/Classes.antt =====
-- The kinds of registers exclude one another, and together they are the words of the window.
use riscv_hypervisor.Common.{
  ℕ, ◌+◌, ◌*◌, ◌%◌, ◌≤◌, ◌<◌, ◌≡◌, ◌⊎◌, inl, inr, Bool, true, false, arith, Bool-cases,
}
use riscv_hypervisor.Vplic.Window.{
  is_access_to_priority_reg, is_access_to_pending_regs, is_access_to_enable_regs,
  is_access_to_threshold_reg, is_access_to_claim_complete_reg,
}
use riscv_hypervisor.Vplic.Window.Laws.{
  is_access_to_threshold_reg_iff, is_access_to_claim_complete_reg_iff,
}

-- The words of the window that are registers, by their offset.
abbrev pub IsRegister : ℕ → Type 0
IsRegister offset =
    (offset < 0x1080)
    ⊎ ((0x2000 ≤ offset) × (offset < 0x200000))
    ⊎ ((0x200000 ≤ offset) × (offset < 0x4000000) × (offset % 0x1000 ≡ 0))
    ⊎ ((0x200000 ≤ offset) × (offset < 0x4000000) × (offset % 0x1000 ≡ 4))

threshold-false :
    (offset : ℕ)
    → ((0x200000 ≤ offset) × (offset < 0x4000000) × (offset % 0x1000 ≡ 0) → ⊥)
    → is_access_to_threshold_reg offset ≡ false
threshold-false offset absent = elim (Bool-cases (is_access_to_threshold_reg offset)) [
  | inl hit ↦ absurd (absent ((is_access_to_threshold_reg_iff offset).0 hit))
  | inr e ↦ e
]

claim-false :
    (offset : ℕ)
    → ((0x200004 ≤ offset) × (offset < 0x4000000) × (offset % 0x1000 ≡ 4) → ⊥)
    → is_access_to_claim_complete_reg offset ≡ false
claim-false offset absent = elim (Bool-cases (is_access_to_claim_complete_reg offset)) [
  | inl hit ↦ absurd (absent ((is_access_to_claim_complete_reg_iff offset).0 hit))
  | inr e ↦ e
]

-- The answers of the five tests at an offset.
pub record Tests (offset : ℕ) (a b c d e : Bool) : Type 0 where
  pub priority : is_access_to_priority_reg offset ≡ a
  pub pending : is_access_to_pending_regs offset ≡ b
  pub enable : is_access_to_enable_regs offset ≡ c
  pub threshold : is_access_to_threshold_reg offset ≡ d
  pub claim : is_access_to_claim_complete_reg offset ≡ e

pub claim-Tests : (c : ℕ) → c < 15872 → Tests (0x200004 + 0x1000 * c) false false false false true
unfolding is_access_to_priority_reg is_access_to_pending_regs is_access_to_enable_regs
claim-Tests c h = record {
  priority = ground arith;
  pending = ground arith;
  enable = ground arith;
  threshold = threshold-false _ (λ p. omega arith);
  claim = (is_access_to_claim_complete_reg_iff _).1 (omega arith);
}

pub none-Tests : (offset : ℕ) → (IsRegister offset → ⊥) → Tests offset false false false false false
unfolding is_access_to_priority_reg is_access_to_pending_regs is_access_to_enable_regs
none-Tests offset absent =
    let low : ¬ (offset < 0x1080) = λ p. absent (inl p) in
    let middle : 0x2000 ≤ offset → ¬ (offset < 0x200000) = λ p q. absent (inr (inl (p, q))) in
    record {
      priority = ground arith;
      pending = ground arith;
      enable = ground (arith, middle);
      threshold = threshold-false _ (λ p. absent (inr (inr (inl p))));
      claim = claim-false _ (λ p. absent (inr (inr (inr (omega arith)))));
    }

pub pending-Tests :
    (offset : ℕ) → 0x1000 ≤ offset → offset < 0x1080 → Tests offset false true false false false
unfolding is_access_to_priority_reg is_access_to_pending_regs is_access_to_enable_regs
pending-Tests offset low high = record {
  priority = ground arith;
  pending = ground arith;
  enable = ground arith;
  threshold = threshold-false _ (λ p. omega (arith, p.0));
  claim = claim-false _ (λ p. omega (arith, p.0));
}

pub enable-Tests :
    (offset : ℕ) → 0x2000 ≤ offset → offset < 0x200000 → Tests offset false false true false false
unfolding is_access_to_priority_reg is_access_to_pending_regs is_access_to_enable_regs
enable-Tests offset low high = record {
  priority = ground arith;
  pending = ground arith;
  enable = ground arith;
  threshold = threshold-false _ (λ p. omega (arith, p.0));
  claim = claim-false _ (λ p. omega (arith, p.0));
}

pub threshold-Tests :
    (c : ℕ) → c < 15872 → Tests (0x200000 + 0x1000 * c) false false false true false
unfolding is_access_to_priority_reg is_access_to_pending_regs is_access_to_enable_regs
threshold-Tests c h = record {
  priority = ground arith;
  pending = ground arith;
  enable = ground arith;
  threshold = (is_access_to_threshold_reg_iff _).1 (omega arith);
  claim = claim-false _ (λ p. omega (arith, p.2));
}
