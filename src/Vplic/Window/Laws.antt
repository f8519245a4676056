-- ===== src/Vplic/Window/Laws.antt =====
-- The searches over all contexts are tests of a range and of an alignment.
use riscv_hypervisor.Common.{
  ℕ, zero, suc, ◌+◌, ◌-◌, ◌*◌, ◌/◌, ◌%◌, ◌≤◌, ◌<◌, ◌≡◌, ◌↔◌, true, arith, ◌==◌, Bool-cases, inl,
  inr,
}
use riscv_hypervisor.Vplic.Window.{
  any_context, is_access_to_threshold_reg, is_access_to_claim_complete_reg,
}

any_context-found :
    (base offset left ctx : ℕ)
    → base ≤ 0x200004
    → ctx + left ≤ 15872
    → any_context base offset left ctx ≡ true
    → (c : ℕ) × (ctx ≤ c) × (c < ctx + left) × (offset ≡ base + c * 0x1000)
unfolding any_context
any_context-found base offset zero ctx hb hl h = absurd (ground arith)
any_context-found base offset (suc left) ctx hb hl h =
    elim (Bool-cases ((base + ctx * 0x1000) % 4294967296 == offset)) [
      | inl hit ↦ (ctx, omega arith, omega arith, ground arith)
      | inr miss ↦
          let (c, lo, hi, e) =
            any_context-found base offset left (ctx + 1) hb (omega arith) (rw miss at h) in
          (c, omega arith, omega arith, e)
    ]

any_context-hit :
    (base offset left ctx c : ℕ)
    → base ≤ 0x200004
    → ctx + left ≤ 15872
    → ctx ≤ c
    → c < ctx + left
    → offset ≡ base + c * 0x1000
    → any_context base offset left ctx ≡ true
unfolding any_context
any_context-hit base offset zero ctx c hb hl lo hi e = absurd (omega arith)
any_context-hit base offset (suc left) ctx c hb hl lo hi e =
    ground (arith, any_context-hit base offset left (ctx + 1) c)

-- The search over all contexts for a threshold register finds exactly the multiples of 0x1000
-- from 0x200000 to below 0x4000000.
pub is_access_to_threshold_reg_iff :
    (offset : ℕ)
    → (is_access_to_threshold_reg offset ≡ true)
      ↔ ((0x200000 ≤ offset) × (offset < 0x4000000) × (offset % 0x1000 ≡ 0))
unfolding is_access_to_threshold_reg
is_access_to_threshold_reg_iff offset = (
  λ h.
      let (c, lo, hi, e) =
        any_context-found 0x200000 offset 15872 0 (omega arith) (omega arith) h in
      omega arith,
  λ h.
      any_context-hit 0x200000 offset 15872 0 ((offset - 0x200000) / 0x1000) (omega arith)
        (omega arith) (omega arith) (omega arith) (omega arith),
)

-- The search over all contexts for a claim register finds exactly the offsets from 0x200004 to
-- below 0x4000000 that leave 4 modulo 0x1000.
pub is_access_to_claim_complete_reg_iff :
    (offset : ℕ)
    → (is_access_to_claim_complete_reg offset ≡ true)
      ↔ ((0x200004 ≤ offset) × (offset < 0x4000000) × (offset % 0x1000 ≡ 4))
unfolding is_access_to_claim_complete_reg
is_access_to_claim_complete_reg_iff offset = (
  λ h.
      let (c, lo, hi, e) =
        any_context-found 0x200004 offset 15872 0 (omega arith) (omega arith) h in
      omega arith,
  λ h.
      any_context-hit 0x200004 offset 15872 0 ((offset - 0x200004) / 0x1000) (omega arith)
        (omega arith) (omega arith) (omega arith) (omega arith),
)
