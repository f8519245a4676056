-- ===== src/Vplic/Window.antt =====
-- Which register of the controller an offset names.
pub mod Laws
pub mod Classes
use riscv_hypervisor.Common.{
  ℕ, zero, suc, ◌+◌, ◌*◌, ◌%◌, ◌^◌, Bool, true, false, ◌&&◌, ltb, leb, ◌==◌, if◌then◌else◌, u32,
}

unfoldable pub is_access_to_priority_reg : ℕ → Bool
is_access_to_priority_reg offset = if ltb offset 0x1000 then true else false

unfoldable pub is_access_to_pending_regs : ℕ → Bool
is_access_to_pending_regs offset = if leb 0x1000 offset && ltb offset 0x1080 then true else false

unfoldable pub is_access_to_enable_regs : ℕ → Bool
is_access_to_enable_regs offset = if leb 0x2000 offset && ltb offset 0x200000 then true else false

-- The loop over the contexts from `ctx` on, with the rounds that are left. The sum is a `uint32`.
unfoldable pub any_context : ℕ → ℕ → ℕ → ℕ → Bool
any_context base offset zero ctx = false
any_context base offset (suc left) ctx =
    let rest = any_context base offset left (ctx + 1) in
    if u32 (base + ctx * 0x1000) == offset then true else rest

unfoldable pub is_access_to_threshold_reg : ℕ → Bool
unfolding any_context
is_access_to_threshold_reg offset = any_context 0x200000 offset 15872 0

unfoldable pub is_access_to_claim_complete_reg : ℕ → Bool
unfolding any_context
is_access_to_claim_complete_reg offset = any_context 0x200004 offset 15872 0
