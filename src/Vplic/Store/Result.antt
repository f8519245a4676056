-- ===== src/Vplic/Store/Result.antt =====
-- What an emulated store does at every register of the window.
use riscv_hypervisor.Common.{
  ℕ, ap, ◌∙◌, ◌%◌, ltb, ◌+◌, ◌*◌, ◌/◌, ◌<◌, ◌≡◌, refl, inl, inr, true, Bool-cases, ◌==◌,
  if◌then◌else◌, u32, u64, sub64, bit_and, arith,
}
use riscv_hypervisor.Common.Effects.{ok}
use riscv_hypervisor.Dtb.{dtb_plic}
use riscv_hypervisor.Vcpu.{Hart}
use riscv_hypervisor.Common.Masks.{bit_and-two_pow}
use riscv_hypervisor.Vplic.Window.{is_access_to_priority_reg}
use riscv_hypervisor.Vplic.Window.Classes.{
  claim-Tests, pending-Tests, enable-Tests, threshold-Tests,
}
use riscv_hypervisor.Vplic.Irq.{virt_to_phys_irq}
use riscv_hypervisor.Vplic.Instr.{Instr}
use riscv_hypervisor.Vplic.Load.{context_of, advance_sepc}
use riscv_hypervisor.Vplic.Store.{
  handle_priority_reg_store, handle_enable_regs_store, handle_threshold_reg_store,
  handle_complete_reg_store, store_register, emulate_store,
}
use riscv_hypervisor.Vplic.Store.Places.{
  Place, priority, pending, enable, threshold, claim_complete, offset_of, IsPlace, effect,
  enable_loop-enable_bits, offset_of-lt, effect-sepc,
}

module _ (h : Hart) (vctx pctx val : ℕ) where
  abbrev Stores : Place → Type 0
  Stores place =
      store_register h.vcpu.conf.devices (offset_of place) vctx pctx val h
      ≡ ok tt (effect vctx pctx place val h)

  priority-Stores : (virt_irq : ℕ) → virt_irq < 1024 → Stores (priority virt_irq)
  unfolding store_register is_access_to_priority_reg handle_priority_reg_store
  priority-Stores v lt =
      let hit : ltb (4 * v) 0x1000 ≡ true = ground arith in
      let number : u32 (4 * v / 4) ≡ v = omega arith in rw (hit, number) refl

  pending-Stores : (group : ℕ) → group < 32 → Stores (pending group)
  unfolding store_register
  pending-Stores group lt =
      let tests = pending-Tests (0x1000 + 4 * group) (omega arith) (omega arith) in
      rw (tests.priority, tests.pending) refl

  enable-Stores : (ctx group : ℕ) → ctx < 15872 → group < 32 → Stores (enable ctx group)
  unfolding store_register handle_enable_regs_store
  enable-Stores ctx group lt small =
      let offset = 0x2000 + 0x80 * ctx + 4 * group in
      let tests = enable-Tests offset (omega arith) (omega arith) in
      let context : sub64 offset 0x2000 / 0x80 ≡ ctx = omega arith in
      let word : u32 (sub64 (sub64 offset 0x2000) (u64 (ctx * 0x80)) / 4) ≡ group = omega arith in
      elim (Bool-cases (vctx == ctx)) [
        | inl e ↦
            let same : vctx ≡ ctx = ground arith in
            let bits =
              enable_loop-enable_bits h.vcpu.conf.devices pctx val group 32 0 32 h.bus refl in
            rw (tests.priority, tests.pending, tests.enable, context, e, same, word, bits) refl
        | inr e ↦ rw (tests.priority, tests.pending, tests.enable, context, e) refl
      ]

  threshold-Stores : (ctx : ℕ) → ctx < 15872 → Stores (threshold ctx)
  unfolding store_register handle_threshold_reg_store
  threshold-Stores ctx lt =
      let offset = 0x200000 + 0x1000 * ctx in
      let tests = threshold-Tests ctx lt in
      let context : sub64 offset 0x200000 / 0x1000 ≡ ctx = omega arith in
      elim (Bool-cases (vctx == ctx)) [
        | inl e ↦ rw (tests.priority, tests.pending, tests.enable, tests.threshold, context, e) refl
        | inr e ↦ rw (tests.priority, tests.pending, tests.enable, tests.threshold, context, e) refl
      ]

  claim_complete-Stores : (ctx : ℕ) → ctx < 15872 → Stores (claim_complete ctx)
  unfolding store_register handle_complete_reg_store
  claim_complete-Stores ctx lt =
      let offset = 0x200004 + 0x1000 * ctx in
      let tests = claim-Tests ctx lt in
      let context : sub64 offset 0x200004 / 0x1000 ≡ ctx = omega arith in
      let number = virt_to_phys_irq h.vcpu.conf.devices val in
      elim (Bool-cases (vctx == ctx)) [
        | inr e ↦
            rw
              (
                tests.priority, tests.pending, tests.enable, tests.threshold, tests.claim, context,
                e,
              )
              refl
        | inl e ↦ elim (Bool-cases (number == h.vcpu.last_claimed_irq_id)) [
          | inl s ↦
              let same : number ≡ h.vcpu.last_claimed_irq_id = ground arith in
              rw
                (
                  tests.priority, tests.pending, tests.enable, tests.threshold, tests.claim,
                  context, e, s, same,
                )
                refl
          | inr s ↦
              rw
                (
                  tests.priority, tests.pending, tests.enable, tests.threshold, tests.claim,
                  context, e, s,
                )
                refl
        ]
      ]

  store_register-Stores : (place : Place) → IsPlace place → Stores place
  store_register-Stores (priority virt_irq) p = priority-Stores virt_irq p
  store_register-Stores (pending group) p = pending-Stores group p
  store_register-Stores (enable ctx group) p = enable-Stores ctx group p.0 p.1
  store_register-Stores (threshold ctx) p = threshold-Stores ctx p
  store_register-Stores (claim_complete ctx) p = claim_complete-Stores ctx p

-- A store on the hart, by the step to the next instruction.
pub emulate_store_lem :
    (instr : Instr) (place : Place) (h : Hart)
    → IsPlace place
    → instr.addr ≡ dtb_plic + offset_of place
    → emulate_store instr h
      ≡ ok tt (
          advance_sepc instr (
            effect
              (context_of h.vcpu.vhartid)
              (context_of h.hartid)
              place
              (u32 (h.vcpu.regs instr.rs2))
              h))
unfolding emulate_store
emulate_store_lem instr place h p at =
    let offset : sub64 instr.addr dtb_plic ≡ offset_of place =
      omega (arith, at, offset_of-lt place p) in
    rw
      (
        offset,
        store_register-Stores h (context_of h.vcpu.vhartid) (context_of h.hartid)
            (u32 (h.vcpu.regs instr.rs2)) place p,
      )
      refl

-- The size of the instruction, which bit 1 of its transformed form shows.
abbrev pub size_of : Instr → ℕ
size_of instr = if instr.opcode / 2 % 2 == 0 then 2 else 4

advance_sepc-size_of :
    (instr : Instr) (h : Hart)
    → advance_sepc instr h ≡ record h { sepc = u64 (h.sepc + size_of instr) }
unfolding advance_sepc
advance_sepc-size_of instr h =
    let test : (bit_and instr.opcode 2 == 0) ≡ (instr.opcode / 2 % 2 == 0) =
      ground (arith, bit_and-two_pow 1 instr.opcode) in
    elim (Bool-cases (instr.opcode / 2 % 2 == 0)) [
      | inl e ↦ rw (test, e) refl
      | inr e ↦ rw (test, e) refl
    ]

-- A guest's store to any register of the window, at the priority of a source below 1024, a
-- pending word, an enable word, a threshold or a claim register of any of the 15872 contexts,
-- ends, 2 or 4 bytes on as bit 1 of the transformed instruction says: a priority is set for the
-- translated source, a pending word changes nothing, an enable word sets or clears the
-- translated source of each of its 32 bits at the context of the hart, a threshold is set
-- there, and a number that translates to the claimed source completes it, forgets it and drops
-- the guest's interrupt, the last three only at the virtual hart's own context, otherwise
-- nothing changes.
pub emulate_store-effect :
    (instr : Instr) (place : Place) (h : Hart)
    → IsPlace place
    → instr.addr ≡ dtb_plic + offset_of place
    → emulate_store instr h
      ≡ ok tt
          (record (effect
            (u64 (2 * h.vcpu.vhartid + 1))
            (u64 (2 * h.hartid + 1))
            place
            (u32 (h.vcpu.regs instr.rs2))
            h) { sepc = u64 (h.sepc + size_of instr) })
emulate_store-effect instr place h p at =
    let after =
      effect (context_of h.vcpu.vhartid) (context_of h.hartid) place (u32 (h.vcpu.regs instr.rs2))
        h in
    let kept =
      effect-sepc (context_of h.vcpu.vhartid) (context_of h.hartid) place
        (u32 (h.vcpu.regs instr.rs2)) h in
    emulate_store_lem instr place h p at
    ∙ ap (λ (g : Hart). ok tt g) (advance_sepc-size_of instr after)
    ∙ ap (λ (c : ℕ). ok tt (record after { sepc = u64 (c + size_of instr) })) kept
