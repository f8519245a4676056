-- ===== src/Vplic/Store/Isolation.antt =====
-- A store changes only registers of the machine's own devices and of the hart's own context.
use riscv_hypervisor.Common.{
  ℕ, zero, suc, ◌+◌, ◌*◌, ◌/◌, ◌^◌, List, Option, [], ◌==◌, u32, sub64, bit_and, Bool-cases, inl,
  inr, arith,
}
use riscv_hypervisor.Common.Extends.{Extends, Extends-refl, Extends-trans}
use riscv_hypervisor.Dtb.{dtb_plic}
use riscv_hypervisor.Plic.{Bus, plic_set_enabled}
use riscv_hypervisor.Plic.Isolation.{
  Own, set_priority-Own, set_enabled-Own, set_threshold-Own, complete-Own,
}
use riscv_hypervisor.VmConfig.{MmioDev}
use riscv_hypervisor.Vcpu.{Hart}
use riscv_hypervisor.Vplic.Irq.{virt_to_phys_irq, sources_of}
use riscv_hypervisor.Vplic.Irq.Laws.{virt_to_phys_irq-own}
use riscv_hypervisor.Vplic.Instr.{Instr}
use riscv_hypervisor.Vplic.Window.{
  is_access_to_priority_reg, is_access_to_pending_regs, is_access_to_enable_regs,
  is_access_to_threshold_reg, is_access_to_claim_complete_reg,
}
use riscv_hypervisor.Vplic.Load.{context_of, advance_sepc}
use riscv_hypervisor.Vplic.Load.Isolation.{Isolated, Isolated-bind}
use riscv_hypervisor.Vplic.Store.{
  handle_priority_reg_store, enable_loop, handle_enable_regs_store, handle_threshold_reg_store,
  handle_complete_reg_store, store_register, emulate_store,
}

module _ (devs : List (Option MmioDev)) (pctx : ℕ) where
  abbrev Grows : Bus → Bus → Type 0
  Grows = Extends (Own (sources_of devs) (u32 pctx))

  enable_loop-Own :
      (val virt_irq_group left i : ℕ) (bus : Bus)
      → Grows bus (enable_loop devs pctx val virt_irq_group left i bus)
  unfolding enable_loop
  enable_loop-Own val group zero i bus = Extends-refl bus
  enable_loop-Own val group (suc left) i bus =
      let p = virt_to_phys_irq devs (u32 (group * 32 + i)) in
      Extends-trans
        (set_enabled-Own (sources_of devs) (u32 pctx) p (bit_and (2 ^ i) val) bus
          (virt_to_phys_irq-own devs _))
        (enable_loop-Own val group left (i + 1)
          (plic_set_enabled (u32 pctx) p (bit_and (2 ^ i) val) bus))

  enable_regs-Own :
      (offset val vctx : ℕ) (bus : Bus)
      → Grows bus (handle_enable_regs_store devs offset val vctx pctx bus)
  unfolding handle_enable_regs_store
  enable_regs-Own offset val vctx bus = elim (Bool-cases (vctx == sub64 offset 0x2000 / 0x80)) [
    | inl own ↦ rw own (enable_loop-Own val _ 32 0 bus)
    | inr bad ↦ rw bad (Extends-refl bus)
  ]

  threshold_reg-Own :
      (offset val vctx : ℕ) (bus : Bus)
      → Grows bus (handle_threshold_reg_store offset vctx pctx val bus)
  unfolding handle_threshold_reg_store
  threshold_reg-Own offset val vctx bus =
      elim (Bool-cases (vctx == sub64 offset 0x200000 / 0x1000)) [
        | inl own ↦ rw own (set_threshold-Own (sources_of devs) (u32 pctx) (u32 val) bus)
        | inr bad ↦ rw bad (Extends-refl bus)
      ]

-- A completed source is 0 or the machine's own.
complete_reg-Own :
    (pctx offset val vctx : ℕ) (h : Hart)
    → Isolated h.vcpu.conf.devices pctx h.bus (handle_complete_reg_store offset vctx pctx val h)
unfolding handle_complete_reg_store
complete_reg-Own pctx offset val vctx h =
    elim (Bool-cases (vctx == sub64 offset 0x200004 / 0x1000)) [
      | inl own ↦
          elim (Bool-cases
            (virt_to_phys_irq h.vcpu.conf.devices val == h.vcpu.last_claimed_irq_id)) [
              | inl same ↦
                  rw (own, same)
                    (complete-Own (sources_of h.vcpu.conf.devices) (u32 pctx) _ h.bus
                      (virt_to_phys_irq-own h.vcpu.conf.devices val))
              | inr other ↦ rw (own, other) (Extends-refl h.bus)
            ]
      | inr bad ↦ rw bad (Extends-refl h.bus)
    ]

store_register-Isolated :
    (pctx offset vctx val : ℕ) (h : Hart)
    → Isolated h.vcpu.conf.devices pctx h.bus
        (store_register h.vcpu.conf.devices offset vctx pctx val h)
unfolding store_register handle_priority_reg_store
store_register-Isolated pctx offset vctx val h =
    elim (Bool-cases (is_access_to_priority_reg offset)) [
      | inl a ↦
          rw a (
            set_priority-Own (sources_of devs) (u32 pctx) _ val h.bus (virt_to_phys_irq-own devs _))
      | inr a ↦ elim (Bool-cases (is_access_to_pending_regs offset)) [
        | inl b ↦ rw (a, b) (Extends-refl h.bus)
        | inr b ↦ elim (Bool-cases (is_access_to_enable_regs offset)) [
          | inl c ↦ rw (a, b, c) (enable_regs-Own devs pctx offset val vctx h.bus)
          | inr c ↦ elim (Bool-cases (is_access_to_threshold_reg offset)) [
            | inl d ↦ rw (a, b, c, d) (threshold_reg-Own devs pctx offset val vctx h.bus)
            | inr d ↦ elim (Bool-cases (is_access_to_claim_complete_reg offset)) [
              | inl e ↦ rw (a, b, c, d, e) (complete_reg-Own pctx offset val vctx h)
              | inr e ↦ rw (a, b, c, d, e) tt
            ]
          ]
        ]
      ]
    ]
  where
    devs : List (Option MmioDev)
    devs = h.vcpu.conf.devices

-- Every access that an emulated store makes changes, of the registers of the machine's own devices
-- and of the context of its own hart, a register or an own source's bit in one.
pub emulate_store-Isolated :
    (instr : Instr) (h : Hart)
    → Isolated h.vcpu.conf.devices (context_of h.hartid) h.bus (emulate_store instr h)
unfolding emulate_store advance_sepc
emulate_store-Isolated instr h =
    Isolated-bind h.vcpu.conf.devices pctx h.bus
      (store_register h.vcpu.conf.devices offset vctx pctx val h) _
      (store_register-Isolated pctx offset vctx val h)
      (λ _ h'. record { added = []; grown = ground arith; each = tt })
  where
    offset : ℕ
    offset = sub64 instr.addr dtb_plic

    vctx : ℕ
    vctx = context_of h.vcpu.vhartid

    pctx : ℕ
    pctx = context_of h.hartid

    val : ℕ
    val = u32 (h.vcpu.regs instr.rs2)
