-- ===== src/Vplic/Load/Isolation.antt =====
-- A load reads only registers of the machine's own devices and of the hart's own context.
use riscv_hypervisor.Common.{
  ℕ, zero, suc, ◌+◌, ◌*◌, List, Option, ◌==◌, u32, ◌/◌, [], arith, sub64, Bool-cases, inl, inr,
}
use riscv_hypervisor.Common.Effects.{Cmd, Outcome, ok, panic, fault, and_then}
use riscv_hypervisor.Common.Extends.{Extends, Extends-refl, Extends-trans}
use riscv_hypervisor.Dtb.{dtb_plic}
use riscv_hypervisor.Plic.{Bus, Device, plic_get_pending, plic_get_enabled}
use riscv_hypervisor.Plic.Isolation.{
  Own, get_priority-Own, get_pending-Own, get_enabled-Own, get_threshold-Own,
}
use riscv_hypervisor.VmConfig.{MmioDev}
use riscv_hypervisor.Vcpu.{Hart}
use riscv_hypervisor.Vplic.Irq.{virt_to_phys_irq, sources_of}
use riscv_hypervisor.Vplic.Irq.Laws.{virt_to_phys_irq-own}
use riscv_hypervisor.Vplic.Instr.{Instr}
use riscv_hypervisor.Vplic.Window.{
  is_access_to_priority_reg, is_access_to_pending_regs, is_access_to_enable_regs,
  is_access_to_threshold_reg, is_access_to_claim_complete_reg,
}
use riscv_hypervisor.Vplic.Load.{
  context_of, handle_priority_reg_load, pending_loop, handle_pending_regs_load, enabled_loop,
  handle_enable_regs_load, handle_threshold_reg_load, handle_claim_reg_load, load_register,
  write_back, advance_sepc, emulate_load,
}

-- The accesses that a command made, if it ended, are within the registers of its machine.
abbrev pub Isolated : {A : Type 0} → List (Option MmioDev) → ℕ → Bus → Outcome Hart A → Type 0
Isolated devs pctx old (ok a h) = Extends (Own (sources_of devs) (u32 pctx)) old h.bus
Isolated devs pctx old (panic p) = Unit
Isolated devs pctx old fault = Unit

Isolated-trans :
    {A : Type 0} (devs : List (Option MmioDev)) (pctx : ℕ) {old mid : Bus} (m : Outcome Hart A)
    → Extends (Own (sources_of devs) (u32 pctx)) old mid
    → Isolated devs pctx mid m
    → Isolated devs pctx old m
Isolated-trans devs pctx (ok a h) first rest = Extends-trans first rest
Isolated-trans devs pctx (panic p) first rest = tt
Isolated-trans devs pctx fault first rest = tt

-- What follows a command keeps to the same registers.
pub Isolated-bind :
    {A B : Type 0} (devs : List (Option MmioDev)) (pctx : ℕ) (old : Bus) (m : Outcome Hart A)
    (k : A → Cmd Hart B)
    → Isolated devs pctx old m
    → ((a : A) (h : Hart) → Isolated devs pctx h.bus (k a h))
    → Isolated devs pctx old (and_then m k)
Isolated-bind devs pctx old (ok a h) k first rest =
    Isolated-trans devs pctx (k a h) first (rest a h)
Isolated-bind devs pctx old (panic p) k first rest = tt
Isolated-bind devs pctx old fault k first rest = tt

module _ (device : Device) (devs : List (Option MmioDev)) (pctx : ℕ) where
  abbrev Grows : Bus → Bus → Type 0
  Grows = Extends (Own (sources_of devs) (u32 pctx))

  pending_loop-Own :
      (virt_irq_group left i masked : ℕ) (bus : Bus)
      → Grows bus (pending_loop device devs virt_irq_group left i masked bus).1
  unfolding pending_loop
  pending_loop-Own group zero i masked bus = Extends-refl bus
  pending_loop-Own group (suc left) i masked bus =
      let p = virt_to_phys_irq devs (u32 (group * 32 + i)) in
      Extends-trans
        (get_pending-Own (sources_of devs) (u32 pctx) device p bus (virt_to_phys_irq-own devs _))
        (pending_loop-Own group left (i + 1) _ (plic_get_pending device p bus).1)

  enabled_loop-Own :
      (virt_irq_group left i masked : ℕ) (bus : Bus)
      → Grows bus (enabled_loop device devs pctx virt_irq_group left i masked bus).1
  unfolding enabled_loop
  enabled_loop-Own group zero i masked bus = Extends-refl bus
  enabled_loop-Own group (suc left) i masked bus =
      let p = virt_to_phys_irq devs (u32 (group * 32 + i)) in
      Extends-trans
        (get_enabled-Own (sources_of devs) (u32 pctx) device p bus (virt_to_phys_irq-own devs _))
        (enabled_loop-Own group left (i + 1) _ (plic_get_enabled device (u32 pctx) p bus).1)

  enable_regs-Own :
      (offset vctx : ℕ) (bus : Bus)
      → Grows bus (handle_enable_regs_load device devs offset vctx pctx bus).1
  unfolding handle_enable_regs_load
  enable_regs-Own offset vctx bus = elim (Bool-cases (vctx == sub64 offset 0x2000 / 0x80)) [
    | inl own ↦ rw own (enabled_loop-Own _ 32 0 0 bus)
    | inr bad ↦ rw bad (Extends-refl bus)
  ]

  threshold_reg-Own :
      (offset vctx : ℕ) (bus : Bus)
      → Grows bus (handle_threshold_reg_load device offset vctx pctx bus).1
  unfolding handle_threshold_reg_load
  threshold_reg-Own offset vctx bus = elim (Bool-cases (vctx == sub64 offset 0x200000 / 0x1000)) [
    | inl own ↦ rw own (get_threshold-Own (sources_of devs) (u32 pctx) device bus)
    | inr bad ↦ rw bad (Extends-refl bus)
  ]

  claim_reg-Own :
      (offset vctx : ℕ) (h : Hart)
      → Isolated devs pctx h.bus (handle_claim_reg_load device devs offset vctx h)
  unfolding handle_claim_reg_load
  claim_reg-Own offset vctx h = elim (Bool-cases (vctx == sub64 offset 0x200004 / 0x1000)) [
    | inl own ↦ rw own (Extends-refl h.bus)
    | inr bad ↦ rw bad (Extends-refl h.bus)
  ]

  pub load_register-Isolated :
      (offset vctx : ℕ) (h : Hart)
      → Isolated devs pctx h.bus (load_register device devs offset vctx pctx h)
  unfolding load_register handle_priority_reg_load handle_pending_regs_load
  load_register-Isolated offset vctx h = elim (Bool-cases (is_access_to_priority_reg offset)) [
    | inl a ↦
        rw a (
          get_priority-Own (sources_of devs) (u32 pctx) device _ h.bus
            (virt_to_phys_irq-own devs _))
    | inr a ↦ elim (Bool-cases (is_access_to_pending_regs offset)) [
      | inl b ↦ rw (a, b) (pending_loop-Own _ 32 0 0 h.bus)
      | inr b ↦ elim (Bool-cases (is_access_to_enable_regs offset)) [
        | inl c ↦ rw (a, b, c) (enable_regs-Own offset vctx h.bus)
        | inr c ↦ elim (Bool-cases (is_access_to_threshold_reg offset)) [
          | inl d ↦ rw (a, b, c, d) (threshold_reg-Own offset vctx h.bus)
          | inr d ↦ elim (Bool-cases (is_access_to_claim_complete_reg offset)) [
            | inl e ↦ rw (a, b, c, d, e) (claim_reg-Own offset vctx h)
            | inr e ↦ rw (a, b, c, d, e) tt
          ]
        ]
      ]
    ]
  ]

-- Every access that an emulated load makes reads a register of the machine's own devices, or of the
-- context of its own hart.
pub emulate_load-Isolated :
    (device : Device) (instr : Instr) (h : Hart)
    → Isolated h.vcpu.conf.devices (context_of h.hartid) h.bus (emulate_load device instr h)
unfolding emulate_load write_back advance_sepc
emulate_load-Isolated device instr h =
    Isolated-bind devs pctx h.bus (load_register device devs offset vctx pctx h) _
      (load_register-Isolated device devs pctx offset vctx h)
      (λ val h'. record { added = []; grown = ground arith; each = tt })
  where
    devs : List (Option MmioDev)
    devs = h.vcpu.conf.devices

    offset : ℕ
    offset = sub64 instr.addr dtb_plic

    vctx : ℕ
    vctx = context_of h.vcpu.vhartid

    pctx : ℕ
    pctx = context_of h.hartid
