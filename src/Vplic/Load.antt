-- ===== src/Vplic/Load.antt =====
-- `emulate_load` and the reads of the registers behind it. The arguments of the driver's calls are
-- converted to `int`, hence the `u32`.
pub mod Isolation
pub mod Result
use riscv_hypervisor.Common.{
  ℕ, zero, suc, ◌+◌, ◌-◌, ◌*◌, ◌/◌, ◌%◌, ◌^◌, List, Option, ◌&&◌, not, ◌==◌, if◌then◌else◌, u32,
  u64, sub64, bit_and, bit_or,
}
use riscv_hypervisor.Common.Effects.{Cmd, ok, bad_plic_access, ◌>>=◌, ◌>>◌, pure, stop, get, modify}
use riscv_hypervisor.Dtb.{dtb_plic}
use riscv_hypervisor.Plic.{
  Bus, Device, plic_get_priority, plic_get_pending, plic_get_enabled, plic_get_threshold,
}
use riscv_hypervisor.VmConfig.{MmioDev}
use riscv_hypervisor.Vcpu.{Vcpu, Hart, set_reg}
use riscv_hypervisor.Vplic.Window.{
  is_access_to_priority_reg, is_access_to_pending_regs, is_access_to_enable_regs,
  is_access_to_threshold_reg, is_access_to_claim_complete_reg,
}
use riscv_hypervisor.Vplic.Instr.{Instr}
use riscv_hypervisor.Vplic.Irq.{virt_to_phys_irq, phys_to_virt_irq}

-- `2 * vhartid + 1` and `2 * hartid + 1`: the supervisor context of a hart.
abbrev pub context_of : ℕ → ℕ
context_of hartid = u64 (2 * hartid + 1)

-- A command that only uses the interrupt controller.
abbrev pub on_bus : (Bus → ℕ × Bus) → Cmd Hart ℕ
on_bus f h = let (val, bus) = f h.bus in ok val (record h { bus = bus })

-- The value goes to the destination; `lw` then sets the upper half if the value is negative.
unfoldable pub write_back : Instr → ℕ → Hart → Hart
write_back instr val h =
    let regs = set_reg h.vcpu.regs instr.rd val in
    record h {
      vcpu = record (h.vcpu) {
        regs =
            if instr.funct3 == 2 && not (bit_and val 0x80000000 == 0)
            then set_reg regs instr.rd (bit_or (regs instr.rd) 0xffffffff00000000)
            else regs;
      };
    }

-- The guest goes on behind the instruction; bit 1 of the opcode tells an uncompressed one.
unfoldable pub advance_sepc : Instr → Hart → Hart
advance_sepc instr h =
    if not (bit_and instr.opcode 2 == 0)
    then record h { sepc = u64 (h.sepc + 4) }
    else record h { sepc = u64 (h.sepc + 2) }

module _ (device : Device) where
  unfoldable pub handle_priority_reg_load : List (Option MmioDev) → ℕ → Bus → ℕ × Bus
  handle_priority_reg_load devs offset =
      let virt_irq = u32 (offset / 4) in plic_get_priority device (virt_to_phys_irq devs virt_irq)

  -- The loop over the 32 interrupts of a group from `i` on, with the rounds that are left.
  unfoldable pub pending_loop : List (Option MmioDev) → ℕ → ℕ → ℕ → ℕ → Bus → ℕ × Bus
  pending_loop devs virt_irq_group zero i masked bus = (masked, bus)
  pending_loop devs virt_irq_group (suc left) i masked bus =
      let (pending, bus') =
        plic_get_pending device (virt_to_phys_irq devs (u32 (virt_irq_group * 32 + i))) bus in
      pending_loop devs virt_irq_group left (i + 1)
        (if pending == 0 then masked else bit_or masked (2 ^ i)) bus'

  unfoldable pub handle_pending_regs_load : List (Option MmioDev) → ℕ → Bus → ℕ × Bus
  unfolding pending_loop
  handle_pending_regs_load devs offset =
      let virt_irq_group = u32 (sub64 offset 0x1000 / 4) in pending_loop devs virt_irq_group 32 0 0

  unfoldable pub enabled_loop : List (Option MmioDev) → ℕ → ℕ → ℕ → ℕ → ℕ → Bus → ℕ × Bus
  enabled_loop devs pctx virt_irq_group zero i masked bus = (masked, bus)
  enabled_loop devs pctx virt_irq_group (suc left) i masked bus =
      let (enabled, bus') =
        plic_get_enabled device (u32 pctx) (virt_to_phys_irq devs (u32 (virt_irq_group * 32 + i)))
          bus in
      enabled_loop devs pctx virt_irq_group left (i + 1)
        (if enabled == 0 then masked else bit_or masked (2 ^ i)) bus'

  unfoldable pub handle_enable_regs_load : List (Option MmioDev) → ℕ → ℕ → ℕ → Bus → ℕ × Bus
  unfolding enabled_loop
  handle_enable_regs_load devs offset vctx pctx bus =
      if not (vctx == sub64 offset 0x2000 / 0x80)
      then (0, bus)
      else (let virt_irq_group = u32 (sub64 (sub64 offset 0x2000) (u64 (vctx * 0x80)) / 4) in
          enabled_loop devs pctx virt_irq_group 32 0 0 bus)

  unfoldable pub handle_threshold_reg_load : ℕ → ℕ → ℕ → Bus → ℕ × Bus
  handle_threshold_reg_load offset vctx pctx bus =
      if not (vctx == sub64 offset 0x200000 / 0x1000)
      then (0, bus)
      else plic_get_threshold device (u32 pctx) bus

  -- The claim is not made here: the interrupt handler made it.
  unfoldable pub handle_claim_reg_load : List (Option MmioDev) → ℕ → ℕ → Cmd Hart ℕ
  handle_claim_reg_load devs offset vctx = do
    h ← get
    if not (vctx == sub64 offset 0x200004 / 0x1000)
        then pure 0
        else pure (phys_to_virt_irq devs h.vcpu.last_claimed_irq_id)

  -- The chain of tests in `emulate_load`, which gives `val`.
  unfoldable pub load_register : List (Option MmioDev) → ℕ → ℕ → ℕ → Cmd Hart ℕ
  load_register devs offset vctx pctx =
      if is_access_to_priority_reg offset
      then on_bus (handle_priority_reg_load devs offset)
      else if is_access_to_pending_regs offset
      then on_bus (handle_pending_regs_load devs offset)
      else if is_access_to_enable_regs offset
      then on_bus (handle_enable_regs_load devs offset vctx pctx)
      else if is_access_to_threshold_reg offset
      then on_bus (handle_threshold_reg_load offset vctx pctx)
      else if is_access_to_claim_complete_reg offset
      then handle_claim_reg_load devs offset vctx
      else stop bad_plic_access

  unfoldable pub emulate_load : Instr → Cmd Hart (Unit {0})
  unfolding load_register
  emulate_load instr = do
    h ← get
    let devs = h.vcpu.conf.devices
    let offset = sub64 instr.addr dtb_plic
    let vctx = context_of h.vcpu.vhartid
    let pctx = context_of h.hartid
    val ← load_register devs offset vctx pctx
    modify (write_back instr val)
    modify (advance_sepc instr)
