-- ===== src/Vplic/Store.antt =====
-- `emulate_store` and the writes of the registers behind it.
pub mod Isolation
pub mod Places
pub mod Result
use riscv_hypervisor.Common.{
  ℕ, zero, suc, ◌+◌, ◌-◌, ◌*◌, ◌/◌, ◌%◌, ◌^◌, List, Option, not, ◌==◌, if◌then◌else◌, u32, u64,
  sub64, bit_and,
}
use riscv_hypervisor.Common.Effects.{Cmd, ok, bad_plic_access, ◌>>=◌, ◌>>◌, pure, stop, get, modify}
use riscv_hypervisor.Dtb.{dtb_plic}
use riscv_hypervisor.Plic.{
  Bus, plic_set_priority, plic_set_enabled, plic_set_threshold, plic_complete,
}
use riscv_hypervisor.VmConfig.{MmioDev}
use riscv_hypervisor.Vcpu.{Vcpu, Hart}
use riscv_hypervisor.Vplic.Window.{
  is_access_to_priority_reg, is_access_to_pending_regs, is_access_to_enable_regs,
  is_access_to_threshold_reg, is_access_to_claim_complete_reg,
}
use riscv_hypervisor.Vplic.Instr.{Instr}
use riscv_hypervisor.Vplic.Irq.{virt_to_phys_irq}
use riscv_hypervisor.Vplic.Load.{context_of, advance_sepc}

abbrev pub hvip_vseip : ℕ
hvip_vseip = 2 ^ 10

abbrev pub bus_write : (Bus → Bus) → Cmd Hart (Unit {0})
bus_write f h = ok tt (record h { bus = f h.bus })

unfoldable pub handle_priority_reg_store : List (Option MmioDev) → ℕ → ℕ → Bus → Bus
handle_priority_reg_store devs offset val =
    let virt_irq = u32 (offset / 4) in plic_set_priority (virt_to_phys_irq devs virt_irq) val

-- The loop over the 32 interrupts of a group from `i` on, with the rounds that are left.
unfoldable pub enable_loop : List (Option MmioDev) → ℕ → ℕ → ℕ → ℕ → ℕ → Bus → Bus
enable_loop devs pctx val virt_irq_group zero i bus = bus
enable_loop devs pctx val virt_irq_group (suc left) i bus =
    enable_loop devs pctx val virt_irq_group left (i + 1) (
      plic_set_enabled (u32 pctx) (virt_to_phys_irq devs (u32 (virt_irq_group * 32 + i)))
        (bit_and (2 ^ i) val) bus)

unfoldable pub handle_enable_regs_store : List (Option MmioDev) → ℕ → ℕ → ℕ → ℕ → Bus → Bus
unfolding enable_loop
handle_enable_regs_store devs offset val vctx pctx bus =
    if not (vctx == sub64 offset 0x2000 / 0x80)
    then bus
    else (let virt_irq_group = u32 (sub64 (sub64 offset 0x2000) (u64 (vctx * 0x80)) / 4) in
        enable_loop devs pctx val virt_irq_group 32 0 bus)

unfoldable pub handle_threshold_reg_store : ℕ → ℕ → ℕ → ℕ → Bus → Bus
handle_threshold_reg_store offset vctx pctx val bus =
    if not (vctx == sub64 offset 0x200000 / 0x1000)
    then bus
    else plic_set_threshold (u32 pctx) (u32 val) bus

-- The `int` of the translation and the `uint32` that it is stored in have one bit pattern.
unfoldable pub handle_complete_reg_store : ℕ → ℕ → ℕ → ℕ → Cmd Hart (Unit {0})
handle_complete_reg_store offset vctx pctx val = do
  h ← get
  let phys_irq = virt_to_phys_irq h.vcpu.conf.devices val
  if not (vctx == sub64 offset 0x200004 / 0x1000)
      then pure tt
      else if phys_irq == h.vcpu.last_claimed_irq_id
      then (modify λ h. record h {
        vcpu = record (h.vcpu) { last_claimed_irq_id = 0 };
        bus = plic_complete (u32 pctx) phys_irq h.bus;
        hvip = bit_and h.hvip (2 ^ 64 - 1 - hvip_vseip);
      })
      else pure tt

-- The chain of tests in `emulate_store`. A write of the pending registers does nothing.
unfoldable pub store_register : List (Option MmioDev) → ℕ → ℕ → ℕ → ℕ → Cmd Hart (Unit {0})
store_register devs offset vctx pctx val =
    if is_access_to_priority_reg offset
    then bus_write (handle_priority_reg_store devs offset val)
    else if is_access_to_pending_regs offset
    then pure tt
    else if is_access_to_enable_regs offset
    then bus_write (handle_enable_regs_store devs offset val vctx pctx)
    else if is_access_to_threshold_reg offset
    then bus_write (handle_threshold_reg_store offset vctx pctx val)
    else if is_access_to_claim_complete_reg offset
    then handle_complete_reg_store offset vctx pctx val
    else stop bad_plic_access

unfoldable pub emulate_store : Instr → Cmd Hart (Unit {0})
unfolding store_register
emulate_store instr = do
  h ← get
  let devs = h.vcpu.conf.devices
  let offset = sub64 instr.addr dtb_plic
  let vctx = context_of h.vcpu.vhartid
  let pctx = context_of h.hartid
  let val = u32 (h.vcpu.regs instr.rs2)
  store_register devs offset vctx pctx val
  modify (advance_sepc instr)
