-- ===== src/Vplic/Handlers.antt =====
-- The entry points: the two page faults and the interrupt.
use riscv_hypervisor.Common.{ℕ, ◌+◌, ◌*◌, ◌&&◌, not, ◌==◌, if◌then◌else◌, u32, u64, bit_or}
use riscv_hypervisor.Common.Effects.{
  Cmd, bad_load_opcode, bad_load_funct3, bad_store_opcode, bad_store_funct3, ◌>>=◌, ◌>>◌, get,
  modify, panic_if,
}
use riscv_hypervisor.Plic.{Device, plic_claim}
use riscv_hypervisor.Vcpu.{Hart}
use riscv_hypervisor.Vplic.Instr.{parse_htinst}
use riscv_hypervisor.Vplic.Load.{emulate_load}
use riscv_hypervisor.Vplic.Store.{emulate_store, hvip_vseip}

module _ (device : Device) where
  unfoldable pub vplic_handle_load_page_fault : ℕ → Cmd Hart (Unit {0})
  vplic_handle_load_page_fault addr = do
    instr ← parse_htinst addr
    panic_if (not (bit_or instr.opcode 2 == 0x3)) bad_load_opcode
    panic_if (not (instr.funct3 == 2) && not (instr.funct3 == 6)) bad_load_funct3
    emulate_load device instr

  unfoldable pub vplic_handle_interrupt : Cmd Hart (Unit {0})
  vplic_handle_interrupt = do
    h ← get
    let (claimed, bus) = plic_claim device (u32 (u64 (2 * h.hartid + 1))) h.bus
    modify λ h. record h { vcpu = record (h.vcpu) { last_claimed_irq_id = claimed }; bus = bus }
    modify λ h. (if not (claimed == 0) then record h { hvip = bit_or h.hvip hvip_vseip } else h)

unfoldable pub vplic_handle_store_or_amo_page_fault : ℕ → Cmd Hart (Unit {0})
vplic_handle_store_or_amo_page_fault addr = do
  instr ← parse_htinst addr
  panic_if (not (bit_or instr.opcode 2 == 0x23)) bad_store_opcode
  panic_if (not (instr.funct3 == 2)) bad_store_funct3
  emulate_store instr
