-- ===== src/Trap.antt =====
-- core/trap.c: what the hypervisor does with a trap. The entry code saves and restores the guest's
-- registers, which are `regs` of the `Vcpu`.
pub mod Translation
pub mod Cases
pub mod Isolation
pub mod Identity
pub mod Runs
pub mod Exceptions
use riscv_hypervisor.Common.{
  ℕ, true, ◌+◌, ◌*◌, ◌/◌, ◌^◌, ◌&&◌, leb, ltb, ◌==◌, if◌then◌else◌, u32, u64, shl64, shr,
  sign_extend,
}
use riscv_hypervisor.Common.Effects.{
  Cmd, Outcome, ok, panic, fault, unknown_interrupt, unknown_exception, bad_read, bad_write, ◌>>=◌,
  ◌>>◌, pure, stop, get, modify,
}
use riscv_hypervisor.Dtb.{dtb_plic, dtb_plic_size}
use riscv_hypervisor.Plic.{Device}
use riscv_hypervisor.Ram.{Ram}
use riscv_hypervisor.Vcpu.{Hart, set_reg}
use riscv_hypervisor.Vmem.{convert_va_to_pa}
use riscv_hypervisor.Vplic.Handlers.{
  vplic_handle_interrupt, vplic_handle_load_page_fault, vplic_handle_store_or_amo_page_fault,
}

-- A hart and the memory.
pub record Machine : Type 0 where
  pub hart : Hart
  pub ram : Ram

abbrev pub with_ram : {A : Type 0} → Ram → Outcome Hart A → Outcome Machine A
with_ram ram (ok a h) = ok a record { hart = h; ram = ram }
with_ram ram (panic p) = panic p
with_ram ram fault = fault

abbrev pub with_hart : {A : Type 0} → Hart → Outcome Ram A → Outcome Machine A
with_hart hart (ok a ram) = ok a record { hart = hart; ram = ram }
with_hart hart (panic p) = panic p
with_hart hart fault = fault

abbrev pub on_hart : {A : Type 0} → Cmd Hart A → Cmd Machine A
on_hart m s = with_ram s.ram (m s.hart)

abbrev pub on_ram : {A : Type 0} → Cmd Ram A → Cmd Machine A
on_ram m s = with_hart s.hart (m s.ram)

unfoldable pub get_pa : ℕ → Cmd Machine ℕ
get_pa pgtable = do s ← get; on_ram (convert_va_to_pa pgtable (shl64 s.hart.htval 2) true)

-- The address, through an `int`, or 0.
unfoldable pub is_access_to_plic : Cmd Machine ℕ
is_access_to_plic = do
  s ← get
  addr ← get_pa s.hart.vcpu.conf.vm_pgtable
  pure (
      if leb dtb_plic addr && ltb addr (dtb_plic + dtb_plic_size)
      then sign_extend (u32 addr)
      else 0)

unfoldable pub perform_walk_for_guest : Cmd Machine (Unit {0})
perform_walk_for_guest = do
  s ← get
  pa ← on_ram (convert_va_to_pa s.hart.vcpu.conf.vm_pgtable (s.hart.vcpu.regs 10) true)
  modify λ s. record s {
    hart = record (s.hart) {
      vcpu = record (s.hart.vcpu) { regs = set_reg s.hart.vcpu.regs 10 pa };
    };
  }

module _ (device : Device) where
  unfoldable pub hs_interrupt_handler : ℕ → Cmd Machine (Unit {0})
  hs_interrupt_handler scause =
      let cause = shr (shl64 scause 1) 1 in
      if cause == 5
      then (modify
          λ s. record s { hart = record (s.hart) { stimecmp = u64 (s.hart.time + 10000000) } })
      else if cause == 9
      then on_hart (vplic_handle_interrupt device)
      else stop unknown_interrupt

  unfoldable pub handle_load_guest_page_fault : Cmd Machine (Unit {0})
  handle_load_guest_page_fault = do
    addr ← is_access_to_plic
    if addr == 0 then stop bad_read else on_hart (vplic_handle_load_page_fault device addr)

  unfoldable pub handle_store_guest_page_fault : Cmd Machine (Unit {0})
  handle_store_guest_page_fault = do
    addr ← is_access_to_plic
    if addr == 0 then stop bad_write else on_hart (vplic_handle_store_or_amo_page_fault addr)

  unfoldable pub hs_exception_handler : ℕ → Cmd Machine (Unit {0})
  hs_exception_handler scause =
      if scause == 10
      then (perform_walk_for_guest
          >> (modify λ s. record s { hart = record (s.hart) { sepc = u64 (s.hart.sepc + 4) } }))
      else if scause == 21
      then handle_load_guest_page_fault
      else if scause == 23
      then handle_store_guest_page_fault
      else stop unknown_exception
