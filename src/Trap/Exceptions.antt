-- ===== src/Trap/Exceptions.antt =====
-- How the exceptions that a guest can raise end.
use riscv_hypervisor.Common.{
  u64, ◌≢◌, ◌+◌, ◌≡◌, true, false, Bool-cases, inl, inr, ◌==◌, if◌then◌else◌, u32, sign_extend,
  refl, arith,
}
use riscv_hypervisor.Common.Effects.{ok, panic, bad_walk, no_root, bad_read, bad_write}
use riscv_hypervisor.Plic.{Device}
use riscv_hypervisor.Vcpu.{set_reg}
use riscv_hypervisor.Vmem.Walk.{convert_va_to_pa-lookup}
use riscv_hypervisor.Vplic.Handlers.{
  vplic_handle_load_page_fault, vplic_handle_store_or_amo_page_fault,
}
use riscv_hypervisor.Trap.{
  Machine, with_ram, perform_walk_for_guest, handle_load_guest_page_fault,
  handle_store_guest_page_fault, hs_exception_handler,
}
use riscv_hypervisor.Trap.Translation.{
  translated, is_mapped, fault_address, is_in_plic, is_access_to_plic-eq,
}

-- A call of the guest gives it, in register 10, the translation of the address in that register
-- by its machine's page table, moves on by 4 bytes and changes nothing else; it stops the
-- hypervisor if there is no table or a table on the way to the address's last entry is missing;
-- the last entry is used as it lies there, whether it is valid or not.
pub guest_call :
    (device : Device) (s : Machine)
    → hs_exception_handler device 10 s ≡ (
        if s.hart.vcpu.conf.vm_pgtable == 0
        then panic no_root
        else if is_mapped s (s.hart.vcpu.regs 10) == 0
        then panic bad_walk
        else ok tt record s {
          hart = record (s.hart) {
            vcpu = record (s.hart.vcpu) {
              regs = set_reg s.hart.vcpu.regs 10 (translated s (s.hart.vcpu.regs 10));
            };
            sepc = u64 (s.hart.sepc + 4);
          };
        })
unfolding hs_exception_handler perform_walk_for_guest
guest_call device s =
    let pgtable = s.hart.vcpu.conf.vm_pgtable in
    let gpa = s.hart.vcpu.regs 10 in
    let walks = convert_va_to_pa-lookup pgtable gpa true s.ram in
    elim (Bool-cases (pgtable == 0)) [
      | inl a ↦ rw (walks, a)
      | inr a ↦ elim (Bool-cases (is_mapped s gpa == 0)) [
        | inl b ↦ rw (walks, a, b)
        | inr b ↦ rw (walks, a, b)
      ]
    ]

-- For a guest that has a page table, in which the tables on the way to the last entry of the
-- fault's address are there: a load fault and a store fault are served by the emulated
-- controller, at the translated address, if that is in the controller's window, and stop the
-- hypervisor otherwise.
pub guest_fault :
    (device : Device) (s : Machine)
    → s.hart.vcpu.conf.vm_pgtable ≢ 0
    → is_mapped s (fault_address s) ≢ 0
    → (hs_exception_handler device 21 s ≡ (
        if is_in_plic (translated s (fault_address s))
        then with_ram s.ram
            (vplic_handle_load_page_fault device (translated s (fault_address s)) s.hart)
        else panic bad_read))
      × (hs_exception_handler device 23 s ≡ (
          if is_in_plic (translated s (fault_address s))
          then with_ram s.ram
              (vplic_handle_store_or_amo_page_fault (translated s (fault_address s)) s.hart)
          else panic bad_write))
unfolding hs_exception_handler handle_load_guest_page_fault handle_store_guest_page_fault
guest_fault device s root mapped =
    let a : (s.hart.vcpu.conf.vm_pgtable == 0) ≡ false = ground arith in
    let b : (is_mapped s (fault_address s) == 0) ≡ false = ground arith in
    elim (Bool-cases (is_in_plic (translated s (fault_address s)))) [
      | inl c ↦
          let same : sign_extend (u32 (translated s (fault_address s)))
              ≡ translated s (fault_address s) =
            ground arith in
          let d : (translated s (fault_address s) == 0) ≡ false = ground arith in
          rw (is_access_to_plic-eq s, a, b, c, same, d) (refl, refl)
      | inr c ↦ rw (is_access_to_plic-eq s, a, b, c) (refl, refl)
    ]
