-- ===== src/Trap/Translation.antt =====
-- The address of a fault, by the page table of the guest's machine.
use riscv_hypervisor.Common.{
  ℕ, Bool, ◌+◌, ◌≡◌, true, ◌&&◌, leb, ltb, Bool-cases, inl, inr, ◌==◌, if◌then◌else◌, u32, shl64,
  sign_extend, bit_or,
}
use riscv_hypervisor.Common.Effects.{ok, panic, bad_walk, no_root}
use riscv_hypervisor.Bits.{get_value}
use riscv_hypervisor.Dtb.{dtb_plic, dtb_plic_size}
use riscv_hypervisor.Memory.{pte2pa}
use riscv_hypervisor.Vmem.Walk.{lookup, convert_va_to_pa-lookup}
use riscv_hypervisor.Trap.{Machine, get_pa, is_access_to_plic}

-- The translation of a guest's address by the page table of its machine.
abbrev pub translated : Machine → ℕ → ℕ
translated s gpa =
    bit_or (pte2pa (s.ram.memory (lookup s.ram.memory s.hart.vcpu.conf.vm_pgtable gpa true)))
      (get_value gpa 0 12)

abbrev pub is_mapped : Machine → ℕ → ℕ
is_mapped s gpa = lookup s.ram.memory s.hart.vcpu.conf.vm_pgtable gpa true

abbrev pub fault_address : Machine → ℕ
fault_address s = shl64 s.hart.htval 2

abbrev pub is_in_plic : ℕ → Bool
is_in_plic addr = leb dtb_plic addr && ltb addr (dtb_plic + dtb_plic_size)

-- The address that `is_access_to_plic` gives.
abbrev pub plic_address : ℕ → ℕ
plic_address addr = if is_in_plic addr then sign_extend (u32 addr) else 0

pub is_access_to_plic-eq :
    (s : Machine)
    → is_access_to_plic s ≡ (
        if s.hart.vcpu.conf.vm_pgtable == 0
        then panic no_root
        else if is_mapped s (fault_address s) == 0
        then panic bad_walk
        else ok (plic_address (translated s (fault_address s))) s)
unfolding is_access_to_plic get_pa
is_access_to_plic-eq s =
    let walks = convert_va_to_pa-lookup s.hart.vcpu.conf.vm_pgtable (fault_address s) true s.ram in
    elim (Bool-cases (s.hart.vcpu.conf.vm_pgtable == 0)) [
      | inl a ↦ rw (walks, a)
      | inr a ↦ elim (Bool-cases (is_mapped s (fault_address s) == 0)) [
        | inl b ↦ rw (walks, a, b)
        | inr b ↦ rw (walks, a, b)
      ]
    ]
