-- ===== src/Trap/Cases.antt =====
-- What every handler of core/trap.c does to its hart, from what the handlers behind it do.
use riscv_hypervisor.Common.{ℕ, ◌≡◌, true, Bool-cases, inl, inr, ◌==◌, shl64, shr, arith}
use riscv_hypervisor.Common.Effects.{Outcome, ok, panic, fault}
use riscv_hypervisor.Common.Lands.{Lands}
use riscv_hypervisor.Plic.{Device}
use riscv_hypervisor.Vcpu.{Hart}
use riscv_hypervisor.Vmem.Walk.{convert_va_to_pa-lookup}
use riscv_hypervisor.Vplic.Handlers.{
  vplic_handle_interrupt, vplic_handle_load_page_fault, vplic_handle_store_or_amo_page_fault,
}
use riscv_hypervisor.Trap.{
  Machine, with_ram, perform_walk_for_guest, hs_interrupt_handler, handle_load_guest_page_fault,
  handle_store_guest_page_fault, hs_exception_handler,
}
use riscv_hypervisor.Trap.Translation.{
  translated, is_mapped, fault_address, plic_address, is_access_to_plic-eq,
}

-- A relation of harts that every trap keeps to, for one answer of the controller.
pub record Holds (device : Device) (R : Hart → Hart → Type 0) : Type 0 where
  pub timer : (h : Hart) (stimecmp : ℕ) → R h (record h { stimecmp = stimecmp })
  pub call :
      (h : Hart) (regs : ℕ → ℕ) (sepc : ℕ)
      → R h (record h { vcpu = record (h.vcpu) { regs = regs }; sepc = sepc })
  pub interrupt : (h : Hart) → Lands R h (vplic_handle_interrupt device h)
  pub load : (addr : ℕ) (h : Hart) → Lands R h (vplic_handle_load_page_fault device addr h)
  pub store : (addr : ℕ) (h : Hart) → Lands R h (vplic_handle_store_or_amo_page_fault addr h)

with_ram-Lands :
    (R : Hart → Hart → Type 0) (s : Machine) (m : Outcome Hart (Unit {0}))
    → Lands R s.hart m
    → Lands (λ s t. R s.hart t.hart) s (with_ram s.ram m)
with_ram-Lands R s (ok a h) i = i
with_ram-Lands R s (panic p) i = tt
with_ram-Lands R s fault i = tt

module _ (device : Device) (R : Hart → Hart → Type 0) (holds : Holds device R) (s : Machine) where
  abbrev pub Keeps : Outcome Machine (Unit {0}) → Type 0
  Keeps = Lands (λ s t. R s.hart t.hart) s

  pub hs_interrupt_handler-Keeps : (scause : ℕ) → Keeps (hs_interrupt_handler device scause s)
  unfolding hs_interrupt_handler
  hs_interrupt_handler-Keeps scause = elim (Bool-cases (shr (shl64 scause 1) 1 == 5)) [
    | inl a ↦ rw a (holds.timer s.hart _)
    | inr a ↦ elim (Bool-cases (shr (shl64 scause 1) 1 == 9)) [
      | inl b ↦
          rw (a, b)
            (with_ram-Lands R s (vplic_handle_interrupt device s.hart) (holds.interrupt s.hart))
      | inr b ↦ rw (a, b) tt
    ]
  ]

  load-Keeps : Keeps (handle_load_guest_page_fault device s)
  unfolding handle_load_guest_page_fault
  load-Keeps =
      let addr = plic_address (translated s (fault_address s)) in
      rw (is_access_to_plic-eq s) (elim (Bool-cases (s.hart.vcpu.conf.vm_pgtable == 0)) [
        | inl a ↦ rw a tt
        | inr a ↦ elim (Bool-cases (is_mapped s (fault_address s) == 0)) [
          | inl b ↦ rw (a, b) tt
          | inr b ↦ elim (Bool-cases (addr == 0)) [
            | inl c ↦ rw (a, b, c) tt
            | inr c ↦
                rw (a, b, c)
                  (with_ram-Lands R s (vplic_handle_load_page_fault device addr s.hart)
                    (holds.load addr s.hart))
          ]
        ]
      ])

  store-Keeps : Keeps (handle_store_guest_page_fault device s)
  unfolding handle_store_guest_page_fault
  store-Keeps =
      let addr = plic_address (translated s (fault_address s)) in
      rw (is_access_to_plic-eq s) (elim (Bool-cases (s.hart.vcpu.conf.vm_pgtable == 0)) [
        | inl a ↦ rw a tt
        | inr a ↦ elim (Bool-cases (is_mapped s (fault_address s) == 0)) [
          | inl b ↦ rw (a, b) tt
          | inr b ↦ elim (Bool-cases (addr == 0)) [
            | inl c ↦ rw (a, b, c) tt
            | inr c ↦
                rw (a, b, c)
                  (with_ram-Lands R s (vplic_handle_store_or_amo_page_fault addr s.hart)
                    (holds.store addr s.hart))
          ]
        ]
      ])

  walk-Keeps : Keeps (hs_exception_handler device 10 s)
  unfolding hs_exception_handler perform_walk_for_guest
  walk-Keeps =
      let pgtable = s.hart.vcpu.conf.vm_pgtable in
      let gpa = s.hart.vcpu.regs 10 in
      rw (convert_va_to_pa-lookup pgtable gpa true s.ram) (elim (Bool-cases (pgtable == 0)) [
        | inl a ↦ rw a tt
        | inr a ↦ elim (Bool-cases (is_mapped s gpa == 0)) [
          | inl b ↦ rw (a, b) tt
          | inr b ↦ rw (a, b) (holds.call s.hart _ _)
        ]
      ])

  pub exception-Keeps : (scause : ℕ) → Keeps (hs_exception_handler device scause s)
  unfolding hs_exception_handler
  exception-Keeps scause = elim (Bool-cases (scause == 10)) [
    | inl a ↦ let ten : scause ≡ 10 = ground arith in rw ten walk-Keeps
    | inr a ↦ elim (Bool-cases (scause == 21)) [
      | inl b ↦ rw (a, b) load-Keeps
      | inr b ↦ elim (Bool-cases (scause == 23)) [
        | inl c ↦ rw (a, b, c) store-Keeps
        | inr c ↦ rw (a, b, c) tt
      ]
    ]
  ]
