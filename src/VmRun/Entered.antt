-- ===== src/VmRun/Entered.antt =====
-- What a hart that enters its guest has got, and what the barriers of the machines wait for.
use native.Mathlib.Nat.{pow-le-pow_right, zero-mul}
use mathlib.Core.Path.{subst}
use riscv_hypervisor.Common.{
  ℕ, ◌*◌, ◌%◌, ◌^◌, ◌<◌, ◌≤◌, ◌≡◌, refl, sym, ap, ◌∙◌, ◌⊎◌, inl, inr, List, [], ◌∷◌, All, Option,
  none, some, Bool-cases, false, ◌==◌, bit_and, bit_or, shr, sign_extend, arith,
}
use riscv_hypervisor.Common.BitTests.{bit}
use riscv_hypervisor.Common.Effects.{Outcome, ok, panic, fault, and_then, and_then-eq-ok}
use riscv_hypervisor.Common.Masks.{bit_and-two_pow}
use riscv_hypervisor.Bits.Count.{widened}
use riscv_hypervisor.Lock.{Barrier}
use riscv_hypervisor.Memory.{kva2pa}
use riscv_hypervisor.Csr.{Csrs, csrw, csrs, hgatp, hedeleg, atp_mode_sv39}
use riscv_hypervisor.VmConfig.{VmConfig}
use riscv_hypervisor.Ram.{Ram}
use riscv_hypervisor.Vcpu.{Hart, set_reg, get_config_for_cpu, get_vhartid, init_vcpu}
use riscv_hypervisor.Trap.{with_hart, with_ram, on_hart, on_ram}
use riscv_hypervisor.VmRun.{check_cpu_configuration, init_hs_pgtable}
use riscv_hypervisor.VmRun.Checks.{ArePartitioned, check_cpu_configuration-ArePartitioned}
use riscv_hypervisor.VmRun.Start.{
  Core, with_core, set_barriers, init_bars, map_table, on_machine, delegated, init_hs, init_vs,
  init_vm_barriers, check_phase, map_phase, enter_phase, vm_run,
}

-- A machine of the configuration.
abbrev pub IsIn : VmConfig → List VmConfig → Type 0
IsIn c [] = ⊥
IsIn c (d ∷ config) = (c ≡ d) ⊎ IsIn c config

own_bit :
    (hartid affinity : ℕ)
    → hartid < 31
    → (bit_and affinity (sign_extend (2 ^ hartid % 2 ^ 32)) == 0) ≡ false
    → bit hartid affinity ≡ 1
own_bit hartid affinity h e =
    let small : 2 ^ hartid ≤ 2 ^ 31 = pow-le-pow_right (omega arith) {j = 31} (omega arith) in
    let whole : 2 ^ hartid % 2 ^ 32 ≡ 2 ^ hartid = omega arith in
    let tested : (bit_and affinity (2 ^ hartid) == 0) ≡ false =
      rw (← widened hartid h, ← whole) e in
    let low : (bit hartid affinity ≡ 0) ⊎ (bit hartid affinity ≡ 1) = omega arith in
    elim low [
      | inr one ↦ one
      | inl none_there ↦
          let empty : bit_and affinity (2 ^ hartid) ≡ 0 =
            bit_and-two_pow hartid affinity
            ∙ ap (λ (t : ℕ). t * 2 ^ hartid) none_there
            ∙ zero-mul (2 ^ hartid) in
          ground (arith, tested, empty)
    ]

-- The machine that is found has the hart.
get_config_for_cpu-ok :
    (config : List VmConfig) (hartid : ℕ) (h h' : Hart) (c : VmConfig)
    → hartid < 31
    → get_config_for_cpu config hartid h ≡ ok c h'
    → IsIn c config × (bit hartid c.cpu_affinity ≡ 1) × (h ≡ h')
unfolding get_config_for_cpu
get_config_for_cpu-ok [] hartid h h' c small e = cc
get_config_for_cpu-ok (d ∷ config) hartid h h' c small e =
    elim (Bool-cases (bit_and d.cpu_affinity (sign_extend (2 ^ hartid % 2 ^ 32)) == 0)) [
      | inl x ↦
          let skipped : get_config_for_cpu (d ∷ config) hartid h
              ≡ get_config_for_cpu config hartid h =
            rw x refl in
          let rest = get_config_for_cpu-ok config hartid h h' c small (sym skipped ∙ e) in
          (inr rest.0, rest.1, rest.2)
      | inr x ↦
          let hit : get_config_for_cpu (d ∷ config) hartid h ≡ ok d h = rw x refl in
          let same : ok c h' ≡ ok d h = sym e ∙ hit in
          let owned = own_bit hartid d.cpu_affinity small x in
          let conf : c ≡ d = cc same in
          (inl conf, ap (λ (z : VmConfig). bit hartid z.cpu_affinity) conf ∙ owned, cc same)
    ]

-- A hart that has its machine.
pub record Started (config : List VmConfig) (old h : Hart) : Type 0 where
  pub listed : IsIn h.vcpu.conf config
  pub owned : bit old.hartid h.vcpu.conf.cpu_affinity ≡ 1
  pub numbered : h.vcpu.vhartid ≡ get_vhartid old.hartid h.vcpu.conf.cpu_affinity
  pub arg_hartid : h.vcpu.regs 10 ≡ h.vcpu.vhartid
  pub unclaimed : h.vcpu.last_claimed_irq_id ≡ 0
  pub same_hart : h.hartid ≡ old.hartid
  pub same_bus : h.bus ≡ old.bus

-- The hart that `init_vcpu` makes.
abbrev started : VmConfig → ℕ → Hart → Hart
started c vhartid h = record h {
  vcpu = record {
    vhartid = vhartid;
    last_claimed_irq_id = 0;
    conf = c;
    regs = set_reg (set_reg (λ _. 0) 10 vhartid) 11 0xff;
  };
  sscratch = some h.hartid;
}

init_vcpu-Started :
    (config : List VmConfig) (h h' : Hart)
    → h.hartid < 31
    → init_vcpu config h ≡ ok tt h'
    → Started config h h'
unfolding init_vcpu
init_vcpu-Started config h h' small e =
    let (c, h1, found, rest) = and_then-eq-ok (get_config_for_cpu config h.hartid h) _ e in
    let (listed, owned, kept) = get_config_for_cpu-ok config h.hartid h h1 c small found in
    let vhartid = get_vhartid h.hartid c.cpu_affinity in
    let same : started c vhartid h ≡ h' = ap (λ (z : Hart). started c vhartid z) kept ∙ cc rest in
    subst (Started config h) same record {
      listed = listed;
      owned = owned;
      numbered = refl;
      arg_hartid = refl;
      unclaimed = refl;
      same_hart = refl;
      same_bus = refl;
    }

module _ {A : Type 0} where
  -- A command on the memory keeps the hart.
  on_ram-hart :
      (s : Core) (r : Outcome Ram A) {a : A} {s' : Core}
      → with_core s (with_hart s.machine.hart r) ≡ ok a s'
      → s'.machine.hart ≡ s.machine.hart
  on_ram-hart s (ok a ram) e = cc e
  on_ram-hart s (panic p) e = cc e
  on_ram-hart s fault e = cc e

  -- A command on the hart is one of the whole.
  on_hart-eq-ok :
      (s : Core) (r : Outcome Hart A) {a : A} {s' : Core}
      → with_core s (with_ram s.machine.ram r) ≡ ok a s'
      → r ≡ ok a s'.machine.hart
  on_hart-eq-ok s (ok a h) e = cc e
  on_hart-eq-ok s (panic p) e = cc e
  on_hart-eq-ok s fault e = cc e

on_ram-eq-ok :
    {A : Type 0} (s : Core) (r : Outcome Ram A) {a : A} {s' : Core}
    → with_core s (with_hart s.machine.hart r) ≡ ok a s'
    → r ≡ ok a s'.machine.ram
on_ram-eq-ok s (ok a ram) e = cc e
on_ram-eq-ok s (panic p) e = cc e
on_ram-eq-ok s fault e = cc e

init_vm_barriers-hart :
    (config : List VmConfig) (s s' : Core)
    → init_vm_barriers config s ≡ ok tt s'
    → s'.machine.hart ≡ s.machine.hart
unfolding init_vm_barriers
init_vm_barriers-hart config s s' e = by_case (init_bars config s.barriers) e
  where
    by_case :
        (bars : Option (List Barrier))
        → set_barriers s bars ≡ ok tt s'
        → s'.machine.hart ≡ s.machine.hart
    by_case none e = cc e
    by_case (some bars) e = cc e

check_phase-ok :
    (config : List VmConfig) (hartid : ℕ) (s s' : Core)
    → check_phase config hartid s ≡ ok tt s'
    → (s'.machine.hart ≡ s.machine.hart) × (hartid ≡ 0 → ArePartitioned config)
unfolding check_phase
check_phase-ok config hartid s s' e = elim (Bool-cases (hartid == 0)) [
  | inr x ↦
      let skipped : check_phase config hartid s ≡ ok tt s = rw x refl in
      (cc (sym e ∙ skipped), λ zero_hart. ground (arith, zero_hart, x))
  | inl x ↦
      let taken : check_phase config hartid s
          ≡ and_then (init_vm_barriers config s)
              (λ _. on_machine (on_ram (check_cpu_configuration config))) =
        rw x refl in
      let (u, s1, bars, rest) = and_then-eq-ok (init_vm_barriers config s) _ (sym taken ∙ e) in
      let checked = on_ram-eq-ok s1 (check_cpu_configuration config s1.machine.ram) rest in
      (
        on_ram-hart s1 (check_cpu_configuration config s1.machine.ram) rest
            ∙ init_vm_barriers-hart config s s1 bars,
        λ zero_hart.
            check_cpu_configuration-ArePartitioned config s1.machine.ram s'.machine.ram checked,
      )
]

map_phase-Started :
    (config : List VmConfig) (s s' : Core)
    → s.machine.hart.hartid < 31
    → map_phase config s ≡ ok tt s'
    → Started config s.machine.hart s'.machine.hart
unfolding map_phase
map_phase-Started config s s' small e =
    let (u, s1, first, rest) = and_then-eq-ok (on_machine (on_hart (init_vcpu config)) s) _ e in
    let begun =
      init_vcpu-Started config s.machine.hart s1.machine.hart small
        (on_hart-eq-ok s (init_vcpu config s.machine.hart) first) in
    let kept : s1.machine.hart ≡ s'.machine.hart = mapped s1 rest in
    subst (Started config s.machine.hart) kept begun
  where
    mapped : (s1 : Core) → map_table s1 ≡ ok tt s' → s1.machine.hart ≡ s'.machine.hart
    mapped s1 rest = elim (Bool-cases (s1.machine.hart.vcpu.vhartid == 0)) [
      | inl x ↦
          let taken : map_table s1
              ≡ on_machine (on_ram (init_hs_pgtable s1.machine.hart.vcpu.conf)) s1 =
            rw x refl in
          sym (
            on_ram-hart s1 (init_hs_pgtable s1.machine.hart.vcpu.conf s1.machine.ram)
              (sym taken ∙ rest))
      | inr x ↦ let skipped : map_table s1 ≡ ok tt s1 = rw x refl in cc (sym skipped ∙ rest)
    ]

-- What `enter_phase` sets in the hart.
abbrev entered : Hart → Hart
entered h = record h { hvip = 0; htval = 0; htinst = 0; sepc = h.vcpu.conf.entry }

enter_phase-entered :
    (s : Core)
    → (regs : Csrs) × (enter_phase s
        ≡ ok tt (record s {
          machine = record (s.machine) { hart = entered s.machine.hart };
          registers = regs;
        }))
      × (regs hgatp ≡ bit_or atp_mode_sv39 (shr (kva2pa s.machine.hart.vcpu.conf.vm_pgtable) 12))
      × (regs hedeleg ≡ delegated)
unfolding enter_phase init_hs init_vs csrw csrs
enter_phase-entered s = (_, refl, refl, refl)

-- The traps that core/trap.c serves or stops at.
abbrev pub StayWithHypervisor : ℕ → Type 0
StayWithHypervisor mask = All (λ cause. bit cause mask ≡ 0) (10 ∷ 20 ∷ 21 ∷ 22 ∷ 23 ∷ [])

-- A hart about to enter its guest.
pub record Entered (config : List VmConfig) (hartid : ℕ) (old new : Core) : Type 0 where
  pub begun : Started config old.machine.hart new.machine.hart
  pub entry : new.machine.hart.sepc ≡ new.machine.hart.vcpu.conf.entry
  pub quiet : new.machine.hart.hvip ≡ 0
  pub table :
      new.registers hgatp
      ≡ bit_or atp_mode_sv39 (shr (kva2pa new.machine.hart.vcpu.conf.vm_pgtable) 12)
  pub traps : StayWithHypervisor (new.registers hedeleg)
  pub checked : hartid ≡ 0 → ArePartitioned config

-- For a hart of a number below 31: if vm_run reaches the entry into the guest, the hart's
-- machine is one of the configuration that has this hart, its virtual number is the one that
-- the machine counts for it and the guest finds it in register 10, no interrupt is claimed or
-- raised, the accesses to the controller are as before, the hart starts at the machine's entry
-- with the machine's page table, guest page faults, calls of the guest and virtual instructions
-- are not delegated to it, and with the argument 0 no hart belongs to two machines.
pub vm_run-Entered :
    (config : List VmConfig) (hartid : ℕ) (s s' : Core)
    → s.machine.hart.hartid < 31
    → vm_run config hartid s ≡ ok tt s'
    → Entered config hartid s s'
unfolding vm_run
vm_run-Entered config hartid s s' small e =
    let (u, s1, first, rest) = and_then-eq-ok (check_phase config hartid s) _ e in
    let (v, s2, second, last) = and_then-eq-ok (map_phase config s1) _ rest in
    let (kept, checked) = check_phase-ok config hartid s s1 first in
    let begun =
      subst (λ (h : Hart). Started config h s2.machine.hart) kept
        (map_phase-Started config s1 s2 (omega (arith, ap (λ (h : Hart). h.hartid) kept)) second) in
    let (regs, ends, table, delegates) = enter_phase-entered s2 in
    let same : record s2 {
      machine = record (s2.machine) { hart = entered s2.machine.hart };
      registers = regs;
    }
        ≡ s' =
      cc (sym ends ∙ last) in
    subst (Entered config hartid s) same record {
      begun = record {
        listed = begun.listed;
        owned = begun.owned;
        numbered = begun.numbered;
        arg_hartid = begun.arg_hartid;
        unclaimed = begun.unclaimed;
        same_hart = begun.same_hart;
        same_bus = begun.same_bus;
      };
      entry = refl;
      quiet = refl;
      table = table;
      traps = rw delegates (refl, (refl, (refl, (refl, (refl, tt)))));
      checked = checked;
    }
