-- ===== src/Trap/Runs.antt =====
-- A guest that runs and traps any number of times.
use mathlib.Core.Path.{subst}
use riscv_hypervisor.Common.{ℕ, ◌-◌, ◌^◌, ◌≤◌, ◌<◌, ◌≡◌, ◌≢◌, true, false, refl, List, ◌++◌, arith}
use riscv_hypervisor.Common.Effects.{ok}
use riscv_hypervisor.Common.Extends.{Extends-refl, Extends-trans}
use riscv_hypervisor.Common.Lands.{Lands}
use riscv_hypervisor.Plic.{Access, Device}
use riscv_hypervisor.Vplic.Irq.{sources_of}
use riscv_hypervisor.Vplic.Guests.{HaveNoCommonWord, All-AreApart}
use riscv_hypervisor.Trap.{Machine, hs_interrupt_handler, hs_exception_handler}
use riscv_hypervisor.Trap.Cases.{Holds, hs_interrupt_handler-Keeps, exception-Keeps}
use riscv_hypervisor.Trap.Identity.{
  IsSame, IsSame-trans, load_fault-Stays, store_fault-Stays, interrupt-Stays,
}
use riscv_hypervisor.Trap.Isolation.{OwnAccesses, OwnAccesses-Holds}

-- While the guest runs, it and the hardware may change everything but which hart and which machine
-- this is and what was asked of the controller. Each trap meets a controller that answers as it
-- likes.
pub data Run (s : Machine) : Machine → Type 0 where
  begin : Run s s
  guest : {t u : Machine} → Run s t → IsSame t.hart u.hart → u.hart.bus ≡ t.hart.bus → Run s u
  interrupted :
      {t u : Machine} (device : Device) (scause : ℕ)
      → Run s t
      → hs_interrupt_handler device scause t ≡ ok tt u
      → Run s u
  trapped :
      {t u : Machine} (device : Device) (scause : ℕ)
      → Run s t
      → hs_exception_handler device scause t ≡ ok tt u
      → Run s u

IsSame-Holds : (device : Device) → Holds device IsSame
IsSame-Holds device = record {
  timer = λ h stimecmp. (refl, refl, refl);
  call = λ h regs sepc. (refl, refl, refl);
  interrupt = λ h. interrupt-Stays device h;
  load = λ addr h. load_fault-Stays device addr h;
  store = λ addr h. store_fault-Stays addr h;
}

-- The hart is the same one, and it used its own registers of the controller.
pub record IsKept (s t : Machine) : Type 0 where
  pub same : IsSame s.hart t.hart
  pub own : OwnAccesses s.hart t.hart

-- What the same hart may access is the same.
IsKept-trans :
    (s t u : Machine) → IsKept s t → IsSame t.hart u.hart → OwnAccesses t.hart u.hart → IsKept s u
IsKept-trans s t u kept same own = record {
  same = IsSame-trans s.hart t.hart u.hart kept.same same;
  own = Extends-trans kept.own (rw (← kept.same.0, ← kept.same.2) own);
}

-- However often a guest runs and traps, its hart keeps its number, its virtual number and its
-- machine, and all accesses to the controller are to registers of that machine's devices or of
-- the hart's context, or change there the enable bit of an own source.
pub Run-IsKept : {s t : Machine} → Run s t → IsKept s t
Run-IsKept {s = s} begin = record { same = (refl, refl, refl); own = Extends-refl s.hart.bus }
Run-IsKept {s = s} {t = u} (guest {t = t} run same idle) =
    IsKept-trans s t u (Run-IsKept run) same (rw idle (Extends-refl t.hart.bus))
Run-IsKept {s = s} {t = u} (interrupted {t = t} device scause run e) =
    IsKept-trans s t u (Run-IsKept run)
      (subst (Lands (λ a b. IsSame a.hart b.hart) t) e
        (hs_interrupt_handler-Keeps device IsSame (IsSame-Holds device) t scause))
      (subst (Lands (λ a b. OwnAccesses a.hart b.hart) t) e
        (hs_interrupt_handler-Keeps device OwnAccesses (OwnAccesses-Holds device) t scause))
Run-IsKept {s = s} {t = u} (trapped {t = t} device scause run e) =
    IsKept-trans s t u (Run-IsKept run)
      (subst (Lands (λ a b. IsSame a.hart b.hart) t) e
        (exception-Keeps device IsSame (IsSame-Holds device) t scause))
      (subst (Lands (λ a b. OwnAccesses a.hart b.hart) t) e
        (exception-Keeps device OwnAccesses (OwnAccesses-Holds device) t scause))

-- For two guests on different harts, of numbers below 2^31 - 1, whose machines share no
-- interrupt source but 0, that run and trap any number of times: whatever the guests change
-- between their traps but the hart's and the machine's identity and the record of accesses, and
-- whatever the controller answers, no word of the controller that is written for one of them is
-- written for the other.
pub runs_apart :
    (s s' t t' : Machine)
    → ((p : ℕ)
        → 1 ≤ p
        → sources_of s.hart.vcpu.conf.devices p ≡ true
        → sources_of t.hart.vcpu.conf.devices p ≡ false)
    → s.hart.hartid < 2 ^ 31 - 1
    → t.hart.hartid < 2 ^ 31 - 1
    → s.hart.hartid ≢ t.hart.hartid
    → Run s s'
    → Run t t'
    → (mine yours : List Access) × (s'.hart.bus ≡ mine ++ s.hart.bus)
      × (t'.hart.bus ≡ yours ++ t.hart.bus)
      × HaveNoCommonWord mine yours
runs_apart s s' t t' apart small small' ne run run' =
    let m = (Run-IsKept run).own in
    let y = (Run-IsKept run').own in
    (
      m.added,
      y.added,
      m.grown,
      y.grown,
      All-AreApart apart (omega arith) m.added y.added m.each y.each,
    )
