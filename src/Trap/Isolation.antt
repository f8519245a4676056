-- ===== src/Trap/Isolation.antt =====
-- What a trap of a guest may reach of the interrupt controller.
use riscv_hypervisor.Common.{ℕ, List, Option, u32}
use riscv_hypervisor.Common.Effects.{Outcome, ok, panic, fault}
use riscv_hypervisor.Common.Extends.{Extends, Extends-refl}
use riscv_hypervisor.Common.Lands.{Lands}
use riscv_hypervisor.Trap.Cases.{Holds, hs_interrupt_handler-Keeps, exception-Keeps}
use riscv_hypervisor.Plic.{Bus, Device}
use riscv_hypervisor.Plic.Isolation.{Own}
use riscv_hypervisor.VmConfig.{MmioDev}
use riscv_hypervisor.Vcpu.{Hart}
use riscv_hypervisor.Vplic.Irq.{sources_of}
use riscv_hypervisor.Vplic.Load.{context_of}
use riscv_hypervisor.Vplic.Load.Isolation.{Isolated}
use riscv_hypervisor.Vplic.Handlers.{
  vplic_handle_interrupt, vplic_handle_load_page_fault, vplic_handle_store_or_amo_page_fault,
}
use riscv_hypervisor.Vplic.Guests.{interrupt, load_fault, store_fault, serve-Isolated}
use riscv_hypervisor.Trap.{Machine, hs_interrupt_handler, hs_exception_handler}

-- The accesses of a trap, as for the commands of one hart.
abbrev pub KeepsTo : List (Option MmioDev) → ℕ → Bus → Outcome Machine (Unit {0}) → Type 0
KeepsTo devs pctx old (ok a s) = Extends (Own (sources_of devs) (u32 pctx)) old s.hart.bus
KeepsTo devs pctx old (panic p) = Unit
KeepsTo devs pctx old fault = Unit

-- The accesses to the controller between two states of a hart.
abbrev pub OwnAccesses : Hart → Hart → Type 0
OwnAccesses g h =
    Extends (Own (sources_of g.vcpu.conf.devices) (u32 (context_of g.hartid))) g.bus h.bus

Isolated-Lands :
    (h : Hart) (m : Outcome Hart (Unit {0}))
    → Isolated h.vcpu.conf.devices (context_of h.hartid) h.bus m
    → Lands OwnAccesses h m
Isolated-Lands h (ok a g) i = i
Isolated-Lands h (panic p) i = tt
Isolated-Lands h fault i = tt

pub OwnAccesses-Holds : (device : Device) → Holds device OwnAccesses
OwnAccesses-Holds device = record {
  timer = λ h stimecmp. Extends-refl h.bus;
  call = λ h regs sepc. Extends-refl h.bus;
  interrupt =
      λ h. Isolated-Lands h (vplic_handle_interrupt device h) (serve-Isolated device interrupt h);
  load = λ addr h.
      Isolated-Lands h (vplic_handle_load_page_fault device addr h)
        (serve-Isolated device (load_fault addr) h);
  store = λ addr h.
      Isolated-Lands h (vplic_handle_store_or_amo_page_fault addr h)
        (serve-Isolated device (store_fault addr) h);
}

KeepsTo-Lands :
    (s : Machine) (m : Outcome Machine (Unit {0}))
    → Lands (λ s t. OwnAccesses s.hart t.hart) s m
    → KeepsTo s.hart.vcpu.conf.devices (context_of s.hart.hartid) s.hart.bus m
KeepsTo-Lands s (ok a t) l = l
KeepsTo-Lands s (panic p) l = tt
KeepsTo-Lands s fault l = tt

-- Whatever trap a guest raises, and whatever its page table, its registers and the controller
-- hold: if the handler ends, every access to the interrupt controller that it made reads or
-- writes a register of the devices of the guest's machine or of the context of its hart, or
-- changes there the enable bit of an own source.
pub trap-KeepsTo :
    (device : Device) (s : Machine) (scause : ℕ)
    → KeepsTo s.hart.vcpu.conf.devices
        (context_of s.hart.hartid)
        s.hart.bus
        (hs_interrupt_handler device scause s)
      × KeepsTo s.hart.vcpu.conf.devices
          (context_of s.hart.hartid)
          s.hart.bus
          (hs_exception_handler device scause s)
trap-KeepsTo device s scause = (
  KeepsTo-Lands s (hs_interrupt_handler device scause s)
      (hs_interrupt_handler-Keeps device OwnAccesses (OwnAccesses-Holds device) s scause),
  KeepsTo-Lands s (hs_exception_handler device scause s)
      (exception-Keeps device OwnAccesses (OwnAccesses-Holds device) s scause),
)
