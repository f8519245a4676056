-- ===== src/Examples/Interrupts.antt =====
-- Interrupts of the serial port.
use riscv_hypervisor.Common.{◌≡◌, refl, [], ◌∷◌, arith, false}
use riscv_hypervisor.Common.Effects.{ok}
use riscv_hypervisor.Plic.{read, write, claim_offset}
use riscv_hypervisor.VmConfig.{another_xv6_devices}
use riscv_hypervisor.VmConfig.Devices.{
  xv6_devices-IsOneToOne, another_xv6_devices-IsOneToOne, sources_apart,
}
use riscv_hypervisor.Vcpu.{Hart}
use riscv_hypervisor.Vplic.Irq.{sources_of, virt_to_phys_irq, phys_to_virt_irq}
use riscv_hypervisor.Vplic.Irq.Laws.{virt_to_phys_irq-phys_to_virt_irq}
use riscv_hypervisor.Vplic.Load.{emulate_load}
use riscv_hypervisor.Vplic.Store.{emulate_store}
use riscv_hypervisor.Vplic.Handlers.{vplic_handle_interrupt}
use riscv_hypervisor.Vplic.Steps.{vseip, vplic_handle_interrupt-claims}
use riscv_hypervisor.Vplic.Protocol.{claim_round_trip}
use riscv_hypervisor.Vplic.Overrun.{second_claim_loses_first}
use riscv_hypervisor.Guest.{guest_claim, guest_complete, emulated}
use riscv_hypervisor.Guest.Serves.{guest_round_trip}
use riscv_hypervisor.Examples.{first_hart, serial_pends, claim_load, claim_store}

claim_round_trip_example :
    (h1 h2 h3 : Hart) × (vplic_handle_interrupt serial_pends first_hart ≡ ok tt h1)
    × (vseip h1 ≡ 1)
    × (emulate_load serial_pends claim_load h1 ≡ ok tt h2)
    × (h2.vcpu.regs 11 ≡ 10)
    × (emulate_store claim_store h2 ≡ ok tt h3)
    × (h3.bus ≡ write (claim_offset 1) 10 ∷ read (claim_offset 1) ∷ [])
    × (h3.vcpu.last_claimed_irq_id ≡ 0)
    × (vseip h3 ≡ 0)
unfolding sources_of phys_to_virt_irq
claim_round_trip_example =
    claim_round_trip serial_pends first_hart claim_load claim_store xv6_devices-IsOneToOne
      (omega arith) (omega arith) refl (omega arith) (omega arith) refl refl refl

-- The disk is claimed, and not yet completed, when the serial port interrupts.
abbrev disk_open : Hart
disk_open = record first_hart {
  vcpu = record (first_hart.vcpu) { last_claimed_irq_id = 1; regs = λ r. 1 };
}

second_claim_loses_first_example :
    (h1 h2 : Hart) × (vplic_handle_interrupt serial_pends disk_open ≡ ok tt h1)
    × (emulate_store claim_store h1 ≡ ok tt h2)
    × (h2.bus ≡ read (claim_offset 1) ∷ [])
    × (h2.vcpu.last_claimed_irq_id ≡ 10)
unfolding sources_of phys_to_virt_irq
second_claim_loses_first_example =
    second_claim_loses_first serial_pends disk_open claim_store 1 xv6_devices-IsOneToOne
      (omega arith) (omega arith) refl refl (omega arith) (omega arith) refl refl

-- The driver of the first guest is told of the serial port.
guest_round_trip_example :
    (h1 h2 h3 : Hart) × (vplic_handle_interrupt serial_pends first_hart ≡ ok tt h1)
    × (vseip h1 ≡ 1)
    × (guest_claim (emulated serial_pends) 1 h1 ≡ ok 10 h2)
    × (guest_complete (emulated serial_pends) 1 10 h2 ≡ ok tt h3)
    × (h3.bus ≡ write (claim_offset 1) 10 ∷ read (claim_offset 1) ∷ [])
    × (h3.vcpu.last_claimed_irq_id ≡ 0)
    × (vseip h3 ≡ 0)
unfolding sources_of phys_to_virt_irq
guest_round_trip_example =
    guest_round_trip serial_pends first_hart xv6_devices-IsOneToOne (omega arith) (omega arith) refl
      (omega arith) (omega arith)

vplic_handle_interrupt-claims_example :
    (h1 : Hart) × (vplic_handle_interrupt serial_pends first_hart ≡ ok tt h1)
    × (h1.vcpu ≡ record (first_hart.vcpu) { last_claimed_irq_id = 10 })
    × (h1.bus ≡ read (claim_offset 1) ∷ [])
    × (h1.hartid ≡ 0)
    × (vseip h1 ≡ 1)
vplic_handle_interrupt-claims_example =
    vplic_handle_interrupt-claims serial_pends first_hart (omega arith)

sources_apart_example : sources_of another_xv6_devices 10 ≡ false
unfolding sources_of
sources_apart_example = sources_apart 10 (omega arith) refl

virt_to_phys_irq-phys_to_virt_irq_example :
    virt_to_phys_irq another_xv6_devices (phys_to_virt_irq another_xv6_devices 33) ≡ 33
unfolding sources_of
virt_to_phys_irq-phys_to_virt_irq_example =
    virt_to_phys_irq-phys_to_virt_irq another_xv6_devices 33 another_xv6_devices-IsOneToOne refl
