-- ===== src/Examples/Controller.antt =====
-- Loads and stores of the guests to the controller.
use riscv_hypervisor.Common.{u64, ◌+◌, ◌≡◌, ◌+◌, ◌*◌, refl, [], ◌∷◌, arith}
use riscv_hypervisor.Common.Effects.{ok}
use riscv_hypervisor.Bits.{get_value, grow_mask}
use riscv_hypervisor.Dtb.{dtb_plic}
use riscv_hypervisor.Plic.{
  read, write, claim_offset, plic_claim, plic_get_priority, plic_set_priority,
}
use riscv_hypervisor.VmConfig.{xv6_devices}
use riscv_hypervisor.Vcpu.{Hart}
use riscv_hypervisor.Vplic.Window.{is_access_to_priority_reg}
use riscv_hypervisor.Vplic.Instr.{Instr, parse_htinst}
use riscv_hypervisor.Vplic.Instr.Laws.{parse_htinst-transformed}
use riscv_hypervisor.Vplic.Irq.{virt_to_phys_irq}
use riscv_hypervisor.Vplic.Load.{
  emulate_load, advance_sepc, load_register, handle_priority_reg_load,
}
use riscv_hypervisor.Vplic.Load.Result.{emulate_load-Loaded, Loaded}
use riscv_hypervisor.Vplic.Store.{emulate_store, store_register, handle_priority_reg_store}
use riscv_hypervisor.Vplic.Store.Places.{priority}
use riscv_hypervisor.Vplic.Store.Result.{emulate_store-effect}
use riscv_hypervisor.Vplic.Handlers.{vplic_handle_store_or_amo_page_fault, vplic_handle_interrupt}
use riscv_hypervisor.Vplic.Guests.{interrupt, store_fault, serve}
use riscv_hypervisor.Examples.{claim_store, first_hart, second_hart, serial_pends}

-- The first guest has set the priority of the serial port; the second one's interrupt is claimed.
abbrev after_store : Hart
after_store = record first_hart { bus = write 10 7 ∷ []; sepc = 0x80100004 }

abbrev after_interrupt : Hart
after_interrupt = record second_hart {
  vcpu = record (second_hart.vcpu) { last_claimed_irq_id = 10 };
  bus = read (claim_offset 3) ∷ [];
  hvip = 0x400;
}

abbrev lw_of_a1 : Instr
lw_of_a1 = record { opcode = 0x3; rd = 11; funct3 = 2; addr_offset = 0; rs2 = 0; addr = 0 }

abbrev priority_load : Instr
priority_load = record lw_of_a1 { addr = dtb_plic + 4 * 10 }

serves_store : serve serial_pends (store_fault (dtb_plic + 4 * 10)) first_hart ≡ ok tt after_store
unfolding vplic_handle_store_or_amo_page_fault parse_htinst emulate_store store_register
    handle_priority_reg_store is_access_to_priority_reg virt_to_phys_irq plic_set_priority get_value
    grow_mask advance_sepc
serves_store = refl

serves_interrupt : serve serial_pends interrupt second_hart ≡ ok tt after_interrupt
unfolding vplic_handle_interrupt plic_claim
serves_interrupt = refl

parse_htinst-transformed_example : parse_htinst 0 second_hart ≡ ok lw_of_a1 second_hart
parse_htinst-transformed_example =
    parse_htinst-transformed lw_of_a1 second_hart refl (omega arith) (omega arith) (omega arith)
      (omega arith) refl

-- The priority of the serial port reads as 10.
emulate_load-Loaded_example :
    (after : Hart) × (emulate_load serial_pends priority_load first_hart ≡ ok tt after)
    × Loaded priority_load 10 (record first_hart { bus = read 10 ∷ [] }) after
unfolding load_register handle_priority_reg_load is_access_to_priority_reg virt_to_phys_irq
    plic_get_priority
emulate_load-Loaded_example =
    emulate_load-Loaded serial_pends priority_load first_hart refl (omega arith)

-- The first guest stores 7 to the priority of its source 10.
abbrev priority_store : Instr
priority_store = record claim_store { addr = dtb_plic + 4 * 10 }

emulate_store-effect_example :
    emulate_store priority_store first_hart
    ≡ ok tt (
        (record first_hart {
          bus = plic_set_priority (virt_to_phys_irq xv6_devices 10) 7 [];
          sepc = u64 (first_hart.sepc + 4);
        }))
emulate_store-effect_example =
    emulate_store-effect priority_store (priority 10) first_hart (omega arith) refl
