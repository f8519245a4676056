-- ===== src/Examples/Traps.antt =====
-- Traps of a guest whose page table maps the first page of the controller.
use riscv_hypervisor.Common.{inr, ℕ, ◌≡◌, refl, arith, if◌then◌else◌, ◌==◌, true, []}
use riscv_hypervisor.Common.Effects.{ok, panic, bad_read, bad_write, bad_walk}
use riscv_hypervisor.Bits.{get_value, grow_mask, count_set_bits, count_loop}
use riscv_hypervisor.Memory.{pte2pa, pa2kpa}
use riscv_hypervisor.VmConfig.{Placement, config}
use riscv_hypervisor.Vcpu.{set_reg}
use riscv_hypervisor.Vmem.{va2idx, convert_va_to_pa}
use riscv_hypervisor.Vmem.Tree.Lookup.{convert_va_to_pa-entries}
use riscv_hypervisor.Vplic.Handlers.{
  vplic_handle_load_page_fault, vplic_handle_store_or_amo_page_fault,
}
use riscv_hypervisor.VmRun.{overlaps, check_overlap, count_cpus, check_cpu_configuration}
use riscv_hypervisor.VmRun.Checks.{ArePartitioned, check_cpu_configuration-ArePartitioned}
use riscv_hypervisor.Trap.{Machine, with_ram, hs_interrupt_handler, hs_exception_handler}
use riscv_hypervisor.Trap.Translation.{translated, is_mapped, is_in_plic}
use riscv_hypervisor.Trap.Isolation.{KeepsTo, trap-KeepsTo}
use riscv_hypervisor.Trap.Exceptions.{guest_call, guest_fault}
use riscv_hypervisor.Examples.{first_hart, serial_pends}

-- The entries of the three levels, each the first that is not 0 of its table.
abbrev tables : ℕ → ℕ
tables a =
    if a == 0xffffffc000100000
    then 0x20400001
    else if a == 0xffffffe001000300
    then 0x20400401
    else if a == 0xffffffe001001000
    then 0x3000011
    else 0

-- The guest stores to the priority of source 10, or asks for the translation of that address.
abbrev machine : Machine
machine = record {
  hart = record first_hart {
    htval = 0x300000a;
    vcpu = record (first_hart.vcpu) { regs = set_reg first_hart.vcpu.regs 10 0xc000028 };
  };
  ram = record { memory = tables; freelist = 0 };
}

machine-translated : translated machine 0xc000028 ≡ 0xc000028
unfolding va2idx get_value grow_mask pte2pa pa2kpa
machine-translated = refl

machine-is_mapped : is_mapped machine 0xc000028 ≡ 0xffffffe001001000
unfolding va2idx get_value grow_mask pte2pa pa2kpa
machine-is_mapped = refl

trap-KeepsTo_example :
    KeepsTo machine.hart.vcpu.conf.devices 1 [] (hs_interrupt_handler serial_pends 23 machine)
    × KeepsTo machine.hart.vcpu.conf.devices 1 [] (hs_exception_handler serial_pends 23 machine)
trap-KeepsTo_example = trap-KeepsTo serial_pends machine 23

guest_fault_example :
    (hs_exception_handler serial_pends 21 machine ≡ (
      if is_in_plic (translated machine 0xc000028)
      then with_ram machine.ram
          (vplic_handle_load_page_fault serial_pends (translated machine 0xc000028) machine.hart)
      else panic bad_read))
    × (hs_exception_handler serial_pends 23 machine ≡ (
        if is_in_plic (translated machine 0xc000028)
        then with_ram machine.ram
            (vplic_handle_store_or_amo_page_fault (translated machine 0xc000028) machine.hart)
        else panic bad_write))
guest_fault_example =
    guest_fault serial_pends machine (omega arith) (ground (arith, machine-is_mapped))

guest_call_example : hs_exception_handler serial_pends 10 machine ≡ (
    if is_mapped machine 0xc000028 == 0
    then panic bad_walk
    else ok tt record machine {
      hart = record (machine.hart) {
        vcpu = record (machine.hart.vcpu) {
          regs = set_reg machine.hart.vcpu.regs 10 (translated machine 0xc000028);
        };
        sepc = 0x80100004;
      };
    })
guest_call_example = guest_call serial_pends machine

convert_va_to_pa-entries_example :
    convert_va_to_pa 0xffffffc000100000 0xc000028 true machine.ram ≡ ok 0xc000028 machine.ram
convert_va_to_pa-entries_example =
    convert_va_to_pa-entries 0xffffffc000100000 0xc000028 machine.ram (omega arith, omega arith)
      (inr (omega arith, omega arith)) (inr (omega arith, omega arith))

-- The configuration of the board, with the images somewhere in the kernel.
abbrev placement : Placement
placement = record { image = 0x80400000; image_end = 0x80480000; pgtable = 0xffffffc000100000 }

passes : check_cpu_configuration (config placement placement) machine.ram ≡ ok tt machine.ram
unfolding check_cpu_configuration check_overlap overlaps count_cpus count_set_bits count_loop
passes = refl

check_cpu_configuration-ArePartitioned_example : ArePartitioned (config placement placement)
check_cpu_configuration-ArePartitioned_example =
    check_cpu_configuration-ArePartitioned (config placement placement) machine.ram machine.ram
      passes
