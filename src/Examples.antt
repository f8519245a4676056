-- ===== src/Examples.antt =====
-- Concrete machines, harts and instructions, and the theorems applied to them.
pub mod Controller
pub mod Interrupts
pub mod Traps
pub mod Pool
pub mod Barriers
pub mod Words
pub mod Printing
pub mod Spaces
pub mod Boards
pub mod Starts
pub mod Boots
use riscv_hypervisor.Common.{ℕ, ◌+◌, ◌*◌, ◌^◌, List, [], Option, none, some, ◌==◌, if◌then◌else◌}
use riscv_hypervisor.Dtb.{dtb_plic}
use riscv_hypervisor.Plic.{Device}
use riscv_hypervisor.VmConfig.{VmConfig, MmioDev, xv6_devices, another_xv6_devices}
use riscv_hypervisor.Vcpu.{Hart}
use riscv_hypervisor.Vplic.Instr.{Instr}

abbrev pub conf_of : ℕ → List (Option MmioDev) → VmConfig
conf_of cpu_affinity devices = record {
  cpu_affinity = cpu_affinity;
  image_base = 0x81000000;
  image_end = 0x81080000;
  memory_base = 0x80100000;
  memory_size = 16 * 2 ^ 20;
  entry = 0x80100000;
  devices = devices;
  vm_pgtable = 0xffffffc000100000;
}

abbrev pub hart_of : ℕ → ℕ → (ℕ → ℕ) → VmConfig → Hart
hart_of hartid htinst regs conf = record {
  hartid = hartid;
  vcpu = record { vhartid = 0; last_claimed_irq_id = 0; conf = conf; regs = regs };
  sscratch = some hartid;
  htinst = htinst;
  htval = 0;
  sepc = 0x80100000;
  hvip = 0;
  time = 0;
  stimecmp = 0;
  bus = [];
}

-- `sw a1, 0(...)` and `lw a1, 0(...)`, as the hardware reports them.
abbrev pub sw_a1 : ℕ
sw_a1 = 0x23 + 2 * 2 ^ 12 + 11 * 2 ^ 20

abbrev pub lw_a1 : ℕ
lw_a1 = 0x3 + 11 * 2 ^ 7 + 2 * 2 ^ 12

abbrev pub only_a1 : ℕ → ℕ → ℕ
only_a1 value r = if r == 11 then value else 0

-- The first hart of the board, whose guest stores 7, and the second.
abbrev pub first_hart : Hart
first_hart = hart_of 0 sw_a1 (only_a1 7) (conf_of 1 xv6_devices)

abbrev pub second_hart : Hart
second_hart = hart_of 1 lw_a1 (only_a1 0) (conf_of 2 another_xv6_devices)

-- A controller whose every word is 10, the source of the serial port.
abbrev pub serial_pends : Device
serial_pends bus offset = 10

-- A load and a store of a1 at the claim register of the first virtual hart.
abbrev pub claim_load : Instr
claim_load = record {
  opcode = 0x3;
  rd = 11;
  funct3 = 2;
  addr_offset = 0;
  rs2 = 0;
  addr = dtb_plic + 0x201004;
}

abbrev pub claim_store : Instr
claim_store = record {
  opcode = 0x23;
  rd = 0;
  funct3 = 2;
  addr_offset = 0;
  rs2 = 11;
  addr = dtb_plic + 0x201004;
}
