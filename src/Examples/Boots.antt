-- ===== src/Examples/Boots.antt =====
-- The boot processor on a kernel that ends 1 MB below the end of the RAM.
use riscv_hypervisor.Common.{ℕ, ◌^◌, ◌≡◌, refl, false, [], arith}
use riscv_hypervisor.Common.Effects.{ok}
use riscv_hypervisor.Uart.{Port}
use riscv_hypervisor.Uart.Setup.{Settings}
use riscv_hypervisor.Boot.{Board, boot_phase}
use riscv_hypervisor.Boot.Ready.{IsReady, Drains, boot_phase-IsReady}
use riscv_hypervisor.Examples.{first_hart}

abbrev image_end : ℕ
image_end = 0xffffffc00ff00080

abbrev board : Board
board = record {
  core = record {
    machine = record { hart = first_hart; ram = record { memory = λ a. 5; freelist = 0 } };
    registers = λ n. 0;
    barriers = [];
  };
  port = [];
  pci = [];
  cpu_mapped = false;
}

abbrev ready_port : Port
ready_port bus reg = 2 ^ 5

ready_port-Drains : Drains ready_port 1
ready_port-Drains bus =
    (0, omega arith, record { full = λ k h. absurd (omega (arith, h)); room = refl })

-- The firmware used the port before and left its divisor in reach.
abbrev used : Settings
used = record {
  divisor_low = 1;
  divisor_high = 0;
  interrupts = 0;
  fifo = 1;
  line = 0x83;
  modem = 3;
  sent = [];
}

boot_phase-IsReady_example :
    (after : Board) × (boot_phase image_end ready_port 1 0 board ≡ ok tt after)
    × IsReady image_end used board after
boot_phase-IsReady_example =
    boot_phase-IsReady image_end ready_port 1 used board (omega arith) refl ready_port-Drains
