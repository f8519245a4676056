-- ===== src/Lib.antt =====
-- A verification of the RISC-V hypervisor of this repository: a small kernel in HS-mode that runs
-- several guests, each on harts of its own, shares the interrupt controller among them by trapping
-- and emulating their accesses to it, and gives each a page table of the hypervisor extension.
--
-- The parts, with the files of src/ that they model and the modules that model them:
--   lib/bits.c                     Bits       fields and bit counts
--   include/memory.h, dtb.h        Memory, Dtb
--   lib/string.c                   Ram        the memory that the kernel reaches, and `memset`
--   mem/kmem.c                     Kmem       the list of free pages
--   mem/vmem.c                     Vmem       page tables
--   driver/plic.c                  Plic       the registers of the physical controller
--   guest/vm_config.c, vm_config.h VmConfig   the machines of the board
--   virtual/vcpu.c, vcpu.h         Vcpu       virtual processors and the state of a hart
--   virtual/vplic.c, emulate.h     Vplic      the emulated controller
--   core/trap.c                    Trap       interrupts and exceptions of guests
--   core/vm_run.c                  VmRun      the configuration check, a guest's page table, and the
--                                             start of a virtual machine on a hart
--   include/riscv.h                Csr        control and status registers in use
--   lib/printf.c                   Printf     formatted output
--   core/main.c, driver/cpu.c      Boot       from `main` to the entry into the guest, on one hart
--   driver/uart.c, driver/pci.c    Uart       the serial port and the PCI device
--   lib/lock.c, spinlock.S, lock.h Lock       spinlock and barrier of harts that interleave
--   lib/sbi.c                      Sbi        calls of the firmware
--   guest/keygrab/driver/plic.c    Guest      a guest's driver, on the emulated controller
-- Common holds what they share, Examples applies the theorems to concrete machines.
--
-- Functions keep the names of the source. A handler is a command on the state of a hart
-- (`Vcpu.Hart`), of the memory (`Ram.Ram`), of both (`Trap.Machine`), with the other registers
-- (`VmRun.Start.Core`) or with the serial port and the PCI device (`Boot.Board`), that ends normally,
-- calls `panic`, or makes an access that C leaves undefined (Common.Effects). core/trap.c calls the
-- handlers of virtual/vplic.c, which use driver/plic.c; both it and core/vm_run.c use mem/vmem.c,
-- which allocates with mem/kmem.c. Each hart works on its own element of `vcpus`.
--
-- Machine words are natural numbers with their wrap-around written out; an `int` is its 32-bit
-- pattern. The physical controller is a parameter that answers a read from the accesses made so
-- far, and a hart's `bus` records them, newest first. The firmware is a parameter too. Addresses
-- that the linker chooses are parameters.
--
-- Vmem.Tree describes a guest's page table in memory: what each page of the memory is used for, the
-- links between tables, and the last entry that an address finds. VmRun.Areas lists the areas that a
-- configuration asks for, VmRun.Board those of the board's machines. The page tables of two guests
-- are made one after the other there; the harts that make them are not interleaved.
--
-- Bounds. `count_set_bits` has 33 rounds, the 32 values of its `int` and the test that ends it.
-- `init_kmem` has a round for each page of the RAM and the test that ends it; both are proved to
-- end. The loop of `printf` has a round for each character of the format and one more, `print_uint`
-- one for each of the 64 characters of its buffer, and base 2 and 16 end `bits_loop` in at most 5.
-- `uartputc` polls for the rounds that it is given. The searches over the contexts of the
-- controller have the 15872 rounds of the source.
--
-- Not modelled: assembly code, which enters C, saves registers, fences and moves the stack; the
-- sample guests but for their interrupt driver, tests and build helpers. The locks of the
-- allocator, of `printf` and of the serial port are not repeated there: each of their operations is
-- one step. `wait_barrier` is modelled in Lock; VmRun and Boot have what one hart does between its
-- barriers.
pub mod Common
pub mod Bits
pub mod Dtb
pub mod Memory
pub mod Plic
pub mod VmConfig
pub mod Vcpu
pub mod Vplic
pub mod Lock
pub mod Ram
pub mod Kmem
pub mod Vmem
pub mod Sbi
pub mod Trap
pub mod VmRun
pub mod Csr
pub mod Uart
pub mod Printf
pub mod Boot
pub mod Guest
pub mod Examples
