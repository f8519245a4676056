-- ===== src/Boot.antt =====
-- core/main.c and driver/cpu.c: what each hart does from `main` to the entry into its guest. The
-- barriers are modelled in Lock; the stack that moves at the end of `init_hart` is assembly.
pub mod Ready
use riscv_hypervisor.Common.{
  ℕ, zero, suc, ◌+◌, ◌-◌, ◌*◌, ◌^◌, Bool, true, false, List, [], ◌∷◌, Option, none, some, ◌==◌,
  if◌then◌else◌, bit_and, bit_or, shr, u64,
}
use riscv_hypervisor.Common.Effects.{Cmd, Outcome, ok, panic, fault, ◌>>=◌, ◌>>◌, pure, get, modify}
use riscv_hypervisor.Memory.{page_size, vas_cpu_struct, kpa2pa}
use riscv_hypervisor.Csr.{
  csrw, csrs, csrc, sie, sie_seie, sie_stie, stvec, satp, tvec_mode, tvec_mode_direct,
  atp_mode_sv39,
}
use riscv_hypervisor.VmConfig.{VmConfig}
use riscv_hypervisor.Ram.{Ram}
use riscv_hypervisor.Kmem.{init_kmem}
use riscv_hypervisor.Vmem.Kernel.{Image, init_vmem}
use riscv_hypervisor.Trap.{on_ram}
use riscv_hypervisor.VmRun.Start.{Core, on_machine, vm_run}
use riscv_hypervisor.Printf.{Printer, Arg, printf}
use riscv_hypervisor.Uart.{PortAccess, Port, PciWrite, uartputc, init_uart, init_pci}

-- A hart and the memory, the accesses to the serial port and the PCI device, and `cpu_mapped`.
pub record Board : Type 0 where
  pub core : Core
  pub port : List PortAccess
  pub pci : List PciWrite
  pub cpu_mapped : Bool

-- `sizeof(struct cpu)`: a page for the number of the hart, and two of stack.
abbrev pub cpu_size : ℕ
cpu_size = 3 * page_size

-- The address of the structure of the hart with `tp`; `cpus` is placed by the linker.
unfoldable pub mycpu : ℕ → Bool → ℕ → ℕ
mycpu cpus cpu_mapped tp = if cpu_mapped then vas_cpu_struct else u64 (cpus + tp * cpu_size)

abbrev pub on_core : {A : Type 0} → Cmd Core A → Cmd Board A
on_core m s = with_board s (m s.core)
  where
    with_board : {A : Type 0} → Board → Outcome Core A → Outcome Board A
    with_board s (ok a core) = ok a (record s { core = core })
    with_board s (panic p) = panic p
    with_board s fault = fault

-- The characters of a text, each with its own polls; `none` means that the rounds of one ran out.
unfoldable pub put_text : Port → ℕ → List ℕ → List PortAccess → Option (List PortAccess)
put_text port fuel [] bus = some bus
put_text port fuel (c ∷ text) bus = elim (uartputc port fuel c bus) [
  | none ↦ none
  | some bus' ↦ put_text port fuel text bus'
]

abbrev pub blank : Printer
blank = record { out = []; args = []; invalid_length = false; unknown = false }

-- A call of `printf`: its text goes to the port. A message that stops the hypervisor is not followed
-- further, and `fault` stands for a port that never has room.
unfoldable pub print_message : Port → ℕ → List ℕ → List Arg → Cmd Board (Unit {0})
print_message port fuel fmt args s = send (printf (some fmt) args blank)
  where
    sent : Option (List PortAccess) → Outcome Board (Unit {0})
    sent none = fault
    sent (some bus) = ok tt (record s { port = bus })

    send : Outcome Printer (Unit {0}) → Outcome Board (Unit {0})
    send (ok u p) = sent (put_text port fuel p.out s.port)
    send (panic p) = panic p
    send fault = fault

-- "Booting!\n"
abbrev pub booting : List ℕ
booting = 66 ∷ 111 ∷ 111 ∷ 116 ∷ 105 ∷ 110 ∷ 103 ∷ 33 ∷ 10 ∷ []

-- `init_kmem` on the memory; it is proved to end.
abbrev pub on_memory : (Ram → Option Ram) → Cmd Board (Unit {0})
on_memory m s = with_memory (m s.core.machine.ram)
  where
    with_memory : Option Ram → Outcome Board (Unit {0})
    with_memory none = fault
    with_memory (some ram) =
        ok tt
          (record s { core = record (s.core) { machine = record (s.core.machine) { ram = ram } } })

-- `main` up to its first barrier.
unfoldable pub boot_phase : ℕ → Port → ℕ → ℕ → Cmd Board (Unit {0})
boot_phase dynamic port fuel hartid =
    if hartid == 0
    then (do
      on_memory (init_kmem dynamic)
      modify (λ s. record s { port = init_uart s.port })
      print_message port fuel booting []
      modify (λ s. record s { pci = init_pci s.pci }))
    else pure tt

-- `hstrapvec` is the address of the trap entry.
unfoldable pub init_hart : ℕ → ℕ → ℕ → Cmd Board (Unit {0})
init_hart hstrapvec pgtable tp = do
  on_core (
      modify (λ c. record c {
        machine = record (c.machine) { hart = record (c.machine.hart) { hartid = tp } };
      }))
  on_core (modify (λ c. record c { registers = csrs sie sie_seie c.registers }))
  on_core (modify (λ c. record c { registers = csrc sie sie_stie c.registers }))
  let vector = bit_or (bit_and hstrapvec (2 ^ 64 - 1 - tvec_mode)) tvec_mode_direct
  on_core (modify (λ c. record c { registers = csrw stvec vector c.registers }))
  let reg = bit_or (shr (kpa2pa pgtable) 12) atp_mode_sv39
  on_core (modify (λ c. record c { registers = csrw satp reg c.registers }))

-- `main` between its barriers; the page table is that of the hart's own structure.
unfoldable pub map_kernel : Image → ℕ → ℕ → ℕ → Cmd Board (Unit {0})
map_kernel image cpus hstrapvec tp = do
  s ← get
  let cpu = mycpu cpus s.cpu_mapped tp
  pgtable ←
      on_core (on_machine (on_ram (init_vmem (record image { cpu = cpu; cpu_size = cpu_size }))))
  init_hart hstrapvec pgtable tp

-- `main` on one hart, without the other harts that its barriers wait for.
unfoldable pub main : Image → ℕ → ℕ → Port → ℕ → List VmConfig → ℕ → ℕ → Cmd Board (Unit {0})
main image cpus hstrapvec port fuel config tp hartid = do
  boot_phase image.dynamic port fuel hartid
  map_kernel image cpus hstrapvec tp
  modify (λ s. if hartid == 0 then record s { cpu_mapped = true } else s)
  on_core (vm_run config hartid)
