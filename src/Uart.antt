-- ===== src/Uart.antt =====
-- driver/uart.c and driver/pci.c: the serial port, a 16550, and the PCI device behind another one.
-- The port is hardware: a parameter that answers each read from the accesses made so far, newest
-- first. The lock of `uartputc` makes a call one step.
pub mod Output
pub mod Setup
use riscv_hypervisor.Common.{
  ℕ, zero, suc, ◌+◌, ◌*◌, ◌^◌, ◌%◌, List, [], ◌∷◌, Option, none, some, ◌==◌, if◌then◌else◌, bit_and,
  bit_or, u32,
}
use riscv_hypervisor.Dtb.{dtb_pci}

-- Accesses of a byte by the offset of its register.
pub data PortAccess : Type 0 where
  read : (reg : ℕ) → PortAccess
  write : (reg val : ℕ) → PortAccess

abbrev pub Port : Type 0
Port = List PortAccess → ℕ → ℕ

abbrev pub thr : ℕ
thr = 0

abbrev pub dll : ℕ
dll = 0

abbrev pub dll_38400 : ℕ
dll_38400 = 0x03

abbrev pub ier : ℕ
ier = 1

abbrev pub ier_received_data_available : ℕ
ier_received_data_available = 2 ^ 0

abbrev pub dlm : ℕ
dlm = 1

abbrev pub dlm_38400 : ℕ
dlm_38400 = 0x00

abbrev pub fcr : ℕ
fcr = 2

abbrev pub fcr_enable_fifo : ℕ
fcr_enable_fifo = 2 ^ 0

abbrev pub fcr_clear_receive_fifo : ℕ
fcr_clear_receive_fifo = 2 ^ 1

abbrev pub fcr_clear_transmit_fifo : ℕ
fcr_clear_transmit_fifo = 2 ^ 2

abbrev pub lcr : ℕ
lcr = 3

abbrev pub lcr_dlab : ℕ
lcr_dlab = 2 ^ 7

abbrev pub lcr_eight_bits : ℕ
lcr_eight_bits = 0b11

abbrev pub mcr : ℕ
mcr = 4

abbrev pub lsr : ℕ
lsr = 5

abbrev pub lsr_thr_empty : ℕ
lsr_thr_empty = 2 ^ 5

-- The loop of `uartputc`, with the rounds that are left, and the write behind it; `none` means that
-- the rounds ran out.
unfoldable pub uartputc_loop : Port → ℕ → ℕ → List PortAccess → Option (List PortAccess)
uartputc_loop port zero c bus = none
uartputc_loop port (suc fuel) c bus =
    let lsr_val = port bus lsr % 2 ^ 8 in
    let rest = uartputc_loop port fuel c (read lsr ∷ bus) in
    if bit_and lsr_val lsr_thr_empty == 0
    then rest
    else some (write thr (c % 2 ^ 8) ∷ read lsr ∷ bus)

unfoldable pub uartputc : Port → ℕ → ℕ → List PortAccess → Option (List PortAccess)
uartputc port fuel c bus = uartputc_loop port fuel c bus

unfoldable pub init_uart : List PortAccess → List PortAccess
init_uart bus =
    write ier ier_received_data_available
    ∷ write mcr 0
    ∷ write fcr (bit_or (bit_or fcr_enable_fifo fcr_clear_receive_fifo) fcr_clear_transmit_fifo)
    ∷ write lcr lcr_eight_bits
    ∷ write dlm dlm_38400
    ∷ write dll dll_38400
    ∷ write lcr lcr_dlab
    ∷ write ier 0
    ∷ bus

-- The writes to the device in the PCI space, by address, with the width in bytes and the value.
pub data PciWrite : Type 0 where
  pci_write : (address width val : ℕ) → PciWrite

abbrev pub pci_serial_base : ℕ
pci_serial_base = dtb_pci + 0x8000

unfoldable pub enable_io_access : ℕ → List PciWrite → List PciWrite
enable_io_access pci_dev writes = pci_write (pci_dev + 4 * 1) 2 0x1 ∷ writes

unfoldable pub set_io_base : ℕ → ℕ → List PciWrite → List PciWrite
set_io_base pci_dev offset writes = pci_write (pci_dev + 4 * 4) 4 (u32 (bit_or offset 1)) ∷ writes

unfoldable pub init_pci : List PciWrite → List PciWrite
init_pci writes = set_io_base pci_serial_base 0 (enable_io_access pci_serial_base writes)
