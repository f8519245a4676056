-- ===== src/Dtb.antt =====
-- include/dtb.h: the addresses and sizes of the board.
use riscv_hypervisor.Common.{ℕ, ◌+◌}

abbrev pub dtb_flash : ℕ
dtb_flash = 0x20000000

abbrev pub dtb_platform_bus : ℕ
dtb_platform_bus = 0x4000000

abbrev pub dtb_memory : ℕ
dtb_memory = 0x80000000

abbrev pub dtb_memory_size : ℕ
dtb_memory_size = 0x10000000

abbrev pub dtb_memory_end : ℕ
dtb_memory_end = dtb_memory + dtb_memory_size

abbrev pub dtb_nr_cpus : ℕ
dtb_nr_cpus = 2

abbrev pub dtb_rtc : ℕ
dtb_rtc = 0x101000

abbrev pub dtb_serial : ℕ
dtb_serial = 0x10000000

abbrev pub dtb_virtio0 : ℕ
dtb_virtio0 = 0x10001000

abbrev pub dtb_virtio_size : ℕ
dtb_virtio_size = 0x1000

abbrev pub dtb_pci : ℕ
dtb_pci = 0x30000000

abbrev pub dtb_pci_size : ℕ
dtb_pci_size = 0x10000000

abbrev pub dtb_pci_io : ℕ
dtb_pci_io = 0x3000000

abbrev pub dtb_plic : ℕ
dtb_plic = 0xc000000

abbrev pub dtb_plic_size : ℕ
dtb_plic_size = 0x600000

abbrev pub dtb_clint : ℕ
dtb_clint = 0x2000000

abbrev pub dtb_clint_size : ℕ
dtb_clint_size = 0x10000
