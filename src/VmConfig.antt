-- ===== src/VmConfig.antt =====
-- include/vm_config.h and guest/vm_config.c: the virtual machines of the board. The addresses of the
-- guest images come from the linker and are parameters.
pub mod Devices
use riscv_hypervisor.Common.{ℕ, ◌*◌, ◌^◌, Option, none, some, List, [], ◌∷◌, bit_or}
use riscv_hypervisor.Dtb.{dtb_plic, dtb_plic_size, dtb_serial, dtb_pci_io}
use riscv_hypervisor.Memory.{page_size, pte_r, pte_w}

abbrev pub max_devs : ℕ
max_devs = 10

pub record MmioDev : Type 0 where
  pub phys_base : ℕ
  pub virt_base : ℕ
  pub size : ℕ
  pub perm : ℕ
  pub phys_irq : ℕ
  pub virt_irq : ℕ

-- `devices` is the array of `max_devs` pointers, null pointers included. The barrier of the
-- structure is modelled with the other locks.
pub record VmConfig : Type 0 where
  pub cpu_affinity : ℕ
  pub image_base : ℕ
  pub image_end : ℕ
  pub memory_base : ℕ
  pub memory_size : ℕ
  pub entry : ℕ
  pub devices : List (Option MmioDev)
  pub vm_pgtable : ℕ

abbrev pub emulated_plic : MmioDev
emulated_plic = record {
  phys_base = dtb_plic;
  virt_base = dtb_plic;
  size = dtb_plic_size;
  perm = 0;
  phys_irq = 0;
  virt_irq = 0;
}

abbrev pub serial : MmioDev
serial = record {
  phys_base = dtb_serial;
  virt_base = dtb_serial;
  size = page_size;
  perm = bit_or pte_r pte_w;
  phys_irq = 10;
  virt_irq = 10;
}

abbrev pub virtio_disk_1 : MmioDev
virtio_disk_1 = record {
  phys_base = 0x10001000;
  virt_base = 0x10001000;
  size = 0x1000;
  perm = bit_or pte_r pte_w;
  phys_irq = 1;
  virt_irq = 1;
}

abbrev pub pci_serial : MmioDev
pci_serial = record {
  phys_base = dtb_pci_io;
  virt_base = dtb_serial;
  size = page_size;
  perm = bit_or pte_r pte_w;
  phys_irq = 33;
  virt_irq = 10;
}

abbrev pub virtio_disk_2 : MmioDev
virtio_disk_2 = record {
  phys_base = 0x10002000;
  virt_base = 0x10001000;
  size = 0x1000;
  perm = bit_or pte_r pte_w;
  phys_irq = 2;
  virt_irq = 1;
}

-- Where the linker puts an image and a page table, as physical and kernel virtual addresses.
pub record Placement : Type 0 where
  pub image : ℕ
  pub image_end : ℕ
  pub pgtable : ℕ

abbrev pub xv6_devices : List (Option MmioDev)
xv6_devices =
    some serial
    ∷ some emulated_plic
    ∷ some virtio_disk_1
    ∷ none
    ∷ none
    ∷ none
    ∷ none
    ∷ none
    ∷ none
    ∷ none
    ∷ []

abbrev pub another_xv6_devices : List (Option MmioDev)
another_xv6_devices =
    some pci_serial
    ∷ some emulated_plic
    ∷ some virtio_disk_2
    ∷ none
    ∷ none
    ∷ none
    ∷ none
    ∷ none
    ∷ none
    ∷ none
    ∷ []

abbrev pub xv6_config : Placement → VmConfig
xv6_config xv6 = record {
  cpu_affinity = 0x1;
  image_base = xv6.image;
  image_end = xv6.image_end;
  memory_base = 0x80100000;
  memory_size = 16 * 2 ^ 20;
  entry = 0x80100000;
  devices = xv6_devices;
  vm_pgtable = xv6.pgtable;
}

abbrev pub another_xv6_config : Placement → VmConfig
another_xv6_config another_xv6 = record {
  cpu_affinity = 0x2;
  image_base = another_xv6.image;
  image_end = another_xv6.image_end;
  memory_base = 0x80100000;
  memory_size = 16 * 2 ^ 20;
  entry = 0x80100000;
  devices = another_xv6_devices;
  vm_pgtable = another_xv6.pgtable;
}

abbrev pub config : Placement → Placement → List VmConfig
config xv6 another_xv6 = xv6_config xv6 ∷ another_xv6_config another_xv6 ∷ []
