-- ===== src/Vmem/Kernel.antt =====
-- `init_vmem`: the kernel's own address space. The addresses of the linker and of the processor's
-- structure are parameters.
use riscv_hypervisor.Common.{ℕ, ◌+◌, false, not, ◌==◌, bit_or, u32, sub64, sign_extend, is_negative}
use riscv_hypervisor.Common.Effects.{Cmd, no_root, bad_map, ◌>>=◌, ◌>>◌, pure, panic_if}
use riscv_hypervisor.Dtb.{
  dtb_flash, dtb_platform_bus, dtb_rtc, dtb_serial, dtb_pci, dtb_pci_size, dtb_virtio0,
  dtb_virtio_size, dtb_plic, dtb_plic_size, dtb_clint, dtb_clint_size, dtb_memory, dtb_memory_size,
}
use riscv_hypervisor.Memory.{page_size, vas_cpu_struct, pte_r, pte_w, pte_x, pte_g, kva2pa, kva2kpa}
use riscv_hypervisor.Ram.{Ram, memset}
use riscv_hypervisor.Kmem.{kmalloc}
use riscv_hypervisor.Vmem.{map_page, map_pages}

-- The sections of the image, and `mycpu()` with the size of its structure.
pub record Image : Type 0 where
  pub text : ℕ
  pub etext : ℕ
  pub rodata : ℕ
  pub erodata : ℕ
  pub data_start : ℕ
  pub edata : ℕ
  pub dynamic : ℕ
  pub cpu : ℕ
  pub cpu_size : ℕ

abbrev pub mmio_flags : ℕ
mmio_flags = bit_or (bit_or pte_r pte_w) pte_g

-- A section's size goes through an `unsigned int` and an `int`.
abbrev pub section_size : ℕ → ℕ → ℕ
section_size from to = sign_extend (u32 (sub64 to from))

-- `if (map_pages(...)) panic(...)`
abbrev pub map_section : ℕ → ℕ → ℕ → ℕ → ℕ → Cmd Ram (Unit {0})
map_section root va pa size flags = do
  rv ← map_pages root va pa size flags false
  panic_if (not (rv == 0)) bad_map

-- The sum of the results, an `int`, is tested at the end.
unfoldable pub map_mmio : ℕ → Cmd Ram (Unit {0})
map_mmio root = do
  flash ← map_page root dtb_flash dtb_flash mmio_flags false
  bus ← map_page root dtb_platform_bus dtb_platform_bus mmio_flags false
  rtc ← map_page root dtb_rtc dtb_rtc mmio_flags false
  serial ← map_page root dtb_serial dtb_serial mmio_flags false
  pci ← map_pages root dtb_pci dtb_pci dtb_pci_size mmio_flags false
  virtio ← map_pages root dtb_virtio0 dtb_virtio0 dtb_virtio_size mmio_flags false
  plic ← map_pages root dtb_plic dtb_plic dtb_plic_size mmio_flags false
  clint ← map_pages root dtb_clint dtb_clint dtb_clint_size mmio_flags false
  panic_if (is_negative (u32 (flash + bus + rtc + serial + pci + virtio + plic + clint))) bad_map

unfoldable pub init_vmem : Image → Cmd Ram ℕ
init_vmem image = do
  root ← kmalloc
  panic_if (root == 0) no_root
  memset root page_size
  map_mmio root
  map_section root image.text (kva2pa image.text) (section_size image.text image.etext)
      (bit_or (bit_or pte_r pte_x) pte_g)
  map_section root image.rodata (kva2pa image.rodata) (section_size image.rodata image.erodata)
      (bit_or pte_r pte_g)
  map_section root image.data_start (kva2pa image.data_start)
      (section_size image.data_start image.edata) mmio_flags
  map_section root vas_cpu_struct (kva2pa image.cpu) image.cpu_size (bit_or pte_r pte_w)
  map_section root (kva2kpa image.dynamic) (kva2pa image.dynamic)
      (sign_extend (u32 (sub64 dtb_memory_size (sub64 (kva2pa image.dynamic) dtb_memory))))
      mmio_flags
  pure root
