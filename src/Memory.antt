-- ===== src/Memory.antt =====
-- include/memory.h: the address spaces of the kernel and the page table entries. Addresses are
-- 64-bit words, so sums and differences wrap.
pub mod Laws
use riscv_hypervisor.Common.{
  ℕ, ◌+◌, ◌-◌, ◌*◌, ◌/◌, ◌%◌, ◌^◌, bit_and, bit_or, u64, sub64, shl64, shr,
}
use riscv_hypervisor.Dtb.{dtb_memory}

abbrev pub page_size : ℕ
page_size = 2 ^ 12

abbrev pub vas_kernel : ℕ
vas_kernel = 0xffffffc000000000

abbrev pub vas_cpu_struct : ℕ
vas_cpu_struct = 0xffffffc040000000

abbrev pub vas_ram : ℕ
vas_ram = 0xffffffe000000000

unfoldable pub kpa2pa : ℕ → ℕ
kpa2pa kpa = u64 (bit_and kpa (2 ^ 64 - 1 - vas_ram) + dtb_memory)

unfoldable pub pa2kpa : ℕ → ℕ
pa2kpa pa = bit_or (sub64 pa dtb_memory) vas_ram

unfoldable pub kva2pa : ℕ → ℕ
kva2pa kva = u64 (sub64 kva vas_kernel + dtb_memory)

unfoldable pub kva2kpa : ℕ → ℕ
kva2kpa kva = u64 (sub64 kva vas_kernel + vas_ram)

-- `~(PAGE_SIZE - 1)` is the `int` -4096, widened to 64 bits.
unfoldable pub pg_round_up : ℕ → ℕ
pg_round_up a = bit_and (u64 (a + page_size - 1)) (2 ^ 64 - page_size)

abbrev pub levels : ℕ
levels = 3

abbrev pub pte_v : ℕ
pte_v = 2 ^ 0

abbrev pub pte_r : ℕ
pte_r = 2 ^ 1

abbrev pub pte_w : ℕ
pte_w = 2 ^ 2

abbrev pub pte_x : ℕ
pte_x = 2 ^ 3

abbrev pub pte_u : ℕ
pte_u = 2 ^ 4

abbrev pub pte_g : ℕ
pte_g = 2 ^ 5

unfoldable pub pa2pte : ℕ → ℕ
pa2pte pa = shl64 (shr pa 12) 10

unfoldable pub pte2pa : ℕ → ℕ
pte2pa pte = shl64 (shr pte 10) 12
