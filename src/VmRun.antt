-- ===== src/VmRun.antt =====
-- core/vm_run.c: the checks of the configuration, the guest's physical address space and the
-- registers that a virtual machine starts with.
pub mod Checks
pub mod Start
pub mod Entered
pub mod Areas
pub mod Space
pub mod Confined
pub mod Shown
pub mod Image
pub mod Reach
pub mod Apart
pub mod Barriers
pub mod Board
use riscv_hypervisor.Common.{
  ℕ, ◌+◌, ◌-◌, ◌*◌, ◌/◌, ◌^◌, List, [], ◌∷◌, ◌++◌, Option, none, some, ◌==◌, if◌then◌else◌, not,
  u32, u64, sub64, bit_and, bit_or, is_negative, true,
}
use riscv_hypervisor.Common.Effects.{
  Cmd, Panic, fault, shared_cpu, bad_cpu_number, bad_map, ◌>>=◌, ◌>>◌, pure, stop, panic_if,
}
use riscv_hypervisor.Bits.{count_set_bits}
use riscv_hypervisor.Dtb.{dtb_nr_cpus}
use riscv_hypervisor.Memory.{page_size, pte_r, pte_w, pte_x, pte_u, pg_round_up, kva2pa}
use riscv_hypervisor.VmConfig.{VmConfig, MmioDev}
use riscv_hypervisor.Ram.{Ram, memset}
use riscv_hypervisor.Vmem.{map_pages}

-- The inner loop over the machines before one.
unfoldable pub overlaps : ℕ → List VmConfig → Cmd Ram (Unit {0})
overlaps cpu_affinity [] = pure tt
overlaps cpu_affinity (c ∷ before) = do
  panic_if (not (bit_and cpu_affinity c.cpu_affinity == 0)) shared_cpu
  overlaps cpu_affinity before

-- The outer loop, with the machines before the next one.
unfoldable pub check_overlap : List VmConfig → List VmConfig → Cmd Ram (Unit {0})
check_overlap before [] = pure tt
check_overlap before (c ∷ config) = do
  overlaps c.cpu_affinity before
  check_overlap (before ++ c ∷ []) config

-- The sum of the processors, an `int`; `fault` stands for a count that does not end.
unfoldable pub count_cpus : List VmConfig → ℕ → Cmd Ram ℕ
count_cpus [] nr_cpus = pure nr_cpus
count_cpus (c ∷ config) nr_cpus = do
  count ← counted (count_set_bits c.cpu_affinity)
  count_cpus config (u32 (nr_cpus + count))
  where
    counted : Option ℕ → Cmd Ram ℕ
    counted none = λ ram. fault
    counted (some count) = pure count

unfoldable pub check_cpu_configuration : List VmConfig → Cmd Ram (Unit {0})
check_cpu_configuration config = do
  check_overlap [] config
  nr_cpus ← count_cpus config 0
  panic_if (not (nr_cpus == dtb_nr_cpus)) bad_cpu_number

-- The loop over the devices up to a null pointer; a loop that leaves the array is undefined.
unfoldable pub map_devices : ℕ → List (Option MmioDev) → Cmd Ram (Unit {0})
map_devices vm_pgtable [] = λ ram. fault
map_devices vm_pgtable (none ∷ devs) = pure tt
map_devices vm_pgtable (some dev ∷ devs) = do
  rv ← map_pages vm_pgtable dev.virt_base dev.phys_base dev.size (u32 (bit_or dev.perm pte_u)) true
  panic_if (is_negative rv) bad_map
  map_devices vm_pgtable devs

abbrev pub guest_ram : ℕ
guest_ram = bit_or (bit_or (bit_or pte_u pte_r) pte_w) pte_x

unfoldable pub init_hs_pgtable : VmConfig → Cmd Ram (Unit {0})
init_hs_pgtable conf = do
  memset conf.vm_pgtable (page_size * 4)
  let image_size = pg_round_up (sub64 conf.image_end conf.image_base)
  rv ← map_pages conf.vm_pgtable conf.memory_base conf.image_base image_size guest_ram true
  panic_if (is_negative rv) bad_map
  rv ←
      map_pages conf.vm_pgtable (u64 (conf.memory_base + image_size)) 0
        (sub64 conf.memory_size image_size) guest_ram true
  panic_if (is_negative rv) bad_map
  map_devices conf.vm_pgtable conf.devices
