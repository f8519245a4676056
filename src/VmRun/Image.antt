-- ===== src/VmRun/Image.antt =====
-- The image of a guest in its address space.
use riscv_hypervisor.Common.{
  ℕ, zero, suc, ◌+◌, ◌*◌, ◌/◌, ◌%◌, ◌≤◌, ◌≡◌, ◌≢◌, refl, ap, ◌∙◌, true, arith, u64, List, [],
  length,
}
use riscv_hypervisor.Common.Effects.{ok}
use riscv_hypervisor.Memory.{page_size, pte2pa}
use riscv_hypervisor.Ram.{Ram}
use riscv_hypervisor.Kmem.Chain.{IsFree, IsPlaced}
use riscv_hypervisor.Vmem.{convert_va_to_pa}
use riscv_hypervisor.Vmem.Map.{leaf_entry, leaf_entry-odd, leaf_entry-page}
use riscv_hypervisor.Vmem.Tree.{Use, IsRoot, root_index, upper_index, lower_index}
use riscv_hypervisor.Vmem.Tree.Mapping.{entry_of, is_same_page}
use riscv_hypervisor.Vmem.Tree.Region.{round_address, Target}
use riscv_hypervisor.Vmem.Tree.Lookup.{convert_va_to_pa-entry_of}
use riscv_hypervisor.VmConfig.{VmConfig}
use riscv_hypervisor.VmRun.{guest_ram, init_hs_pgtable}
use riscv_hypervisor.VmRun.Areas.{areas, image_area, weight, IsIn, AreApart}
use riscv_hypervisor.VmRun.Confined.{IsTerminated}
use riscv_hypervisor.VmRun.Shown.{Shows, init_hs_pgtable_lem}

entry_of-page :
    (memory : ℕ → ℕ) (root x y : ℕ)
    → is_same_page x y ≡ true
    → entry_of memory root x ≡ entry_of memory root y
entry_of-page memory root x y same =
    let a : root_index x ≡ root_index y = ground (arith, same) in
    let b : upper_index x ≡ upper_index y = ground (arith, same) in
    let c : lower_index x ≡ lower_index y = ground (arith, same) in rw (a, b, c)

Target-named :
    (own : ℕ → Use) (va pa offset flags e : ℕ)
    → pa ≢ 0
    → Target own va pa offset flags e
    → e ≡ leaf_entry (u64 (pa + offset)) flags
Target-named own va zero offset flags e nonzero t = absurd (nonzero refl)
Target-named own va (suc pa) offset flags e nonzero t = t

module _ (conf : VmConfig) (pages pages' : List ℕ) (own : ℕ → Use) (after : Ram)
    (r : IsRoot conf.vm_pgtable) (shows : Shows conf pages pages' own after.memory)
    (named : conf.image_base ≢ 0) (n x : ℕ) (i : IsIn (image_area conf) n x) where
  image_entry :
      entry_of after.memory conf.vm_pgtable x
      ≡ leaf_entry (u64 (conf.image_base + n * page_size)) guest_ram
  image_entry =
      let place = round_address conf.memory_base (n * page_size) in
      entry_of-page after.memory conf.vm_pgtable x place i.1
      ∙ Target-named own conf.memory_base conf.image_base (n * page_size) guest_ram
          (entry_of after.memory conf.vm_pgtable place) named (shows.mapped.0 n i.0)

  image_converts :
      convert_va_to_pa conf.vm_pgtable x true after
      ≡ ok (u64 (conf.image_base + n * page_size) / page_size * page_size + x % page_size) after
  image_converts =
      let pa = u64 (conf.image_base + n * page_size) in
      let valid : entry_of after.memory conf.vm_pgtable x % 2 ≡ 1 =
        ap (λ (e : ℕ). e % 2) image_entry
        ∙ leaf_entry-odd pa guest_ram (omega arith) (omega arith) in
      convert_va_to_pa-entry_of conf.vm_pgtable own r x after shows.tree valid
      ∙ ap (λ p. ok (p + x % page_size) after)
          (ap pte2pa image_entry ∙ leaf_entry-page pa guest_ram (omega arith) (omega arith))

-- With the end of the image inside the RAM, the root of the guest's table in the kernel's
-- image, a null pointer in its array of devices, areas (the image, the memory and each device)
-- of at most 2^29 pages of which no two share a page of the guest's addresses, and three free
-- pages for each page of an area: if the image's physical address is not 0, init_hs_pgtable
-- ends, and then convert_va_to_pa gives, for every address in a page of the area of the image,
-- that page of the image with the offset of the address.
pub init_hs_pgtable-convert_va_to_pa :
    (dynamic : ℕ) (conf : VmConfig) (pages : List ℕ) (ram : Ram)
    → IsPlaced dynamic
    → IsRoot conf.vm_pgtable
    → IsFree dynamic ram pages
    → IsTerminated conf.devices
    → AreApart [] (areas conf)
    → weight (areas conf) ≤ length pages
    → conf.image_base ≢ 0
    → (after : Ram) × (init_hs_pgtable conf ram ≡ ok tt after)
      × ((n x : ℕ)
          → IsIn (image_area conf) n x
          → convert_va_to_pa conf.vm_pgtable x true after
            ≡ ok
                (u64 (conf.image_base + n * page_size) / page_size * page_size + x % page_size)
                after)
init_hs_pgtable-convert_va_to_pa dynamic conf pages ram placed r free ends apart room named =
    let (after, own, pages', e, left, shows) =
      init_hs_pgtable_lem dynamic conf pages ram placed r free ends apart room in
    (after, e, image_converts conf pages pages' own after r shows named)
