-- ===== src/Vmem/Tree/Total.antt =====
-- `map_page` where there are free pages and the address is not mapped.
use riscv_hypervisor.Common.{
  ℕ, ◌+◌, ◌*◌, ◌/◌, ◌%◌, ◌^◌, ◌<◌, ◌≤◌, ◌≡◌, refl, ap, ◌∙◌, true, arith, if◌then◌else◌, List,
  length,
}
use riscv_hypervisor.Common.Effects.{ok}
use riscv_hypervisor.Common.Runs.{Runs-ok}
use riscv_hypervisor.Memory.{page_size, pte2pa}
use riscv_hypervisor.Ram.{Ram}
use riscv_hypervisor.Kmem.Chain.{IsPlaced}
use riscv_hypervisor.Vmem.{map_page, convert_va_to_pa}
use riscv_hypervisor.Vmem.Map.{leaf_entry, leaf_entry-odd, leaf_entry-page}
use riscv_hypervisor.Vmem.Tree.{Use, IsRoot, Space}
use riscv_hypervisor.Vmem.Tree.Mapping.{entry_of, is_same_page, Mapped, Ends, map_page-Runs}
use riscv_hypervisor.Vmem.Tree.Lookup.{convert_va_to_pa-entry_of}

module _ (dynamic root : ℕ) (own : ℕ → Use) (pages : List ℕ) (ram : Ram) (va pa flags : ℕ)
    (placed : IsPlaced dynamic) (r : IsRoot root) (space : Space dynamic root own pages ram)
    (room : 2 ≤ length pages) (unmapped : entry_of ram.memory root va % 2 ≡ 0) where
  map_page-Mapped :
      (after : Ram) × (map_page root va pa flags true ram ≡ ok 0 after)
      × Mapped dynamic root own pages ram va (leaf_entry pa flags) after
  map_page-Mapped =
      let (rv, after, e, (zero_rv, m)) =
        Runs-ok (entry_of ram.memory root va % 2 ≡ 1) (length pages < 2)
          (Ends dynamic root placed r va pa flags own pages ram)
          (map_page root va pa flags true ram)
          (map_page-Runs dynamic root placed r va pa flags own pages ram space)
          (λ valid. omega arith) (λ few. omega arith) in
      (after, e ∙ ap (λ v. ok v after) zero_rv, m)

-- With the end of the image inside the RAM, and a guest's page table that is a tree of pages
-- below a root in the kernel's image, over free pages that are in no use of it: if at least two
-- pages are free and the address is not mapped, map_page ends with 0, keeps the tree and the
-- free pages, of which it takes at most two, sets the last entry of the address' page to the
-- physical address, the flags and the valid bit, and keeps that of every other page, where
-- addresses count up to their lowest 41 bits.
pub map_page_sets :
    (dynamic root : ℕ) (own : ℕ → Use) (pages : List ℕ) (ram : Ram) (va pa flags : ℕ)
    → IsPlaced dynamic
    → IsRoot root
    → Space dynamic root own pages ram
    → 2 ≤ length pages
    → entry_of ram.memory root va % 2 ≡ 0
    → (after : Ram) × (own' : ℕ → Use) × (pages' : List ℕ) × (map_page root va pa flags true ram
        ≡ ok 0 after)
      × Space dynamic root own' pages' after
      × (length pages ≤ 2 + length pages')
      × ((x : ℕ)
          → entry_of after.memory root x
            ≡ (if is_same_page x va then leaf_entry pa flags else entry_of ram.memory root x))
map_page_sets dynamic root own pages ram va pa flags placed r space room unmapped =
    let (after, e, m) =
      map_page-Mapped dynamic root own pages ram va pa flags placed r space room unmapped in
    (after, m.own', m.pages', e, m.moves.space, m.moves.takes, m.entries)

-- With the end of the image inside the RAM, and a guest's page table that is a tree of pages
-- below a root in the kernel's image, over free pages that are in no use of it: if at least two
-- pages are free and the address is not mapped, and for a 64-bit physical address and flags
-- below 2^10: map_page ends with 0, and then the address translates to the mapped page with the
-- offset of the address.
pub map_page_round_trip :
    (dynamic root : ℕ) (own : ℕ → Use) (pages : List ℕ) (ram : Ram) (va pa flags : ℕ)
    → IsPlaced dynamic
    → IsRoot root
    → Space dynamic root own pages ram
    → 2 ≤ length pages
    → entry_of ram.memory root va % 2 ≡ 0
    → pa < 2 ^ 64
    → flags < 2 ^ 10
    → (after : Ram) × (map_page root va pa flags true ram ≡ ok 0 after)
      × (convert_va_to_pa root va true after
          ≡ ok (pa / page_size * page_size + va % page_size) after)
map_page_round_trip dynamic root own pages ram va pa flags placed r space room unmapped fits few =
    let (after, e, m) =
      map_page-Mapped dynamic root own pages ram va pa flags placed r space room unmapped in
    let self : is_same_page va va ≡ true = ground arith in
    let written : entry_of after.memory root va ≡ leaf_entry pa flags =
      m.entries va ∙ rw self refl in
    let valid : entry_of after.memory root va % 2 ≡ 1 =
      ap (λ (v : ℕ). v % 2) written ∙ leaf_entry-odd pa flags fits few in
    (
      after,
      e,
      convert_va_to_pa-entry_of root m.own' r va after m.moves.space.tree valid
          ∙ ap (λ p. ok (p + va % page_size) after)
              (ap pte2pa written ∙ leaf_entry-page pa flags fits few),
    )
