-- ===== src/VmRun/Shown.antt =====
-- What a guest's address space shows after `init_hs_pgtable`.
use riscv_hypervisor.Common.{
  ℕ, ◌≤◌, ◌≡◌, ◌≢◌, ◌⊎◌, refl, ◌∙◌, true, false, Bool-cases, inl, inr, List, [], ◌∷◌, length,
}
use riscv_hypervisor.Common.Effects.{ok}
use riscv_hypervisor.Ram.{Ram}
use riscv_hypervisor.Kmem.Chain.{has, IsFree, IsPlaced}
use riscv_hypervisor.Vmem.Tree.{Use, unused, foreign, IsRoot, Tree}
use riscv_hypervisor.Vmem.Tree.Mapping.{entry_of}
use riscv_hypervisor.VmConfig.{VmConfig}
use riscv_hypervisor.VmRun.{init_hs_pgtable}
use riscv_hypervisor.VmRun.Areas.{
  Area, areas, weight, AreApart, AreNarrow, Leads, AreMapped, AreEntered, AreMapped-AreEntered,
}
use riscv_hypervisor.VmRun.Space.{Built, cleared, own_at_first}
use riscv_hypervisor.VmRun.Confined.{backwards, IsTerminated, init_hs_pgtable-Built}

AreMapped-backwards :
    (own : ℕ → Use) (memory : ℕ → ℕ) (root : ℕ) (later done : List Area)
    → AreMapped own memory root (backwards done later)
    → AreMapped own memory root done × AreMapped own memory root later
AreMapped-backwards own memory root [] done m = (m, tt)
AreMapped-backwards own memory root (a ∷ later) done m =
    let both = AreMapped-backwards own memory root later (a ∷ done) m in
    (both.0.1, (both.0.0, both.1))

Leads-backwards :
    (own : ℕ → Use) (x e : ℕ) (later done : List Area)
    → Leads own (backwards done later) x e
    → Leads own done x e ⊎ Leads own later x e
Leads-backwards own x e [] done l = inl l
Leads-backwards own x e (a ∷ later) done l = elim (Leads-backwards own x e later (a ∷ done) l) [
  | inl (inl here) ↦ inr (inl here)
  | inl (inr before) ↦ inl before
  | inr after ↦ inr (inr after)
]

-- The space of a guest: every page of its areas is mapped, nothing else is, and the pages of its
-- memory were taken from the free ones.
pub record Shows (conf : VmConfig) (pages pages' : List ℕ) (own : ℕ → Use) (memory : ℕ → ℕ)
    : Type 0 where
  pub tree : Tree conf.vm_pgtable own memory
  pub mapped : AreMapped own memory conf.vm_pgtable (areas conf)
  pub only :
      (x : ℕ)
      → (entry_of memory conf.vm_pgtable x ≡ 0)
        ⊎ Leads own (areas conf) x (entry_of memory conf.vm_pgtable x)
  pub was_free : (q : ℕ) → own q ≢ foreign → has q pages ≡ true
  pub is_taken : (q : ℕ) → own q ≢ unused → has q pages' ≡ false

module _ (dynamic : ℕ) (conf : VmConfig) (pages : List ℕ) (ram after : Ram)
    (b : Built dynamic conf.vm_pgtable pages ram
      (weight (areas conf))
      (backwards [] (areas conf))
      after) where
  was_first : (q : ℕ) → b.own q ≢ foreign → has q pages ≡ true
  was_first q known = elim (Bool-cases (has q pages)) [
    | inl e ↦ e
    | inr e ↦
        (let first : own_at_first pages q ≡ foreign = rw e refl in
          absurd (known (b.moves.grows.kept q (λ u. cc) ∙ first)))
  ]

  pub Built-Shows : Shows conf pages b.pages' b.own after.memory
  Built-Shows = record {
    tree = b.moves.space.tree;
    mapped = (AreMapped-backwards b.own after.memory conf.vm_pgtable (areas conf) [] b.mapped).1;
    only = λ x. elim (b.only x) [
      | inl empty ↦ inl empty
      | inr l ↦
          elim (Leads-backwards b.own x (entry_of after.memory conf.vm_pgtable x) (areas conf) []
            l) [ inl e ↦ absurd e | inr l' ↦ inr l' ]
    ];
    was_free = was_first;
    is_taken = λ q used. elim (Bool-cases (has q b.pages')) [
      | inl e ↦ absurd (used (b.moves.space.left q e))
      | inr e ↦ e
    ];
  }

-- What the guest reaches, whatever the permissions of its devices.
pub init_hs_pgtable_lem :
    (dynamic : ℕ) (conf : VmConfig) (pages : List ℕ) (ram : Ram)
    → IsPlaced dynamic
    → IsRoot conf.vm_pgtable
    → IsFree dynamic ram pages
    → IsTerminated conf.devices
    → AreApart [] (areas conf)
    → weight (areas conf) ≤ length pages
    → (after : Ram) × (own : ℕ → Use) × (pages' : List ℕ) × (init_hs_pgtable conf ram ≡ ok tt after)
      × IsFree dynamic after pages'
      × Shows conf pages pages' own after.memory
init_hs_pgtable_lem dynamic conf pages ram placed r free ends apart room =
    let (after, e, built) =
      init_hs_pgtable-Built dynamic conf pages ram placed r free ends apart room in
    (
      after,
      built.own,
      built.pages',
      e,
      built.moves.space.list,
      Built-Shows dynamic conf pages (cleared ram conf.vm_pgtable) after built,
    )

-- With the end of the image inside the RAM, the root of the guest's table in the kernel's
-- image, a null pointer in its array of devices, areas (the image, the memory and each device)
-- of at most 2^29 pages of which no two share a page of the guest's addresses, and three free
-- pages for each page of an area, and flags below 2^10: init_hs_pgtable ends and leaves a list
-- of free pages. The last entry of every page of an area is then the number of a page above ten
-- bits with the area's flags and the valid bit: the page at its place behind the area's
-- physical address or, where that is 0, a page that was free, is free no longer, and is given
-- at this address of the guest; no other address has a last entry; and the table is a tree of
-- pages that were free and are so no longer.
pub init_hs_pgtable-Shows :
    (dynamic : ℕ) (conf : VmConfig) (pages : List ℕ) (ram : Ram)
    → IsPlaced dynamic
    → IsRoot conf.vm_pgtable
    → IsFree dynamic ram pages
    → IsTerminated conf.devices
    → AreApart [] (areas conf)
    → AreNarrow (areas conf)
    → weight (areas conf) ≤ length pages
    → (after : Ram) × (own : ℕ → Use) × (pages' : List ℕ) × (init_hs_pgtable conf ram ≡ ok tt after)
      × IsFree dynamic after pages'
      × Shows conf pages pages' own after.memory
      × AreEntered own after.memory conf.vm_pgtable (areas conf)
init_hs_pgtable-Shows dynamic conf pages ram placed r free ends apart few room =
    let (after, own, pages', e, left, shows) =
      init_hs_pgtable_lem dynamic conf pages ram placed r free ends apart room in
    (
      after,
      own,
      pages',
      e,
      left,
      shows,
      AreMapped-AreEntered own after.memory conf.vm_pgtable (areas conf) shows.tree.pages few
          shows.mapped,
    )
