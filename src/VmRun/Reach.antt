-- ===== src/VmRun/Reach.antt =====
-- Where the accessible entries of a guest lead.
use riscv_hypervisor.Common.{
  ℕ, zero, suc, ◌+◌, ◌*◌, ◌/◌, ◌%◌, ◌^◌, ◌<◌, ◌≡◌, ◌≢◌, ◌⊎◌, refl, sym, ap, ◌∙◌, inl, inr, arith,
  u64, List, [], ◌∷◌,
}
use mathlib.Core.Path.{subst}
use riscv_hypervisor.Memory.{page_size, kpa2pa, pte2pa, pa2pte}
use riscv_hypervisor.Memory.Laws.{kpa2pa-eq-add}
use riscv_hypervisor.Vmem.Map.{leaf_entry, leaf_entry-eq-add, leaf_entry-page}
use riscv_hypervisor.Vmem.Tree.{Use, given, foreign, IsPage}
use riscv_hypervisor.Vmem.Tree.Mapping.{entry_of}
use riscv_hypervisor.Vmem.Tree.Region.{Target}
use riscv_hypervisor.VmConfig.{VmConfig}
use riscv_hypervisor.VmRun.Areas.{Area, areas, Leads, AreNarrow}
use riscv_hypervisor.VmRun.Shown.{Shows}

-- An entry that the processor follows to a page for some kind of access.
abbrev pub IsAccessible : ℕ → Type 0
IsAccessible e = (e % 2 ≡ 1) × (e / 2 % 8 ≢ 0)

-- A page that the configuration names, with some permission.
abbrev pub IsBacked : List Area → ℕ → Type 0
IsBacked [] pa = ⊥
IsBacked (a ∷ listed) pa =
    ((n : ℕ) × (n < a.count)
      × (a.phys ≢ 0)
      × (a.flags / 2 % 8 ≢ 0)
      × (pa ≡ u64 (a.phys + n * page_size) / page_size * page_size))
    ⊎ IsBacked listed pa

-- A page that was given to a guest.
abbrev pub IsGiven : (ℕ → Use) → ℕ → Type 0
IsGiven own pa = (page : ℕ) × (va : ℕ) × (own page ≡ given va) × (pa ≡ kpa2pa page)

leaf_entry-access :
    (pa flags : ℕ)
    → pa < 2 ^ 64
    → flags < 2 ^ 10
    → IsAccessible (leaf_entry pa flags)
    → flags / 2 % 8 ≢ 0
unfolding pa2pte
leaf_entry-access pa flags fits few access denied =
    access.1 (omega (arith, leaf_entry-eq-add pa flags fits few))

leads_to :
    (own : ℕ → Use) (a : Area) (n e : ℕ)
    → ((q : ℕ) → own q ≢ foreign → IsPage q)
    → n < a.count
    → a.flags < 2 ^ 10
    → IsAccessible e
    → (pa : ℕ) → a.phys ≡ pa
    → Target own a.virt pa (n * page_size) a.flags e
    → IsGiven own (pte2pa e)
      ⊎ ((a.phys ≢ 0)
          × (a.flags / 2 % 8 ≢ 0)
          × (pte2pa e ≡ u64 (a.phys + n * page_size) / page_size * page_size))
leads_to own a n e pages h few access zero is (page, g, leaf) =
    let p = pages page (λ f. cc) in
    let low = kpa2pa-eq-add page (omega arith) (omega arith) in
    inl
      (page, _, g, rw leaf (leaf_entry-page (kpa2pa page) a.flags (omega arith) few ∙ omega arith))
leads_to own a n e pages h few access (suc pa) is leaf = inr (
  (λ z. omega arith),
  leaf_entry-access (u64 (suc pa + n * page_size)) a.flags (omega arith) few
      (subst IsAccessible leaf access),
  ap pte2pa leaf
      ∙ leaf_entry-page (u64 (suc pa + n * page_size)) a.flags (omega arith) few
      ∙ ap (λ p. u64 (p + n * page_size) / page_size * page_size) (sym is),
)

reaches :
    (own : ℕ → Use) (listed : List Area) (x e : ℕ)
    → ((q : ℕ) → own q ≢ foreign → IsPage q)
    → AreNarrow listed
    → IsAccessible e
    → Leads own listed x e
    → IsGiven own (pte2pa e) ⊎ IsBacked listed (pte2pa e)
reaches own [] x e pages few access l = absurd l
reaches own (a ∷ listed) x e pages few access (inl (n, i, target)) =
    elim (leads_to own a n e pages i.0 few.0 access a.phys refl target) [
      | inl g ↦ inl g
      | inr (nonzero, allowed, page) ↦ inr (inl (n, i.0, nonzero, allowed, page))
    ]
reaches own (a ∷ listed) x e pages few access (inr l) =
    elim (reaches own listed x e pages few.1 access l) [ inl g ↦ inl g | inr b ↦ inr (inr b) ]

-- An accessible entry of a guest leads to a page of its own or one of its configuration.
pub Shows-reaches :
    (conf : VmConfig) (pages pages' : List ℕ) (own : ℕ → Use) (memory : ℕ → ℕ)
    → Shows conf pages pages' own memory
    → AreNarrow (areas conf)
    → (x : ℕ) → IsAccessible (entry_of memory conf.vm_pgtable x)
    → IsGiven own (pte2pa (entry_of memory conf.vm_pgtable x))
      ⊎ IsBacked (areas conf) (pte2pa (entry_of memory conf.vm_pgtable x))
Shows-reaches conf pages pages' own memory shows few x access = elim (shows.only x) [
  | inl empty ↦ absurd (access.1 (rw empty refl))
  | inr l ↦
      reaches own (areas conf) x (entry_of memory conf.vm_pgtable x) shows.tree.pages few access l
]
