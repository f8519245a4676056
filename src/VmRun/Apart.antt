-- ===== src/VmRun/Apart.antt =====
-- Two guests that are set up one after the other.
use riscv_hypervisor.Common.{
  ℕ, ◌+◌, ◌*◌, ◌<◌, ◌≤◌, ◌≡◌, ◌≢◌, ◌⊎◌, refl, ◌∙◌, true, false, inl, inr, arith, List, [], length,
}
use mathlib.Core.Path.{subst}
use riscv_hypervisor.Common.Effects.{ok}
use riscv_hypervisor.Memory.{page_size, kpa2pa, pte2pa}
use riscv_hypervisor.Memory.Laws.{kpa2pa-eq-add}
use riscv_hypervisor.Ram.{Ram}
use riscv_hypervisor.Ram.Laws.{in_range, clear_words-at}
use riscv_hypervisor.Kmem.Chain.{has, IsFree, IsPlaced}
use riscv_hypervisor.Vmem.Tree.{
  unused, foreign, slot, IsPage, IsRoot, root_index, upper_index, lower_index,
}
use riscv_hypervisor.Vmem.Tree.Frame.{entry-frame}
use riscv_hypervisor.Vmem.Tree.Mapping.{entry_of}
use riscv_hypervisor.VmConfig.{VmConfig}
use riscv_hypervisor.VmRun.{init_hs_pgtable}
use riscv_hypervisor.VmRun.Areas.{AreNarrow, Area, areas, weight, AreApart}
use riscv_hypervisor.VmRun.Space.{Built, cleared, own_at_first}
use riscv_hypervisor.VmRun.Confined.{backwards, IsTerminated, init_hs_pgtable-Built}
use riscv_hypervisor.VmRun.Shown.{Built-Shows}
use riscv_hypervisor.VmRun.Reach.{IsAccessible, IsBacked, IsGiven, Shows-reaches}

-- The pages that the configuration names are not among those that may be given.
abbrev pub IsOutside : List Area → List ℕ → Type 0
IsOutside listed pages = (q : ℕ) → has q pages ≡ true → IsBacked listed (kpa2pa q) → ⊥

abbrev pub AreDisjoint : ℕ → ℕ → Type 0
AreDisjoint root root' = (root + page_size * 4 ≤ root') ⊎ (root' + page_size * 4 ≤ root)

-- A page that both guests reach is named by both configurations.
abbrev pub AreSeparate : VmConfig → VmConfig → (ℕ → ℕ) → Type 0
AreSeparate a b memory =
    (x y : ℕ)
    → IsAccessible (entry_of memory a.vm_pgtable x)
    → IsAccessible (entry_of memory b.vm_pgtable y)
    → pte2pa (entry_of memory a.vm_pgtable x) ≡ pte2pa (entry_of memory b.vm_pgtable y)
    → IsBacked (areas a) (pte2pa (entry_of memory a.vm_pgtable x))
      × IsBacked (areas b) (pte2pa (entry_of memory a.vm_pgtable x))

module _ (dynamic : ℕ) (a b : VmConfig) (pages : List ℕ) (ram t u : Ram) (ra : IsRoot a.vm_pgtable)
    (rb : IsRoot b.vm_pgtable) (disjoint : AreDisjoint a.vm_pgtable b.vm_pgtable)
    (first : Built dynamic a.vm_pgtable pages ram (weight (areas a)) (backwards [] (areas a)) t)
    (second : Built dynamic b.vm_pgtable first.pages'
      (cleared t b.vm_pgtable)
      (weight (areas b))
      (backwards [] (areas b))
      u) where
  own-foreign : (q : ℕ) → first.own q ≢ unused → second.own q ≡ foreign
  own-foreign q used =
      let shows = Built-Shows dynamic a pages ram t first in
      let at_first : own_at_first first.pages' q ≡ foreign = rw (shows.is_taken q used) refl in
      second.moves.grows.kept q (λ e. cc) ∙ at_first

  kept_root : (i : ℕ) → i < 2048 → u.memory (slot a.vm_pgtable i) ≡ t.memory (slot a.vm_pgtable i)
  kept_root i h =
      let outside : in_range 2048 b.vm_pgtable (slot a.vm_pgtable i) ≡ false = ground arith in
      second.moves.grows.outside (slot a.vm_pgtable i) (omega arith) (ground arith)
      ∙ clear_words-at 2048 b.vm_pgtable t.memory (slot a.vm_pgtable i)
      ∙ rw outside refl

  kept_table :
      (table k : ℕ)
      → first.own table ≢ unused
      → IsPage table
      → k < 512
      → u.memory (slot table k) ≡ t.memory (slot table k)
  kept_table table k used p h =
      let shows = Built-Shows dynamic a pages ram t first in
      let at_first : own_at_first first.pages' table ≡ foreign =
        rw (shows.is_taken table used) refl in
      let outside : in_range 2048 b.vm_pgtable (slot table k) ≡ false = ground arith in
      second.moves.grows.others table k p at_first h
      ∙ clear_words-at 2048 b.vm_pgtable t.memory (slot table k)
      ∙ rw outside refl

  -- The space of the first guest stays.
  kept_entry : (x : ℕ) → entry_of u.memory a.vm_pgtable x ≡ entry_of t.memory a.vm_pgtable x
  kept_entry x =
      entry-frame a.vm_pgtable first.own t.memory u.memory first.moves.space.tree kept_root
        kept_table (root_index x) (upper_index x) (lower_index x) (omega arith) (omega arith)
        (omega arith)

  shared_page :
      IsOutside (areas a) pages
      → IsOutside (areas b) pages
      → (p : ℕ) → IsGiven first.own p ⊎ IsBacked (areas a) p
      → IsGiven second.own p ⊎ IsBacked (areas b) p
      → IsBacked (areas a) p × IsBacked (areas b) p
  shared_page outside_a outside_b p (inl (q, va, o, e)) (inl (q', va', o', e')) =
      let page = first.moves.space.tree.pages q (λ f. cc) in
      let page' = second.moves.space.tree.pages q' (λ f. cc) in
      let low = kpa2pa-eq-add q (omega arith) (omega arith) in
      let low' = kpa2pa-eq-add q' (omega arith) (omega arith) in
      let same : q ≡ q' = omega arith in let away = own-foreign q (λ f. cc) in absurd cc
  shared_page outside_a outside_b p (inl (q, va, o, e)) (inr named) =
      let shows = Built-Shows dynamic a pages ram t first in
      absurd (outside_b q (shows.was_free q (λ f. cc)) (subst (IsBacked (areas b)) e named))
  shared_page outside_a outside_b p (inr named) (inl (q, va, o, e)) =
      let shows = Built-Shows dynamic a pages ram t first in
      let shows' = Built-Shows dynamic b first.pages' (cleared t b.vm_pgtable) u second in
      let unused_q = first.moves.space.left q (shows'.was_free q (λ f. cc)) in
      absurd (outside_a q (shows.was_free q (λ f. cc)) (subst (IsBacked (areas a)) e named))
  shared_page outside_a outside_b p (inr named) (inr named') = (named, named')

  guests_separate :
      AreNarrow (areas a)
      → AreNarrow (areas b)
      → IsOutside (areas a) pages
      → IsOutside (areas b) pages
      → AreSeparate a b u.memory
  guests_separate few_a few_b outside_a outside_b x y at_x at_y same =
      let shows = Built-Shows dynamic a pages ram t first in
      let shows' = Built-Shows dynamic b first.pages' (cleared t b.vm_pgtable) u second in
      shared_page outside_a outside_b (pte2pa (entry_of u.memory a.vm_pgtable x))
        (rw (kept_entry x) (
          Shows-reaches a pages first.pages' first.own t.memory shows few_a x
            (rw (kept_entry x) at at_x)))
        (rw same
          (Shows-reaches b first.pages' second.pages' second.own u.memory shows' few_b y at_y))

-- A configuration that can be set up and keeps away from the free pages.
abbrev pub IsSound : VmConfig → List ℕ → Type 0
IsSound conf pages =
    IsRoot conf.vm_pgtable
    × IsTerminated conf.devices
    × AreApart [] (areas conf)
    × AreNarrow (areas conf)
    × IsOutside (areas conf) pages

-- With the end of the image inside the RAM, for two guests whose roots lie apart in the
-- kernel's image, each with a null pointer in its array of devices, areas (the image, the
-- memory and each device) of at most 2^29 pages of which no two share a page of the guest's
-- addresses, flags below 2^10 and no page that its configuration names with a permission among
-- the free ones, and with three free pages for each page of an area of either: if
-- init_hs_pgtable runs for one and then for the other, both end, and a physical page that valid
-- entries with a permission of both lead to is named with a permission by both configurations.
pub guests_memory_apart :
    (dynamic : ℕ) (a b : VmConfig) (pages : List ℕ) (ram : Ram)
    → IsPlaced dynamic
    → IsFree dynamic ram pages
    → IsSound a pages
    → IsSound b pages
    → AreDisjoint a.vm_pgtable b.vm_pgtable
    → weight (areas a) + weight (areas b) ≤ length pages
    → (t u : Ram) × (init_hs_pgtable a ram ≡ ok tt t)
      × (init_hs_pgtable b t ≡ ok tt u)
      × AreSeparate a b u.memory
guests_memory_apart dynamic a b pages ram placed free (ra, ends_a, apart_a, few_a, out_a)
      (rb, ends_b, apart_b, few_b, out_b) disjoint room =
    let (t, e, first) =
      init_hs_pgtable-Built dynamic a pages ram placed ra free ends_a apart_a (omega arith) in
    let takes = first.moves.takes in
    let (u, e', second) =
      init_hs_pgtable-Built dynamic b first.pages' t placed rb first.moves.space.list ends_b apart_b
        (omega arith) in
    (
      t,
      u,
      e,
      e',
      guests_separate dynamic a b pages (cleared ram a.vm_pgtable) t u ra rb disjoint first second
          few_a few_b out_a out_b,
    )
