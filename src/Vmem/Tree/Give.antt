-- ===== src/Vmem/Tree/Give.antt =====
-- A page of the allocator is taken for the guest's memory.
use riscv_hypervisor.Common.{
  ℕ, ◌<◌, ◌≡◌, ◌≢◌, refl, sym, ap, ◌∙◌, true, false, Bool-cases, inl, inr, arith, ◌==◌,
  if◌then◌else◌, List, [], ◌∷◌, length,
}
use riscv_hypervisor.Common.Runs.{Runs}
use riscv_hypervisor.Ram.{Ram}
use riscv_hypervisor.Kmem.{kmalloc}
use riscv_hypervisor.Kmem.Chain.{has, IsFree, IsPlaced}
use riscv_hypervisor.Kmem.Alloc.{in_page, has-ne, kmalloc-takes, kmalloc-empty}
use riscv_hypervisor.Vmem.Tree.{
  Use, unused, upper, lower, given, slot, IsPage, IsRoot, Links, Tree, Space, assign, entry, Moves,
}
use riscv_hypervisor.Vmem.Tree.Frame.{entry-frame}
use riscv_hypervisor.Vmem.Tree.Slots.{test_ne, in_page-other, in_page-root}

module _ (root : ℕ) (own : ℕ → Use) (memory memory' : ℕ → ℕ) (r : IsRoot root)
    (tree : Tree root own memory) (page v : ℕ) (free : own page ≡ unused)
    (after : (x : ℕ) → memory' x ≡ (if in_page page x then 0 else memory x)) where
  page-IsPage : IsPage page
  page-IsPage = tree.pages page (λ e. cc)

  given_root : (i : ℕ) → i < 2048 → memory' (slot root i) ≡ memory (slot root i)
  given_root i h = rw (after (slot root i), in_page-root page root i page-IsPage r h) refl

  given_table :
      (table k : ℕ)
      → own table ≢ unused
      → IsPage table
      → k < 512
      → memory' (slot table k) ≡ memory (slot table k)
  given_table table k used t h =
      rw
        (
          after (slot table k),
          in_page-other page table k page-IsPage t (λ e. used (ap own e ∙ free)) h,
        )
        refl

  place_stays :
      (place : Use) (e : ℕ)
      → place ≢ unused
      → Links own place e
      → Links (assign own page (given v)) place e
  place_stays place e used (inl even) = inl even
  place_stays place e used (inr (table, o, l)) =
      let no = test_ne table page (λ same. used (sym o ∙ ap own same ∙ free)) in
      inr (table, rw no o, l)

  was_upper : (table i : ℕ) → assign own page (given v) table ≡ upper i → own table ≡ upper i
  was_upper table i o = elim (Bool-cases (table == page)) [
    | inl e ↦ (let bad : given v ≡ upper i = rw e at o in cc)
    | inr e ↦ rw e at o
  ]

  given-Tree : Tree root (assign own page (given v)) memory'
  given-Tree = record {
    roots = λ i h.
        rw (given_root i h)
          (place_stays (upper i) (memory (slot root i)) (λ e. cc) (tree.roots i h));
    uppers = λ i j table o h.
        (let o' = was_upper table i o in
          rw (given_table table j (λ e. cc) (tree.pages table (λ e. cc)) h) (
            place_stays (lower i j) (memory (slot table j)) (λ e. cc)
              (tree.uppers i j table o' h)));
    pages = λ q known. elim (Bool-cases (q == page)) [
      | inl e ↦ (let same : q ≡ page = ground (arith, e) in rw same page-IsPage)
      | inr e ↦ tree.pages q (rw e at known)
    ];
  }

-- The page is given, and nothing that was mapped has changed.
pub record Given (dynamic root : ℕ) (own : ℕ → Use) (pages : List ℕ) (ram : Ram) (v page : ℕ)
    (ram' : Ram) : Type 0 where
  pub own' : ℕ → Use
  pub pages' : List ℕ
  pub moves : Moves dynamic root 1 own own' pages pages' ram ram'
  pub same :
      (i j k : ℕ)
      → i < 2048
      → j < 512
      → k < 512
      → entry ram'.memory root i j k ≡ entry ram.memory root i j k
  pub was_unused : own page ≡ unused
  pub is_given : own' page ≡ given v

module _ (dynamic root : ℕ) (placed : IsPlaced dynamic) (r : IsRoot root) (own : ℕ → Use)
    (ram : Ram) (v : ℕ) where
  takes_first :
      (page : ℕ) (pages : List ℕ) (after : Ram)
      → Space dynamic root own (page ∷ pages) ram
      → IsFree dynamic after pages
      → ((x : ℕ) → after.memory x ≡ (if in_page page x then 0 else ram.memory x))
      → Given dynamic root own (page ∷ pages) ram v page after
  takes_first page pages after space free h =
      let unused_page : own page ≡ unused = space.left page (ground arith) in
      let p = space.tree.pages page (λ e. cc) in
      record {
        own' = assign own page (given v);
        pages' = pages;
        moves = record {
          space = record {
            tree = given-Tree root own ram.memory after.memory r space.tree page v unused_page h;
            list = free;
            left = λ q l.
                (let listed : has q (page ∷ pages) ≡ true = rw l (ground arith) in
                  rw (has-ne page q pages space.list.distinct.0 l) (space.left q listed));
          };
          grows = record {
            kept = λ q u. rw (test_ne q page (λ e. u (ap own e ∙ unused_page))) refl;
            others =
                λ q k pq f hk. h (slot q k) ∙ rw (in_page-other page q k p pq (λ e. cc) hk) refl;
            outside =
                λ x low out. (let no : in_page page x ≡ false = ground arith in h x ∙ rw no refl);
          };
          takes = omega arith;
        };
        same =
            entry-frame root own ram.memory after.memory space.tree
              (given_root root own ram.memory after.memory r space.tree page v unused_page h)
              (given_table root own ram.memory after.memory r space.tree page v unused_page h);
        was_unused = unused_page;
        is_given = (let self : (page == page) ≡ true = ground arith in rw self refl);
      }

  pub kmalloc-Given :
      (pages : List ℕ)
      → Space dynamic root own pages ram
      → Runs ⊥
          (length pages < 1)
          (λ page after. Given dynamic root own pages ram v page after)
          (kmalloc ram)
  kmalloc-Given [] space = rw (kmalloc-empty dynamic ram space.list) (omega arith)
  kmalloc-Given (page ∷ pages) space =
      let (after, e, free, h) = kmalloc-takes dynamic ram page pages placed space.list in
      rw e (takes_first page pages after space free h)
