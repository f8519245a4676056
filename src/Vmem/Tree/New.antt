-- ===== src/Vmem/Tree/New.antt =====
-- The step to the table of a place: a new table is made, or the one that is there is taken.
use riscv_hypervisor.Common.{
  ℕ, ◌%◌, ◌<◌, ◌≡◌, ◌≢◌, refl, sym, ap, ◌∙◌, true, false, Bool-cases, inl, inr, arith, ◌==◌,
  if◌then◌else◌, some, List, ◌∷◌,
}
use riscv_hypervisor.Common.Effects.{ok}
use riscv_hypervisor.Memory.{page_size}
use riscv_hypervisor.Ram.{Ram, clear_words, write_word, memset}
use riscv_hypervisor.Ram.Laws.{clear_words-at}
use riscv_hypervisor.Kmem.{kmalloc}
use riscv_hypervisor.Kmem.Chain.{has, IsFree, IsPlaced, IsChain-frame}
use riscv_hypervisor.Kmem.Alloc.{in_page, has-ne}
use riscv_hypervisor.Vmem.{new_table}
use riscv_hypervisor.Vmem.Tree.{
  Use, unused, slot, LeadsTo, IsPage, IsRoot, Space, assign, entry, Grows, Moves, Moves-refl,
  Moves-more,
}
use riscv_hypervisor.Vmem.Tree.Slots.{test_ne, in_page-other, in_page-root}
use riscv_hypervisor.Vmem.Tree.Entries.{link, link-LeadsTo}
use riscv_hypervisor.Vmem.Tree.Grow.{Place, grown, grown-Tree, grown-entry}

-- The table of a place is there, and nothing that was mapped has changed.
pub record Stepped (dynamic root : ℕ) (own : ℕ → Use) (pages : List ℕ) (ram : Ram) (place : Use)
    (a table : ℕ) (ram' : Ram) : Type 0 where
  pub own' : ℕ → Use
  pub pages' : List ℕ
  pub moves : Moves dynamic root 1 own own' pages pages' ram ram'
  pub same :
      (i j k : ℕ)
      → i < 2048
      → j < 512
      → k < 512
      → entry ram'.memory root i j k ≡ entry ram.memory root i j k
  pub stays :
      (i : ℕ)
      → i < 2048
      → ram.memory (slot root i) % 2 ≡ 1
      → ram'.memory (slot root i) ≡ ram.memory (slot root i)
  pub found : (own' table ≡ place) × LeadsTo table (ram'.memory a)

abbrev pub tabled : Ram → ℕ → ℕ → Ram
tabled after page a = record after {
  memory = write_word (clear_words 512 page after.memory) a (link page);
}

not_first : (page q : ℕ) → IsPage page → IsPage q → (q == page) ≡ false → in_page page q ≡ false
not_first page q p pq ne = ground arith

memset-ok :
    (page : ℕ) (ram : Ram)
    → page ≢ 0
    → memset page page_size ram ≡ ok tt record ram { memory = clear_words 512 page ram.memory }
unfolding memset
memset-ok page ram ne = rw (test_ne page 0 ne)

pub new_table-ok :
    (page a : ℕ) (ram after : Ram)
    → kmalloc ram ≡ ok page after
    → page ≢ 0
    → new_table a ram ≡ ok (some page) (tabled after page a)
unfolding new_table
new_table-ok page a ram after e ne = rw (e, test_ne page 0 ne, memset-ok page after ne)

module _ (dynamic root : ℕ) (placed : IsPlaced dynamic) (r : IsRoot root) (own : ℕ → Use)
    (ram : Ram) (place : Use) (a : ℕ) (p : Place root own place a) where
  tabled_memory :
      (after : Ram) (page : ℕ)
      → ((x : ℕ) → after.memory x ≡ (if in_page page x then 0 else ram.memory x))
      → (x : ℕ) → (tabled after page a).memory x ≡ grown ram.memory page a x
  tabled_memory after page h x = elim (Bool-cases (in_page page x)) [
    | inl e ↦ rw (clear_words-at 512 page after.memory x, e) refl
    | inr e ↦ rw (clear_words-at 512 page after.memory x, h x, e) refl
  ]

  module _ (page : ℕ) (pages : List ℕ) (space : Space dynamic root own (page ∷ pages) ram) where
    first_unused : own page ≡ unused
    first_unused = space.left page (ground arith)

    page-IsPage : IsPage page
    page-IsPage = space.tree.pages page (λ e. let u = first_unused in cc)

    rest_unused : (q : ℕ) → has q pages ≡ true → own q ≡ unused
    rest_unused q h = space.left q (rw h (ground arith))

    listed_apart : (q : ℕ) → has q pages ≡ true → (q == a) ≡ false
    listed_apart q h =
        let free = rest_unused q h in
        let page_q = space.tree.pages q (λ e. cc) in
        let out = p.not_in q free page_q in
        let in' : in_page q q ≡ true = ground arith in
        test_ne q a (λ e. (let bad : in_page q a ≡ true = ap (in_page q) (sym e) ∙ in' in cc))

    rest_apart : (q : ℕ) → has q pages ≡ true → (q == page) ≡ false
    rest_apart q h = has-ne page q pages space.list.distinct.0 h

    listed_kept :
        (after : Ram) (q : ℕ) → has q pages ≡ true → (tabled after page a).memory q ≡ after.memory q
    listed_kept after q h =
        let free_q = rest_unused q h in
        let ne = rest_apart q h in
        let out : in_page page q ≡ false =
          not_first page q page-IsPage (space.tree.pages q (λ e. cc)) ne in
        rw (listed_apart q h, clear_words-at 512 page after.memory q, out)

    tabled-IsFree :
        (after : Ram) → IsFree dynamic after pages → IsFree dynamic (tabled after page a) pages
    tabled-IsFree after free = record {
      chain =
          IsChain-frame after.memory (tabled after page a).memory after.freelist pages
            (listed_kept after) free.chain;
      valid = free.valid;
      distinct = free.distinct;
    }

    tabled-Space :
        (after : Ram)
        → IsFree dynamic after pages
        → ((x : ℕ) → after.memory x ≡ (if in_page page x then 0 else ram.memory x))
        → ram.memory a % 2 ≡ 0
        → Space dynamic root (assign own page place) pages (tabled after page a)
    tabled-Space after free h invalid = record {
      tree =
          grown-Tree root own ram.memory (tabled after page a).memory r space.tree page a place p
            first_unused invalid (tabled_memory after page h);
      list = tabled-IsFree after free;
      left = λ q l. rw (rest_apart q l) (rest_unused q l);
    }

    tabled-Grows :
        (after : Ram)
        → ((x : ℕ) → after.memory x ≡ (if in_page page x then 0 else ram.memory x))
        → Grows root own (assign own page place) ram.memory (tabled after page a).memory
    tabled-Grows after h = record {
      kept = λ q u. rw (test_ne q page (λ e. u (ap own e ∙ first_unused))) refl;
      others = λ q k pq f hk.
          tabled_memory after page h (slot q k)
          ∙ rw (
            test_ne (slot q k) a (p.no_foreign q k f pq hk),
            in_page-other page q k page-IsPage pq (λ e. let u = first_unused in cc) hk,
          );
      outside = λ x hx o.
          (let ne = test_ne x a (λ e. let low = p.below_ram (omega arith) in ground arith) in
            let pg = page-IsPage in
            let out : in_page page x ≡ false = ground arith in
            tabled_memory after page h x ∙ rw (ne, out));
    }

    pub tabled-Stepped :
        (after : Ram)
        → IsFree dynamic after pages
        → ((x : ℕ) → after.memory x ≡ (if in_page page x then 0 else ram.memory x))
        → ram.memory a % 2 ≡ 0
        → Stepped dynamic root own (page ∷ pages) ram place a page (tabled after page a)
    tabled-Stepped after free h invalid = record {
      own' = assign own page place;
      pages' = pages;
      moves = record {
        space = tabled-Space after free h invalid;
        grows = tabled-Grows after h;
        takes = omega arith;
      };
      same =
          grown-entry root own ram.memory (tabled after page a).memory r space.tree page a place p
            first_unused invalid (tabled_memory after page h);
      stays = λ i hi valid.
          (let ne =
              test_ne (slot root i) a (λ e. let v = ap (λ x. ram.memory x % 2) e in omega arith) in
            tabled_memory after page h (slot root i)
            ∙ rw (ne, in_page-root page root i page-IsPage r hi));
      found = (
        (let self : (page == page) ≡ true = ground arith in rw self refl),
        (let self : (a == a) ≡ true = ground arith in rw self (link-LeadsTo page page-IsPage)),
      );
    }

  pub kept-Stepped :
      (pages : List ℕ) (table : ℕ)
      → Space dynamic root own pages ram
      → own table ≡ place
      → LeadsTo table (ram.memory a)
      → Stepped dynamic root own pages ram place a table ram
  kept-Stepped pages table space o l = record {
    own' = own;
    pages' = pages;
    moves =
        Moves-more dynamic root 0 1 own own pages pages ram ram
          (Moves-refl dynamic root own pages ram space) (omega arith);
    same = λ i j k hi hj hk. refl;
    stays = λ i hi v. refl;
    found = (o, l);
  }
