-- ===== src/VmRun/Space.antt =====
-- `init_hs_pgtable`: a guest's address space shows the areas of its configuration.
use riscv_hypervisor.Common.{
  ℕ, ◌+◌, ◌*◌, ◌/◌, ◌%◌, ◌^◌, ◌<◌, ◌≤◌, ◌≡◌, ◌≢◌, ◌⊎◌, refl, sym, ◌∙◌, true, false, Bool-cases, inl,
  inr, arith, if◌then◌else◌, List, [], ◌∷◌,
}
use mathlib.Core.Path.{subst}
use riscv_hypervisor.Memory.{page_size, vas_ram}
use riscv_hypervisor.Ram.{Ram, clear_words}
use riscv_hypervisor.Ram.Laws.{in_range, clear_words-at}
use riscv_hypervisor.Kmem.Chain.{
  has, IsFree, IsPlaced, IsChain-frame, AreValid-has, valid_address-bounds,
}
use riscv_hypervisor.Vmem.Tree.{
  Use, unused, upper, foreign, slot, IsPage, IsRoot, Space, Moves, Moves-refl, Moves-trans,
}
use riscv_hypervisor.Vmem.Tree.Mapping.{entry_of, is_same_page}
use riscv_hypervisor.Vmem.Tree.Region.{round_address, Target, Region}
use riscv_hypervisor.VmRun.Areas.{
  Area, IsIn, IsCovered, Leads, AreMapped, Leads-mono, AreMapped-frame,
}

-- At first a guest has no page, and only the free pages may become its own.
abbrev pub own_at_first : List ℕ → ℕ → Use
own_at_first pages q = if has q pages then unused else foreign

abbrev pub cleared : Ram → ℕ → Ram
cleared ram root = record ram { memory = clear_words 2048 root ram.memory }

-- The areas `done` are mapped, and nothing else is.
pub record Built (dynamic root : ℕ) (pages : List ℕ) (ram : Ram) (most : ℕ) (done : List Area)
    (ram' : Ram) : Type 0 where
  pub own : ℕ → Use
  pub pages' : List ℕ
  pub moves : Moves dynamic root most (own_at_first pages) own pages pages' ram ram'
  pub only :
      (x : ℕ) → (entry_of ram'.memory root x ≡ 0) ⊎ Leads own done x (entry_of ram'.memory root x)
  pub mapped : AreMapped own ram'.memory root done

module _ (dynamic root : ℕ) (placed : IsPlaced dynamic) (r : IsRoot root) (pages : List ℕ)
    (ram : Ram) where
  listed_IsPage : IsFree dynamic ram pages → (q : ℕ) → has q pages ≡ true → IsPage q
  listed_IsPage free q h =
      let b = valid_address-bounds dynamic q placed (AreValid-has dynamic pages q free.valid h) in
      omega arith

  cleared_root : (i : ℕ) → i < 2048 → (cleared ram root).memory (slot root i) ≡ 0
  cleared_root i h =
      let inside : in_range 2048 root (slot root i) ≡ true = ground arith in
      clear_words-at 2048 root ram.memory (slot root i) ∙ rw inside refl

  pub cleared_above : (a : ℕ) → vas_ram ≤ a → (cleared ram root).memory a ≡ ram.memory a
  cleared_above a h =
      let outside : in_range 2048 root a ≡ false = ground arith in
      clear_words-at 2048 root ram.memory a ∙ rw outside refl

  pub cleared-Space :
      IsFree dynamic ram pages → Space dynamic root (own_at_first pages) pages (cleared ram root)
  cleared-Space free = record {
    tree = record {
      roots = λ i h. inl (rw (cleared_root i h));
      uppers = λ i j table o h. elim (Bool-cases (has table pages)) [
        | inl e ↦ (let bad : unused ≡ upper i = rw e at o in cc)
        | inr e ↦ (let bad : foreign ≡ upper i = rw e at o in cc)
      ];
      pages = λ q known. elim (Bool-cases (has q pages)) [
        | inl e ↦ listed_IsPage free q e
        | inr e ↦ (let bad : foreign ≢ foreign = rw e at known in absurd (bad refl))
      ];
    };
    list = record {
      chain =
          IsChain-frame ram.memory (cleared ram root).memory ram.freelist pages
            (λ q h. cleared_above q (listed_IsPage free q h).1) free.chain;
      valid = free.valid;
      distinct = free.distinct;
    };
    left = λ q h. rw h refl;
  }

  pub cleared-Built :
      IsFree dynamic ram pages → Built dynamic root pages (cleared ram root) 0 [] (cleared ram root)
  cleared-Built free = record {
    own = own_at_first pages;
    pages' = pages;
    moves =
        Moves-refl dynamic root (own_at_first pages) pages (cleared ram root) (cleared-Space free);
    only = λ x. inl (rw (cleared_root (x / 2 ^ 30 % 2048) (omega arith)));
    mapped = tt;
  }

round_same :
    (va n m : ℕ)
    → n < 2 ^ 29
    → m < 2 ^ 29
    → is_same_page (round_address va (n * page_size)) (round_address va (m * page_size)) ≡ true
    → n ≡ m
round_same va n m hn hm e = ground arith

module _ (dynamic root : ℕ) (pages : List ℕ) (ram : Ram) (done : List Area) (a : Area) (most : ℕ)
    (t u : Ram) (b : Built dynamic root pages ram most done t)
    (region : Region dynamic root b.own b.pages' t a.count 0 a.virt a.phys a.flags u)
    (small : a.count ≤ 2 ^ 29) (apart : (n x : ℕ) → IsIn a n x → IsCovered done x → ⊥) where
  -- A page of the area, or one outside it with its old entry.
  entered :
      (x : ℕ)
      → ((n : ℕ) × IsIn a n x
          × Target region.own' a.virt a.phys (n * page_size) a.flags (entry_of u.memory root x))
        ⊎ (((n : ℕ) → IsIn a n x → ⊥) × (entry_of u.memory root x ≡ entry_of t.memory root x))
  entered x = elim (region.entries x) [
    | inl (n, h, same, target) ↦
        (let shift : 0 + n * page_size ≡ n * page_size = omega arith in
          inl (n, (h, rw (sym shift) same), rw (sym shift) target))
    | inr (outside, kept) ↦ inr (
      (λ n i.
          (let shift : 0 + n * page_size ≡ n * page_size = omega arith in
            let out : is_same_page x (round_address a.virt (n * page_size)) ≡ false =
              rw (sym shift) (outside n i.0) in
            let in' = i.1 in cc)),
      kept,
    )
  ]

  entered_only :
      (x : ℕ)
      → (entry_of u.memory root x ≡ 0) ⊎ Leads region.own' (a ∷ done) x (entry_of u.memory root x)
  entered_only x = elim (entered x) [
    | inl e ↦ inr (inl e)
    | inr (out, kept) ↦ elim (b.only x) [
      | inl empty ↦ inl (kept ∙ empty)
      | inr leads ↦ inr (
          inr (
            rw kept (
              Leads-mono b.own region.own' done x (entry_of t.memory root x) region.moves.grows.kept
                leads)))
    ]
  ]

  entered_here :
      (n : ℕ)
      → n < a.count
      → Target region.own' a.virt a.phys
          (n * page_size)
          a.flags
          (entry_of u.memory root (round_address a.virt (n * page_size)))
  entered_here n h = elim (entered (round_address a.virt (n * page_size))) [
    | inl (m, i, target) ↦
        (let same = round_same a.virt n m (omega arith) (let j = i.0 in omega arith) i.1 in
          subst
            (λ k.
              Target region.own' a.virt a.phys (k * page_size) a.flags
                (entry_of u.memory root (round_address a.virt (n * page_size))))
            (sym same) target)
    | inr (out, kept) ↦ absurd (out n (h, ground arith))
  ]

  pub area-Built : Built dynamic root pages ram (most + 3 * a.count) (a ∷ done) u
  area-Built = record {
    own = region.own';
    pages' = region.pages';
    moves =
        Moves-trans dynamic root most (3 * a.count) (own_at_first pages) b.own region.own' pages
          b.pages' region.pages' ram t u b.moves region.moves;
    only = entered_only;
    mapped = (
      entered_here,
      AreMapped-frame b.own region.own' t.memory u.memory root done region.moves.grows.kept
          (λ x c. elim (entered x) [
            | inl (n, i, target) ↦ absurd (apart n x i c)
            | inr (out, kept) ↦ kept
          ])
          b.mapped,
    );
  }
