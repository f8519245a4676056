-- ===== src/Vmem/Tree/Grow.antt =====
-- A page of the allocator becomes a table of the tree.
use riscv_hypervisor.Common.{
  ℕ, ◌+◌, ◌*◌, ◌%◌, ◌<◌, ◌≤◌, ◌≡◌, ◌≢◌, refl, sym, ap, ◌∙◌, true, false, Bool-cases, inl, inr,
  arith, ◌==◌, if◌then◌else◌,
}
use riscv_hypervisor.Memory.{page_size, vas_ram}
use riscv_hypervisor.Kmem.Alloc.{in_page}
use riscv_hypervisor.Vmem.Tree.{
  Use, unused, upper, lower, foreign, slot, IsPage, IsRoot, Links, Tree, assign, last_entry, entry,
}
use riscv_hypervisor.Vmem.Tree.Slots.{
  test_ne, in_page-own, in_page-other, in_page-root, slot_inj, slot_root,
}
use riscv_hypervisor.Vmem.Tree.Entries.{link, link-LeadsTo}

-- Where an entry for a table of a place lies, among the entries of the tree.
pub record Place (root : ℕ) (own : ℕ → Use) (place : Use) (a : ℕ) : Type 0 where
  pub at_root : (i : ℕ) → i < 2048 → slot root i ≡ a → place ≡ upper i
  pub at_upper :
      (i j table : ℕ) → own table ≡ upper i → j < 512 → slot table j ≡ a → place ≡ lower i j
  pub no_leaf : (i j k table : ℕ) → own table ≡ lower i j → k < 512 → slot table k ≢ a
  pub not_in : (page : ℕ) → own page ≡ unused → IsPage page → in_page page a ≡ false
  pub no_foreign : (page k : ℕ) → own page ≡ foreign → IsPage page → k < 512 → slot page k ≢ a
  pub below_ram : a < vas_ram → (root ≤ a) × (a < root + page_size * 4)
  pub is_table : (place ≢ unused) × (place ≢ foreign)

module _ (root : ℕ) (own : ℕ → Use) (memory : ℕ → ℕ) (r : IsRoot root)
    (tree : Tree root own memory) where
  upper-IsPage : (table i : ℕ) → own table ≡ upper i → IsPage table
  upper-IsPage table i e = tree.pages table (λ f. cc)

  lower-IsPage : (table i j : ℕ) → own table ≡ lower i j → IsPage table
  lower-IsPage table i j e = tree.pages table (λ f. cc)

  pub Place-root : (i : ℕ) → i < 2048 → Place root own (upper i) (slot root i)
  Place-root i h = record {
    at_root = λ i' h' e. (let same : i' ≡ i = omega arith in cc);
    at_upper =
        λ i' j table o hj e. absurd (slot_root table root j i (upper-IsPage table i' o) r h e);
    no_leaf = λ i' j k table o hk e. slot_root table root k i (lower-IsPage table i' j o) r h e;
    not_in = λ page o p. in_page-root page root i p r h;
    no_foreign = λ page k o p hk e. slot_root page root k i p r h e;
    below_ram = λ low. omega arith;
    is_table = ((λ e. cc), (λ e. cc));
  }

  pub Place-upper :
      (i j table : ℕ) → own table ≡ upper i → j < 512 → Place root own (lower i j) (slot table j)
  Place-upper i j table o h = record {
    at_root = λ i' h' e. absurd (slot_root table root j i' (upper-IsPage table i o) r h' (sym e));
    at_upper = λ i' j' table' o' h' e.
        (let same =
            slot_inj table' table j' j (upper-IsPage table' i' o') (upper-IsPage table i o) h' h
              e in
          cc);
    no_leaf = λ i' j' k table' o' h' e.
        (let same =
            slot_inj table' table k j (lower-IsPage table' i' j' o') (upper-IsPage table i o) h' h
              e in
          cc);
    not_in =
        λ page unused_page p. in_page-other page table j p (upper-IsPage table i o) (λ e. cc) h;
    no_foreign = λ page k o' p hk e.
        (let same = slot_inj page table k j p (upper-IsPage table i o) hk h e in cc);
    below_ram = λ low. (let t = upper-IsPage table i o in omega arith);
    is_table = ((λ e. cc), (λ e. cc));
  }

-- The memory after the page was cleared and the entry at `a` was written.
abbrev pub grown : (ℕ → ℕ) → ℕ → ℕ → ℕ → ℕ
grown memory page a x = if x == a then link page else if in_page page x then 0 else memory x

module _ (root : ℕ) (own : ℕ → Use) (memory memory' : ℕ → ℕ) (r : IsRoot root)
    (tree : Tree root own memory) (page a : ℕ) (place : Use) (p : Place root own place a)
    (free : own page ≡ unused) (invalid : memory a % 2 ≡ 0)
    (after : (x : ℕ) → memory' x ≡ grown memory page a x) where
  page-IsPage : IsPage page
  page-IsPage = tree.pages page (λ f. cc)

  grown_entry : memory' a ≡ link page
  grown_entry = ground (arith, after a)

  grown_table : (k : ℕ) → k < 512 → memory' (slot page k) ≡ 0
  grown_table k h =
      let out = p.not_in page free page-IsPage in
      let in' = in_page-own page k h in
      elim (Bool-cases (slot page k == a)) [
        | inl e ↦
            (let same : slot page k ≡ a = ground (arith, e) in
              let bad : in_page page a ≡ true = ap (in_page page) (sym same) ∙ in' in cc)
        | inr e ↦ rw (after (slot page k), e, in')
      ]

  grown_other : (x : ℕ) → (x == a) ≡ false → in_page page x ≡ false → memory' x ≡ memory x
  grown_other x ne out = rw (after x, ne, out)

  grown_slot :
      (table k : ℕ)
      → own table ≢ unused
      → IsPage table
      → k < 512
      → (slot table k == a) ≡ false
      → memory' (slot table k) ≡ memory (slot table k)
  grown_slot table k used t h ne =
      grown_other (slot table k) ne
        (in_page-other page table k page-IsPage t (λ e. used (ap own e ∙ free)) h)

  place_stays : (u : Use) (e : ℕ) → u ≢ unused → Links own u e → Links (assign own page place) u e
  place_stays u e used (inl x) = inl x
  place_stays u e used (inr (table, o, l)) =
      let no = test_ne table page (λ same. used (sym o ∙ ap own same ∙ free)) in
      inr (table, rw no o, l)

  grown_link : Links (assign own page place) place (memory' a)
  grown_link =
      let self : (page == page) ≡ true = ground arith in
      rw grown_entry (inr (page, rw self refl, link-LeadsTo page page-IsPage))

  grown_roots : (i : ℕ) → i < 2048 → Links (assign own page place) (upper i) (memory' (slot root i))
  grown_roots i h = elim (Bool-cases (slot root i == a)) [
    | inl e ↦
        (let same : slot root i ≡ a = ground (arith, e) in
          rw (same, sym (p.at_root i h same)) grown_link)
    | inr e ↦
        rw (grown_other (slot root i) e (in_page-root page root i page-IsPage r h))
          (place_stays (upper i) (memory (slot root i)) (λ e. cc) (tree.roots i h))
  ]

  grown_uppers :
      (i j table : ℕ)
      → assign own page place table ≡ upper i
      → j < 512
      → Links (assign own page place) (lower i j) (memory' (slot table j))
  grown_uppers i j table o h = elim (Bool-cases (table == page)) [
    | inl e ↦ (let same : table ≡ page = ground (arith, e) in rw (same, grown_table j h) (inl refl))
    | inr e ↦ grown_uppers_old i j table (rw e at o) h
  ]
    where
      grown_uppers_old :
          (i j table : ℕ)
          → own table ≡ upper i
          → j < 512
          → Links (assign own page place) (lower i j) (memory' (slot table j))
      grown_uppers_old i j table o h = elim (Bool-cases (slot table j == a)) [
        | inl e ↦
            (let same : slot table j ≡ a = ground (arith, e) in
              rw (same, sym (p.at_upper i j table o h same)) grown_link)
        | inr e ↦
            rw (grown_slot table j (λ e. cc) (tree.pages table (λ e. cc)) h e) (
              place_stays (lower i j) (memory (slot table j)) (λ e. cc) (tree.uppers i j table o h))
      ]

  pub grown-Tree : Tree root (assign own page place) memory'
  grown-Tree = record {
    roots = grown_roots;
    uppers = grown_uppers;
    pages = λ q known. elim (Bool-cases (q == page)) [
      | inl e ↦ (let same : q ≡ page = ground (arith, e) in rw same page-IsPage)
      | inr e ↦ tree.pages q (rw e at known)
    ];
  }

  -- No last entry is changed: a new table is clear.
  grown-last_entry :
      (i j k x : ℕ)
      → Links own (lower i j) (memory x)
      → in_page page x ≡ false
      → k < 512
      → last_entry memory' x k ≡ last_entry memory x k
  grown-last_entry i j k x links out h = elim (Bool-cases (x == a)) [
    | inl e ↦
        (let same : x ≡ a = ground (arith, e) in
          let l = link-LeadsTo page page-IsPage in
          rw (same, grown_entry, l.0, invalid, l.2, grown_table k h))
    | inr e ↦ elim links [
      | inl even ↦ rw (grown_other x e out, even)
      | inr (table, o, l) ↦
          rw (grown_other x e out, l.0, l.2)
            (grown_slot table k (λ e. cc) (tree.pages table (λ e. cc)) h
              (test_ne (slot table k) a (p.no_leaf i j k table o h)))
    ]
  ]

  pub grown-entry :
      (i j k : ℕ)
      → i < 2048
      → j < 512
      → k < 512
      → entry memory' root i j k ≡ entry memory root i j k
  grown-entry i j k hi hj hk = elim (Bool-cases (slot root i == a)) [
    | inl e ↦
        (let same : slot root i ≡ a = ground (arith, e) in
          let l = link-LeadsTo page page-IsPage in
          rw (same, grown_entry, l.0, invalid, l.2, grown_table j hj))
    | inr e ↦
        (let here = grown_other (slot root i) e (in_page-root page root i page-IsPage r hi) in
          elim (tree.roots i hi) [
            | inl even ↦ rw (here, even)
            | inr (table, o, l) ↦
                (let t = tree.pages table (λ e. cc) in
                  rw (here, l.0, l.2)
                    (grown-last_entry i j k (slot table j) (tree.uppers i j table o hj)
                      (in_page-other page table j page-IsPage t (λ e. cc) hj) hk))
          ])
  ]
