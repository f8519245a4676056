-- ===== src/Vmem/Tree/Fill.antt =====
-- A last entry of the tree is written.
use riscv_hypervisor.Common.{
  ℕ, ◌<◌, ◌≡◌, ◌≢◌, ◌⊎◌, refl, sym, ap, true, false, ◌&&◌, Bool-cases, inl, inr, arith, ◌==◌,
  if◌then◌else◌, List,
}
use riscv_hypervisor.Ram.{Ram, write_word}
use riscv_hypervisor.Kmem.Chain.{has, IsChain-frame}
use riscv_hypervisor.Vmem.Tree.{
  Use, upper, lower, foreign, slot, LeadsTo, IsPage, IsRoot, Tree, Space, Moves, entry,
}
use riscv_hypervisor.Vmem.Tree.Slots.{test_ne, slot_inj, slot_root}

-- The tables on the way to a place.
pub record Descends (root : ℕ) (own : ℕ → Use) (memory : ℕ → ℕ) (i j table : ℕ) : Type 0 where
  pub middle : ℕ
  pub is_upper : own middle ≡ upper i
  pub from_root : LeadsTo middle (memory (slot root i))
  pub is_lower : own table ≡ lower i j
  pub from_upper : LeadsTo table (memory (slot middle j))

pub entry-Descends :
    (root : ℕ) (own : ℕ → Use) (memory : ℕ → ℕ) (i j k table : ℕ)
    → Descends root own memory i j table
    → entry memory root i j k ≡ memory (slot table k)
entry-Descends root own memory i j k table d =
    rw (d.from_root.0, d.from_root.2, d.from_upper.0, d.from_upper.2) refl

module _ (root : ℕ) (own : ℕ → Use) (memory : ℕ → ℕ) (r : IsRoot root) (tree : Tree root own memory)
    (i j k table value : ℕ) (hk : k < 512) (o : own table ≡ lower i j) where
  abbrev filled : ℕ → ℕ
  filled = write_word memory (slot table k) value

  table-IsPage : IsPage table
  table-IsPage = tree.pages table (λ e. cc)

  filled_root : (i' : ℕ) → i' < 2048 → filled (slot root i') ≡ memory (slot root i')
  filled_root i' h = rw (
      test_ne (slot root i') (slot table k)
        (λ e. slot_root table root k i' table-IsPage r h (sym e)))

  filled_table :
      (t l : ℕ)
      → own t ≢ foreign
      → l < 512
      → (own t ≢ own table) ⊎ (l ≢ k)
      → filled (slot t l) ≡ memory (slot t l)
  filled_table t l known h differ = rw (
      test_ne (slot t l) (slot table k) (λ e.
        (let same = slot_inj t table l k (tree.pages t known) table-IsPage h hk e in
          elim differ [ inl ne ↦ ne (ap own same.0) | inr ne ↦ ne same.1 ])))

  pub filled-Tree : Tree root own filled
  filled-Tree = record {
    roots = λ i' h. rw (filled_root i' h) (tree.roots i' h);
    uppers = λ i' j' t ot h.
        rw (filled_table t j' (λ e. cc) h (inl (λ e. cc))) (tree.uppers i' j' t ot h);
    pages = tree.pages;
  }

  filled_place :
      Descends root own memory i j table → i < 2048 → j < 512 → entry filled root i j k ≡ value
  filled_place d hi hj =
      let self : (slot table k == slot table k) ≡ true = ground arith in
      rw (
        filled_root i hi,
        d.from_root.0,
        d.from_root.2,
        filled_table d.middle j (λ e. let u = d.is_upper in cc) hj
            (inl (λ e. let u = d.is_upper in cc)),
        d.from_upper.0,
        d.from_upper.2,
        self,
      )

  other_place :
      (i' j' k' t : ℕ)
      → own t ≡ lower i' j'
      → (i' ≢ i) ⊎ (j' ≢ j) ⊎ (k' ≢ k)
      → (own t ≢ own table) ⊎ (k' ≢ k)
  other_place i' j' k' t ot (inl ne) = inl (λ e. ne cc)
  other_place i' j' k' t ot (inr (inl ne)) = inl (λ e. ne cc)
  other_place i' j' k' t ot (inr (inr ne)) = inr ne

  filled_elsewhere :
      (i' j' k' : ℕ)
      → i' < 2048
      → j' < 512
      → k' < 512
      → (i' ≢ i) ⊎ (j' ≢ j) ⊎ (k' ≢ k)
      → entry filled root i' j' k' ≡ entry memory root i' j' k'
  filled_elsewhere i' j' k' hi hj h differ = elim (tree.roots i' hi) [
    | inl even ↦ rw (filled_root i' hi, even)
    | inr (t1, o1, l1) ↦ elim (tree.uppers i' j' t1 o1 hj) [
      | inl even ↦
          rw (filled_root i' hi, l1.0, l1.2, filled_table t1 j' (λ e. cc) hj (inl (λ e. cc)), even)
      | inr (t2, o2, l2) ↦ rw (
        filled_root i' hi,
        l1.0,
        l1.2,
        filled_table t1 j' (λ e. cc) hj (inl (λ e. cc)),
        l2.0,
        l2.2,
        filled_table t2 k' (λ e. cc) h (other_place i' j' k' t2 o2 differ),
      )
    ]
  ]

  pub filled-entry :
      Descends root own memory i j table
      → i < 2048
      → j < 512
      → (i' j' k' : ℕ) → i' < 2048
      → j' < 512
      → k' < 512
      → entry filled root i' j' k'
        ≡ (if i' == i && j' == j && k' == k then value else entry memory root i' j' k')
  filled-entry d hi hj i' j' k' hi' hj' hk' = elim (Bool-cases (i' == i && j' == j && k' == k)) [
    | inl e ↦
        (let a : i' ≡ i = ground (arith, e) in
          let b : j' ≡ j = ground (arith, e) in
          let c : k' ≡ k = ground (arith, e) in rw (e, a, b, c) (filled_place d hi hj))
    | inr e ↦ rw e (filled_elsewhere i' j' k' hi' hj' hk' (apart i' j' k' e))
  ]
    where
      apart :
          (i' j' k' : ℕ) → (i' == i && j' == j && k' == k) ≡ false → (i' ≢ i) ⊎ (j' ≢ j) ⊎ (k' ≢ k)
      apart i' j' k' e = ground arith

-- The list of free pages stays.
module _ (dynamic root : ℕ) (own : ℕ → Use) (pages : List ℕ) (ram : Ram) (r : IsRoot root)
    (space : Space dynamic root own pages ram) (i j k table value : ℕ) (hk : k < 512)
    (o : own table ≡ lower i j) where
  abbrev stored : Ram
  stored = record ram { memory = write_word ram.memory (slot table k) value }

  place_IsPage : IsPage table
  place_IsPage = space.tree.pages table (λ e. cc)

  listed_apart : (q : ℕ) → has q pages ≡ true → (q == slot table k) ≡ false
  listed_apart q h =
      let free = space.left q h in
      test_ne q (slot table k) (λ e.
        (let same =
            slot_inj q table 0 k (space.tree.pages q (λ f. cc)) place_IsPage (omega arith) hk
              (omega arith) in
          cc))

  pub stored-Moves : Moves dynamic root 0 own own pages pages ram stored
  stored-Moves = record {
    space = record {
      tree = filled-Tree root own ram.memory r space.tree i j k table value hk o;
      list = record {
        chain =
            IsChain-frame ram.memory stored.memory ram.freelist pages
              (λ q h. rw (listed_apart q h) refl) space.list.chain;
        valid = space.list.valid;
        distinct = space.list.distinct;
      };
      left = space.left;
    };
    grows = record {
      kept = λ q u. refl;
      others = λ page l p f h.
          rw
            (test_ne (slot page l) (slot table k)
              (λ e. (let same = slot_inj page table l k p place_IsPage h hk e in cc)))
            refl;
      outside = λ a low out.
          (let t = place_IsPage in rw (test_ne a (slot table k) (λ e. omega arith)) refl);
    };
    takes = omega arith;
  }
