-- ===== src/Vmem/Tree/Table.antt =====
-- `next_table` on the tree: it gives the table of a place, a new one where there was none.
use riscv_hypervisor.Common.{
  ℕ, ◌%◌, ◌<◌, ◌≡◌, refl, true, inl, inr, arith, Option, some, List, [], ◌∷◌, length,
}
use riscv_hypervisor.Common.Effects.{Cmd, and_then}
use riscv_hypervisor.Common.Runs.{Runs, Runs-mono, and_then-Runs}
use riscv_hypervisor.Ram.{Ram}
use riscv_hypervisor.Kmem.Chain.{IsPlaced}
use riscv_hypervisor.Kmem.Alloc.{kmalloc-takes, kmalloc-empty}
use riscv_hypervisor.Vmem.{new_table, next_table}
use riscv_hypervisor.Vmem.Tree.{Use, IsRoot, Links, Space}
use riscv_hypervisor.Vmem.Tree.Entries.{pte_v-test}
use riscv_hypervisor.Vmem.Tree.Grow.{Place}
use riscv_hypervisor.Vmem.Tree.New.{Stepped, new_table-ok, tabled-Stepped, kept-Stepped}

module _ (dynamic root : ℕ) (placed : IsPlaced dynamic) (r : IsRoot root) (own : ℕ → Use)
    (ram : Ram) (place : Use) (a : ℕ) (p : Place root own place a) where
  abbrev Next : List ℕ → Option ℕ → Ram → Type 0
  Next pages o after =
      (table : ℕ) × (o ≡ some table) × Stepped dynamic root own pages ram place a table after

  new_table-Runs :
      (pages : List ℕ)
      → Space dynamic root own pages ram
      → ram.memory a % 2 ≡ 0
      → Runs ⊥ (length pages < 1) (Next pages) (new_table a ram)
  unfolding new_table
  new_table-Runs [] space invalid =
      let empty = kmalloc-empty dynamic ram space.list in rw empty (omega arith)
  new_table-Runs (page ∷ pages) space invalid =
      let (after, e, free, h) = kmalloc-takes dynamic ram page pages placed space.list in
      rw (new_table-ok page a ram after e (space.list.chain.1)) (
        page,
        refl,
        tabled-Stepped dynamic root placed r own ram place a p page pages space after free h
            invalid,
      )

  next_table-Runs :
      (pages : List ℕ)
      → Space dynamic root own pages ram
      → Links own place (ram.memory a)
      → Runs ⊥ (length pages < 1) (Next pages) (next_table a true ram)
  unfolding next_table
  next_table-Runs pages space (inl even) =
      rw (pte_v-test (ram.memory a), even) (new_table-Runs pages space even)
  next_table-Runs pages space (inr (table, o, l)) =
      rw (pte_v-test (ram.memory a), l.0, l.2)
        (table, refl, kept-Stepped dynamic root placed r own ram place a p pages table space o l)

  -- What follows goes on with the table of the place.
  pub next_table-then :
      (Lacks : Type 0) (Q : ℕ → Ram → Type 0) (k : Option ℕ → Cmd Ram ℕ) (pages : List ℕ)
      → Space dynamic root own pages ram
      → Links own place (ram.memory a)
      → (length pages < 1 → Lacks)
      → ((table : ℕ) (after : Ram)
          → Stepped dynamic root own pages ram place a table after
          → Runs ⊥ Lacks Q (k (some table) after))
      → Runs ⊥ Lacks Q (and_then (next_table a true ram) k)
  next_table-then Lacks Q k pages space links lacks go =
      and_then-Runs ⊥ Lacks (Next pages) Q (next_table a true ram) k
        (Runs-mono ⊥ (length pages < 1) (Next pages) ⊥ Lacks (Next pages) (next_table a true ram)
          (next_table-Runs pages space links) (λ x. x) lacks (λ o t n. n))
        (λ o t n. rw n.1 (go n.0 t n.2))
