-- ===== src/Vmem/Tree/Descent.antt =====
-- `walk` on the tree: it ends at the last entry for an address.
use riscv_hypervisor.Common.{ℕ, ◌<◌, ◌≡◌, refl, ◌∙◌, true, arith, List, length}
use riscv_hypervisor.Common.Runs.{Runs}
use riscv_hypervisor.Ram.{Ram}
use riscv_hypervisor.Kmem.Chain.{IsPlaced}
use riscv_hypervisor.Vmem.{walk_from, walk}
use riscv_hypervisor.Vmem.Tree.{
  Use, upper, lower, slot, IsPage, IsRoot, Space, entry, Moves, Moves-trans, root_index,
  upper_index, lower_index,
}
use riscv_hypervisor.Vmem.Tree.Slots.{test_ne}
use riscv_hypervisor.Vmem.Tree.Entries.{
  entry_at-root_index, entry_at-upper_index, entry_at-lower_index,
}
use riscv_hypervisor.Vmem.Tree.Grow.{Place-root, Place-upper}
use riscv_hypervisor.Vmem.Tree.New.{Stepped}
use riscv_hypervisor.Vmem.Tree.Table.{next_table-then}
use riscv_hypervisor.Vmem.Tree.Fill.{Descends}

-- The last entry is there, and nothing that was mapped has changed.
pub record Walked (dynamic root : ℕ) (own : ℕ → Use) (pages : List ℕ) (ram : Ram) (va leaf : ℕ)
    (ram' : Ram) : Type 0 where
  pub own' : ℕ → Use
  pub pages' : List ℕ
  pub table : ℕ
  pub moves : Moves dynamic root 2 own own' pages pages' ram ram'
  pub same :
      (i j k : ℕ)
      → i < 2048
      → j < 512
      → k < 512
      → entry ram'.memory root i j k ≡ entry ram.memory root i j k
  pub is_leaf : leaf ≡ slot table (lower_index va)
  pub descends : Descends root own' ram'.memory (root_index va) (upper_index va) table

module _ (dynamic root : ℕ) (placed : IsPlaced dynamic) (r : IsRoot root) (va : ℕ) (own : ℕ → Use)
    (pages : List ℕ) (ram : Ram) where
  walked :
      (upper_table lower_table : ℕ) (t u : Ram)
      → (s : Stepped dynamic root own pages ram
          (upper (root_index va))
          (slot root (root_index va))
          upper_table
          t)
      → Stepped dynamic root s.own' s.pages' t
          (lower (root_index va) (upper_index va))
          (slot upper_table (upper_index va))
          lower_table
          u
      → Walked dynamic root own pages ram va (slot lower_table (lower_index va)) u
  walked upper_table lower_table t u s s' = record {
    own' = s'.own';
    pages' = s'.pages';
    table = lower_table;
    moves =
        Moves-trans dynamic root 1 1 own s.own' s'.own' pages s.pages' s'.pages' ram t u s.moves
          s'.moves;
    same = λ i j k hi hj hk. s'.same i j k hi hj hk ∙ s.same i j k hi hj hk;
    is_leaf = refl;
    descends = record {
      middle = upper_table;
      is_upper = s'.moves.grows.kept upper_table (λ e. let f = s.found.0 in cc) ∙ s.found.0;
      from_root = rw (s'.stays (root_index va) (omega arith) s.found.1.0) s.found.1;
      is_lower = s'.found.0;
      from_upper = s'.found.1;
    };
  }

  abbrev Ends : ℕ → Ram → Type 0
  Ends leaf after = Walked dynamic root own pages ram va leaf after

  walk_from-upper :
      (upper_table : ℕ) (t : Ram)
      → Stepped dynamic root own pages ram
          (upper (root_index va))
          (slot root (root_index va))
          upper_table
          t
      → Runs ⊥ (length pages < 2) Ends (walk_from 1 upper_table va true true t)
  unfolding walk_from
  walk_from-upper upper_table t s =
      let i = root_index va in
      let j = upper_index va in
      let table_IsPage = s.moves.space.tree.pages upper_table (λ e. let f = s.found.0 in cc) in
      let p =
        Place-upper root s.own' t.memory r s.moves.space.tree i j upper_table s.found.0
          (omega arith) in
      rw (entry_at-upper_index upper_table va table_IsPage) (
        next_table-then dynamic root placed r s.own' t (lower i j) (slot upper_table j) p
          (length pages < 2) Ends _ s.pages' s.moves.space
          (s.moves.space.tree.uppers i j upper_table s.found.0 (omega arith))
          (λ few. let takes = s.moves.takes in omega arith)
          (λ lower_table u s'.
            rw (entry_at-lower_index lower_table va (new_IsPage lower_table u s'))
              (walked upper_table lower_table t u s s')))
    where
      new_IsPage :
          (table : ℕ) (u : Ram)
          → Stepped dynamic root s.own' s.pages' t
              (lower (root_index va) (upper_index va))
              (slot upper_table (upper_index va))
              table
              u
          → IsPage table
      new_IsPage table u s' = s'.moves.space.tree.pages table (λ e. let f = s'.found.0 in cc)

  pub walk-Runs :
      Space dynamic root own pages ram → Runs ⊥ (length pages < 2) Ends (walk root va true true ram)
  unfolding walk walk_from
  walk-Runs space =
      let i = root_index va in
      let p = Place-root root own ram.memory r space.tree i (omega arith) in
      rw (test_ne root 0 r.0, entry_at-root_index root va r)
        (next_table-then dynamic root placed r own ram (upper i) (slot root i) p (length pages < 2)
          Ends _ pages space (space.tree.roots i (omega arith)) (λ few. omega arith)
          walk_from-upper)
