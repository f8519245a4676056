-- ===== src/Vmem/Tree/Mapping.antt =====
-- `map_page` on the tree: it sets the last entry of one address and keeps all others.
use riscv_hypervisor.Common.{
  ℕ, ◌/◌, ◌%◌, ◌^◌, ◌<◌, ◌≡◌, refl, sym, ◌∙◌, Bool, true, false, Bool-cases, inl, inr, arith, ◌==◌,
  ◌&&◌, if◌then◌else◌, List, length,
}
use riscv_hypervisor.Common.Runs.{Runs, Runs-mono, and_then-Runs}
use riscv_hypervisor.Ram.{Ram, write_word}
use riscv_hypervisor.Kmem.Chain.{IsPlaced}
use riscv_hypervisor.Vmem.{walk, map_page}
use riscv_hypervisor.Vmem.Map.{leaf_entry}
use riscv_hypervisor.Vmem.Tree.{
  Use, IsRoot, Space, entry, Moves, Moves-trans, root_index, upper_index, lower_index,
}
use riscv_hypervisor.Vmem.Tree.Entries.{pte_v-test}
use riscv_hypervisor.Vmem.Tree.Fill.{entry-Descends, filled-entry, stored-Moves}
use riscv_hypervisor.Vmem.Tree.Descent.{Walked, walk-Runs}

-- The last entry that a 41-bit address finds.
abbrev pub entry_of : (ℕ → ℕ) → ℕ → ℕ → ℕ
entry_of memory root va = entry memory root (root_index va) (upper_index va) (lower_index va)

-- Two addresses of one page, up to the 41 bits that are translated.
abbrev pub is_same_page : ℕ → ℕ → Bool
is_same_page va va' = va / 2 ^ 12 % 2 ^ 29 == va' / 2 ^ 12 % 2 ^ 29

-- The address of `va` is set, and the others are kept.
pub record Mapped (dynamic root : ℕ) (own : ℕ → Use) (pages : List ℕ) (ram : Ram) (va value : ℕ)
    (ram' : Ram) : Type 0 where
  pub own' : ℕ → Use
  pub pages' : List ℕ
  pub moves : Moves dynamic root 2 own own' pages pages' ram ram'
  pub entries :
      (x : ℕ)
      → entry_of ram'.memory root x
        ≡ (if is_same_page x va then value else entry_of ram.memory root x)

is_same_page-indices :
    (x va : ℕ)
    → (root_index x == root_index va
        && upper_index x == upper_index va
        && lower_index x == lower_index va)
      ≡ is_same_page x va
is_same_page-indices x va = ground arith

module _ (dynamic root : ℕ) (placed : IsPlaced dynamic) (r : IsRoot root) (va pa flags : ℕ)
    (own : ℕ → Use) (pages : List ℕ) (ram : Ram) where
  abbrev pub Ends : ℕ → Ram → Type 0
  Ends rv after = (rv ≡ 0) × Mapped dynamic root own pages ram va (leaf_entry pa flags) after

  abbrev pub Present : Type 0
  Present = entry_of ram.memory root va % 2 ≡ 1

  mapped :
      (leaf : ℕ) (t : Ram)
      → Walked dynamic root own pages ram va leaf t
      → Mapped dynamic root own pages ram va
          (leaf_entry pa flags)
          record t { memory = write_word t.memory leaf (leaf_entry pa flags) }
  mapped leaf t w = record {
    own' = w.own';
    pages' = w.pages';
    moves = Moves-trans dynamic root 2 0 own w.own' w.own' pages w.pages' w.pages' ram t _ w.moves (
        rw w.is_leaf (
          stored-Moves dynamic root w.own' w.pages' t r w.moves.space (root_index va)
            (upper_index va) (lower_index va) w.table (leaf_entry pa flags) (omega arith)
            w.descends.is_lower));
    entries = λ x. rw w.is_leaf (
        filled-entry root w.own' t.memory r w.moves.space.tree (root_index va) (upper_index va)
          (lower_index va) w.table (leaf_entry pa flags) (omega arith) w.descends.is_lower
          w.descends (omega arith) (omega arith) (root_index x) (upper_index x) (lower_index x)
          (omega arith) (omega arith) (omega arith)
        ∙ rw
            (
              is_same_page-indices x va,
              w.same (root_index x) (upper_index x) (lower_index x) (omega arith) (omega arith)
                  (omega arith),
            )
            refl);
  }

  -- The entry at the end of the walk is that of the address.
  leaf_is_old :
      (leaf : ℕ) (t : Ram)
      → Walked dynamic root own pages ram va leaf t
      → t.memory leaf ≡ entry_of ram.memory root va
  leaf_is_old leaf t w = rw w.is_leaf (
      sym (
        entry-Descends root w.own' t.memory (root_index va) (upper_index va) (lower_index va)
          w.table w.descends)
      ∙ w.same (root_index va) (upper_index va) (lower_index va) (omega arith) (omega arith)
          (omega arith))

  leaf_nonzero :
      (leaf : ℕ) (t : Ram) → Walked dynamic root own pages ram va leaf t → (leaf == 0) ≡ false
  leaf_nonzero leaf t w =
      let page = w.moves.space.tree.pages w.table (λ e. let o = w.descends.is_lower in cc) in
      let e = w.is_leaf in ground arith

  pub map_page-Runs :
      Space dynamic root own pages ram
      → Runs Present (length pages < 2) Ends (map_page root va pa flags true ram)
  unfolding map_page
  map_page-Runs space =
      and_then-Runs Present (length pages < 2) (Walked dynamic root own pages ram va) Ends
        (walk root va true true ram) _
        (Runs-mono ⊥ (length pages < 2) (Walked dynamic root own pages ram va) Present
          (length pages < 2) (Walked dynamic root own pages ram va) (walk root va true true ram)
          (walk-Runs dynamic root placed r va own pages ram space) (λ e. absurd e) (λ x. x)
          (λ leaf t w. w))
        (λ leaf t w.
          rw (leaf_nonzero leaf t w, pte_v-test (t.memory leaf), leaf_is_old leaf t w)
            (elim (Bool-cases (entry_of ram.memory root va % 2 == 0)) [
              | inl e ↦ rw e (refl, mapped leaf t w)
              | inr e ↦ rw e (ground (arith, e))
            ]))
