-- ===== src/Vmem/Tree/Frame.antt =====
-- Where the tables of a tree are the same, its last entries are.
use riscv_hypervisor.Common.{ℕ, ◌<◌, ◌≡◌, ◌≢◌, inl, inr}
use riscv_hypervisor.Vmem.Tree.{Use, unused, slot, Tree, IsPage, entry}

pub entry-frame :
    (root : ℕ) (own : ℕ → Use) (memory memory' : ℕ → ℕ)
    → Tree root own memory
    → ((i : ℕ) → i < 2048 → memory' (slot root i) ≡ memory (slot root i))
    → ((table k : ℕ)
        → own table ≢ unused
        → IsPage table
        → k < 512
        → memory' (slot table k) ≡ memory (slot table k))
    → (i j k : ℕ) → i < 2048
    → j < 512
    → k < 512
    → entry memory' root i j k ≡ entry memory root i j k
entry-frame root own memory memory' tree same_root same_table i j k hi hj hk =
    elim (tree.roots i hi) [
      | inl even ↦ rw (same_root i hi, even)
      | inr (t1, o1, l1) ↦
          (let same = same_table t1 j (λ e. cc) (tree.pages t1 (λ e. cc)) hj in
            elim (tree.uppers i j t1 o1 hj) [
              | inl even ↦ rw (same_root i hi, l1.0, l1.2, same, even)
              | inr (t2, o2, l2) ↦
                  rw (same_root i hi, l1.0, l1.2, same, l2.0, l2.2)
                    (same_table t2 k (λ e. cc) (tree.pages t2 (λ e. cc)) hk)
            ])
    ]
