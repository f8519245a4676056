-- ===== src/Vmem/Tree/Entries.antt =====
-- The entries of tables: where an address finds them, and what they lead to.
use riscv_hypervisor.Common.{ℕ, ◌+◌, ◌%◌, ◌<◌, ◌≡◌, true, arith, bit_and, bit_or, ◌==◌}
use riscv_hypervisor.Common.Masks.{bit_and-ones}
use riscv_hypervisor.Dtb.{dtb_memory, dtb_memory_size}
use riscv_hypervisor.Memory.{page_size, pte_v, pa2pte, pte2pa, kpa2pa}
use riscv_hypervisor.Memory.Laws.{kpa2pa-eq-add, pa2kpa-kpa2pa, pa2pte-or, pte2pa-eq-page}
use riscv_hypervisor.Bits.Value.{get_value-field}
use riscv_hypervisor.Vmem.{va2idx, entry_at}
use riscv_hypervisor.Vmem.Tree.{slot, LeadsTo, IsPage, IsRoot, root_index, upper_index, lower_index}

pub entry_at-root_index :
    (root va : ℕ) → IsRoot root → entry_at root va 2 true ≡ slot root (root_index va)
unfolding va2idx
entry_at-root_index root va r =
    rw (get_value-field va 30 11 (omega arith) (omega arith)) (omega arith)

pub entry_at-upper_index :
    (table va : ℕ) → IsPage table → entry_at table va 1 true ≡ slot table (upper_index va)
unfolding va2idx
entry_at-upper_index table va p =
    rw (get_value-field va 21 9 (omega arith) (omega arith)) (omega arith)

pub entry_at-lower_index :
    (table va : ℕ) → IsPage table → entry_at table va 0 true ≡ slot table (lower_index va)
unfolding va2idx
entry_at-lower_index table va p =
    rw (get_value-field va 12 9 (omega arith) (omega arith)) (omega arith)

-- The test of the valid bit.
pub pte_v-test : (e : ℕ) → (bit_and e pte_v == 0) ≡ (e % 2 == 0)
pte_v-test e = rw (bit_and-ones 1 e)

-- The entry that is written for a new table.
abbrev pub link : ℕ → ℕ
link page = bit_or (pa2pte (kpa2pa page)) pte_v

kpa2pa-page :
    (page : ℕ)
    → IsPage page
    → (kpa2pa page % page_size ≡ 0) × (kpa2pa page < dtb_memory + dtb_memory_size)
kpa2pa-page page p = omega (arith, kpa2pa-eq-add page (omega arith) (omega arith))

pub link-LeadsTo : (page : ℕ) → IsPage page → LeadsTo page (link page)
unfolding pa2pte
link-LeadsTo page p =
    let b = kpa2pa-page page p in
    let e = pa2pte-or (kpa2pa page) 1 (omega arith) (omega arith) in
    let low : pte2pa (link page) ≡ kpa2pa page =
      rw e (omega (arith, pte2pa-eq-page (kpa2pa page) 1 (omega arith) (omega arith))) in
    (
      (omega (arith, e)),
      (omega (arith, e)),
      (rw low (pa2kpa-kpa2pa page (omega arith) (omega arith))),
    )
