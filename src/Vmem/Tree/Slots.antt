-- ===== src/Vmem/Tree/Slots.antt =====
-- Where the entries of tables lie.
use riscv_hypervisor.Common.{ℕ, ◌<◌, ◌≡◌, ◌≢◌, true, false, arith, ◌==◌}
use riscv_hypervisor.Kmem.Alloc.{in_page}
use riscv_hypervisor.Vmem.Tree.{slot, IsPage, IsRoot}

pub test_ne : (x y : ℕ) → x ≢ y → (x == y) ≡ false
test_ne x y ne = ground arith

pub in_page-own : (page k : ℕ) → k < 512 → in_page page (slot page k) ≡ true
in_page-own page k h = ground arith

pub in_page-other :
    (page table k : ℕ)
    → IsPage page
    → IsPage table
    → table ≢ page
    → k < 512
    → in_page page (slot table k) ≡ false
in_page-other page table k p t ne h = ground arith

pub in_page-root :
    (page root i : ℕ) → IsPage page → IsRoot root → i < 2048 → in_page page (slot root i) ≡ false
in_page-root page root i p r h = ground arith

pub slot_inj :
    (page table k l : ℕ)
    → IsPage page
    → IsPage table
    → k < 512
    → l < 512
    → slot page k ≡ slot table l
    → (page ≡ table) × (k ≡ l)
slot_inj page table k l p t hk hl e = omega arith

pub slot_root :
    (page root k i : ℕ) → IsPage page → IsRoot root → i < 2048 → slot page k ≢ slot root i
slot_root page root k i p r h = omega arith
