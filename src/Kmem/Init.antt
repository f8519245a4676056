-- ===== src/Kmem/Init.antt =====
-- `init_kmem` at boot.
use riscv_hypervisor.Common.{
  ℕ, zero, suc, ◌+◌, ◌-◌, ◌/◌, ◌%◌, ◌≤◌, ◌<◌, ◌≡◌, refl, true, false, ◌&&◌, ltb, List, [], ◌∷◌,
  some, arith, u64, Bool-cases, inl, inr,
}
use riscv_hypervisor.Dtb.{dtb_memory_size}
use riscv_hypervisor.Memory.{page_size, vas_kernel, vas_ram, kva2kpa, pg_round_up}
use riscv_hypervisor.Memory.Laws.{pg_round_up-eq-div}
use riscv_hypervisor.Ram.{Ram}
use riscv_hypervisor.Kmem.{valid_address, bootstrap_kfree, init_loop, init_kmem}
use riscv_hypervisor.Kmem.Chain.{has, IsFree, IsPlaced, valid_address-bounds, valid_address-true}
use riscv_hypervisor.Kmem.Alloc.{IsFree-put}

-- The list is the valid pages below `bound`.
abbrev HasBelow : ℕ → List ℕ → ℕ → Type 0
HasBelow dynamic pages bound = (q : ℕ) → has q pages ≡ (valid_address dynamic q && ltb q bound)

-- Every page of the pool is on the list, and nothing else.
abbrev pub HasAll : ℕ → List ℕ → Type 0
HasAll dynamic pages = (q : ℕ) → has q pages ≡ valid_address dynamic q

HasBelow-put :
    (dynamic kpa : ℕ) (pages : List ℕ)
    → IsPlaced dynamic
    → kpa % page_size ≡ 0
    → valid_address dynamic kpa ≡ true
    → HasBelow dynamic pages kpa
    → HasBelow dynamic (kpa ∷ pages) (kpa + page_size)
HasBelow-put dynamic kpa pages placed aligned valid below q =
    elim (Bool-cases (valid_address dynamic q)) [
      | inl e ↦ ground (arith, below q, valid_address-bounds dynamic q placed e)
      | inr e ↦ ground (arith, below q)
    ]

HasAll-end :
    (dynamic kpa : ℕ) (pages : List ℕ)
    → IsPlaced dynamic
    → kpa % page_size ≡ 0
    → dynamic - vas_kernel + vas_ram ≤ kpa
    → valid_address dynamic kpa ≡ false
    → HasBelow dynamic pages kpa
    → HasAll dynamic pages
HasAll-end dynamic kpa pages placed aligned low bad below q = ground (
  arith,
  below q,
  valid_address-bounds dynamic q placed,
  valid_address-true dynamic kpa placed aligned low,
)

init_loop-HasAll :
    (fuel dynamic kpa : ℕ) (ram : Ram) (pages : List ℕ)
    → IsPlaced dynamic
    → kpa % page_size ≡ 0
    → dynamic - vas_kernel + vas_ram ≤ kpa
    → (vas_ram + dtb_memory_size - kpa) / page_size < fuel
    → IsFree dynamic ram pages
    → HasBelow dynamic pages kpa
    → (after : Ram) × (all : List ℕ) × (init_loop fuel dynamic kpa ram ≡ some after)
      × IsFree dynamic after all
      × HasAll dynamic all
unfolding init_loop bootstrap_kfree
init_loop-HasAll zero dynamic kpa ram pages placed aligned low no_fuel free below = ground arith
init_loop-HasAll (suc fuel) dynamic kpa ram pages placed aligned low enough free below =
    elim (Bool-cases (valid_address dynamic kpa)) [
      | inl e ↦
          (let bounds = valid_address-bounds dynamic kpa placed e in
            let wraps : u64 (kpa + page_size) ≡ kpa + page_size = omega arith in
            rw (e, wraps)
              (init_loop-HasAll fuel dynamic (kpa + page_size) (bootstrap_kfree kpa ram)
                (kpa ∷ pages) placed (omega arith) (omega arith) (omega arith)
                (IsFree-put dynamic ram kpa pages placed free (ground (arith, below kpa)) e)
                (HasBelow-put dynamic kpa pages placed aligned e below)))
      | inr e ↦
          rw e (ram, pages, refl, free, HasAll-end dynamic kpa pages placed aligned low e below)
    ]

round_up-kpa :
    (kva : ℕ)
    → vas_kernel ≤ kva
    → kva ≤ vas_kernel + dtb_memory_size
    → kva2kpa kva ≡ kva - vas_kernel + vas_ram
unfolding kva2kpa
round_up-kpa kva lo hi = omega arith

-- With the end of the image inside the RAM and an empty list, init_kmem ends with a list of
-- free pages that is linked through memory, names no page twice, and holds exactly the
-- addresses that are valid.
pub init_kmem-HasAll :
    (dynamic : ℕ) (ram : Ram)
    → IsPlaced dynamic
    → ram.freelist ≡ 0
    → (after : Ram) × (pages : List ℕ) × (init_kmem dynamic ram ≡ some after)
      × IsFree dynamic after pages
      × HasAll dynamic pages
unfolding init_kmem
init_kmem-HasAll dynamic ram placed empty =
    let up = pg_round_up-eq-div dynamic (omega arith) in
    let start : kva2kpa (pg_round_up dynamic) ≡ pg_round_up dynamic - vas_kernel + vas_ram =
      round_up-kpa (pg_round_up dynamic) (omega arith) (omega arith) in
    init_loop-HasAll (dtb_memory_size / page_size + 1) dynamic (kva2kpa (pg_round_up dynamic)) ram
      [] placed (omega arith) (omega arith) (omega arith)
      record { chain = empty; valid = tt; distinct = tt }
      (λ q. ground (arith, valid_address-bounds dynamic q placed))
