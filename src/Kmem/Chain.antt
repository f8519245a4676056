-- ===== src/Kmem/Chain.antt =====
-- The list of free pages as it lies in memory.
use riscv_hypervisor.Common.{
  ℕ, ◌+◌, ◌-◌, ◌%◌, ◌≤◌, ◌<◌, ◌≡◌, ◌≢◌, Bool, true, false, ◌||◌, List, [], ◌∷◌, arith, ◌==◌,
}
use riscv_hypervisor.Dtb.{dtb_memory_end, dtb_memory_size}
use riscv_hypervisor.Memory.{page_size, vas_kernel, vas_ram, kva2kpa}
use riscv_hypervisor.Memory.Laws.{pa2kpa-eq-add}
use riscv_hypervisor.Ram.{Ram}
use riscv_hypervisor.Kmem.{valid_address}

abbrev pub has : ℕ → List ℕ → Bool
has a [] = false
has a (p ∷ ps) = a == p || has a ps

-- From `head` the first words of the pages lead through `pages` to the null pointer.
abbrev pub IsChain : (ℕ → ℕ) → ℕ → List ℕ → Type 0
IsChain memory head [] = head ≡ 0
IsChain memory head (p ∷ ps) = (head ≡ p) × (p ≢ 0) × IsChain memory (memory p) ps

abbrev pub IsDistinct : List ℕ → Type 0
IsDistinct [] = Unit
IsDistinct (p ∷ ps) = (has p ps ≡ false) × IsDistinct ps

abbrev pub AreValid : ℕ → List ℕ → Type 0
AreValid dynamic [] = Unit
AreValid dynamic (p ∷ ps) = (valid_address dynamic p ≡ true) × AreValid dynamic ps

-- The free pages of the allocator, first to last.
pub record IsFree (dynamic : ℕ) (ram : Ram) (pages : List ℕ) : Type 0 where
  pub chain : IsChain ram.memory ram.freelist pages
  pub valid : AreValid dynamic pages
  pub distinct : IsDistinct pages

-- The linker puts the end of the image into the RAM.
abbrev pub IsPlaced : ℕ → Type 0
IsPlaced dynamic = (vas_kernel ≤ dynamic) × (dynamic < vas_kernel + dtb_memory_size)

pub kva2kpa-eq-add : (kva : ℕ) → IsPlaced kva → kva2kpa kva ≡ kva - vas_kernel + vas_ram
unfolding kva2kpa
kva2kpa-eq-add kva h = omega arith

-- What the test of an address checks.
pub valid_address-bounds :
    (dynamic p : ℕ)
    → IsPlaced dynamic
    → valid_address dynamic p ≡ true
    → (p % page_size ≡ 0) × (dynamic - vas_kernel + vas_ram ≤ p) × (p < vas_ram + dtb_memory_size)
unfolding valid_address
valid_address-bounds dynamic p placed h =
    ground (
      arith,
      kva2kpa-eq-add dynamic placed,
      pa2kpa-eq-add dtb_memory_end (omega arith) (omega arith),
    )

-- The converse.
pub valid_address-true :
    (dynamic p : ℕ)
    → IsPlaced dynamic
    → p % page_size ≡ 0
    → dynamic - vas_kernel + vas_ram ≤ p
    → p < vas_ram + dtb_memory_size
    → valid_address dynamic p ≡ true
unfolding valid_address
valid_address-true dynamic p placed aligned lo hi =
    ground (
      arith,
      kva2kpa-eq-add dynamic placed,
      pa2kpa-eq-add dtb_memory_end (omega arith) (omega arith),
    )

-- A change of memory that keeps the first words of the pages keeps the list.
pub IsChain-frame :
    (memory memory' : ℕ → ℕ) (head : ℕ) (pages : List ℕ)
    → ((q : ℕ) → has q pages ≡ true → memory' q ≡ memory q)
    → IsChain memory head pages
    → IsChain memory' head pages
IsChain-frame memory memory' head [] same c = c
IsChain-frame memory memory' head (p ∷ ps) same c =
    let here : memory' p ≡ memory p = same p (ground arith) in
    (
      c.0,
      c.1,
      rw here (IsChain-frame memory memory' (memory p) ps (λ q h. same q (ground arith)) c.2),
    )

-- A page on the list is valid.
pub AreValid-has :
    (dynamic : ℕ) (pages : List ℕ) (q : ℕ)
    → AreValid dynamic pages
    → has q pages ≡ true
    → valid_address dynamic q ≡ true
AreValid-has dynamic [] q v h = cc
AreValid-has dynamic (p ∷ ps) q v h = ground (arith, AreValid-has dynamic ps q)
