-- ===== src/Examples/Pool.antt =====
-- The allocator on a kernel that ends 1 MB below the end of the RAM.
use riscv_hypervisor.Common.{ℕ, ◌≡◌, refl, arith, if◌then◌else◌, ◌==◌, List, [], ◌∷◌, some, true}
use riscv_hypervisor.Common.Effects.{ok, fault}
use riscv_hypervisor.Ram.{Ram}
use riscv_hypervisor.Kmem.{valid_address, kmalloc, kfree, init_kmem}
use riscv_hypervisor.Kmem.Chain.{IsFree, IsPlaced, valid_address-true}
use riscv_hypervisor.Kmem.Alloc.{in_page, kmalloc-takes, kmalloc-empty, kfree-puts}
use riscv_hypervisor.Kmem.Init.{HasAll, init_kmem-HasAll}

-- The end of the image, in its page of the kernel's addresses.
abbrev dynamic : ℕ
dynamic = 0xffffffc00ff00080

abbrev page : ℕ
page = 0xffffffe00ff01000

placed : IsPlaced dynamic
placed = omega arith

-- No page is free.
abbrev booted : Ram
booted = record { memory = λ a. 5; freelist = 0 }

abbrev one_page : Ram
one_page = record { memory = λ a. 0; freelist = page }

page-valid : valid_address dynamic page ≡ true
page-valid = valid_address-true dynamic page placed (omega arith) (omega arith) (omega arith)

none-IsFree : IsFree dynamic booted []
none-IsFree = record { chain = refl; valid = tt; distinct = tt }

one-IsFree : IsFree dynamic one_page (page ∷ [])
one-IsFree = record {
  chain = (refl, (omega arith), refl);
  valid = (page-valid, tt);
  distinct = (refl, tt);
}

init_kmem-HasAll_example :
    (after : Ram) × (pages : List ℕ) × (init_kmem dynamic booted ≡ some after)
    × IsFree dynamic after pages
    × HasAll dynamic pages
init_kmem-HasAll_example = init_kmem-HasAll dynamic booted placed refl

kmalloc-takes_example :
    (after : Ram) × (kmalloc one_page ≡ ok page after)
    × IsFree dynamic after []
    × ((a : ℕ) → after.memory a ≡ (if in_page page a then 0 else 0))
kmalloc-takes_example = kmalloc-takes dynamic one_page page [] placed one-IsFree

kmalloc-empty_example : kmalloc booted ≡ fault
kmalloc-empty_example = kmalloc-empty dynamic booted none-IsFree

kfree-puts_example :
    (after : Ram) × (kfree dynamic page booted ≡ ok tt after)
    × IsFree dynamic after (page ∷ [])
    × ((a : ℕ) → after.memory a ≡ (if a == page then 0 else 5))
kfree-puts_example = kfree-puts dynamic booted page [] placed none-IsFree refl page-valid
