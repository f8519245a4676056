-- ===== src/Examples/Boards.antt =====
-- The board's machines in a memory whose pages are free from 16 MB on.
use riscv_hypervisor.Common.{
  ℕ, zero, suc, ◌+◌, ◌*◌, ◌%◌, ◌<◌, ◌≤◌, ◌≡◌, ◌≢◌, refl, arith, leb, true, false, if◌then◌else◌,
  List, [], ◌∷◌, length, inl,
}
use riscv_hypervisor.Common.Effects.{ok}
use riscv_hypervisor.Memory.{page_size, vas_ram, pte2pa}
use riscv_hypervisor.Ram.{Ram}
use riscv_hypervisor.Kmem.Chain.{
  has, IsChain, IsDistinct, AreValid, IsFree, IsPlaced, valid_address-true,
}
use riscv_hypervisor.Vmem.Tree.Mapping.{entry_of}
use riscv_hypervisor.VmConfig.{Placement, xv6_config, another_xv6_config}
use riscv_hypervisor.VmRun.{init_hs_pgtable}
use riscv_hypervisor.VmRun.Reach.{IsAccessible}
use riscv_hypervisor.Vmem.Tree.{Use}
use riscv_hypervisor.VmRun.Shown.{Shows}
use riscv_hypervisor.VmRun.Board.Limits.{machine, IsOwn, IsOffController, machine_confined}
use riscv_hypervisor.VmRun.Board.Apart.{board_guests_apart}

abbrev dynamic : ℕ
dynamic = 0xffffffc000f00000

placed : IsPlaced dynamic
placed = omega arith

abbrev first : ℕ
first = vas_ram + 0x1000000

abbrev stop : ℕ
stop = first + 33804 * page_size

-- Pages that follow each other.
unfoldable pub pages_from : ℕ → ℕ → List ℕ
pages_from page zero = []
pages_from page (suc left) = page ∷ pages_from (page + page_size) left

abbrev below_stop : ℕ → ℕ
below_stop page = if leb stop page then 0 else page

abbrev ram : Ram
ram = record { memory = λ a. below_stop (a + page_size); freelist = below_stop first }

pages_from-IsChain :
    (left page : ℕ)
    → page ≢ 0
    → page + left * page_size ≡ stop
    → IsChain ram.memory (below_stop page) (pages_from page left)
unfolding pages_from
pages_from-IsChain zero page ne end = ground arith
pages_from-IsChain (suc left) page ne end =
    let here : below_stop page ≡ page = ground arith in
    (here, ne, pages_from-IsChain left (page + page_size) (omega arith) (omega arith))

pages_from-AreValid :
    (left page : ℕ)
    → page % page_size ≡ 0
    → first ≤ page
    → page + left * page_size ≡ stop
    → AreValid dynamic (pages_from page left)
unfolding pages_from
pages_from-AreValid zero page aligned lo end = tt
pages_from-AreValid (suc left) page aligned lo end = (
  valid_address-true dynamic page placed aligned (omega arith) (omega arith),
  pages_from-AreValid left (page + page_size) (omega arith) (omega arith) (omega arith),
)

pages_from-lacks : (left page q : ℕ) → q < page → has q (pages_from page left) ≡ false
unfolding pages_from
pages_from-lacks zero page q h = refl
pages_from-lacks (suc left) page q h =
    let rest = pages_from-lacks left (page + page_size) q (omega arith) in ground arith

pages_from-IsDistinct : (left page : ℕ) → IsDistinct (pages_from page left)
unfolding pages_from
pages_from-IsDistinct zero page = tt
pages_from-IsDistinct (suc left) page = (
  pages_from-lacks left (page + page_size) page (omega arith),
  pages_from-IsDistinct left (page + page_size),
)

length-pages_from : (left page : ℕ) → length (pages_from page left) ≡ left
unfolding pages_from
length-pages_from zero page = refl
length-pages_from (suc left) page =
    let rest = length-pages_from left (page + page_size) in omega arith

all-IsFree : IsFree dynamic ram (pages_from first 33804)
all-IsFree = record {
  chain = pages_from-IsChain 33804 first (omega arith) (omega arith);
  valid = pages_from-AreValid 33804 first (omega arith) (omega arith) (omega arith);
  distinct = pages_from-IsDistinct 33804 first;
}

abbrev xv6 : Placement
xv6 = record { image = 0x80200000; image_end = 0x80234567; pgtable = 0xffffffc000100000 }

abbrev another : Placement
another = record { image = 0x80235000; image_end = 0x80269567; pgtable = 0xffffffc000104000 }

board_guests_apart_example :
    (t u : Ram) × (init_hs_pgtable (xv6_config xv6) ram ≡ ok tt t)
    × (init_hs_pgtable (another_xv6_config another) t ≡ ok tt u)
    × ((x y : ℕ)
        → IsAccessible (entry_of u.memory 0xffffffc000100000 x)
        → IsAccessible (entry_of u.memory 0xffffffc000104000 y)
        → pte2pa (entry_of u.memory 0xffffffc000100000 x)
          ≢ pte2pa (entry_of u.memory 0xffffffc000104000 y))
board_guests_apart_example =
    board_guests_apart dynamic xv6 another (pages_from first 33804) ram placed all-IsFree
      (omega arith) (omega arith) (omega arith) (omega arith) (inl (omega arith))
      (inl (omega arith)) (let n = length-pages_from 33804 first in omega arith)

machine_confined_example :
    (after : Ram) × (own : ℕ → Use) × (pages' : List ℕ) × (init_hs_pgtable
        (machine true another)
        ram
      ≡ ok tt after)
    × Shows (machine true another) (pages_from first 33804) pages' own after.memory
    × ((x : ℕ)
        → IsAccessible (entry_of after.memory 0xffffffc000104000 x)
        → IsOwn true another own (pte2pa (entry_of after.memory 0xffffffc000104000 x))
          × IsOffController (pte2pa (entry_of after.memory 0xffffffc000104000 x)))
machine_confined_example =
    machine_confined dynamic true another (pages_from first 33804) ram placed all-IsFree
      (omega arith) (omega arith) (let n = length-pages_from 33804 first in omega arith)
