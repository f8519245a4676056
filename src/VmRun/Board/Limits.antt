-- ===== src/VmRun/Board/Limits.antt =====
-- What each of the board's machines can reach.
use mathlib.Core.Path.{subst}
use riscv_hypervisor.Common.{
  ℕ, ◌+◌, ◌%◌, ◌^◌, ◌<◌, ◌≤◌, ◌≡◌, ◌⊎◌, sym, ap, ◌∙◌, inl, inr, arith, Bool, true, false, List, [],
  length,
}
use riscv_hypervisor.Common.Effects.{ok}
use riscv_hypervisor.Dtb.{dtb_plic, dtb_plic_size}
use riscv_hypervisor.Memory.{page_size, pte2pa}
use riscv_hypervisor.Memory.Laws.{kpa2pa-eq-add}
use riscv_hypervisor.Ram.{Ram}
use riscv_hypervisor.Kmem.Chain.{IsFree, IsPlaced}
use riscv_hypervisor.Vmem.Tree.{Use, IsRoot}
use riscv_hypervisor.Vmem.Tree.Mapping.{entry_of}
use riscv_hypervisor.VmConfig.{VmConfig, Placement, xv6_config, another_xv6_config}
use riscv_hypervisor.VmRun.{init_hs_pgtable}
use riscv_hypervisor.VmRun.Areas.{AreNarrow, areas, weight, AreApart}
use riscv_hypervisor.VmRun.Confined.{IsTerminated}
use riscv_hypervisor.VmRun.Shown.{Shows, init_hs_pgtable_lem}
use riscv_hypervisor.VmRun.Reach.{IsAccessible, IsBacked, IsGiven, Shows-reaches}
use riscv_hypervisor.VmRun.Board.{
  IsLinked, image_pages, board_areas, image_count, xv6_areas, another_xv6_areas, board-AreApart,
  board-AreNarrow, board_weight, board_backed,
}
use riscv_hypervisor.VmRun.Board.Apart.{image_page, image_fits}

-- The first machine and the second, with the pages of their serial ports and disks.
abbrev pub machine : Bool → Placement → VmConfig
machine false p = xv6_config p
machine true p = another_xv6_config p

abbrev pub port_of : Bool → ℕ
port_of false = 0x10000000
port_of true = 0x3000000

abbrev pub disk_of : Bool → ℕ
disk_of false = 0x10001000
disk_of true = 0x10002000

machine_areas :
    (dynamic : ℕ)
    → IsPlaced dynamic
    → (p : Placement) → IsLinked dynamic p
    → (second : Bool)
    → areas (machine second p)
      ≡ board_areas p.image (image_pages p) (port_of second) (disk_of second)
machine_areas dynamic placed p linked false = xv6_areas dynamic placed p linked
machine_areas dynamic placed p linked true = another_xv6_areas dynamic placed p linked

-- Outside the window of the controller.
abbrev pub IsOffController : ℕ → Type 0
IsOffController pa = (pa + page_size ≤ dtb_plic) ⊎ (dtb_plic + dtb_plic_size ≤ pa)

-- A page of the machine's own image, its port, its disk, or one that was given to it.
abbrev pub IsOwn : Bool → Placement → (ℕ → Use) → ℕ → Type 0
IsOwn second p own pa =
    ((p.image ≤ pa) × (pa < p.image_end))
    ⊎ (pa ≡ port_of second)
    ⊎ (pa ≡ disk_of second)
    ⊎ IsGiven own pa

device_pages :
    (second : Bool)
    → (port_of second % page_size ≡ 0)
      × (disk_of second % page_size ≡ 0)
      × (port_of second < 2 ^ 32)
      × (disk_of second < 2 ^ 32)
      × IsOffController (port_of second)
      × IsOffController (disk_of second)
device_pages false =
    (omega arith, omega arith, omega arith, omega arith, inr (omega arith), inr (omega arith))
device_pages true =
    (omega arith, omega arith, omega arith, omega arith, inl (omega arith), inr (omega arith))

module _ (dynamic : ℕ) (placed : IsPlaced dynamic) (second : Bool) (p : Placement)
    (linked : IsLinked dynamic p) (pages pages' : List ℕ) (ram : Ram)
    (free : IsFree dynamic ram pages) (own : ℕ → Use) (memory : ℕ → ℕ)
    (shows : Shows (machine second p) pages pages' own memory) where
  backed_own : (pa : ℕ) → IsBacked (areas (machine second p)) pa → IsOwn second p own pa
  backed_own pa backed =
      let dev = device_pages second in
      let (a, b, c, d, e) = linked in
      elim (board_backed p.image (image_pages p) (port_of second) (disk_of second) pa
        (image_fits dynamic placed pages ram free p linked) a dev.0 dev.1 dev.2 dev.3
        (subst (λ l. IsBacked l pa) (machine_areas dynamic placed p linked second) backed)) [
          | inl (lo, hi, aligned) ↦
              inl (lo, image_page dynamic placed pages ram free p linked pa lo hi aligned)
          | inr (inl is_port) ↦ inr (inl is_port)
          | inr (inr is_disk) ↦ inr (inr (inl is_disk))
        ]

  own_off : (pa : ℕ) → IsOwn second p own pa → IsOffController pa
  own_off pa (inl (lo, hi)) = let (a, b, c, d, e) = linked in inr (omega arith)
  own_off pa (inr (inl is_port)) =
      let dev = device_pages second in subst IsOffController (sym is_port) dev.4
  own_off pa (inr (inr (inl is_disk))) =
      let dev = device_pages second in subst IsOffController (sym is_disk) dev.5
  own_off pa (inr (inr (inr (q, va, o, e)))) =
      let page = shows.tree.pages q (λ f. cc) in
      let low = kpa2pa-eq-add q (omega arith) (omega arith) in inr (omega arith)

  machine_reaches :
      (x : ℕ)
      → IsAccessible (entry_of memory (machine second p).vm_pgtable x)
      → IsOwn second p own (pte2pa (entry_of memory (machine second p).vm_pgtable x))
        × IsOffController (pte2pa (entry_of memory (machine second p).vm_pgtable x))
  machine_reaches x access =
      let narrow =
        subst AreNarrow (sym (machine_areas dynamic placed p linked second))
          (board-AreNarrow p.image (image_pages p) (port_of second) (disk_of second)) in
      let pa = pte2pa (entry_of memory (machine second p).vm_pgtable x) in
      let mine : IsOwn second p own pa =
        elim (Shows-reaches (machine second p) pages pages' own memory shows narrow x access) [
          | inl g ↦ inr (inr (inr g))
          | inr b ↦ backed_own pa b
        ] in
      (mine, own_off pa mine)

ends_devices : (second : Bool) (p : Placement) → IsTerminated (machine second p).devices
ends_devices false p = tt
ends_devices true p = tt

-- For either of the board's two machines, with the end of the image inside the RAM, the
-- machine's image page-aligned, of at most 16 MB and inside the kernel's image, the root of its
-- page table inside the kernel's image, and 16902 free pages: init_hs_pgtable ends, the page
-- table shows the areas of the configuration and nothing else, and every valid entry with a
-- permission leads to a page of the machine's own image, to its serial port, to its disk or to
-- a page of memory that was given to the machine, and outside the registers of the interrupt
-- controller.
pub machine_confined :
    (dynamic : ℕ) (second : Bool) (p : Placement) (pages : List ℕ) (ram : Ram)
    → IsPlaced dynamic
    → IsFree dynamic ram pages
    → IsLinked dynamic p
    → IsRoot (machine second p).vm_pgtable
    → 16902 ≤ length pages
    → (after : Ram) × (own : ℕ → Use) × (pages' : List ℕ) × (init_hs_pgtable (machine second p) ram
        ≡ ok tt after)
      × Shows (machine second p) pages pages' own after.memory
      × ((x : ℕ)
          → IsAccessible (entry_of after.memory (machine second p).vm_pgtable x)
          → IsOwn second p own (pte2pa (entry_of after.memory (machine second p).vm_pgtable x))
            × IsOffController (pte2pa (entry_of after.memory (machine second p).vm_pgtable x)))
machine_confined dynamic second p pages ram placed free linked r room =
    let e = machine_areas dynamic placed p linked second in
    let few = image_count dynamic placed p linked in
    let apart =
      subst (AreApart []) (sym e)
        (board-AreApart p.image (image_pages p) (port_of second) (disk_of second) few) in
    let w : weight (areas (machine second p)) ≡ 16902 =
      ap weight e ∙ board_weight p.image (image_pages p) (port_of second) (disk_of second) few in
    let (after, own, pages', ended, left, shows) =
      init_hs_pgtable_lem dynamic (machine second p) pages ram placed r free (ends_devices second p)
        apart (rw w room) in
    (
      after,
      own,
      pages',
      ended,
      shows,
      machine_reaches dynamic placed second p linked pages pages' ram free own after.memory shows,
    )
