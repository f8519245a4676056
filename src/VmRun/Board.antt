-- ===== src/VmRun/Board.antt =====
-- The areas of the board's two machines.
pub mod Apart
pub mod Limits
use riscv_hypervisor.Common.{
  ℕ, ◌+◌, ◌-◌, ◌*◌, ◌/◌, ◌%◌, ◌^◌, ◌<◌, ◌≤◌, ◌≡◌, ◌≢◌, ◌⊎◌, refl, sym, ap, ap₂, ◌∙◌, inl, inr,
  arith, u64, sub64, true, List, [], ◌∷◌, length,
}
use mathlib.Core.Path.{subst}
use riscv_hypervisor.Common.Effects.{ok}
use riscv_hypervisor.Dtb.{dtb_memory}
use riscv_hypervisor.Memory.{page_size, vas_ram, vas_kernel, kpa2pa, pte2pa, pg_round_up}
use riscv_hypervisor.Memory.Laws.{kpa2pa-eq-add, pg_round_up-eq-div}
use riscv_hypervisor.Ram.{Ram}
use riscv_hypervisor.Kmem.Chain.{has, IsFree, IsPlaced, AreValid-has, valid_address-bounds}
use riscv_hypervisor.Vmem.Tree.{IsRoot}
use riscv_hypervisor.Vmem.Tree.Mapping.{entry_of}
use riscv_hypervisor.VmConfig.{VmConfig, Placement, xv6_config, another_xv6_config}
use riscv_hypervisor.VmRun.{init_hs_pgtable}
use riscv_hypervisor.VmRun.Areas.{
  AreNarrow, Area, areas, weight, pages_of, image_size, IsIn, IsCovered, AreApart,
}
use riscv_hypervisor.VmRun.Reach.{IsAccessible, IsBacked}
use riscv_hypervisor.VmRun.Confined.{IsTerminated}
use riscv_hypervisor.VmRun.Apart.{IsOutside, IsSound, AreDisjoint, guests_memory_apart}

-- The linker puts the page-aligned image of a machine, of at most 16 MB, into the kernel's image.
abbrev pub IsLinked : ℕ → Placement → Type 0
IsLinked dynamic p =
    (p.image % page_size ≡ 0)
    × (dtb_memory ≤ p.image)
    × (p.image ≤ p.image_end)
    × (p.image_end ≤ p.image + 16 * 2 ^ 20)
    × (p.image_end ≤ dynamic - vas_kernel + dtb_memory)

-- The pages of an image.
abbrev pub image_pages : Placement → ℕ
image_pages p = (p.image_end - p.image + 4095) / page_size

abbrev pub device : ℕ → ℕ → ℕ → ℕ → Area
device virt phys count flags = record { virt = virt; phys = phys; count = count; flags = flags }

-- The areas of a machine with a serial port, the emulated controller and a disk.
abbrev pub board_areas : ℕ → ℕ → ℕ → ℕ → List Area
board_areas image count port disk =
    device 0x80100000 image count 0x1e
    ∷ device (u64 (0x80100000 + count * page_size)) 0 (4096 - count) 0x1e
    ∷ device 0x10000000 port 1 0x16
    ∷ device 0xc000000 0xc000000 1536 0x10
    ∷ device 0x10001000 disk 1 0x16
    ∷ []

pages_of-page : pages_of 0x1000 ≡ 1
unfolding pg_round_up
pages_of-page = refl

pages_of-controller : pages_of 0x600000 ≡ 1536
unfolding pg_round_up
pages_of-controller = refl

pages_of-whole : (n : ℕ) → n ≤ 2 ^ 40 → pages_of (n * page_size) ≡ n
pages_of-whole n h = omega (arith, pg_round_up-eq-div (n * page_size) (omega arith))

module _ (dynamic : ℕ) (placed : IsPlaced dynamic) (p : Placement)
    (linked : IsLinked dynamic p) where
  image_round : pg_round_up (sub64 p.image_end p.image) ≡ image_pages p * page_size
  image_round =
      let size : sub64 p.image_end p.image ≡ p.image_end - p.image =
        (let (a, b, c, d, e) = linked in omega arith) in
      rw size
        (pg_round_up-eq-div (p.image_end - p.image) (let (a, b, c, d, e) = linked in omega arith))

  pub image_count : image_pages p ≤ 4096
  image_count = let (a, b, c, d, e) = linked in omega arith

  memory_round : pages_of (sub64 (16 * 2 ^ 20) (image_pages p * page_size)) ≡ 4096 - image_pages p
  memory_round =
      let few = image_count in
      let size : sub64 (16 * 2 ^ 20) (image_pages p * page_size)
          ≡ (4096 - image_pages p) * page_size =
        omega arith in
      rw size (pages_of-whole (4096 - image_pages p) (omega arith))

  pub xv6_areas : areas (xv6_config p) ≡ board_areas p.image (image_pages p) 0x10000000 0x10001000
  xv6_areas =
      rw
        (
          image_round,
          memory_round,
          pages_of-whole (image_pages p) (let few = image_count in omega arith),
          pages_of-page,
          pages_of-controller,
        )
        refl

  pub another_xv6_areas :
      areas (another_xv6_config p) ≡ board_areas p.image (image_pages p) 0x3000000 0x10002000
  another_xv6_areas =
      rw
        (
          image_round,
          memory_round,
          pages_of-whole (image_pages p) (let few = image_count in omega arith),
          pages_of-page,
          pages_of-controller,
        )
        refl

pub board-AreApart :
    (image count port disk : ℕ) → count ≤ 4096 → AreApart [] (board_areas image count port disk)
board-AreApart image count port disk few = (
  omega arith,
  (λ n x i c. c),
  (
    omega arith,
    (λ n x i c. elim c [ inl (m, j) ↦ ground arith | inr e ↦ e ]),
    (
      omega arith,
      (λ n x i c. elim c [
        | inl (m, j) ↦ ground arith
        | inr (inl (m, j)) ↦ ground arith
        | inr (inr e) ↦ e
      ]),
      (
        omega arith,
        (λ n x i c. elim c [
          | inl (m, j) ↦ ground arith
          | inr (inl (m, j)) ↦ ground arith
          | inr (inr (inl (m, j))) ↦ ground arith
          | inr (inr (inr e)) ↦ e
        ]),
        (
          omega arith,
          (λ n x i c. elim c [
            | inl (m, j) ↦ ground arith
            | inr (inl (m, j)) ↦ ground arith
            | inr (inr (inl (m, j))) ↦ ground arith
            | inr (inr (inr (inl (m, j)))) ↦ ground arith
            | inr (inr (inr (inr e))) ↦ e
          ]),
          tt,
        ),
      ),
    ),
  ),
)

pub board-AreNarrow : (image count port disk : ℕ) → AreNarrow (board_areas image count port disk)
board-AreNarrow image count port disk =
    (omega arith, (omega arith, (omega arith, (omega arith, (omega arith, tt)))))

pub board_weight :
    (image count port disk : ℕ) → count ≤ 4096 → weight (board_areas image count port disk) ≡ 16902
board_weight image count port disk few = omega arith

-- A page that a machine's configuration names is one of its image, its port or its disk.
pub board_backed :
    (image count port disk pa : ℕ)
    → image + count * page_size < 2 ^ 32
    → image % page_size ≡ 0
    → port % page_size ≡ 0
    → disk % page_size ≡ 0
    → port < 2 ^ 32
    → disk < 2 ^ 32
    → IsBacked (board_areas image count port disk) pa
    → ((image ≤ pa) × (pa < image + count * page_size) × (pa % page_size ≡ 0))
      ⊎ (pa ≡ port)
      ⊎ (pa ≡ disk)
board_backed image count port disk pa fits ai ap' ad fp fd backed = elim backed [
  | inl (n, i, nonzero, allowed, p) ↦ inl (omega arith)
  | inr (inl (n, i, nonzero, allowed, p)) ↦ absurd (nonzero refl)
  | inr (inr (inl (n, i, nonzero, allowed, p))) ↦ inr (inl (omega arith))
  | inr (inr (inr (inl (n, i, nonzero, allowed, p)))) ↦ absurd (allowed refl)
  | inr (inr (inr (inr (inl (n, i, nonzero, allowed, p))))) ↦ inr (inr (omega arith))
  | inr (inr (inr (inr (inr e)))) ↦ absurd e
]
