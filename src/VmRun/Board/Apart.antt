-- ===== src/VmRun/Board/Apart.antt =====
-- The board's two machines, which are set up one after the other.
use riscv_hypervisor.Common.{
  ℕ, ◌+◌, ◌-◌, ◌*◌, ◌%◌, ◌^◌, ◌<◌, ◌≤◌, ◌≡◌, ◌≢◌, ◌⊎◌, sym, ap, ◌∙◌, inl, inr, arith, true, List,
  [], length,
}
use mathlib.Core.Path.{subst}
use riscv_hypervisor.Common.Effects.{ok}
use riscv_hypervisor.Dtb.{dtb_memory}
use riscv_hypervisor.Memory.{page_size, vas_kernel, kpa2pa, pte2pa}
use riscv_hypervisor.Memory.Laws.{kpa2pa-eq-add}
use riscv_hypervisor.Ram.{Ram}
use riscv_hypervisor.Kmem.Chain.{has, IsFree, IsPlaced, AreValid-has, valid_address-bounds}
use riscv_hypervisor.Vmem.Tree.{IsRoot}
use riscv_hypervisor.Vmem.Tree.Mapping.{entry_of}
use riscv_hypervisor.VmConfig.{VmConfig, Placement, xv6_config, another_xv6_config}
use riscv_hypervisor.VmRun.{init_hs_pgtable}
use riscv_hypervisor.VmRun.Areas.{AreNarrow, areas, weight, AreApart}
use riscv_hypervisor.VmRun.Reach.{IsAccessible, IsBacked}
use riscv_hypervisor.VmRun.Confined.{IsTerminated}
use riscv_hypervisor.VmRun.Apart.{IsOutside, IsSound, AreDisjoint, guests_memory_apart}
use riscv_hypervisor.VmRun.Board.{
  IsLinked, image_pages, board_areas, image_count, xv6_areas, another_xv6_areas, board-AreApart,
  board-AreNarrow, board_weight, board_backed,
}

module _ (dynamic : ℕ) (placed : IsPlaced dynamic) (pages : List ℕ) (ram : Ram)
    (free : IsFree dynamic ram pages) (p : Placement) (linked : IsLinked dynamic p) where
  free_high : (q : ℕ) → has q pages ≡ true → dynamic - vas_kernel + dtb_memory ≤ kpa2pa q
  free_high q h =
      let bounds =
        valid_address-bounds dynamic q placed (AreValid-has dynamic pages q free.valid h) in
      let low = kpa2pa-eq-add q (omega arith) (omega arith) in omega arith

  -- A page of the image.
  pub image_page :
      (pa : ℕ)
      → p.image ≤ pa
      → pa < p.image + image_pages p * page_size
      → pa % page_size ≡ 0
      → pa < p.image_end
  image_page pa lo hi aligned = let (a, b, c, d, e) = linked in omega arith

  pub image_fits : p.image + image_pages p * page_size < 2 ^ 32
  image_fits = let (a, b, c, d, e) = linked in omega arith

  board-IsOutside :
      (port disk : ℕ)
      → port % page_size ≡ 0
      → disk % page_size ≡ 0
      → port < dtb_memory
      → disk < dtb_memory
      → IsOutside (board_areas p.image (image_pages p) port disk) pages
  board-IsOutside port disk ap' ad lp ld q h backed =
      let high = free_high q h in
      let (a, b, c, d, e) = linked in
      elim (board_backed p.image (image_pages p) port disk (kpa2pa q) image_fits a ap' ad
        (omega arith) (omega arith) backed) [
          | inl (lo, hi, aligned) ↦ (let below = image_page (kpa2pa q) lo hi aligned in omega arith)
          | inr (inl is_port) ↦ omega arith
          | inr (inr is_disk) ↦ omega arith
        ]

  board-IsSound :
      (conf : VmConfig) (port disk : ℕ)
      → areas conf ≡ board_areas p.image (image_pages p) port disk
      → IsRoot conf.vm_pgtable
      → IsTerminated conf.devices
      → port % page_size ≡ 0
      → disk % page_size ≡ 0
      → port < dtb_memory
      → disk < dtb_memory
      → IsSound conf pages
  board-IsSound conf port disk e r ends ap' ad lp ld =
      let few = image_count dynamic placed p linked in
      (
        r,
        ends,
        subst (AreApart []) (sym e) (board-AreApart p.image (image_pages p) port disk few),
        subst AreNarrow (sym e) (board-AreNarrow p.image (image_pages p) port disk),
        subst (λ l. IsOutside l pages) (sym e) (board-IsOutside port disk ap' ad lp ld),
      )

-- The images of the two machines, one behind the other.
abbrev pub AreImagesApart : Placement → Placement → Type 0
AreImagesApart xv6 another = (xv6.image_end ≤ another.image) ⊎ (another.image_end ≤ xv6.image)

no_common_page :
    (dynamic : ℕ) (pages : List ℕ) (ram : Ram) (xv6 another : Placement)
    → IsPlaced dynamic
    → IsFree dynamic ram pages
    → IsLinked dynamic xv6
    → IsLinked dynamic another
    → AreImagesApart xv6 another
    → (pa : ℕ) → IsBacked (board_areas xv6.image (image_pages xv6) 0x10000000 0x10001000) pa
    → IsBacked (board_areas another.image (image_pages another) 0x3000000 0x10002000) pa
    → ⊥
no_common_page dynamic pages ram xv6 another placed free la lb apart pa backed backed' =
    let fa = image_fits dynamic placed pages ram free xv6 la in
    let fb = image_fits dynamic placed pages ram free another lb in
    let (a, b, c, d, e) = la in
    let (a', b', c', d', e') = lb in
    elim (board_backed xv6.image (image_pages xv6) 0x10000000 0x10001000 pa fa a (omega arith)
      (omega arith) (omega arith) (omega arith) backed) [
        | inl (lo, hi, aligned) ↦
            (let below = image_page dynamic placed pages ram free xv6 la pa lo hi aligned in
              elim (board_backed another.image (image_pages another) 0x3000000 0x10002000 pa fb a'
                (omega arith) (omega arith) (omega arith) (omega arith) backed') [
                  | inl (lo', hi', aligned') ↦
                      (let below' =
                          image_page dynamic placed pages ram free another lb pa lo' hi' aligned' in
                        ground arith)
                  | inr (inl is_port) ↦ omega arith
                  | inr (inr is_disk) ↦ omega arith
                ])
        | inr own ↦
            elim (board_backed another.image (image_pages another) 0x3000000 0x10002000 pa fb a'
              (omega arith) (omega arith) (omega arith) (omega arith) backed') [
                | inl (lo', hi', aligned') ↦ ground arith
                | inr theirs ↦ ground arith
              ]
      ]

-- For the board's two machines, with the end of the image inside the RAM, their images page-
-- aligned, of at most 16 MB, apart from each other and inside the kernel's image, the roots of
-- their page tables apart and inside the kernel's image, and 33804 free pages: if
-- init_hs_pgtable runs for the first and then for the second, both end, and no valid entry with
-- a permission of the one leads to the physical page to which one of the other leads.
pub board_guests_apart :
    (dynamic : ℕ) (xv6 another : Placement) (pages : List ℕ) (ram : Ram)
    → IsPlaced dynamic
    → IsFree dynamic ram pages
    → IsLinked dynamic xv6
    → IsLinked dynamic another
    → IsRoot xv6.pgtable
    → IsRoot another.pgtable
    → AreDisjoint xv6.pgtable another.pgtable
    → AreImagesApart xv6 another
    → 33804 ≤ length pages
    → (t u : Ram) × (init_hs_pgtable (xv6_config xv6) ram ≡ ok tt t)
      × (init_hs_pgtable (another_xv6_config another) t ≡ ok tt u)
      × ((x y : ℕ)
          → IsAccessible (entry_of u.memory xv6.pgtable x)
          → IsAccessible (entry_of u.memory another.pgtable y)
          → pte2pa (entry_of u.memory xv6.pgtable x) ≢ pte2pa (entry_of u.memory another.pgtable y))
board_guests_apart dynamic xv6 another pages ram placed free la lb ra rb disjoint apart room =
    let ea = xv6_areas dynamic placed xv6 la in
    let eb = another_xv6_areas dynamic placed another lb in
    let sound_a =
      board-IsSound dynamic placed pages ram free xv6 la (xv6_config xv6) 0x10000000 0x10001000 ea
        ra tt (omega arith) (omega arith) (omega arith) (omega arith) in
    let sound_b =
      board-IsSound dynamic placed pages ram free another lb (another_xv6_config another) 0x3000000
        0x10002000 eb rb tt (omega arith) (omega arith) (omega arith) (omega arith) in
    let wa : weight (areas (xv6_config xv6)) ≡ 16902 =
      ap weight ea
      ∙ board_weight xv6.image (image_pages xv6) 0x10000000 0x10001000
          (image_count dynamic placed xv6 la) in
    let wb : weight (areas (another_xv6_config another)) ≡ 16902 =
      ap weight eb
      ∙ board_weight another.image (image_pages another) 0x3000000 0x10002000
          (image_count dynamic placed another lb) in
    let (t, u, e, e', separate) =
      guests_memory_apart dynamic (xv6_config xv6) (another_xv6_config another) pages ram placed
        free sound_a sound_b disjoint (rw (wa, wb) room) in
    (
      t,
      u,
      e,
      e',
      λ x y at_x at_y same.
          (let both = separate x y at_x at_y same in
            no_common_page dynamic pages ram xv6 another placed free la lb apart
              (pte2pa (entry_of u.memory xv6.pgtable x))
              (subst (λ l. IsBacked l (pte2pa (entry_of u.memory xv6.pgtable x))) ea both.0)
              (subst (λ l. IsBacked l (pte2pa (entry_of u.memory xv6.pgtable x))) eb both.1)),
    )
