-- ===== src/VmRun/Confined.antt =====
-- `init_hs_pgtable` ends, and the guest reaches what its configuration lists.
use riscv_hypervisor.Common.{
  ℕ, ◌+◌, ◌*◌, ◌%◌, ◌^◌, ◌<◌, ◌≤◌, ◌≡◌, sym, true, inl, inr, arith, List, [], ◌∷◌, Option, none,
  some, length, is_negative, u32, bit_or, sub64,
}
use mathlib.Core.Path.{subst}
use riscv_hypervisor.Common.Effects.{Cmd, ok, bad_map, panic_if, and_then}
use riscv_hypervisor.Common.Runs.{Runs, Runs-mono, Runs-ok, and_then-Runs}
use riscv_hypervisor.Memory.{page_size, pte_u}
use riscv_hypervisor.Ram.{Ram, memset}
use riscv_hypervisor.Kmem.Chain.{IsFree, IsPlaced}
use riscv_hypervisor.Vmem.{map_pages}
use riscv_hypervisor.Vmem.Tree.Slots.{test_ne}
use riscv_hypervisor.Vmem.Tree.{IsRoot}
use riscv_hypervisor.Vmem.Tree.Mapping.{entry_of}
use riscv_hypervisor.Vmem.Tree.Region.{round_address, Region, Clashes}
use riscv_hypervisor.Vmem.Tree.Loop.{map_pages-Runs}
use riscv_hypervisor.VmConfig.{VmConfig, MmioDev}
use riscv_hypervisor.VmRun.{guest_ram, map_devices, init_hs_pgtable}
use riscv_hypervisor.VmRun.Areas.{
  Area, areas, image_size, pages_of, image_area, memory_area, device_area, device_areas, weight,
  IsIn, IsCovered, AreApart, Leads-IsCovered,
}
use riscv_hypervisor.VmRun.Space.{Built, cleared, cleared-Built, area-Built}

-- The areas, the last one first.
abbrev pub backwards : List Area → List Area → List Area
backwards done [] = done
backwards done (a ∷ later) = backwards (a ∷ done) later

-- Some place of the array of devices holds a null pointer.
abbrev pub IsTerminated : List (Option MmioDev) → Type 0
IsTerminated [] = ⊥
IsTerminated (none ∷ devs) = Unit
IsTerminated (some dev ∷ devs) = IsTerminated devs

module _ (dynamic root : ℕ) (placed : IsPlaced dynamic) (r : IsRoot root) (pages : List ℕ)
    (ram : Ram) where
  no_clash :
      (done : List Area) (a : Area) (most : ℕ) (t : Ram)
      → Built dynamic root pages ram most done t
      → a.count ≤ 2 ^ 29
      → ((n x : ℕ) → IsIn a n x → IsCovered done x → ⊥)
      → Clashes root t a.count 0 a.virt
      → ⊥
  no_clash done a most t b small apart (inr big) = omega arith
  no_clash done a most t b small apart (inl (n, h, valid)) =
      let x = round_address a.virt (0 + n * page_size) in
      let shift : n * page_size ≡ 0 + n * page_size = omega arith in
      elim (b.only x) [
        | inl empty ↦
            (let odd : entry_of t.memory root x % 2 ≡ 1 = valid in
              let zero_odd : 0 % 2 ≡ 1 = rw empty at odd in omega arith)
        | inr leads ↦
            apart n x (h, rw (sym shift) (ground arith))
              (Leads-IsCovered b.own done x (entry_of t.memory root x) leads)
      ]

  -- The pages of an area are mapped, and then comes `next`.
  area-then :
      (done : List Area) (virt phys size flags most : ℕ) (t : Ram)
      → (next : Cmd Ram (Unit {0})) (Q : Unit {0} → Ram → Type 0)
      → Built dynamic root pages ram most done t
      → pages_of size ≤ 2 ^ 29
      → ((n x : ℕ)
          → IsIn record { virt = virt; phys = phys; count = pages_of size; flags = flags } n x
          → IsCovered done x
          → ⊥)
      → most + 3 * pages_of size ≤ length pages
      → ((u : Ram)
          → Built dynamic root pages ram
              (most + 3 * pages_of size)
              (record { virt = virt; phys = phys; count = pages_of size; flags = flags } ∷ done)
              u
          → Runs ⊥ ⊥ Q (next u))
      → Runs ⊥ ⊥ Q (
          and_then
            (map_pages root virt phys size flags true t)
            (λ rv s. and_then (panic_if (is_negative rv) bad_map s) (λ _. next)))
  area-then done virt phys size flags most t next Q b small apart room go =
      let a : Area = record { virt = virt; phys = phys; count = pages_of size; flags = flags } in
      let P : ℕ → Ram → Type 0 = λ rv u.
        (rv ≡ 0) × Region dynamic root b.own b.pages' t (pages_of size) 0 virt phys flags u in
      and_then-Runs ⊥ ⊥ P Q (map_pages root virt phys size flags true t) _
        (Runs-mono (Clashes root t (pages_of size) 0 virt) (length b.pages' < 3 * pages_of size) P ⊥
          ⊥ P (map_pages root virt phys size flags true t)
          (map_pages-Runs dynamic root placed r virt phys flags size b.own b.pages' t b.moves.space)
          (no_clash done a most t b small apart) (λ few. let takes = b.moves.takes in omega arith)
          (λ rv u e. e))
        (λ rv u e.
          rw e.0 (go u (area-Built dynamic root pages ram done a most t u b e.1 small apart)))

  map_devices-Runs :
      (devs : List (Option MmioDev)) (done : List Area) (most total : ℕ) (t : Ram)
      → Built dynamic root pages ram most done t
      → IsTerminated devs
      → AreApart done (device_areas devs)
      → most + weight (device_areas devs) ≡ total
      → total ≤ length pages
      → Runs ⊥ ⊥
          (λ u after. Built dynamic root pages ram total (backwards done (device_areas devs)) after)
          (map_devices root devs t)
  unfolding map_devices
  map_devices-Runs [] done most total t b ends apart sum room = ends
  map_devices-Runs (none ∷ devs) done most total t b ends apart sum room =
      subst (λ m. Built dynamic root pages ram m done t) (omega arith) b
  map_devices-Runs (some dev ∷ devs) done most total t b ends apart sum room =
      area-then done dev.virt_base dev.phys_base dev.size (u32 (bit_or dev.perm pte_u)) most t
        (map_devices root devs) _ b apart.0 apart.1 (omega arith)
        (λ u built.
          map_devices-Runs devs (device_area dev ∷ done) (most + 3 * pages_of dev.size) total u
            built ends apart.2 (omega arith) room)

module _ (dynamic : ℕ) (conf : VmConfig) (pages : List ℕ) (ram : Ram) (placed : IsPlaced dynamic)
    (r : IsRoot conf.vm_pgtable) (free : IsFree dynamic ram pages)
    (ends : IsTerminated conf.devices) (apart : AreApart [] (areas conf))
    (room : weight (areas conf) ≤ length pages) where
  abbrev Ends : Ram → Type 0
  Ends after =
      Built dynamic conf.vm_pgtable pages (cleared ram conf.vm_pgtable) (weight (areas conf))
        (backwards [] (areas conf)) after

  init_hs_pgtable-Runs : Runs ⊥ ⊥ (λ u after. Ends after) (init_hs_pgtable conf ram)
  unfolding init_hs_pgtable memset
  init_hs_pgtable-Runs =
      let image = image_area conf in
      let memory = memory_area conf in
      let start = cleared-Built dynamic conf.vm_pgtable placed r pages ram free in
      rw (test_ne conf.vm_pgtable 0 r.0) (
        area-then dynamic conf.vm_pgtable placed r pages (cleared ram conf.vm_pgtable) [] image.virt
          image.phys (image_size conf) guest_ram 0 (cleared ram conf.vm_pgtable) _ _ start apart.0
          apart.1 (omega arith)
          (λ t one.
            area-then dynamic conf.vm_pgtable placed r pages (cleared ram conf.vm_pgtable)
              (image ∷ []) memory.virt memory.phys (sub64 conf.memory_size (image_size conf))
              guest_ram (0 + 3 * image.count) t _ _ one apart.2.0 apart.2.1 (omega arith)
              (λ u two.
                map_devices-Runs dynamic conf.vm_pgtable placed r pages
                  (cleared ram conf.vm_pgtable) conf.devices (memory ∷ image ∷ [])
                  (0 + 3 * image.count + 3 * memory.count) (weight (areas conf)) u two ends
                  apart.2.2 (omega arith) room)))

  -- doc
  pub init_hs_pgtable-Built : (after : Ram) × (init_hs_pgtable conf ram ≡ ok tt after) × Ends after
  init_hs_pgtable-Built =
      let (u, after, e, built) =
        Runs-ok ⊥ ⊥ (λ u after. Ends after) (init_hs_pgtable conf ram) init_hs_pgtable-Runs (λ x. x)
          (λ x. x) in
      (after, e, built)
