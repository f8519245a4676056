-- ===== src/Vplic/Irq/Laws.antt =====
-- The two translations.
use riscv_hypervisor.Common.{ℕ, ◌≡◌, refl, ◌⊎◌, inl, true, List, [], ◌∷◌, Option, none, some, arith}
use riscv_hypervisor.VmConfig.{MmioDev}
use riscv_hypervisor.Vplic.Irq.{virt_to_phys_irq, phys_to_virt_irq, sources_of}

-- A translated number is 0 or a source of the machine's own devices.
pub virt_to_phys_irq-own :
    (devs : List (Option MmioDev)) (v : ℕ)
    → (virt_to_phys_irq devs v ≡ 0) ⊎ (sources_of devs (virt_to_phys_irq devs v) ≡ true)
unfolding virt_to_phys_irq sources_of
virt_to_phys_irq-own [] v = inl refl
virt_to_phys_irq-own (none ∷ devs) v = inl refl
virt_to_phys_irq-own (some dev ∷ devs) v = ground (arith, virt_to_phys_irq-own devs v)

-- No later device has a number of the first one, on either side.
abbrev pub IsFresh : MmioDev → List (Option MmioDev) → Type 0
IsFresh dev [] = Unit
IsFresh dev (none ∷ devs) = Unit
IsFresh dev (some other ∷ devs) = ((dev.virt_irq ≡ other.virt_irq → ⊥) × IsFresh dev devs)

-- The virtual numbers of the devices are distinct.
abbrev pub IsOneToOne : List (Option MmioDev) → Type 0
IsOneToOne [] = Unit
IsOneToOne (none ∷ devs) = Unit
IsOneToOne (some dev ∷ devs) = IsFresh dev devs × IsOneToOne devs

-- A virtual number that stands among the devices is not that of a fresh one.
phys_to_virt_irq-fresh :
    (dev : MmioDev) (devs : List (Option MmioDev)) (p : ℕ)
    → IsFresh dev devs
    → sources_of devs p ≡ true
    → (phys_to_virt_irq devs p ≡ dev.virt_irq)
    → ⊥
unfolding phys_to_virt_irq sources_of
phys_to_virt_irq-fresh dev [] p f s e = cc
phys_to_virt_irq-fresh dev (none ∷ devs) p f s e = cc
phys_to_virt_irq-fresh dev (some other ∷ devs) p f s e =
    ground (arith, phys_to_virt_irq-fresh dev devs p)

-- If the virtual numbers of a machine's devices are distinct, the number under which the guest
-- sees one of their sources leads back to that source.
pub virt_to_phys_irq-phys_to_virt_irq :
    (devs : List (Option MmioDev)) (p : ℕ)
    → IsOneToOne devs
    → sources_of devs p ≡ true
    → virt_to_phys_irq devs (phys_to_virt_irq devs p) ≡ p
unfolding virt_to_phys_irq phys_to_virt_irq sources_of
virt_to_phys_irq-phys_to_virt_irq [] p d s = cc
virt_to_phys_irq-phys_to_virt_irq (none ∷ devs) p d s = cc
virt_to_phys_irq-phys_to_virt_irq (some dev ∷ devs) p d s =
    ground (arith, virt_to_phys_irq-phys_to_virt_irq devs p, phys_to_virt_irq-fresh dev devs p)
