-- ===== src/Vplic/Irq.antt =====
-- The interrupt numbers of a guest and of the board, by the devices of the virtual machine.
pub mod Laws
use riscv_hypervisor.Common.{
  ℕ, Bool, false, ◌||◌, List, [], ◌∷◌, Option, none, some, ◌==◌, if◌then◌else◌,
}
use riscv_hypervisor.VmConfig.{MmioDev}

-- The loops end at the first null pointer, or behind the last element.
unfoldable pub virt_to_phys_irq : List (Option MmioDev) → ℕ → ℕ
virt_to_phys_irq [] virt_irq = 0
virt_to_phys_irq (none ∷ devs) virt_irq = 0
virt_to_phys_irq (some dev ∷ devs) virt_irq =
    if virt_irq == dev.virt_irq then dev.phys_irq else virt_to_phys_irq devs virt_irq

unfoldable pub phys_to_virt_irq : List (Option MmioDev) → ℕ → ℕ
phys_to_virt_irq [] phys_irq = 0
phys_to_virt_irq (none ∷ devs) phys_irq = 0
phys_to_virt_irq (some dev ∷ devs) phys_irq =
    if phys_irq == dev.phys_irq then dev.virt_irq else phys_to_virt_irq devs phys_irq

-- The sources of the controller that belong to the devices.
unfoldable pub sources_of : List (Option MmioDev) → ℕ → Bool
sources_of [] p = false
sources_of (none ∷ devs) p = false
sources_of (some dev ∷ devs) p = dev.phys_irq == p || sources_of devs p
