-- ===== src/Vplic/Overrun.antt =====
-- A second interrupt before the guest has completed the first: only the last claim is remembered.
use riscv_hypervisor.Common.{ℕ, ◌^◌, ◌<◌, ◌≡◌, ◌≢◌, ap, ◌∙◌, sym, ◌∷◌, u32, true}
use riscv_hypervisor.Common.Effects.{ok}
use riscv_hypervisor.Plic.{Device, read, claim_offset}
use riscv_hypervisor.Vcpu.{Vcpu, Hart}
use riscv_hypervisor.Vplic.Instr.{Instr}
use riscv_hypervisor.Vplic.Irq.{virt_to_phys_irq, phys_to_virt_irq, sources_of}
use riscv_hypervisor.Vplic.Irq.Laws.{IsOneToOne}
use riscv_hypervisor.Vplic.Load.{context_of}
use riscv_hypervisor.Vplic.Load.Result.{offset_in}
use riscv_hypervisor.Vplic.Store.{emulate_store}
use riscv_hypervisor.Vplic.Handlers.{vplic_handle_interrupt}
use riscv_hypervisor.Vplic.Steps.{
  HasContext, claim_window, claimed_by, vplic_handle_interrupt-claims, emulate_store-other,
  number_back,
}

-- For a guest whose devices have distinct virtual numbers, on a hart and a virtual hart of
-- numbers below 7936: if source p of its machine, of a virtual number below 2^31, is claimed
-- and not completed, and the controller answers another number to the next claim, then after
-- that interrupt the guest's completion of p ends and reaches no register of the controller,
-- and the open claim is the new number.
pub second_claim_loses_first :
    (device : Device) (h : Hart) (store : Instr) (p : ℕ)
    → IsOneToOne h.vcpu.conf.devices
    → HasContext h.hartid
    → HasContext h.vcpu.vhartid
    → h.vcpu.last_claimed_irq_id ≡ p
    → sources_of h.vcpu.conf.devices p ≡ true
    → claimed_by device h ≢ p
    → phys_to_virt_irq h.vcpu.conf.devices p < 2 ^ 31
    → offset_in store ≡ claim_window h.vcpu.vhartid
    → h.vcpu.regs store.rs2 ≡ phys_to_virt_irq h.vcpu.conf.devices p
    → (h1 h2 : Hart) × (vplic_handle_interrupt device h ≡ ok tt h1)
      × (emulate_store store h1 ≡ ok tt h2)
      × (h2.bus ≡ read (claim_offset (u32 (context_of h.hartid))) ∷ h.bus)
      × (h2.vcpu.last_claimed_irq_id ≡ claimed_by device h)
second_claim_loses_first device h store p one has vhas open_claim own other fits at reg =
    let (h1, claims, vcpu1, bus1, hart1, raised) = vplic_handle_interrupt-claims device h has in
    let conf1 : h1.vcpu.conf ≡ h.vcpu.conf = ap (λ (v : Vcpu). v.conf) vcpu1 in
    let vhart1 : h1.vcpu.vhartid ≡ h.vcpu.vhartid = ap (λ (v : Vcpu). v.vhartid) vcpu1 in
    let regs1 : h1.vcpu.regs ≡ h.vcpu.regs = ap (λ (v : Vcpu). v.regs) vcpu1 in
    let claimed1 : h1.vcpu.last_claimed_irq_id ≡ claimed_by device h =
      ap (λ (v : Vcpu). v.last_claimed_irq_id) vcpu1 in
    let number : h1.vcpu.regs store.rs2 ≡ phys_to_virt_irq h.vcpu.conf.devices p =
      ap (λ (f : ℕ → ℕ). f store.rs2) regs1 ∙ reg in
    let back : virt_to_phys_irq h1.vcpu.conf.devices (u32 (h1.vcpu.regs store.rs2)) ≡ p =
      rw conf1 (number_back h.vcpu.conf.devices p _ one own fits number) in
    let (h2, stores, bus2, vcpu2, low) =
      emulate_store-other store h1 (rw vhart1 vhas) (at ∙ ap claim_window (sym vhart1))
        (rw (back, claimed1) (λ e. other (sym e))) in
    (h1, h2, claims, stores, bus2 ∙ bus1, ap (λ (v : Vcpu). v.last_claimed_irq_id) vcpu2 ∙ claimed1)
