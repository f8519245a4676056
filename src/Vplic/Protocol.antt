-- ===== src/Vplic/Protocol.antt =====
-- An interrupt from the controller to the guest and back: the handler claims it, the guest reads
-- its claim register and writes its completion register.
use riscv_hypervisor.Common.{◌^◌, ◌<◌, ◌≡◌, ◌≢◌, sym, ap, ◌∙◌, ◌∷◌, u32, arith, true}
use riscv_hypervisor.Common.Effects.{ok}
use riscv_hypervisor.Plic.{Device, read, write, claim_offset}
use riscv_hypervisor.Vcpu.{Vcpu, Hart}
use riscv_hypervisor.Vplic.Instr.{Instr}
use riscv_hypervisor.Vplic.Irq.{virt_to_phys_irq, phys_to_virt_irq, sources_of}
use riscv_hypervisor.Vplic.Irq.Laws.{IsOneToOne}
use riscv_hypervisor.Vplic.Load.{context_of, emulate_load}
use riscv_hypervisor.Vplic.Load.Result.{offset_in}
use riscv_hypervisor.Vplic.Store.{emulate_store}
use riscv_hypervisor.Vplic.Handlers.{vplic_handle_interrupt}
use riscv_hypervisor.Vplic.Steps.{
  HasContext, claim_window, claimed_by, vseip, vplic_handle_interrupt-claims,
  emulate_store_complete, emulate_load-claim, number_back,
}

-- The guest's part, from a state with an open claim.
guest_serves :
    (device : Device) (h : Hart) (load store : Instr)
    → IsOneToOne h.vcpu.conf.devices
    → HasContext h.hartid
    → HasContext h.vcpu.vhartid
    → sources_of h.vcpu.conf.devices h.vcpu.last_claimed_irq_id ≡ true
    → phys_to_virt_irq h.vcpu.conf.devices h.vcpu.last_claimed_irq_id < 2 ^ 31
    → offset_in load ≡ claim_window h.vcpu.vhartid
    → offset_in store ≡ claim_window h.vcpu.vhartid
    → store.rs2 ≡ load.rd
    → (h2 h3 : Hart) × (emulate_load device load h ≡ ok tt h2)
      × (h2.vcpu.regs load.rd ≡ phys_to_virt_irq h.vcpu.conf.devices h.vcpu.last_claimed_irq_id)
      × (emulate_store store h2 ≡ ok tt h3)
      × (h3.bus
          ≡ write (claim_offset (u32 (context_of h.hartid))) h.vcpu.last_claimed_irq_id ∷ h.bus)
      × (h3.vcpu.last_claimed_irq_id ≡ 0)
      × (vseip h3 ≡ 0)
guest_serves device h load store one has vhas own fits at_load at_store same =
    let (h2, loads, rd, loaded) = emulate_load-claim device load h vhas at_load fits in
    let back : virt_to_phys_irq h2.vcpu.conf.devices (u32 (h2.vcpu.regs store.rs2))
        ≡ h2.vcpu.last_claimed_irq_id =
      rw (loaded.same_conf, loaded.same_claim, same)
        (number_back h.vcpu.conf.devices _ (h2.vcpu.regs load.rd) one own fits rd) in
    let (h3, stores, bus, claimed, low) =
      emulate_store_complete store h2 (rw loaded.same_vhart vhas) (rw loaded.same_hart has)
        (at_store ∙ ap claim_window (sym loaded.same_vhart)) back in
    (
      h2,
      h3,
      loads,
      rd,
      stores,
      cc (bus, loaded.same_hart, loaded.same_claim, loaded.same_bus),
      claimed,
      low,
    )

-- For a guest whose devices have distinct virtual numbers, on a hart and a virtual hart of
-- numbers below 7936, and a source of its machine, not 0 and of a virtual number below 2^31,
-- that the controller answers to the claim: the interrupt handler claims the source and raises
-- the guest's interrupt; a load of the guest's claim register ends and gives the guest's number
-- of the source; a store of that value from the same register to the completion register ends,
-- completes the source at the controller's context of the hart, lowers the guest's interrupt
-- and leaves no open claim. The controller is accessed by the claim and the completion only.
pub claim_round_trip :
    (device : Device) (h : Hart) (load store : Instr)
    → IsOneToOne h.vcpu.conf.devices
    → HasContext h.hartid
    → HasContext h.vcpu.vhartid
    → sources_of h.vcpu.conf.devices (claimed_by device h) ≡ true
    → claimed_by device h ≢ 0
    → phys_to_virt_irq h.vcpu.conf.devices (claimed_by device h) < 2 ^ 31
    → offset_in load ≡ claim_window h.vcpu.vhartid
    → offset_in store ≡ claim_window h.vcpu.vhartid
    → store.rs2 ≡ load.rd
    → (h1 h2 h3 : Hart) × (vplic_handle_interrupt device h ≡ ok tt h1)
      × (vseip h1 ≡ 1)
      × (emulate_load device load h1 ≡ ok tt h2)
      × (h2.vcpu.regs load.rd ≡ phys_to_virt_irq h.vcpu.conf.devices (claimed_by device h))
      × (emulate_store store h2 ≡ ok tt h3)
      × (h3.bus
          ≡ write (claim_offset (u32 (context_of h.hartid))) (claimed_by device h)
            ∷ read (claim_offset (u32 (context_of h.hartid)))
            ∷ h.bus)
      × (h3.vcpu.last_claimed_irq_id ≡ 0)
      × (vseip h3 ≡ 0)
claim_round_trip device h load store one has vhas own some fits at_load at_store same =
    let (h1, claims, vcpu1, bus1, hart1, raised) = vplic_handle_interrupt-claims device h has in
    let conf1 : h1.vcpu.conf ≡ h.vcpu.conf = ap (λ (v : Vcpu). v.conf) vcpu1 in
    let vhart1 : h1.vcpu.vhartid ≡ h.vcpu.vhartid = ap (λ (v : Vcpu). v.vhartid) vcpu1 in
    let claimed1 : h1.vcpu.last_claimed_irq_id ≡ claimed_by device h =
      ap (λ (v : Vcpu). v.last_claimed_irq_id) vcpu1 in
    let (h2, h3, loads, rd, stores, bus, claimed, low) =
      guest_serves device h1 load store (rw conf1 one) (rw hart1 has) (rw vhart1 vhas)
        (rw (conf1, claimed1) own) (rw (conf1, claimed1) fits) (rw vhart1 at_load)
        (rw vhart1 at_store) same in
    (
      h1,
      h2,
      h3,
      claims,
      ground (arith, raised),
      loads,
      cc (rd, conf1, claimed1),
      stores,
      cc (bus, hart1, claimed1, bus1),
      claimed,
      low,
    )
