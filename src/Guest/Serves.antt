-- ===== src/Guest/Serves.antt =====
-- The guest's driver on the emulated controller.
use riscv_hypervisor.Common.{
  ℕ, ◌+◌, ◌*◌, ◌/◌, ◌^◌, ◌<◌, ◌≤◌, ◌==◌, ◌≡◌, ◌≢◌, refl, sym, ap, ◌∙◌, true, false, ◌∷◌, u32, arith,
}
use riscv_hypervisor.Common.Effects.{ok}
use riscv_hypervisor.Plic.{
  Device, read, write, claim_offset, bad_context, bad_source, plic_set_priority, plic_set_threshold,
}
use riscv_hypervisor.Vcpu.{Vcpu, Hart}
use riscv_hypervisor.Vplic.Irq.{virt_to_phys_irq, phys_to_virt_irq, sources_of}
use riscv_hypervisor.Vplic.Irq.Laws.{IsOneToOne}
use riscv_hypervisor.Vplic.Load.{context_of, advance_sepc}
use riscv_hypervisor.Vplic.Load.Result.{offset_in}
use riscv_hypervisor.Vplic.Store.Places.{priority, threshold}
use riscv_hypervisor.Vplic.Store.Result.{emulate_store_lem}
use riscv_hypervisor.Vplic.Handlers.{vplic_handle_interrupt}
use riscv_hypervisor.Vplic.Steps.{
  HasContext, claim_window, claimed_by, vseip, vplic_handle_interrupt-claims,
  emulate_store_complete, emulate_load-claim, number_back,
}
use riscv_hypervisor.Guest.{
  guest_set_priority, guest_set_threshold, guest_claim, guest_complete, emulated, load_word,
  store_word, set_a1,
}

-- The index of a hart's claim register among the words of the window.
abbrev claim_word : ℕ → ℕ
claim_word vhartid = 0x200004 / 4 + 0x1000 / 4 * context_of vhartid

claim_word-load :
    (vhartid : ℕ)
    → HasContext vhartid
    → offset_in (load_word (claim_word vhartid)) ≡ claim_window vhartid
claim_word-load vhartid has = omega arith

claim_word-store :
    (vhartid : ℕ)
    → HasContext vhartid
    → offset_in (store_word (claim_word vhartid)) ≡ claim_window vhartid
claim_word-store vhartid has = omega arith

-- From a state with an open claim.
pub guest_serves :
    (device : Device) (h : Hart)
    → IsOneToOne h.vcpu.conf.devices
    → HasContext h.hartid
    → HasContext h.vcpu.vhartid
    → sources_of h.vcpu.conf.devices h.vcpu.last_claimed_irq_id ≡ true
    → phys_to_virt_irq h.vcpu.conf.devices h.vcpu.last_claimed_irq_id < 2 ^ 31
    → (h2 h3 : Hart) × (guest_claim (emulated device) (context_of h.vcpu.vhartid) h
        ≡ ok (phys_to_virt_irq h.vcpu.conf.devices h.vcpu.last_claimed_irq_id) h2)
      × (guest_complete
            (emulated device)
            (context_of h.vcpu.vhartid)
            (phys_to_virt_irq h.vcpu.conf.devices h.vcpu.last_claimed_irq_id)
            h2
          ≡ ok tt h3)
      × (h3.bus
          ≡ write (claim_offset (u32 (context_of h.hartid))) h.vcpu.last_claimed_irq_id ∷ h.bus)
      × (h3.vcpu.last_claimed_irq_id ≡ 0)
      × (vseip h3 ≡ 0)
unfolding guest_claim guest_complete
guest_serves device h one has vhas own fits =
    let vhartid = h.vcpu.vhartid in
    let irq = phys_to_virt_irq h.vcpu.conf.devices h.vcpu.last_claimed_irq_id in
    let good : bad_context (context_of vhartid) ≡ false = ground arith in
    let (h2, loads, rd, loaded) =
      emulate_load-claim device (load_word (claim_word vhartid)) h vhas
        (claim_word-load vhartid vhas) fits in
    let value : u32 (h2.vcpu.regs 10) ≡ irq = omega (arith, rd) in
    let g = set_a1 irq h2 in
    let back : virt_to_phys_irq g.vcpu.conf.devices (u32 irq) ≡ g.vcpu.last_claimed_irq_id =
      rw (loaded.same_conf, loaded.same_claim)
        (number_back h.vcpu.conf.devices h.vcpu.last_claimed_irq_id irq one own fits refl) in
    let (h3, stores, bus, claimed, low) =
      emulate_store_complete (store_word (claim_word vhartid)) g (rw loaded.same_vhart vhas)
        (rw loaded.same_hart has)
        (claim_word-store vhartid vhas ∙ ap claim_window (sym loaded.same_vhart)) back in
    (
      h2,
      h3,
      rw (good, loads, value) refl,
      rw (good, stores) refl,
      cc (bus, loaded.same_hart, loaded.same_claim, loaded.same_bus),
      claimed,
      low,
    )

-- For a guest whose devices have distinct virtual numbers, on a hart and a virtual hart of
-- numbers below 7936, and a source of its machine, not 0 and of a virtual number below 2^31,
-- that the controller answers to the claim: the interrupt handler claims the source and raises
-- the guest's interrupt; on the emulated controller the claim of the guest's driver ends and
-- returns the guest's number of the source, and its completion of that number ends, completes
-- the source at the controller's context of the hart, lowers the interrupt and leaves no open
-- claim, with no other access to the controller.
pub guest_round_trip :
    (device : Device) (h : Hart)
    → IsOneToOne h.vcpu.conf.devices
    → HasContext h.hartid
    → HasContext h.vcpu.vhartid
    → sources_of h.vcpu.conf.devices (claimed_by device h) ≡ true
    → claimed_by device h ≢ 0
    → phys_to_virt_irq h.vcpu.conf.devices (claimed_by device h) < 2 ^ 31
    → (h1 h2 h3 : Hart) × (vplic_handle_interrupt device h ≡ ok tt h1)
      × (vseip h1 ≡ 1)
      × (guest_claim (emulated device) (context_of h.vcpu.vhartid) h1
          ≡ ok (phys_to_virt_irq h.vcpu.conf.devices (claimed_by device h)) h2)
      × (guest_complete
            (emulated device)
            (context_of h.vcpu.vhartid)
            (phys_to_virt_irq h.vcpu.conf.devices (claimed_by device h))
            h2
          ≡ ok tt h3)
      × (h3.bus
          ≡ write (claim_offset (u32 (context_of h.hartid))) (claimed_by device h)
            ∷ read (claim_offset (u32 (context_of h.hartid)))
            ∷ h.bus)
      × (h3.vcpu.last_claimed_irq_id ≡ 0)
      × (vseip h3 ≡ 0)
guest_round_trip device h one has vhas own some fits =
    let (h1, claims, vcpu1, bus1, hart1, raised) = vplic_handle_interrupt-claims device h has in
    let conf1 : h1.vcpu.conf ≡ h.vcpu.conf = ap (λ (v : Vcpu). v.conf) vcpu1 in
    let vhart1 : h1.vcpu.vhartid ≡ h.vcpu.vhartid = ap (λ (v : Vcpu). v.vhartid) vcpu1 in
    let claimed1 : h1.vcpu.last_claimed_irq_id ≡ claimed_by device h =
      ap (λ (v : Vcpu). v.last_claimed_irq_id) vcpu1 in
    let irq1 : phys_to_virt_irq h1.vcpu.conf.devices h1.vcpu.last_claimed_irq_id
        ≡ phys_to_virt_irq h.vcpu.conf.devices (claimed_by device h) =
      rw (conf1, claimed1) refl in
    let (h2, h3, loads, stores, bus, claimed, low) =
      guest_serves device h1 (rw conf1 one) (rw hart1 has) (rw vhart1 vhas)
        (rw (conf1, claimed1) own) (rw (conf1, claimed1) fits) in
    (
      h1,
      h2,
      h3,
      claims,
      ground (arith, raised),
      ap (λ (t : ℕ). guest_claim (emulated device) (context_of t) h1) (sym vhart1)
          ∙ loads
          ∙ ap (λ (z : ℕ). ok z h2) irq1,
      ap
            (λ (t : ℕ).
              guest_complete (emulated device) (context_of t)
                (phys_to_virt_irq h.vcpu.conf.devices (claimed_by device h)) h2)
            (sym vhart1)
          ∙ ap (λ (z : ℕ). guest_complete (emulated device) (context_of h1.vcpu.vhartid) z h2)
              (sym irq1)
          ∙ stores,
      cc (bus, hart1, claimed1, bus1),
      claimed,
      low,
    )

-- A priority that the guest sets for a source is set for the translated one.
pub guest_set_priority-effect :
    (device : Device) (interrupt_source val : ℕ) (h : Hart)
    → 1 ≤ interrupt_source
    → interrupt_source < 1024
    → guest_set_priority (emulated device) interrupt_source val h
      ≡ ok tt (
          advance_sepc (store_word interrupt_source) (record (set_a1 val h) {
            bus =
                plic_set_priority
                  (virt_to_phys_irq h.vcpu.conf.devices interrupt_source)
                  (u32 val)
                  h.bus;
          }))
unfolding guest_set_priority
guest_set_priority-effect device interrupt_source val h low high =
    let good : bad_source interrupt_source ≡ false = ground arith in
    rw good (
      emulate_store_lem (store_word interrupt_source) (priority interrupt_source) (set_a1 val h)
        high refl)

-- A threshold that the guest sets at its own context is set at the context of the hart.
pub guest_set_threshold-effect :
    (device : Device) (val : ℕ) (h : Hart)
    → HasContext h.vcpu.vhartid
    → guest_set_threshold (emulated device) (context_of h.vcpu.vhartid) val h
      ≡ ok tt (
          advance_sepc
            (store_word (0x200000 / 4 + 0x1000 / 4 * context_of h.vcpu.vhartid))
            (record (set_a1 val h) {
              bus = plic_set_threshold (u32 (context_of h.hartid)) (u32 (u32 val)) h.bus;
            }))
unfolding guest_set_threshold
guest_set_threshold-effect device val h vhas =
    let good : bad_context (context_of h.vcpu.vhartid) ≡ false = ground arith in
    let own : (context_of h.vcpu.vhartid == context_of h.vcpu.vhartid) ≡ true = ground arith in
    let word = 0x200000 / 4 + 0x1000 / 4 * context_of h.vcpu.vhartid in
    let stored =
      emulate_store_lem (store_word word) (threshold (context_of h.vcpu.vhartid)) (set_a1 val h)
        (omega arith) (omega arith) in
    rw good (stored ∙ rw own refl)
