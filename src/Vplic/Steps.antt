-- ===== src/Vplic/Steps.antt =====
-- The three steps of an interrupt: the claim by the handler, the guest's read of its claim register
-- and the guest's write of its completion register.
use riscv_hypervisor.Common.{
  ℕ, ◌+◌, ◌-◌, ◌*◌, ◌/◌, ◌^◌, ◌<◌, ◌≡◌, ◌≢◌, refl, ap, inl, inr, List, Option, ◌∷◌, ◌==◌,
  if◌then◌else◌, u32, sub64, bit_and, bit_or, arith, true, false, Bool-cases,
}
use riscv_hypervisor.Common.BitTests.{bit, bit-bit_and, bit-bit_or}
use riscv_hypervisor.Common.Effects.{ok}
use riscv_hypervisor.Plic.{
  Device, read, write, claim_offset, plic_claim, plic_complete, bad_context,
}
use riscv_hypervisor.VmConfig.{MmioDev}
use riscv_hypervisor.Vcpu.{Vcpu, Hart}
use riscv_hypervisor.Vplic.Window.Classes.{claim-Tests}
use riscv_hypervisor.Vplic.Instr.{Instr}
use riscv_hypervisor.Vplic.Irq.{virt_to_phys_irq, phys_to_virt_irq, sources_of}
use riscv_hypervisor.Vplic.Irq.Laws.{IsOneToOne, virt_to_phys_irq-phys_to_virt_irq}
use riscv_hypervisor.Vplic.Load.{
  context_of, handle_claim_reg_load, load_register, advance_sepc, emulate_load,
}
use riscv_hypervisor.Vplic.Load.Result.{offset_in, advance_sepc-rest, emulate_load-Loaded, Loaded}
use riscv_hypervisor.Vplic.Store.{
  hvip_vseip, handle_complete_reg_store, store_register, emulate_store,
}
use riscv_hypervisor.Vplic.Handlers.{vplic_handle_interrupt}

-- Harts whose contexts the controller has.
abbrev pub HasContext : ℕ → Type 0
HasContext hartid = hartid < 7936

-- The offset of the claim and completion register of a virtual hart.
abbrev pub claim_window : ℕ → ℕ
claim_window vhartid = 0x200004 + 0x1000 * context_of vhartid

-- What the controller answers to the claim of a hart.
abbrev pub claimed_by : Device → Hart → ℕ
claimed_by device h = u32 (device h.bus (claim_offset (u32 (context_of h.hartid))))

abbrev pub vseip : Hart → ℕ
vseip h = bit 10 h.hvip

abbrev taken : Device → Hart → Hart
taken device h = record h {
  vcpu = record (h.vcpu) { last_claimed_irq_id = claimed_by device h };
  bus = read (claim_offset (u32 (context_of h.hartid))) ∷ h.bus;
}

-- On a hart whose context the controller has, the interrupt handler ends, claims at that
-- context once, remembers the answer as the open claim, raises the guest's interrupt if the
-- answer is not 0 and leaves it as it is otherwise.
pub vplic_handle_interrupt-claims :
    (device : Device) (h : Hart)
    → HasContext h.hartid
    → (h1 : Hart) × (vplic_handle_interrupt device h ≡ ok tt h1)
      × (h1.vcpu ≡ record (h.vcpu) { last_claimed_irq_id = claimed_by device h })
      × (h1.bus ≡ read (claim_offset (u32 (context_of h.hartid))) ∷ h.bus)
      × (h1.hartid ≡ h.hartid)
      × (vseip h1 ≡ (if claimed_by device h == 0 then vseip h else 1))
unfolding vplic_handle_interrupt plic_claim
vplic_handle_interrupt-claims device h has =
    let good : bad_context (u32 (context_of h.hartid)) ≡ false = ground arith in
    elim (Bool-cases (claimed_by device h == 0)) [
      | inl nothing ↦ (taken device h, rw (good, nothing), refl, refl, refl, ground arith)
      | inr something ↦ (
        record (taken device h) { hvip = bit_or h.hvip hvip_vseip },
        rw (good, something),
        refl,
        refl,
        refl,
        ground (arith, bit-bit_or 10 h.hvip hvip_vseip),
      )
    ]

-- The guest's read of its claim register gives the guest's number of the claimed source.
load_register-claim :
    (device : Device) (h : Hart)
    → HasContext h.vcpu.vhartid
    → load_register device h.vcpu.conf.devices
        (claim_window h.vcpu.vhartid)
        (context_of h.vcpu.vhartid)
        (context_of h.hartid)
        h
      ≡ ok (phys_to_virt_irq h.vcpu.conf.devices h.vcpu.last_claimed_irq_id) h
unfolding load_register handle_claim_reg_load
load_register-claim device h has =
    let tests = claim-Tests (context_of h.vcpu.vhartid) (omega arith) in
    let own : (context_of h.vcpu.vhartid == sub64 (claim_window h.vcpu.vhartid) 0x200004 / 0x1000)
        ≡ true =
      ground arith in
    rw (tests.priority, tests.pending, tests.enable, tests.threshold, tests.claim, own)

abbrev completed : Hart → Hart
completed h = record h {
  vcpu = record (h.vcpu) { last_claimed_irq_id = 0 };
  bus = write (claim_offset (u32 (context_of h.hartid))) h.vcpu.last_claimed_irq_id ∷ h.bus;
  hvip = bit_and h.hvip (2 ^ 64 - 1 - hvip_vseip);
}

-- The guest's write of its completion register, by whether it names the claimed source.
store_register_complete :
    (h : Hart) (val : ℕ)
    → HasContext h.vcpu.vhartid
    → HasContext h.hartid
    → virt_to_phys_irq h.vcpu.conf.devices val ≡ h.vcpu.last_claimed_irq_id
    → store_register h.vcpu.conf.devices
        (claim_window h.vcpu.vhartid)
        (context_of h.vcpu.vhartid)
        (context_of h.hartid)
        val
        h
      ≡ ok tt (completed h)
unfolding store_register handle_complete_reg_store plic_complete
store_register_complete h val vhas has e =
    let tests = claim-Tests (context_of h.vcpu.vhartid) (omega arith) in
    let own : (context_of h.vcpu.vhartid == sub64 (claim_window h.vcpu.vhartid) 0x200004 / 0x1000)
        ≡ true =
      ground arith in
    let good : bad_context (u32 (context_of h.hartid)) ≡ false = ground arith in
    let same : (virt_to_phys_irq h.vcpu.conf.devices val == h.vcpu.last_claimed_irq_id) ≡ true =
      ground arith in
    rw (
      tests.priority, tests.pending, tests.enable, tests.threshold, tests.claim, own, same, good, e,
    )

store_register-other :
    (h : Hart) (val : ℕ)
    → HasContext h.vcpu.vhartid
    → virt_to_phys_irq h.vcpu.conf.devices val ≢ h.vcpu.last_claimed_irq_id
    → store_register h.vcpu.conf.devices
        (claim_window h.vcpu.vhartid)
        (context_of h.vcpu.vhartid)
        (context_of h.hartid)
        val
        h
      ≡ ok tt h
unfolding store_register handle_complete_reg_store
store_register-other h val vhas ne =
    let tests = claim-Tests (context_of h.vcpu.vhartid) (omega arith) in
    let own : (context_of h.vcpu.vhartid == sub64 (claim_window h.vcpu.vhartid) 0x200004 / 0x1000)
        ≡ true =
      ground arith in
    let other : (virt_to_phys_irq h.vcpu.conf.devices val == h.vcpu.last_claimed_irq_id) ≡ false =
      ground arith in
    rw (tests.priority, tests.pending, tests.enable, tests.threshold, tests.claim, own, other)

-- A store is one of a guest's `sw` to its completion register.
pub emulate_store_complete :
    (instr : Instr) (h : Hart)
    → HasContext h.vcpu.vhartid
    → HasContext h.hartid
    → offset_in instr ≡ claim_window h.vcpu.vhartid
    → virt_to_phys_irq h.vcpu.conf.devices (u32 (h.vcpu.regs instr.rs2))
      ≡ h.vcpu.last_claimed_irq_id
    → (after : Hart) × (emulate_store instr h ≡ ok tt after)
      × (after.bus
          ≡ write (claim_offset (u32 (context_of h.hartid))) h.vcpu.last_claimed_irq_id ∷ h.bus)
      × (after.vcpu.last_claimed_irq_id ≡ 0)
      × (vseip after ≡ 0)
unfolding emulate_store
emulate_store_complete instr h vhas has at e =
    let rest = advance_sepc-rest instr (completed h) in
    (
      advance_sepc instr (completed h),
      rw (at, store_register_complete h (u32 (h.vcpu.regs instr.rs2)) vhas has e),
      rest.1,
      ap (λ (v : Vcpu). v.last_claimed_irq_id) rest.0,
      rw rest.2 (omega (arith, bit-bit_and 10 h.hvip (2 ^ 64 - 1 - hvip_vseip))),
    )

-- On a virtual hart of a number below 7936, a guest's store to its completion register of a
-- number that does not name the claimed source ends and changes neither the controller, nor the
-- virtual processor, nor the guest's interrupt.
pub emulate_store-other :
    (instr : Instr) (h : Hart)
    → HasContext h.vcpu.vhartid
    → offset_in instr ≡ claim_window h.vcpu.vhartid
    → virt_to_phys_irq h.vcpu.conf.devices (u32 (h.vcpu.regs instr.rs2))
      ≢ h.vcpu.last_claimed_irq_id
    → (after : Hart) × (emulate_store instr h ≡ ok tt after)
      × (after.bus ≡ h.bus)
      × (after.vcpu ≡ h.vcpu)
      × (vseip after ≡ vseip h)
unfolding emulate_store
emulate_store-other instr h vhas at ne =
    let rest = advance_sepc-rest instr h in
    (
      advance_sepc instr h,
      rw (at, store_register-other h (u32 (h.vcpu.regs instr.rs2)) vhas ne),
      rest.1,
      rest.0,
      rw rest.2,
    )

-- A guest's `lw` of its claim register.
pub emulate_load-claim :
    (device : Device) (instr : Instr) (h : Hart)
    → HasContext h.vcpu.vhartid
    → offset_in instr ≡ claim_window h.vcpu.vhartid
    → phys_to_virt_irq h.vcpu.conf.devices h.vcpu.last_claimed_irq_id < 2 ^ 31
    → (after : Hart) × (emulate_load device instr h ≡ ok tt after)
      × (after.vcpu.regs instr.rd ≡ phys_to_virt_irq h.vcpu.conf.devices h.vcpu.last_claimed_irq_id)
      × Loaded instr (phys_to_virt_irq h.vcpu.conf.devices h.vcpu.last_claimed_irq_id) h after
emulate_load-claim device instr h vhas at fits =
    let (after, ends, loaded) =
      emulate_load-Loaded device instr h (rw at (load_register-claim device h vhas))
        (omega arith) in
    (after, ends, ground (arith, loaded.registers instr.rd), loaded)

pub number_back :
    (devs : List (Option MmioDev)) (p v : ℕ)
    → IsOneToOne devs
    → sources_of devs p ≡ true
    → phys_to_virt_irq devs p < 2 ^ 31
    → v ≡ phys_to_virt_irq devs p
    → virt_to_phys_irq devs (u32 v) ≡ p
number_back devs p v one own fits e =
    let small : u32 v ≡ phys_to_virt_irq devs p = omega arith in
    rw small (virt_to_phys_irq-phys_to_virt_irq devs p one own)
