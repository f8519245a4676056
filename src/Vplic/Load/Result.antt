-- ===== src/Vplic/Load/Result.antt =====
-- What an emulated load leaves in the registers of the guest.
use riscv_hypervisor.Common.{
  ℕ, ◌+◌, ◌-◌, ◌%◌, ◌/◌, ◌^◌, ◌<◌, ◌≡◌, refl, ap, ◌∙◌, inl, inr, ◌==◌, if◌then◌else◌, not, bit_and,
  bit_or, u64, sub64, sign_extend, arith, Bool-cases, leb,
}
use riscv_hypervisor.Common.Masks.{bit_and-two_pow, bit_or-disjoint}
use riscv_hypervisor.Common.Digits.{bit_or_comm}
use riscv_hypervisor.Common.Effects.{ok, panic, bad_plic_access}
use riscv_hypervisor.Dtb.{dtb_plic}
use riscv_hypervisor.Plic.{Device}
use riscv_hypervisor.Vcpu.{Vcpu, Hart}
use riscv_hypervisor.Vplic.Instr.{Instr}
use riscv_hypervisor.Vplic.Window.Classes.{IsRegister, none-Tests}
use riscv_hypervisor.Vplic.Load.{context_of, load_register, write_back, advance_sepc, emulate_load}

-- The sign of a 32-bit value, tested and joined as the code does it.
sign_test : (val : ℕ) → val < 2 ^ 32 → (bit_and val 0x80000000 == 0) ≡ not (leb (2 ^ 31) val)
sign_test val h = ground (arith, bit_and-two_pow 31 val)

sign_join : (val : ℕ) → val < 2 ^ 32 → bit_or val 0xffffffff00000000 ≡ 2 ^ 64 - 2 ^ 32 + val
sign_join val h = rw bit_or_comm (bit_or-disjoint 32 (2 ^ 32 - 1) val h)

-- Where a load reads: the offset in the window.
abbrev pub offset_in : Instr → ℕ
offset_in instr = sub64 instr.addr dtb_plic

-- A load from an offset of the window that is no register stops the hypervisor.
pub emulate_load-panic :
    (device : Device) (instr : Instr) (h : Hart)
    → (IsRegister (offset_in instr) → ⊥)
    → emulate_load device instr h ≡ panic bad_plic_access
unfolding emulate_load load_register
emulate_load-panic device instr h absent =
    let tests = none-Tests (offset_in instr) absent in
    rw (tests.priority, tests.pending, tests.enable, tests.threshold, tests.claim)

write_back-regs :
    (instr : Instr) (val : ℕ) (h : Hart)
    → val < 2 ^ 32
    → (j : ℕ)
    → (write_back instr val h).vcpu.regs j ≡ (
        if j == instr.rd
        then (if instr.funct3 == 2 then sign_extend val else val)
        else h.vcpu.regs j)
unfolding write_back
write_back-regs instr val h fits j = ground (arith, sign_test val fits, sign_join val fits)

advance_sepc-size :
    (instr : Instr) (h : Hart)
    → (advance_sepc instr h).sepc ≡ u64 (h.sepc + (if instr.opcode / 2 % 2 == 0 then 2 else 4))
unfolding advance_sepc
advance_sepc-size instr h = ground (arith, bit_and-two_pow 1 instr.opcode)

-- Nothing but the program counter moves on.
pub advance_sepc-rest :
    (instr : Instr) (h : Hart)
    → ((advance_sepc instr h).vcpu ≡ h.vcpu)
      × ((advance_sepc instr h).bus ≡ h.bus)
      × ((advance_sepc instr h).hvip ≡ h.hvip)
      × ((advance_sepc instr h).hartid ≡ h.hartid)
unfolding advance_sepc
advance_sepc-rest instr h = elim (Bool-cases (bit_and instr.opcode 2 == 0)) [
  | inl e ↦ rw e (refl, refl, refl, refl)
  | inr e ↦ rw e (refl, refl, refl, refl)
]

-- After a load of `val`: the destination has it as `lw` or `lwu` brings it, no other register is
-- changed, and the guest goes on behind the instruction, of 4 bytes, or of 2 if bit 1 of the opcode
-- is clear.
pub record Loaded (instr : Instr) (val : ℕ) (before after : Hart) : Type 0 where
  pub registers :
      (j : ℕ)
      → after.vcpu.regs j ≡ (
          if j == instr.rd
          then (if instr.funct3 == 2 then sign_extend val else val)
          else before.vcpu.regs j)
  pub behind : after.sepc ≡ u64 (before.sepc + (if instr.opcode / 2 % 2 == 0 then 2 else 4))
  pub same_hart : after.hartid ≡ before.hartid
  pub same_vhart : after.vcpu.vhartid ≡ before.vcpu.vhartid
  pub same_conf : after.vcpu.conf ≡ before.vcpu.conf
  pub same_claim : after.vcpu.last_claimed_irq_id ≡ before.vcpu.last_claimed_irq_id
  pub same_bus : after.bus ≡ before.bus
  pub same_hvip : after.hvip ≡ before.hvip

-- If the read of a controller register gives a 32-bit value, the emulated load ends with the
-- value, sign-extended for lw, in the destination register, all other registers as they were,
-- and the guest behind an instruction of 2 or 4 bytes by bit 1 of the opcode.
pub emulate_load-Loaded :
    (device : Device) (instr : Instr) (h : Hart) {val : ℕ} {read : Hart}
    → load_register device h.vcpu.conf.devices
        (offset_in instr)
        (context_of h.vcpu.vhartid)
        (context_of h.hartid)
        h
      ≡ ok val read
    → val < 2 ^ 32
    → (after : Hart) × (emulate_load device instr h ≡ ok tt after) × Loaded instr val read after
unfolding emulate_load write_back
emulate_load-Loaded device instr h {val} {read} e fits =
    let rest = advance_sepc-rest instr (write_back instr val read) in
    let vcpu = rest.0 in
    (
      advance_sepc instr (write_back instr val read),
      rw e,
      record {
        registers = λ j. ap (λ (v : Vcpu). v.regs j) vcpu ∙ write_back-regs instr val read fits j;
        behind = advance_sepc-size instr (write_back instr val read);
        same_hart = rest.3;
        same_vhart = ap (λ (v : Vcpu). v.vhartid) vcpu;
        same_conf = ap (λ (v : Vcpu). v.conf) vcpu;
        same_claim = ap (λ (v : Vcpu). v.last_claimed_irq_id) vcpu;
        same_bus = rest.1;
        same_hvip = rest.2;
      },
    )
