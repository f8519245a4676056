-- ===== src/Guest.antt =====
-- guest/keygrab/driver/plic.c: the driver of a guest, on whatever it takes for the controller. What
-- it loads and stores are 32-bit words by their index; an `int` argument is its 32-bit pattern.
pub mod Serves
use riscv_hypervisor.Common.{
  ℕ, ◌+◌, ◌-◌, ◌*◌, ◌/◌, ◌%◌, ◌^◌, ◌==◌, if◌then◌else◌, u32, bit_and, bit_or,
}
use riscv_hypervisor.Common.Effects.{Cmd, ◌>>=◌, ◌>>◌, pure, get, modify}
use riscv_hypervisor.Dtb.{dtb_plic}
use riscv_hypervisor.Plic.{Device, bad_source, bad_context}
use riscv_hypervisor.Vcpu.{Hart, set_reg}
use riscv_hypervisor.Vplic.Instr.{Instr}
use riscv_hypervisor.Vplic.Load.{emulate_load}
use riscv_hypervisor.Vplic.Store.{emulate_store}

-- The array `plic` of the guest.
pub record Words (S : Type 0) : Type 0 where
  pub load : ℕ → Cmd S ℕ
  pub store : ℕ → ℕ → Cmd S (Unit {0})

module _ {S : Type 0} (plic : Words S) where
  unfoldable pub guest_set_priority : ℕ → ℕ → Cmd S (Unit {0})
  guest_set_priority interrupt_source priority =
      if bad_source interrupt_source then pure tt else plic.store interrupt_source priority

  -- The word is loaded and stored again.
  unfoldable pub guest_set_enabled : ℕ → ℕ → ℕ → Cmd S (Unit {0})
  guest_set_enabled context interrupt_source enable =
      let source_mask = 2 ^ (interrupt_source % 32) in
      let offset = 0x2000 / 4 + 1024 / 32 * context + interrupt_source / 32 in
      if bad_source interrupt_source
      then pure tt
      else if bad_context context
      then pure tt
      else (plic.load offset >>= λ word. plic.store offset (
          if enable == 0 then bit_and word (2 ^ 32 - 1 - source_mask) else bit_or word source_mask))

  unfoldable pub guest_set_threshold : ℕ → ℕ → Cmd S (Unit {0})
  guest_set_threshold context threshold =
      if bad_context context
      then pure tt
      else plic.store (0x200000 / 4 + 0x1000 / 4 * context) threshold

  -- 0 if no interrupt is pending, or on a bad context.
  unfoldable pub guest_claim : ℕ → Cmd S ℕ
  guest_claim context =
      if bad_context context then pure 0 else plic.load (0x200004 / 4 + 0x1000 / 4 * context)

  unfoldable pub guest_complete : ℕ → ℕ → Cmd S (Unit {0})
  guest_complete context interrupt_id =
      if bad_context context
      then pure tt
      else plic.store (0x200004 / 4 + 0x1000 / 4 * context) interrupt_id

-- `lw a0` and `sw a1` of a word of the controller's window.
abbrev pub load_word : ℕ → Instr
load_word word = record {
  opcode = 0x3;
  rd = 10;
  funct3 = 2;
  addr_offset = 0;
  rs2 = 0;
  addr = dtb_plic + 4 * word;
}

abbrev pub store_word : ℕ → Instr
store_word word = record {
  opcode = 0x23;
  rd = 0;
  funct3 = 2;
  addr_offset = 0;
  rs2 = 11;
  addr = dtb_plic + 4 * word;
}

abbrev pub set_a1 : ℕ → Hart → Hart
set_a1 val h = record h { vcpu = record (h.vcpu) { regs = set_reg h.vcpu.regs 11 val } }

-- The controller as the hypervisor emulates it: the loads and stores trap.
abbrev pub emulated : Device → Words Hart
emulated device = record {
  load = λ word. do
    emulate_load device (load_word word)
    h ← get
    pure (u32 (h.vcpu.regs 10));
  store = λ word val. do
    modify (set_a1 val)
    emulate_store (store_word word);
}
