-- ===== src/Vplic/Instr.antt =====
-- include/emulate.h and `parse_htinst`: the trapped instruction, from the register `htinst`.
pub mod Laws
use riscv_hypervisor.Common.{ℕ, ◌==◌, u8, not}
use riscv_hypervisor.Common.Effects.{
  Cmd, misaligned, unsupported_instruction, ◌>>=◌, ◌>>◌, pure, get, panic_if,
}
use riscv_hypervisor.Bits.{get_value}
use riscv_hypervisor.Vcpu.{Hart}

pub record Instr : Type 0 where
  pub opcode : ℕ
  pub rd : ℕ
  pub funct3 : ℕ
  pub addr_offset : ℕ
  pub rs2 : ℕ
  pub addr : ℕ

-- The handlers pass the address, which C stores into the structure after the parse.
unfoldable pub parse_htinst : ℕ → Cmd Hart Instr
parse_htinst addr = do
  h ← get
  let instr : Instr = record {
    opcode = u8 (get_value h.htinst 0 7);
    rd = u8 (get_value h.htinst 7 5);
    funct3 = u8 (get_value h.htinst 12 3);
    addr_offset = u8 (get_value h.htinst 15 5);
    rs2 = u8 (get_value h.htinst 20 5);
    addr = addr;
  }
  panic_if (not (instr.addr_offset == 0)) misaligned
  panic_if (not (get_value h.htinst 25 7 == 0)) unsupported_instruction
  pure instr
