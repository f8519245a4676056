-- ===== src/Vplic/Instr/Laws.antt =====
-- The parse against the layout of a transformed instruction.
use riscv_hypervisor.Common.{
  ℕ, ◌+◌, ◌*◌, ◌/◌, ◌%◌, ◌^◌, ◌<◌, ◌≡◌, ◌==◌, if◌then◌else◌, arith, Bool-cases, inl, inr, not, true,
}
use riscv_hypervisor.Common.Effects.{ok, panic, misaligned, unsupported_instruction}
use riscv_hypervisor.Bits.{get_value}
use riscv_hypervisor.Bits.Value.{get_value-field}
use riscv_hypervisor.Vcpu.{Hart}
use riscv_hypervisor.Vplic.Instr.{Instr, parse_htinst}

-- The fields of a transformed instruction.
abbrev pub fields : ℕ → ℕ → Instr
fields htinst addr = record {
  opcode = htinst % 2 ^ 7;
  rd = htinst / 2 ^ 7 % 2 ^ 5;
  funct3 = htinst / 2 ^ 12 % 2 ^ 3;
  addr_offset = htinst / 2 ^ 15 % 2 ^ 5;
  rs2 = htinst / 2 ^ 20 % 2 ^ 5;
  addr = addr;
}

-- On every value of htinst the parse gives its bit fields, or stops if the address offset is
-- not 0 or a bit from 25 to 31 is set.
pub parse_htinst-fields :
    (addr : ℕ) (h : Hart)
    → parse_htinst addr h ≡ (
        if not (h.htinst / 2 ^ 15 % 2 ^ 5 == 0)
        then panic misaligned
        else if not (h.htinst / 2 ^ 25 % 2 ^ 7 == 0)
        then panic unsupported_instruction
        else ok (fields h.htinst addr) h)
unfolding parse_htinst
parse_htinst-fields addr h =
    let x = h.htinst in
    let op : get_value x 0 7 % 2 ^ 8 ≡ x % 2 ^ 7 =
      omega (arith, get_value-field x 0 7 (omega arith) (omega arith)) in
    let rd : get_value x 7 5 % 2 ^ 8 ≡ x / 2 ^ 7 % 2 ^ 5 =
      omega (arith, get_value-field x 7 5 (omega arith) (omega arith)) in
    let f3 : get_value x 12 3 % 2 ^ 8 ≡ x / 2 ^ 12 % 2 ^ 3 =
      omega (arith, get_value-field x 12 3 (omega arith) (omega arith)) in
    let off : get_value x 15 5 % 2 ^ 8 ≡ x / 2 ^ 15 % 2 ^ 5 =
      omega (arith, get_value-field x 15 5 (omega arith) (omega arith)) in
    let rs2 : get_value x 20 5 % 2 ^ 8 ≡ x / 2 ^ 20 % 2 ^ 5 =
      omega (arith, get_value-field x 20 5 (omega arith) (omega arith)) in
    let top : get_value x 25 7 ≡ x / 2 ^ 25 % 2 ^ 7 =
      get_value-field x 25 7 (omega arith) (omega arith) in
    rw (op, rd, f3, off, rs2, top)
      (elim (Bool-cases (x / 2 ^ 15 % 2 ^ 5 == 0)) [
        | inr offset ↦ rw offset
        | inl aligned ↦ elim (Bool-cases (x / 2 ^ 25 % 2 ^ 7 == 0)) [
          | inr bits ↦ rw (aligned, bits)
          | inl clear ↦ rw (aligned, clear)
        ]
      ])

-- A load and a store as the hardware reports them: `0[12] 0[5] funct3[3] rd[5] opcode[7]` and
-- `0[7] rs2[5] 0[5] funct3[3] 0[5] opcode[7]`.
abbrev pub transformed : Instr → ℕ
transformed i = i.opcode + i.rd * 2 ^ 7 + i.funct3 * 2 ^ 12 + i.rs2 * 2 ^ 20

-- An instruction whose fields fit their widths and whose address offset is 0 comes back from
-- the value of htinst that the hardware makes of it.
pub parse_htinst-transformed :
    (i : Instr) (h : Hart)
    → h.htinst ≡ transformed i
    → i.opcode < 2 ^ 7
    → i.rd < 2 ^ 5
    → i.funct3 < 2 ^ 3
    → i.rs2 < 2 ^ 5
    → i.addr_offset ≡ 0
    → parse_htinst i.addr h ≡ ok i h
parse_htinst-transformed i h e op rd f3 rs2 off =
    let same : fields (transformed i) i.addr ≡ i = ground arith in
    let aligned : (transformed i / 2 ^ 15 % 2 ^ 5 == 0) ≡ true = ground arith in
    let clear : (transformed i / 2 ^ 25 % 2 ^ 7 == 0) ≡ true = ground arith in
    rw (parse_htinst-fields i.addr h, e, aligned, clear, same)
