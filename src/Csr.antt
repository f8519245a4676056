-- ===== src/Csr.antt =====
-- include/riscv.h: the control and status registers of a hart, by their numbers in the instruction
-- set, and the bits that the modelled code gives them. `hvip`, `htval`, `htinst`, `sepc`, `time` and
-- `stimecmp` are fields of the `Hart` in Vcpu.
use riscv_hypervisor.Common.{ℕ, ◌*◌, ◌-◌, ◌^◌, ◌==◌, if◌then◌else◌, bit_and, bit_or}

-- Every number has a 64-bit value.
abbrev pub Csrs : Type 0
Csrs = ℕ → ℕ

-- CSRW, CSRS and CSRC
unfoldable pub csrw : ℕ → ℕ → Csrs → Csrs
csrw csr val csrs n = if n == csr then val else csrs n

unfoldable pub csrs : ℕ → ℕ → Csrs → Csrs
csrs csr mask regs n = if n == csr then bit_or (regs n) mask else regs n

unfoldable pub csrc : ℕ → ℕ → Csrs → Csrs
csrc csr mask regs n = if n == csr then bit_and (regs n) (2 ^ 64 - 1 - mask) else regs n

abbrev pub sstatus : ℕ
sstatus = 0x100

abbrev pub sie : ℕ
sie = 0x104

abbrev pub stvec : ℕ
stvec = 0x105

abbrev pub satp : ℕ
satp = 0x180

abbrev pub vsstatus : ℕ
vsstatus = 0x200

abbrev pub vsie : ℕ
vsie = 0x204

abbrev pub vstvec : ℕ
vstvec = 0x205

abbrev pub vsscratch : ℕ
vsscratch = 0x240

abbrev pub vsepc : ℕ
vsepc = 0x241

abbrev pub vscause : ℕ
vscause = 0x242

abbrev pub vstval : ℕ
vstval = 0x243

abbrev pub vsip : ℕ
vsip = 0x244

abbrev pub vstimecmp : ℕ
vstimecmp = 0x24d

abbrev pub vsatp : ℕ
vsatp = 0x280

abbrev pub hstatus : ℕ
hstatus = 0x600

abbrev pub hedeleg : ℕ
hedeleg = 0x602

abbrev pub hideleg : ℕ
hideleg = 0x603

abbrev pub hie : ℕ
hie = 0x604

abbrev pub htimedelta : ℕ
htimedelta = 0x605

abbrev pub hcounteren : ℕ
hcounteren = 0x606

abbrev pub hgeie : ℕ
hgeie = 0x607

abbrev pub henvcfg : ℕ
henvcfg = 0x60a

abbrev pub hip : ℕ
hip = 0x644

abbrev pub hgatp : ℕ
hgatp = 0x680

abbrev pub sie_stie : ℕ
sie_stie = 2 ^ 5

abbrev pub sie_seie : ℕ
sie_seie = 2 ^ 9

abbrev pub sstatus_spp : ℕ
sstatus_spp = 2 ^ 8

abbrev pub tvec_mode : ℕ
tvec_mode = 0b11

abbrev pub tvec_mode_direct : ℕ
tvec_mode_direct = 0

abbrev pub atp_mode_sv39 : ℕ
atp_mode_sv39 = 8 * 2 ^ 60

abbrev pub hstatus_vsxl_64 : ℕ
hstatus_vsxl_64 = 2 * 2 ^ 32

abbrev pub hstatus_spv : ℕ
hstatus_spv = 2 ^ 7

abbrev pub hideleg_vsti : ℕ
hideleg_vsti = 2 ^ 6

abbrev pub hideleg_vsei : ℕ
hideleg_vsei = 2 ^ 10

abbrev pub hcounteren_tm : ℕ
hcounteren_tm = 2 ^ 1

abbrev pub henvcfg_sstc : ℕ
henvcfg_sstc = 2 ^ 63

abbrev pub henvcfg_adue : ℕ
henvcfg_adue = 2 ^ 61

abbrev pub hedeleg_instruction_addr_misaligned : ℕ
hedeleg_instruction_addr_misaligned = 2 ^ 0

abbrev pub hedeleg_instruction_access_fault : ℕ
hedeleg_instruction_access_fault = 2 ^ 1

abbrev pub hedeleg_illegal_instruction : ℕ
hedeleg_illegal_instruction = 2 ^ 2

abbrev pub hedeleg_breakpoint : ℕ
hedeleg_breakpoint = 2 ^ 3

abbrev pub hedeleg_load_addr_misaligned : ℕ
hedeleg_load_addr_misaligned = 2 ^ 4

abbrev pub hedeleg_load_access_fault : ℕ
hedeleg_load_access_fault = 2 ^ 5

abbrev pub hedeleg_store_or_amo_address_misaligned : ℕ
hedeleg_store_or_amo_address_misaligned = 2 ^ 6

abbrev pub hedeleg_store_or_amo_access_fault : ℕ
hedeleg_store_or_amo_access_fault = 2 ^ 7

abbrev pub hedeleg_ecall_from_u : ℕ
hedeleg_ecall_from_u = 2 ^ 8

abbrev pub hedeleg_instruction_page_fault : ℕ
hedeleg_instruction_page_fault = 2 ^ 12

abbrev pub hedeleg_load_page_fault : ℕ
hedeleg_load_page_fault = 2 ^ 13

abbrev pub hedeleg_store_or_amo_page_fault : ℕ
hedeleg_store_or_amo_page_fault = 2 ^ 15
