-- ===== src/VmRun/Start.antt =====
-- The state of a virtual machine's start on one hart: init_vm_barriers, init_hs, init_vs and vm_run.
-- `wait_barrier` is modelled in Lock; between two barriers a hart works on its own state and, where
-- it is the first of its machine, on its page table.
use riscv_hypervisor.Common.{
  ℕ, ◌-◌, ◌^◌, List, [], ◌∷◌, Option, none, some, ◌==◌, if◌then◌else◌, bit_or, shr,
}
use riscv_hypervisor.Common.Effects.{Cmd, Outcome, ok, panic, fault, ◌>>=◌, ◌>>◌, pure, get, modify}
use riscv_hypervisor.Bits.{count_set_bits}
use riscv_hypervisor.Lock.{Barrier, init_barrier}
use riscv_hypervisor.Memory.{kva2pa}
use riscv_hypervisor.Csr.{
  Csrs, csrw, csrs, sstatus, vsstatus, vsie, vstvec, vsscratch, vsepc, vscause, vstval, vsip,
  vstimecmp, vsatp, hstatus, hedeleg, hideleg, hie, htimedelta, hcounteren, hgeie, henvcfg, hip,
  hgatp, sstatus_spp, atp_mode_sv39, hstatus_vsxl_64, hstatus_spv, hideleg_vsti, hideleg_vsei,
  hcounteren_tm, henvcfg_sstc, henvcfg_adue, hedeleg_instruction_addr_misaligned,
  hedeleg_instruction_access_fault, hedeleg_illegal_instruction, hedeleg_breakpoint,
  hedeleg_load_addr_misaligned, hedeleg_load_access_fault, hedeleg_store_or_amo_address_misaligned,
  hedeleg_store_or_amo_access_fault, hedeleg_ecall_from_u, hedeleg_instruction_page_fault,
  hedeleg_load_page_fault, hedeleg_store_or_amo_page_fault,
}
use riscv_hypervisor.VmConfig.{VmConfig}
use riscv_hypervisor.Vcpu.{Hart, init_vcpu}
use riscv_hypervisor.Trap.{Machine, on_hart, on_ram}
use riscv_hypervisor.VmRun.{check_cpu_configuration, init_hs_pgtable}

-- A hart and the memory, the hart's other registers, and the barriers of the machines in the order
-- of the configuration.
pub record Core : Type 0 where
  pub machine : Machine
  pub registers : Csrs
  pub barriers : List Barrier

abbrev pub with_core : {A : Type 0} → Core → Outcome Machine A → Outcome Core A
with_core s (ok a machine) = ok a (record s { machine = machine })
with_core s (panic p) = panic p
with_core s fault = fault

abbrev pub on_machine : {A : Type 0} → Cmd Machine A → Cmd Core A
on_machine m s = with_core s (m s.machine)

abbrev pub write : ℕ → ℕ → Cmd Core (Unit {0})
write csr val = modify (λ s. record s { registers = csrw csr val s.registers })

abbrev pub set_bits : ℕ → ℕ → Cmd Core (Unit {0})
set_bits csr mask = modify (λ s. record s { registers = csrs csr mask s.registers })

-- The registers that are fields of the hart.
abbrev pub on_registers : (Hart → Hart) → Cmd Core (Unit {0})
on_registers f = modify (λ s. record s { machine = record (s.machine) { hart = f s.machine.hart } })

-- The exceptions that go straight to the guest.
abbrev pub delegated : ℕ
delegated =
    bit_or
      (bit_or
        (bit_or
          (bit_or
            (bit_or
              (bit_or
                (bit_or
                  (bit_or
                    (bit_or
                      (bit_or
                        (bit_or (bit_or 0 hedeleg_instruction_addr_misaligned)
                          hedeleg_instruction_access_fault)
                        hedeleg_illegal_instruction)
                      hedeleg_breakpoint)
                    hedeleg_load_addr_misaligned)
                  hedeleg_load_access_fault)
                hedeleg_store_or_amo_address_misaligned)
              hedeleg_store_or_amo_access_fault)
            hedeleg_ecall_from_u)
          hedeleg_instruction_page_fault)
        hedeleg_load_page_fault)
      hedeleg_store_or_amo_page_fault

unfoldable pub init_hs : VmConfig → Cmd Core (Unit {0})
init_hs conf = do
  let pgtable_pa = kva2pa conf.vm_pgtable
  write hgatp (bit_or atp_mode_sv39 (shr pgtable_pa 12))
  write hstatus (bit_or hstatus_vsxl_64 hstatus_spv)
  write hedeleg delegated
  write hideleg (bit_or hideleg_vsti hideleg_vsei)
  on_registers (λ h. record h { hvip = 0 })
  write hip 0
  write hie 0
  write hgeie 0
  write hcounteren hcounteren_tm
  write htimedelta 0
  on_registers (λ h. record h { htval = 0 })
  on_registers (λ h. record h { htinst = 0 })
  set_bits henvcfg (bit_or henvcfg_sstc henvcfg_adue)

unfoldable pub init_vs : Cmd Core (Unit {0})
init_vs = do
  write vsstatus 0
  write vsip 0
  write vsie 0
  write vstvec 0
  write vsscratch 0
  write vsepc 0
  write vscause 0
  write vstval 0
  write vsatp 0
  write vstimecmp (2 ^ 64 - 1)

-- The loop over the machines and their barriers; `fault` stands for a count that does not end, and
-- for a machine without a barrier.
unfoldable pub init_bars : List VmConfig → List Barrier → Option (List Barrier)
init_bars [] bars = some bars
init_bars (c ∷ config) [] = none
init_bars (c ∷ config) (bar ∷ bars) =
    counted (count_set_bits c.cpu_affinity) (init_bars config bars)
  where
    counted : Option ℕ → Option (List Barrier) → Option (List Barrier)
    counted none rest = none
    counted (some count) none = none
    counted (some count) (some rest) = some (init_barrier count bar ∷ rest)

abbrev pub set_barriers : Core → Option (List Barrier) → Outcome Core (Unit {0})
set_barriers s none = fault
set_barriers s (some bars) = ok tt (record s { barriers = bars })

unfoldable pub init_vm_barriers : List VmConfig → Cmd Core (Unit {0})
init_vm_barriers config s = set_barriers s (init_bars config s.barriers)

-- `vm_run` up to its first barrier.
unfoldable pub check_phase : List VmConfig → ℕ → Cmd Core (Unit {0})
check_phase config hartid =
    if hartid == 0
    then (do init_vm_barriers config; on_machine (on_ram (check_cpu_configuration config)))
    else pure tt

-- The first hart of a machine maps its memory.
abbrev pub map_table : Cmd Core (Unit {0})
map_table s =
    if s.machine.hart.vcpu.vhartid == 0
    then on_machine (on_ram (init_hs_pgtable s.machine.hart.vcpu.conf)) s
    else ok tt s

-- `vm_run` between its barriers.
unfoldable pub map_phase : List VmConfig → Cmd Core (Unit {0})
map_phase config = on_machine (on_hart (init_vcpu config)) >> map_table

-- `vm_run` behind its second barrier, up to the entry into the guest.
unfoldable pub enter_phase : Cmd Core (Unit {0})
enter_phase = do
  s ← get
  init_hs s.machine.hart.vcpu.conf
  init_vs
  set_bits sstatus sstatus_spp
  on_registers (λ h. record h { sepc = h.vcpu.conf.entry })

unfoldable pub vm_run : List VmConfig → ℕ → Cmd Core (Unit {0})
vm_run config hartid = do check_phase config hartid; map_phase config; enter_phase
