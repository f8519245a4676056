-- ===== src/Vcpu.antt =====
-- virtual/vcpu.c and include/vcpu.h: the virtual processor of a hart, and the state of a hart that the
-- handlers work on.
pub mod Numbering
use riscv_hypervisor.Common.{
  ℕ, zero, suc, ◌+◌, ◌%◌, ◌/◌, ◌^◌, List, [], ◌∷◌, Option, none, some, ◌==◌, if◌then◌else◌, bit_and,
  sign_extend, Bool, not,
}
use riscv_hypervisor.Common.Effects.{Cmd, Panic, bad_config, ◌>>=◌, ◌>>◌, pure, stop, get, modify}
use riscv_hypervisor.Plic.{Bus}
use riscv_hypervisor.VmConfig.{VmConfig}

-- `regs` is `x[32]` of the packed structure.
pub record Vcpu : Type 0 where
  pub vhartid : ℕ
  pub last_claimed_irq_id : ℕ
  pub conf : VmConfig
  pub regs : ℕ → ℕ

-- One hart: its number, its own element of `vcpus`, the control and status registers that the
-- handlers use, and the accesses made to the interrupt controller. `sscratch` holds a pointer to the
-- saved registers of a hart, or nothing yet.
pub record Hart : Type 0 where
  pub hartid : ℕ
  pub vcpu : Vcpu
  pub sscratch : Option ℕ
  pub htinst : ℕ
  pub htval : ℕ
  pub sepc : ℕ
  pub hvip : ℕ
  pub time : ℕ
  pub stimecmp : ℕ
  pub bus : Bus

-- `x[r] = v`
abbrev pub set_reg : (ℕ → ℕ) → ℕ → ℕ → ℕ → ℕ
set_reg regs r v j = if j == r then v else regs j

-- `1 << hartid` is an `int`, widened with its sign. Hart numbers are below 32.
unfoldable pub get_config_for_cpu : List VmConfig → ℕ → Cmd Hart VmConfig
get_config_for_cpu [] hartid = stop bad_config
get_config_for_cpu (c ∷ config) hartid =
    if bit_and c.cpu_affinity (sign_extend (2 ^ hartid % 2 ^ 32)) == 0
    then get_config_for_cpu config hartid
    else pure c

-- The loop over the harts below, with the rounds that are left.
unfoldable pub vhartid_loop : ℕ → ℕ → ℕ → ℕ
vhartid_loop zero cpu_affinity vhartid = vhartid
vhartid_loop (suc left) cpu_affinity vhartid =
    vhartid_loop left (cpu_affinity / 2 ^ 1)
      (if bit_and cpu_affinity 1 == 0 then vhartid else vhartid + 1)

unfoldable pub get_vhartid : ℕ → ℕ → ℕ
unfolding vhartid_loop
get_vhartid hartid cpu_affinity = vhartid_loop hartid cpu_affinity 0

unfoldable pub init_vcpu : List VmConfig → Cmd Hart (Unit {0})
init_vcpu config = do
  h ← get
  conf ← get_config_for_cpu config h.hartid
  let vhartid = get_vhartid h.hartid conf.cpu_affinity
  modify λ h. record h {
    vcpu = record {
      vhartid = vhartid;
      last_claimed_irq_id = 0;
      conf = conf;
      regs = set_reg (set_reg (λ _. 0) 10 vhartid) 11 0xff;
    };
    sscratch = some h.hartid;
  }
