-- ===== src/Vplic/Store/Places.antt =====
-- The registers of the window of virtual/vplic.c, and what a store to each does to the hart.
use riscv_hypervisor.Common.{
  ℕ, zero, suc, List, Option, ap, ◌%◌, ◌≤◌, ◌+◌, ◌-◌, ◌*◌, ◌/◌, ◌^◌, ◌<◌, ◌≡◌, refl, inl, inr,
  Bool-cases, ◌==◌, ◌&&◌, if◌then◌else◌, u32, bit_and, arith,
}
use riscv_hypervisor.Plic.{
  Bus, plic_set_enabled, plic_set_priority, plic_set_threshold, plic_complete,
}
use riscv_hypervisor.Vcpu.{Hart}
use riscv_hypervisor.VmConfig.{MmioDev}
use riscv_hypervisor.Common.Masks.{two_pow-bit_and}
use native.Mathlib.Nat.{one-le-pow}
use riscv_hypervisor.Vplic.Irq.{virt_to_phys_irq}
use riscv_hypervisor.Vplic.Store.{hvip_vseip, enable_loop}

-- The registers of the window.
pub data Place : Type 0 where
  priority : (virt_irq : ℕ) → Place
  pending : (group : ℕ) → Place
  enable : (ctx group : ℕ) → Place
  threshold : (ctx : ℕ) → Place
  claim_complete : (ctx : ℕ) → Place

abbrev pub offset_of : Place → ℕ
offset_of (priority virt_irq) = 4 * virt_irq
offset_of (pending group) = 0x1000 + 4 * group
offset_of (enable ctx group) = 0x2000 + 0x80 * ctx + 4 * group
offset_of (threshold ctx) = 0x200000 + 0x1000 * ctx
offset_of (claim_complete ctx) = 0x200004 + 0x1000 * ctx

abbrev pub IsPlace : Place → Type 0
IsPlace (priority virt_irq) = virt_irq < 1024
IsPlace (pending group) = group < 32
IsPlace (enable ctx group) = (ctx < 15872) × (group < 32)
IsPlace (threshold ctx) = ctx < 15872
IsPlace (claim_complete ctx) = ctx < 15872

-- The accesses for the lowest `n` bits of an enable word, one for each source of its group.
abbrev pub enable_bits : List (Option MmioDev) → ℕ → ℕ → ℕ → ℕ → Bus → Bus
enable_bits devs pctx val group zero bus = bus
enable_bits devs pctx val group (suc n) bus =
    plic_set_enabled (u32 pctx) (virt_to_phys_irq devs (u32 (32 * group + n))) (val / 2 ^ n % 2)
      (enable_bits devs pctx val group n bus)

-- What a store does to the hart; a guest has one context, and stores to others are dropped.
abbrev pub effect : ℕ → ℕ → Place → ℕ → Hart → Hart
effect vctx pctx (priority virt_irq) val h = record h {
  bus = plic_set_priority (virt_to_phys_irq h.vcpu.conf.devices virt_irq) val h.bus;
}
effect vctx pctx (pending group) val h = h
effect vctx pctx (enable ctx group) val h =
    if vctx == ctx
    then record h { bus = enable_bits h.vcpu.conf.devices pctx val group 32 h.bus }
    else h
effect vctx pctx (threshold ctx) val h =
    if vctx == ctx then record h { bus = plic_set_threshold (u32 pctx) (u32 val) h.bus } else h
effect vctx pctx (claim_complete ctx) val h =
    if vctx == ctx && virt_to_phys_irq h.vcpu.conf.devices val == h.vcpu.last_claimed_irq_id
    then record h {
      vcpu = record (h.vcpu) { last_claimed_irq_id = 0 };
      bus = plic_complete (u32 pctx) h.vcpu.last_claimed_irq_id h.bus;
      hvip = bit_and h.hvip (2 ^ 64 - 1 - hvip_vseip);
    }
    else h

source-swap : (group i : ℕ) → group * 32 + i ≡ 32 * group + i
source-swap group i = omega arith

scaled_test : (b p : ℕ) → b < 2 → 1 ≤ p → (b * p == 0) ≡ (b == 0)
scaled_test zero p two some_bits = ground arith
scaled_test (suc zero) p two some_bits = ground arith
scaled_test (suc (suc b)) p two some_bits = absurd (omega arith)

enable_test : (i val : ℕ) → (bit_and (2 ^ i) val == 0) ≡ (val / 2 ^ i % 2 == 0)
enable_test i val =
    rw (two_pow-bit_and i val)
      (scaled_test (val / 2 ^ i % 2) (2 ^ i) (omega arith) (one-le-pow i 2 (omega arith)))

pub enable_loop-enable_bits :
    (devs : List (Option MmioDev)) (pctx val group left i n : ℕ) (bus : Bus)
    → i + left ≡ n
    → enable_loop devs pctx val group left i (enable_bits devs pctx val group i bus)
      ≡ enable_bits devs pctx val group n bus
unfolding enable_loop plic_set_enabled
enable_loop-enable_bits devs pctx val group zero i n bus e =
    let same : i ≡ n = omega (arith, e) in
    ap (λ (t : ℕ). enable_bits devs pctx val group t bus) same
enable_loop-enable_bits devs pctx val group (suc left) i n bus e =
    let next : i + 1 ≡ suc i = omega arith in
    rw (enable_test i val, source-swap group i, next)
      (enable_loop-enable_bits devs pctx val group left (suc i) n bus (omega (arith, e)))

pub offset_of-lt : (place : Place) → IsPlace place → offset_of place < 0x4000000
offset_of-lt (priority virt_irq) p = omega (arith, p)
offset_of-lt (pending group) p = omega (arith, p)
offset_of-lt (enable ctx group) p = omega (arith, p.0, p.1)
offset_of-lt (threshold ctx) p = omega (arith, p)
offset_of-lt (claim_complete ctx) p = omega (arith, p)

pub effect-sepc :
    (vctx pctx : ℕ) (place : Place) (val : ℕ) (h : Hart)
    → (effect vctx pctx place val h).sepc ≡ h.sepc
effect-sepc vctx pctx (priority virt_irq) val h = refl
effect-sepc vctx pctx (pending group) val h = refl
effect-sepc vctx pctx (enable ctx group) val h = elim (Bool-cases (vctx == ctx)) [
  | inl e ↦ rw e refl
  | inr e ↦ rw e refl
]
effect-sepc vctx pctx (threshold ctx) val h = elim (Bool-cases (vctx == ctx)) [
  | inl e ↦ rw e refl
  | inr e ↦ rw e refl
]
effect-sepc vctx pctx (claim_complete ctx) val h =
    elim (Bool-cases
      (vctx == ctx && virt_to_phys_irq h.vcpu.conf.devices val == h.vcpu.last_claimed_irq_id)) [
        | inl e ↦ rw e refl
        | inr e ↦ rw e refl
      ]
