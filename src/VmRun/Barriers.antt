-- ===== src/VmRun/Barriers.antt =====
-- `init_vm_barriers`: the barrier of each machine is made for the machine's harts.
use riscv_hypervisor.Common.{
  ℕ, zero, suc, ◌+◌, ◌/◌, ◌%◌, ◌^◌, ◌<◌, ◌≤◌, ◌≡◌, refl, arith, min, List, [], ◌∷◌, some,
}
use riscv_hypervisor.Common.Effects.{ok}
use riscv_hypervisor.Bits.{count_set_bits}
use riscv_hypervisor.Bits.Count.{ones, count_set_bits-ones}
use riscv_hypervisor.Lock.{Barrier, init_barrier}
use riscv_hypervisor.VmConfig.{VmConfig}
use riscv_hypervisor.Vcpu.{get_vhartid}
use riscv_hypervisor.Vcpu.Numbering.{get_vhartid-ones, ones-lt}
use riscv_hypervisor.VmRun.Start.{Core, init_bars, init_vm_barriers}

-- The machines own harts below 31 only, and each has a barrier.
abbrev pub AreOwned : List VmConfig → List Barrier → Type 0
AreOwned [] bars = Unit
AreOwned (c ∷ config) [] = ⊥
AreOwned (c ∷ config) (bar ∷ bars) = (c.cpu_affinity < 2 ^ 31) × AreOwned config bars

-- The barrier is open and waits for as many harts as the machine has, and a hart of the machine has
-- a virtual number below that.
abbrev pub IsCounted : VmConfig → Barrier → Type 0
IsCounted c bar =
    (bar.initial ≡ ones 31 c.cpu_affinity)
    × (bar.tokens ≡ bar.initial)
    × (bar.locked ≡ 0)
    × (bar.initial ≤ 31)
    × ((i : ℕ)
        → i < 31
        → c.cpu_affinity / 2 ^ i % 2 ≡ 1
        → get_vhartid i c.cpu_affinity < bar.initial)

abbrev pub AreCounted : List VmConfig → List Barrier → Type 0
AreCounted [] bars = Unit
AreCounted (c ∷ config) [] = ⊥
AreCounted (c ∷ config) (bar ∷ bars) = IsCounted c bar × AreCounted config bars

ones-le : (k x : ℕ) → ones k x ≤ k
unfolding ones
ones-le zero x = omega arith
ones-le (suc k) x = omega (arith, ones-le k (x / 2))

affinity_count : (x : ℕ) → x < 2 ^ 31 → count_set_bits x ≡ some (ones 31 x)
affinity_count x h =
    let none_above : ones 31 x + min 1 (x / 2 ^ 31) ≡ ones 31 x =
      (let z : x / 2 ^ 31 ≡ 0 = omega arith in rw z (omega arith)) in
    rw (count_set_bits-ones x (omega arith), none_above)

init_barrier-IsCounted :
    (c : VmConfig) (bar : Barrier) → IsCounted c (init_barrier (ones 31 c.cpu_affinity) bar)
unfolding init_barrier
init_barrier-IsCounted c bar = (
  refl,
  refl,
  refl,
  ones-le 31 c.cpu_affinity,
  λ i h own. rw (get_vhartid-ones i c.cpu_affinity) (ones-lt i 31 c.cpu_affinity h own),
)

init_bars-AreCounted :
    (config : List VmConfig) (bars : List Barrier)
    → AreOwned config bars
    → (after : List Barrier) × (init_bars config bars ≡ some after) × AreCounted config after
unfolding init_bars
init_bars-AreCounted [] bars owned = (bars, refl, tt)
init_bars-AreCounted (c ∷ config) [] owned = absurd owned
init_bars-AreCounted (c ∷ config) (bar ∷ bars) owned =
    let (after, e, counted) = init_bars-AreCounted config bars owned.1 in
    (
      init_barrier (ones 31 c.cpu_affinity) bar ∷ after,
      rw (affinity_count c.cpu_affinity owned.0, e) refl,
      (init_barrier-IsCounted c bar, counted),
    )

-- For machines that own harts below 31 only and have a barrier each: init_vm_barriers ends and
-- changes the barriers only; each machine's barrier is then unlocked, has a token for each hart
-- of the machine and starts again with as many, at most 31, and the virtual number of each of
-- the machine's harts is below that.
pub init_vm_barriers-AreCounted :
    (config : List VmConfig) (s : Core)
    → AreOwned config s.barriers
    → (bars : List Barrier) × (init_vm_barriers config s ≡ ok tt (record s { barriers = bars }))
      × AreCounted config bars
unfolding init_vm_barriers
init_vm_barriers-AreCounted config s owned =
    let (bars, e, counted) = init_bars-AreCounted config s.barriers owned in
    (bars, rw e refl, counted)
