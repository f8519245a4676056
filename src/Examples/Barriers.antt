-- ===== src/Examples/Barriers.antt =====
-- Harts at a barrier.
use riscv_hypervisor.Common.{◌≡◌, false, refl, arith}
use riscv_hypervisor.Lock.{System, Pc, Move, Reach, here, next, step, start}
use riscv_hypervisor.Lock.Mutex.{holds, mutual_exclusion}
use riscv_hypervisor.Lock.Safety.{arrived, none_passes_early}

-- Hart 0 of two takes the lock.
takes_lock : (s : System) × Reach 2 (start 2) s × (s.pc 0 ≡ Pc.load_tokens)
takes_lock = (
  _,
  next (next here (step 0 (omega arith) Move.enter))
      (step 0 (omega arith) (Move.acquire_token refl)),
  refl,
)

mutual_exclusion_example : holds (takes_lock.0.pc 1) ≡ false
mutual_exclusion_example =
    mutual_exclusion takes_lock.1 0 1 (omega arith) (ground (arith, takes_lock.2))

-- A barrier of one hart lets it through.
goes_through : (s : System) × Reach 1 (start 1) s × (s.pc 0 ≡ Pc.done)
goes_through =
    let a = next here (step 0 (omega arith) Move.enter) in
    let b = next a (step 0 (omega arith) (Move.acquire_token refl)) in
    let c = next b (step 0 (omega arith) Move.loads_tokens) in
    let d = next c (step 0 (omega arith) Move.stores_tokens) in
    let e = next d (step 0 (omega arith) Move.releases_token) in
    let f = next e (step 0 (omega arith) (Move.is_last refl)) in
    let g = next f (step 0 (omega arith) Move.sets_passed) in
    let h = next g (step 0 (omega arith) Move.resets_tokens) in
    let i = next h (step 0 (omega arith) (Move.all_passed refl)) in (_, i, refl)

none_passes_early_example : arrived (goes_through.0.pc 0) ≡ 1
none_passes_early_example =
    none_passes_early (omega arith) goes_through.1 0 0 (omega arith) (omega arith) goes_through.2
