-- ===== src/Lock/Race.antt =====
-- `if (LAST_HART)` reads the tokens after the lock is released, so two harts can both find themselves
-- the last. Then each sets `passed` to 1 and waits for the other to add to it.
use riscv_hypervisor.Common.{ℕ, ◌<◌, ◌≡◌, ◌≢◌, refl, arith}
use riscv_hypervisor.Dtb.{dtb_nr_cpus}
use riscv_hypervisor.Lock.{Barrier, Pc, Move, System, Step, step, start, Reach, here, next}

-- All harts wait for others to pass, and the count of those that passed is short.
pub record IsStuck (count : ℕ) (s : System) : Type 0 where
  pub waiting : (i : ℕ) → i < count → s.pc i ≡ Pc.wait_passed
  pub short : s.bar.passed ≢ s.bar.initial

Move-waits :
    {b b' : Barrier} {p p' : Pc}
    → Move b p b' p'
    → p ≡ Pc.wait_passed
    → b.passed ≢ b.initial
    → (b' ≡ b) × (p' ≡ Pc.wait_passed)
Move-waits (Move.not_all_passed h) e ne = (refl, refl)
Move-waits (Move.all_passed h) e ne = absurd (ne h)
Move-waits mv e ne = ground arith

Step-IsStuck : {count : ℕ} {s t : System} → Step count s t → IsStuck count s → IsStuck count t
Step-IsStuck (step i lt mv) stuck =
    let same = Move-waits mv (stuck.waiting i lt) stuck.short in
    record {
      waiting = λ j below. ground (arith, same, stuck.waiting j below);
      short = ground (arith, same, stuck.short);
    }

-- Such a state is never left.
pub Reach-IsStuck : {count : ℕ} {s t : System} → Reach count s t → IsStuck count s → IsStuck count t
Reach-IsStuck here stuck = stuck
Reach-IsStuck (next r st) stuck = Step-IsStuck st (Reach-IsStuck r stuck)

-- Both harts of the board take a token before either tests for the last.
both_last :
    (s : System) × Reach 2 (start 2) s
    × (s.pc 0 ≡ Pc.wait_passed)
    × (s.pc 1 ≡ Pc.wait_passed)
    × (s.bar.passed ≡ 1)
    × (s.bar.initial ≡ 2)
both_last =
    let a = next here (step 0 (omega arith) Move.enter) in
    let b = next a (step 0 (omega arith) (Move.acquire_token refl)) in
    let c = next b (step 0 (omega arith) Move.loads_tokens) in
    let d = next c (step 0 (omega arith) Move.stores_tokens) in
    let e = next d (step 0 (omega arith) Move.releases_token) in
    let f = next e (step 1 (omega arith) Move.enter) in
    let g = next f (step 1 (omega arith) (Move.acquire_token refl)) in
    let h = next g (step 1 (omega arith) Move.loads_tokens) in
    let i = next h (step 1 (omega arith) Move.stores_tokens) in
    let j = next i (step 1 (omega arith) Move.releases_token) in
    let k = next j (step 0 (omega arith) (Move.is_last refl)) in
    let l = next k (step 1 (omega arith) (Move.is_last refl)) in
    let m = next l (step 0 (omega arith) Move.sets_passed) in
    let n = next m (step 0 (omega arith) Move.resets_tokens) in
    let o = next n (step 1 (omega arith) Move.sets_passed) in
    let p = next o (step 1 (omega arith) Move.resets_tokens) in (_, p, refl, refl, refl, refl)

both_last-IsStuck : IsStuck 2 both_last.0
both_last-IsStuck = record {
  waiting = λ i below. ground (arith, both_last.2, both_last.3);
  short = λ e. omega (arith, both_last.4, both_last.5);
}

-- With the two harts of the board an interleaving leads the barrier to a state from which,
-- however the harts go on, both stay in the waiting loop of the last hart.
pub both_harts_stick :
    (s : System) × Reach dtb_nr_cpus (start dtb_nr_cpus) s
    × ((t : System) → Reach dtb_nr_cpus s t → (t.pc 0 ≡ Pc.wait_passed) × (t.pc 1 ≡ Pc.wait_passed))
both_harts_stick =
    let (s, r, first, second, passed, initial) = both_last in
    (
      s,
      r,
      λ t later.
          let stuck = Reach-IsStuck later (both_last-IsStuck) in
          (stuck.waiting 0 (omega arith), stuck.waiting 1 (omega arith)),
    )
