-- ===== src/Lock/Mutex.antt =====
-- The spinlock inside the barrier: one hart at a time holds it, in every interleaving.
use riscv_hypervisor.Common.{ℕ, ◌≡◌, ◌≢◌, Bool, true, false, arith}
use riscv_hypervisor.Lock.{Barrier, Pc, Move, System, Step, step, start, Reach, here, next}

-- Between the two `amoswap`s of a critical section.
abbrev pub holds : Pc → Bool
holds Pc.load_tokens = true
holds (Pc.store_tokens n) = true
holds Pc.release_token = true
holds Pc.load_passed = true
holds (Pc.store_passed n) = true
holds Pc.release_pass = true
holds _ = false

-- The lock is taken exactly while some hart holds it, and no two harts hold it.
pub record Inv (s : System) : Type 0 where
  pub taken : (i : ℕ) → holds (s.pc i) ≡ true → s.bar.locked ≡ 1
  pub single : (i j : ℕ) → holds (s.pc i) ≡ true → holds (s.pc j) ≡ true → i ≡ j

Move-locked : {b b' : Barrier} {p p' : Pc} → Move b p b' p' → record {
  if_free : holds p ≡ false → holds p' ≡ true → (b.locked ≡ 0) × (b'.locked ≡ 1);
  if_kept : holds p ≡ holds p' → b'.locked ≡ b.locked;
}
Move-locked (Move.acquire_token e) = ground arith
Move-locked (Move.acquire_pass e) = ground arith
Move-locked mv = ground arith

Inv-start : (count : ℕ) → Inv (start count)
Inv-start count = record { taken = λ i h. cc; single = λ i j h k. cc }

Step-Inv : {count : ℕ} {s t : System} → Step count s t → Inv s → Inv t
Step-Inv {s} (step i {b} {p} lt mv) inv = record {
  taken = λ j h. ground (arith, Move-locked mv, inv.taken i, inv.taken j, inv.single i j);
  single = λ j k h g. ground (
    arith,
    Move-locked mv,
    inv.taken j,
    inv.taken k,
    inv.single i j,
    inv.single i k,
    inv.single j k,
  );
}

pub Reach-Inv : {count : ℕ} {s : System} → Reach count (start count) s → Inv s
Reach-Inv {count} here = Inv-start count
Reach-Inv (next r st) = Step-Inv st (Reach-Inv r)

-- In every interleaving of harts at a barrier, while one hart is between acquire and release of
-- its lock, no other hart is.
pub mutual_exclusion :
    {count : ℕ} {s : System}
    → Reach count (start count) s
    → (i j : ℕ) → i ≢ j
    → holds (s.pc i) ≡ true
    → holds (s.pc j) ≡ false
mutual_exclusion {count} {s} r i j other mine =
    let inv = Reach-Inv r in ground (arith, inv.single i j)
