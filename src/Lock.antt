-- ===== src/Lock.antt =====
-- lib/lock.c, lib/spinlock.S and include/lock.h: spinlocks and the barrier, for harts that run at
-- once. A hart's steps are the shared accesses of the code, one at a time; harts interleave freely.
pub mod Mutex
pub mod Count
pub mod Safety
pub mod Race
use riscv_hypervisor.Common.{ℕ, ◌+◌, ◌-◌, ◌^◌, ◌<◌, ◌≡◌, ◌≢◌, ◌==◌, if◌then◌else◌, u32}

-- The barrier and its lock. An `int` is its 32-bit pattern.
pub record Barrier : Type 0 where
  pub initial : ℕ
  pub tokens : ℕ
  pub passed : ℕ
  pub locked : ℕ

unfoldable pub init_barrier : ℕ → Barrier → Barrier
init_barrier count bar = record bar { tokens = count; initial = count; locked = 0 }

-- `BARRIER_INITIALIZER`; C sets the field that is not named to 0.
abbrev pub barrier_initializer : ℕ → Barrier
barrier_initializer count = record { initial = count; tokens = count; passed = 0; locked = 0 }

-- Where a hart stands in its one call of `wait_barrier`, with its live local value.
pub data Pc : Type 0 where
  outside : Pc
  want_token : Pc  -- before or in the first `acquire`
  load_tokens : Pc  -- the lock is held
  store_tokens : (n : ℕ) → Pc
  release_token : Pc
  test_last : Pc  -- `if (LAST_HART)`, after the release
  set_passed : Pc  -- the last hart
  reset_tokens : Pc
  wait_passed : Pc
  wait_reset : Pc  -- the other harts
  want_pass : Pc
  load_passed : Pc  -- the lock is held
  store_passed : (n : ℕ) → Pc
  release_pass : Pc
  done : Pc

-- One step of one hart. `acquire` ends with the `amoswap` that finds the lock free; the spinning
-- before it changes nothing. `release` is a single `amoswap`.
pub data Move (b : Barrier) : Pc → Barrier → Pc → Type 0 where
  enter : Move b outside b want_token
  acquire_token : b.locked ≡ 0 → Move b want_token (record b { locked = 1 }) load_tokens
  loads_tokens : Move b load_tokens b (store_tokens b.tokens)
  stores_tokens :
      {n : ℕ} → Move b (store_tokens n) (record b { tokens = u32 (n + 2 ^ 32 - 1) }) release_token
  releases_token : Move b release_token (record b { locked = 0 }) test_last
  is_last : b.tokens ≡ 0 → Move b test_last b set_passed
  is_not_last : b.tokens ≢ 0 → Move b test_last b wait_reset
  sets_passed : Move b set_passed (record b { passed = 1 }) reset_tokens
  resets_tokens : Move b reset_tokens (record b { tokens = b.initial }) wait_passed
  all_passed : b.passed ≡ b.initial → Move b wait_passed b done
  not_all_passed : b.passed ≢ b.initial → Move b wait_passed b wait_passed
  was_reset : b.tokens ≡ b.initial → Move b wait_reset b want_pass
  not_reset : b.tokens ≢ b.initial → Move b wait_reset b wait_reset
  acquire_pass : b.locked ≡ 0 → Move b want_pass (record b { locked = 1 }) load_passed
  loads_passed : Move b load_passed b (store_passed b.passed)
  stores_passed : {n : ℕ} → Move b (store_passed n) (record b { passed = u32 (n + 1) }) release_pass
  releases_pass : Move b release_pass (record b { locked = 0 }) done

-- `count` harts at one barrier, numbered from 0.
pub record System : Type 0 where
  pub bar : Barrier
  pub pc : ℕ → Pc

abbrev pub update : (ℕ → Pc) → ℕ → Pc → ℕ → Pc
update f i p j = if i == j then p else f j

pub data Step (count : ℕ) (s : System) : System → Type 0 where
  step :
      (i : ℕ) {b : Barrier} {p : Pc}
      → i < count
      → Move s.bar (s.pc i) b p
      → Step count s (record { bar = b; pc = update s.pc i p })

abbrev pub start : ℕ → System
start count = record { bar = barrier_initializer count; pc = λ _. outside }

pub data Reach (count : ℕ) (s : System) : System → Type 0 where
  here : Reach count s s
  next : {t u : System} → Reach count s t → Step count t u → Reach count s u
