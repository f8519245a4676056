-- ===== src/Common/Effects.antt =====
-- Commands on a state `S` that may stop: `panic` is a call of the macro of that name, which prints
-- its message and spins for ever, and `fault` an access that C leaves undefined.
use riscv_hypervisor.Common.{Bool, true, false, ◌≡◌}

-- One constructor for each call of `panic` that is modelled.
pub data Panic : Type 0 where
  bad_config : Panic
  misaligned : Panic
  unsupported_instruction : Panic
  bad_load_opcode : Panic
  bad_load_funct3 : Panic
  bad_store_opcode : Panic
  bad_store_funct3 : Panic
  bad_plic_access : Panic
  unknown_interrupt : Panic
  unknown_exception : Panic
  bad_read : Panic
  bad_write : Panic
  bad_free : Panic
  no_root : Panic
  remapped : Panic
  bad_walk : Panic
  shared_cpu : Panic
  bad_cpu_number : Panic
  bad_map : Panic
  bad_base : Panic
  null_format : Panic
  bad_length : Panic
  unknown_specifier : Panic

pub data Outcome (S : Type 0) (A : Type 0) : Type 0 where
  ok : A → S → Outcome S A
  panic : Panic → Outcome S A
  fault : Outcome S A

abbrev pub Cmd : Type 0 → Type 0 → Type 0
Cmd S A = S → Outcome S A

module _ {S A B : Type 0} where
  abbrev pub and_then : Outcome S A → (A → Cmd S B) → Outcome S B
  and_then (ok a s) k = k a s
  and_then (panic p) k = panic p
  and_then fault k = fault

  infixl 5 ◌>>=◌ ◌>>◌
  abbrev pub ◌>>=◌ : Cmd S A → (A → Cmd S B) → Cmd S B
  m >>= k = λ s. and_then (m s) k

  abbrev pub ◌>>◌ : Cmd S A → Cmd S B → Cmd S B
  m >> n = m >>= λ _. n

module _ {S : Type 0} where
  abbrev pub pure : {A : Type 0} → A → Cmd S A
  pure a s = ok a s

  abbrev pub stop : {A : Type 0} → Panic → Cmd S A
  stop p s = panic p

  abbrev pub get : Cmd S S
  get s = ok s s

  abbrev pub modify : (S → S) → Cmd S (Unit {0})
  modify f s = ok tt (f s)

  -- `if (b) panic(...)`
  abbrev pub panic_if : Bool → Panic → Cmd S (Unit {0})
  panic_if true p = stop p
  panic_if false p = pure tt

-- A command that ended normally ended each of its parts normally.
module _ {S A B : Type 0} where
  pub and_then-eq-ok :
      (m : Outcome S A) (k : A → Cmd S B) {b : B} {t : S}
      → and_then m k ≡ ok b t
      → (a : A) × (s : S) × (m ≡ ok a s) × (k a s ≡ ok b t)
  and_then-eq-ok (ok a s) k h = (a, s, λ _. ok a s, h)
  and_then-eq-ok (panic p) k h = cc
  and_then-eq-ok fault k h = cc

module _ {S : Type 0} where
  -- A test that was passed.
  pub panic_if-eq-ok :
      (b : Bool) (p : Panic) (s : S) {t : S} → panic_if b p s ≡ ok tt t → (b ≡ false) × (s ≡ t)
  panic_if-eq-ok true p s h = cc
  panic_if-eq-ok false p s h = (λ _. false, cc)
