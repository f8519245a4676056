-- ===== src/Plic/Isolation.antt =====
-- The driver keeps to the registers of its caller, and those of two callers lie apart.
use riscv_hypervisor.Common.{
  ℕ, ◌+◌, ◌*◌, ◌≤◌, ◌<◌, ◌≡◌, ◌≢◌, refl, ◌⊎◌, inl, inr, Bool, true, false, some, arith, Bool-cases,
  ◌==◌,
}
use riscv_hypervisor.Common.Extends.{Extends, Extends-refl, Extends-one}
use riscv_hypervisor.Plic.{
  Access, Bus, Device, bad_source, bad_context, plic_get_priority, plic_set_priority,
  plic_get_pending, plic_get_enabled, plic_set_enabled, plic_get_threshold, plic_set_threshold,
  plic_complete, plic_claim,
}
use riscv_hypervisor.Plic.Registers.{
  MayAccess, gets, sets_priority, sets_threshold, completes, enables, disables, priority, pending,
  enable, threshold, claim, written, IsOwnSource,
}

-- Where the words lie that a caller may change.
abbrev OwnWord : (ℕ → Bool) → ℕ → ℕ → Type 0
OwnWord sources context i =
    IsOwnSource sources i
    ⊎ ((context ≤ 15871)
        × (((2048 + 32 * context ≤ i) × (i < 2080 + 32 * context))
            ⊎ ((524288 + 1024 * context ≤ i) × (i ≤ 524289 + 1024 * context))))

written-OwnWord :
    {sources : ℕ → Bool} {context : ℕ} {a : Access}
    → MayAccess sources context a
    → (i : ℕ) → written a ≡ some i
    → OwnWord sources context i
written-OwnWord (gets r o e) i w = ground arith
written-OwnWord (sets_priority p v o e) i w = ground arith
written-OwnWord (sets_threshold v o e) i w = ground arith
written-OwnWord (completes p o k e) i w = ground arith
written-OwnWord (enables p o e) i w = ground arith
written-OwnWord (disables p o e) i w = ground arith

OwnWord-apart :
    {mine yours : ℕ → Bool} {my_context your_context : ℕ} (i j : ℕ)
    → OwnWord mine my_context i
    → OwnWord yours your_context j
    → ((p : ℕ) → 1 ≤ p → mine p ≡ true → yours p ≡ false)
    → my_context ≢ your_context
    → i ≢ j
OwnWord-apart i j x y apart ne = ground (arith, apart i)

-- Accesses that change words, made for callers with other sources and another context, change
-- different words.
pub writes_apart :
    {mine yours : ℕ → Bool} {my_context your_context : ℕ} {a b : Access}
    → MayAccess mine my_context a
    → MayAccess yours your_context b
    → ((p : ℕ) → 1 ≤ p → mine p ≡ true → yours p ≡ false)
    → my_context ≢ your_context
    → (i j : ℕ) → written a ≡ some i
    → written b ≡ some j
    → i ≢ j
writes_apart m y apart ne i j wi wj =
    OwnWord-apart i j (written-OwnWord m i wi) (written-OwnWord y j wj) apart ne

module _ (sources : ℕ → Bool) (context : ℕ) where
  abbrev pub Own : Access → Type 0
  Own = MayAccess sources context

  pub set_priority-Own :
      (p value : ℕ) (bus : Bus)
      → (p ≡ 0) ⊎ (sources p ≡ true)
      → Extends Own bus (plic_set_priority p value bus)
  unfolding plic_set_priority
  set_priority-Own p value bus known = elim (Bool-cases (bad_source p)) [
    | inl bad ↦ rw bad (Extends-refl bus)
    | inr good ↦ rw good (Extends-one bus _ (sets_priority p value (ground arith) refl))
  ]

  pub get_priority-Own :
      (device : Device) (p : ℕ) (bus : Bus)
      → (p ≡ 0) ⊎ (sources p ≡ true)
      → Extends Own bus (plic_get_priority device p bus).1
  unfolding plic_get_priority
  get_priority-Own device p bus known = elim (Bool-cases (bad_source p)) [
    | inl bad ↦ rw bad (Extends-refl bus)
    | inr good ↦ rw good (Extends-one bus _ (gets (priority p) (ground arith) refl))
  ]

  pub get_pending-Own :
      (device : Device) (p : ℕ) (bus : Bus)
      → (p ≡ 0) ⊎ (sources p ≡ true)
      → Extends Own bus (plic_get_pending device p bus).1
  unfolding plic_get_pending
  get_pending-Own device p bus known = elim (Bool-cases (bad_source p)) [
    | inl bad ↦ rw bad (Extends-refl bus)
    | inr good ↦ rw good (Extends-one bus _ (gets (pending p) (ground arith) refl))
  ]

  pub get_enabled-Own :
      (device : Device) (p : ℕ) (bus : Bus)
      → (p ≡ 0) ⊎ (sources p ≡ true)
      → Extends Own bus (plic_get_enabled device context p bus).1
  unfolding plic_get_enabled
  get_enabled-Own device p bus known = elim (Bool-cases (bad_source p)) [
    | inl bad ↦ rw bad (Extends-refl bus)
    | inr good ↦ elim (Bool-cases (bad_context context)) [
      | inl out ↦ rw (good, out) (Extends-refl bus)
      | inr within ↦
          rw (good, within) (Extends-one bus _ (gets (enable context p) (ground arith) refl))
    ]
  ]

  pub set_enabled-Own :
      (p on : ℕ) (bus : Bus)
      → (p ≡ 0) ⊎ (sources p ≡ true)
      → Extends Own bus (plic_set_enabled context p on bus)
  unfolding plic_set_enabled
  set_enabled-Own p on bus known = elim (Bool-cases (bad_source p)) [
    | inl bad ↦ rw bad (Extends-refl bus)
    | inr good ↦ elim (Bool-cases (bad_context context)) [
      | inl out ↦ rw (good, out) (Extends-refl bus)
      | inr within ↦ elim (Bool-cases (on == 0)) [
        | inl off ↦ rw (good, within, off) (Extends-one bus _ (disables p (ground arith) refl))
        | inr set ↦ rw (good, within, set) (Extends-one bus _ (enables p (ground arith) refl))
      ]
    ]
  ]

  pub get_threshold-Own :
      (device : Device) (bus : Bus) → Extends Own bus (plic_get_threshold device context bus).1
  unfolding plic_get_threshold
  get_threshold-Own device bus = elim (Bool-cases (bad_context context)) [
    | inl out ↦ rw out (Extends-refl bus)
    | inr within ↦ rw within (Extends-one bus _ (gets (threshold context) (ground arith) refl))
  ]

  pub set_threshold-Own :
      (value : ℕ) (bus : Bus) → Extends Own bus (plic_set_threshold context value bus)
  unfolding plic_set_threshold
  set_threshold-Own value bus = elim (Bool-cases (bad_context context)) [
    | inl out ↦ rw out (Extends-refl bus)
    | inr within ↦ rw within (Extends-one bus _ (sets_threshold value (ground arith) refl))
  ]

  pub claim-Own : (device : Device) (bus : Bus) → Extends Own bus (plic_claim device context bus).1
  unfolding plic_claim
  claim-Own device bus = elim (Bool-cases (bad_context context)) [
    | inl out ↦ rw out (Extends-refl bus)
    | inr within ↦ rw within (Extends-one bus _ (gets (claim context) (ground arith) refl))
  ]

  pub complete-Own :
      (p : ℕ) (bus : Bus)
      → (p ≡ 0) ⊎ (sources p ≡ true)
      → Extends Own bus (plic_complete context p bus)
  unfolding plic_complete
  complete-Own p bus known = elim (Bool-cases (bad_context context)) [
    | inl out ↦ rw out (Extends-refl bus)
    | inr within ↦ rw within (Extends-one bus _ (completes p (ground arith) known refl))
  ]
