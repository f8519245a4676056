-- ===== src/Printf/Fuel.antt =====
-- The rounds of the loop of `printf` are enough.
use riscv_hypervisor.Common.{
  ℕ, zero, suc, ◌+◌, ◌<◌, ◌≤◌, ◌≡◌, refl, sym, ap, ◌∙◌, inl, inr, List, [], ◌∷◌, length, ◌==◌,
  if◌then◌else◌, Bool-cases, arith,
}
use riscv_hypervisor.Common.Effects.{Outcome, Cmd, ok, panic, fault, and_then, pure, ◌>>=◌}
use riscv_hypervisor.Printf.{
  Printer, say, char_at, next, decide_format, decide_length, decide_type, print_round, print_loop,
}

module _ {S A : Type 0} where
  -- What holds where a command ends.
  abbrev pub Leads : (A → Type 0) → Outcome S A → Type 0
  Leads P (ok a s) = P a
  Leads P (panic p) = Unit
  Leads P fault = Unit

  pub Leads-any : (m : Outcome S A) → Leads (λ _. Unit) m
  Leads-any (ok a s) = tt
  Leads-any (panic p) = tt
  Leads-any fault = tt

module _ {S A B : Type 0} where
  pub and_then-Leads :
      (P : A → Type 0) (Q : B → Type 0) (m : Outcome S A) (k : A → Cmd S B)
      → Leads P m
      → ((a : A) (s : S) → P a → Leads Q (k a s))
      → Leads Q (and_then m k)
  and_then-Leads P Q (ok a s) k h after = after a s h
  and_then-Leads P Q (panic p) k h after = tt
  and_then-Leads P Q fault k h after = tt

  -- Two continuations that agree where a command ends.
  pub and_then-ext :
      (P : A → Type 0) (m : Outcome S A) (k k' : A → Cmd S B)
      → Leads P m
      → ((a : A) (s : S) → P a → k a s ≡ k' a s)
      → and_then m k ≡ and_then m k'
  and_then-ext P (ok a s) k k' h after = after a s h
  and_then-ext P (panic p) k k' h after = λ _. panic p
  and_then-ext P fault k k' h after = λ _. fault

abbrev IsBelow : ℕ → List ℕ → Type 0
IsBelow n at = length at < n

next-Leads : (at : List ℕ) (s : Printer) → Leads (IsBelow (length at)) (next at s)
unfolding next
next-Leads [] s = tt
next-Leads (c ∷ at) s = omega arith

-- A number, and a position that is not behind another.
abbrev IsWithin : ℕ → ℕ × List ℕ → Type 0
IsWithin n r = length r.1 ≤ n

next-IsWithin :
    (base : ℕ) (at : List ℕ) (s : Printer)
    → Leads (IsWithin (length at)) (and_then (next at s) (λ at s. ok (base, at) s))
next-IsWithin base at s =
    and_then-Leads (IsBelow (length at)) (IsWithin (length at)) (next at s)
      (λ at s. ok (base, at) s) (next-Leads at s) (λ a s h. omega (arith, h))

decide_format-Leads :
    (at : List ℕ) (s : Printer) → Leads (IsWithin (length at)) (decide_format at s)
unfolding decide_format
decide_format-Leads at s = elim (Bool-cases (char_at at == 98)) [
  | inl e ↦ rw e (next-IsWithin 2 at s)
  | inr e ↦ elim (Bool-cases (char_at at == 120)) [
    | inl x ↦ rw (e, x) (next-IsWithin 16 at s)
    | inr x ↦ rw (e, x) (omega arith)
  ]
]

decide_length-Leads :
    (at : List ℕ) (s : Printer) → Leads (IsWithin (length at)) (decide_length at s)
unfolding decide_length
decide_length-Leads at s = elim (Bool-cases (char_at at == 108)) [
  | inl e ↦ rw e (next-IsWithin 8 at s)
  | inr e ↦ elim (Bool-cases (char_at at == 104)) [
    | inl x ↦
        rw (e, x)
          (and_then-Leads (IsBelow (length at)) (IsWithin (length at)) (next at s) _
            (next-Leads at s) (λ at' s' h. second_h (length at) at' s' h))
    | inr x ↦ rw (e, x) (omega arith)
  ]
]
  where
    second_h :
        (n : ℕ) (at : List ℕ) (s : Printer)
        → length at < n
        → Leads
            (IsWithin n)
            ((if char_at at == 104 then (next at >>= λ at. pure (1, at)) else pure (2, at)) s)
    second_h n at s h = elim (Bool-cases (char_at at == 104)) [
      | inl x ↦ rw x (
          and_then-Leads (IsBelow (length at)) (IsWithin n) (next at s) (λ at s. ok (1, at) s)
            (next-Leads at s) (λ a s less. omega (arith, h, less)))
      | inr x ↦ rw x (omega arith)
    ]

next-IsBelow : (n : ℕ) (at : List ℕ) (s : Printer) → length at < n → Leads (IsBelow n) (next at s)
unfolding next
next-IsBelow n [] s h = tt
next-IsBelow n (c ∷ at) s h = omega (arith, h)

print_round-Leads : (at : List ℕ) (s : Printer) → Leads (IsBelow (length at)) (print_round at s)
unfolding print_round
print_round-Leads at s = elim (Bool-cases (char_at at == 37)) [
  | inl e ↦ rw e (
      and_then-Leads (IsBelow (length at)) (IsBelow (length at)) (next at s) _ (next-Leads at s)
        (λ at1 s1 h1.
          and_then-Leads (IsWithin (length at1)) (IsBelow (length at)) (decide_format at1 s1) _
            (decide_format-Leads at1 s1)
            (λ r s2 h2.
              and_then-Leads (IsWithin (length r.1)) (IsBelow (length at)) (decide_length r.1 s2) _
                (decide_length-Leads r.1 s2)
                (λ q s3 h3.
                  and_then-Leads (λ _. Unit) (IsBelow (length at))
                    (decide_type r.0 q.0 (char_at q.1) s3) _
                    (Leads-any (decide_type r.0 q.0 (char_at q.1) s3))
                    (λ u s4 h4. next-IsBelow (length at) q.1 s4 (omega (arith, h1, h2, h3)))))))
  | inr e ↦ rw e (next-Leads at (say (char_at at ∷ []) s))
]

print_loop-suc :
    (fuel : ℕ) (at : List ℕ) (s : Printer)
    → length at < fuel
    → print_loop fuel at s ≡ print_loop (suc fuel) at s
unfolding print_loop
print_loop-suc zero at s h = ground (arith, h)
print_loop-suc (suc fuel) at s h = elim (Bool-cases (char_at at == 0)) [
  | inl e ↦ rw e refl
  | inr e ↦ rw e (
      and_then-ext (IsBelow (length at)) (print_round at s) (λ at. print_loop fuel at)
        (λ at. print_loop (suc fuel) at) (print_round-Leads at s)
        (λ a s less. print_loop-suc fuel a s (omega (arith, h, less))))
]

-- On a format of n characters n + 1 rounds of the loop are enough: more rounds change nothing.
pub print_loop-enough :
    (more : ℕ) (at : List ℕ) (s : Printer)
    → print_loop (more + (length at + 1)) at s ≡ print_loop (length at + 1) at s
print_loop-enough zero at s = ap (λ (n : ℕ). print_loop n at s) (omega arith)
print_loop-enough (suc more) at s =
    ap (λ (n : ℕ). print_loop n at s) (omega arith)
    ∙ sym (print_loop-suc (more + (length at + 1)) at s (omega arith))
    ∙ print_loop-enough more at s
