-- ===== src/Common/Runs.antt =====
-- What a command gives where it ends, and when it may stop or fault.
use riscv_hypervisor.Common.{◌≡◌}
use riscv_hypervisor.Common.Effects.{Cmd, Outcome, ok, panic, fault, and_then}

module _ {S : Type 0} where
  -- It ends as `P` says, or it stops and `Stops` holds, or it faults and `Lacks` holds.
  abbrev pub Runs : {A : Type 0} → Type 0 → Type 0 → (A → S → Type 0) → Outcome S A → Type 0
  Runs Stops Lacks P (ok a t) = P a t
  Runs Stops Lacks P (panic p) = Stops
  Runs Stops Lacks P fault = Lacks

  module _ {A : Type 0} (Stops Lacks : Type 0) (P : A → S → Type 0) where
    pub and_then-Runs :
        {B : Type 0} (Q : B → S → Type 0) (m : Outcome S A) (k : A → Cmd S B)
        → Runs Stops Lacks P m
        → ((a : A) (t : S) → P a t → Runs Stops Lacks Q (k a t))
        → Runs Stops Lacks Q (and_then m k)
    and_then-Runs Q (ok a t) k r next = next a t r
    and_then-Runs Q (panic p) k r next = r
    and_then-Runs Q fault k r next = r

    -- Where it can neither stop nor fault, it ends.
    pub Runs-ok :
        (m : Outcome S A)
        → Runs Stops Lacks P m
        → (Stops → ⊥)
        → (Lacks → ⊥)
        → (a : A) × (t : S) × (m ≡ ok a t) × P a t
    Runs-ok (ok a t) r stops lacks = (a, t, (λ _. ok a t), r)
    Runs-ok (panic p) r stops lacks = absurd (stops r)
    Runs-ok fault r stops lacks = absurd (lacks r)

    pub Runs-mono :
        (Stops' Lacks' : Type 0) (Q : A → S → Type 0) (m : Outcome S A)
        → Runs Stops Lacks P m
        → (Stops → Stops')
        → (Lacks → Lacks')
        → ((a : A) (t : S) → P a t → Q a t)
        → Runs Stops' Lacks' Q m
    Runs-mono Stops' Lacks' Q (ok a t) r f g h = h a t r
    Runs-mono Stops' Lacks' Q (panic p) r f g h = f r
    Runs-mono Stops' Lacks' Q fault r f g h = g r
