-- ===== src/Common/Lands.antt =====
-- Commands that, where they end, leave a state that is related to the one they began in.
use riscv_hypervisor.Common.{Bool, true, false, if◌then◌else◌}
use riscv_hypervisor.Common.Effects.{Cmd, Outcome, Panic, ok, panic, fault, and_then, panic_if}

module _ {S : Type 0} (R : S → S → Type 0) where
  abbrev pub Lands : {A : Type 0} → S → Outcome S A → Type 0
  Lands s (ok a t) = R s t
  Lands s (panic p) = Unit
  Lands s fault = Unit

  pub Lands-if :
      {A : Type 0} (s : S) (b : Bool) (m n : Cmd S A)
      → Lands s (m s)
      → Lands s (n s)
      → Lands s ((if b then m else n) s)
  Lands-if s true m n x y = x
  Lands-if s false m n x y = y

  pub Lands-panic_if : (s : S) (b : Bool) (p : Panic) → R s s → Lands s (panic_if b p s)
  Lands-panic_if s true p r = tt
  Lands-panic_if s false p r = r

  module _ (trans : (s t u : S) → R s t → R t u → R s u) where
    pub Lands-trans : {A : Type 0} (s t : S) (m : Outcome S A) → R s t → Lands t m → Lands s m
    Lands-trans s t (ok a u) r l = trans s t u r l
    Lands-trans s t (panic p) r l = tt
    Lands-trans s t fault r l = tt

    pub and_then-Lands :
        {A B : Type 0} (s : S) (m : Outcome S A) (k : A → Cmd S B)
        → Lands s m
        → ((a : A) (t : S) → Lands t (k a t))
        → Lands s (and_then m k)
    and_then-Lands s (ok a t) k l next = Lands-trans s t (k a t) l (next a t)
    and_then-Lands s (panic p) k l next = tt
    and_then-Lands s fault k l next = tt
