-- ===== src/Common/Extends.antt =====
-- A record of events, newest first, that grew by events of one kind.
use mathlib.Core.List.{append_assoc}
use riscv_hypervisor.Common.{◌≡◌, refl, sym, ◌∙◌, ap, List, [], ◌∷◌, ◌++◌, All, All-append}

pub record Extends {A : Type 0} (P : A → Type 0) (old new : List A) : Type 0 where
  pub added : List A
  pub grown : new ≡ added ++ old
  pub each : All P added

module _ {A : Type 0} {P : A → Type 0} where
  pub Extends-refl : (old : List A) → Extends P old old
  Extends-refl old = record { added = []; grown = refl; each = tt }

  pub Extends-one : (old : List A) (a : A) → P a → Extends P old (a ∷ old)
  Extends-one old a p = record { added = a ∷ []; grown = refl; each = (p, tt) }

  pub Extends-trans :
      {old mid new : List A} → Extends P old mid → Extends P mid new → Extends P old new
  Extends-trans {old} f g = record {
    added = g.added ++ f.added;
    grown = g.grown ∙ ap (λ l. g.added ++ l) f.grown ∙ sym (append_assoc g.added f.added old);
    each = All-append P g.added f.added g.each f.each;
  }
