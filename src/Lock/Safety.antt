-- ===== src/Lock/Safety.antt =====
-- No hart leaves the barrier before all have come to it.
use riscv_hypervisor.Common.{ℕ, ◌+◌, ◌^◌, ◌<◌, ◌≤◌, ◌≡◌, refl, ◌⊎◌, inl, Bool, true, false, arith}
use riscv_hypervisor.Lock.{Barrier, Pc, Move, System, Step, step, start, Reach, here, next, update}
use riscv_hypervisor.Lock.Mutex.{holds}
use riscv_hypervisor.Lock.Mutex
use riscv_hypervisor.Lock.Count.{total, total-update, total-le, total-weight, total-outside}

-- A hart has arrived once it has given back its token.
abbrev pub arrived : Pc → ℕ
arrived Pc.outside = 0
arrived Pc.want_token = 0
arrived Pc.load_tokens = 0
arrived (Pc.store_tokens n) = 0
arrived _ = 1

-- Behind the waiting, or in the part of the last hart.
abbrev pub is_through : Pc → Bool
is_through Pc.outside = false
is_through Pc.want_token = false
is_through Pc.load_tokens = false
is_through (Pc.store_tokens n) = false
is_through Pc.release_token = false
is_through Pc.test_last = false
is_through Pc.wait_reset = false
is_through _ = true

-- The tokens that a hart has read under the lock are those of the barrier.
abbrev IsFresh : Barrier → Pc → Type 0
IsFresh b (Pc.store_tokens n) = n ≡ b.tokens
IsFresh b _ = Unit

pub record Inv (count : ℕ) (b : Barrier) (pc : ℕ → Pc) : Type 0 where
  pub initial : b.initial ≡ count
  pub tokens : (b.tokens + total arrived count pc ≡ count) ⊎ (total arrived count pc ≡ count)
  pub through : (i : ℕ) → i < count → is_through (pc i) ≡ true → total arrived count pc ≡ count
  pub fresh : (i : ℕ) → i < count → IsFresh b (pc i)

arrived-le : (p : Pc) → arrived p ≤ 1
arrived-le p = ground arith

Inv-start : (count : ℕ) → Inv count (start count).bar (start count).pc
Inv-start count = record {
  initial = refl;
  tokens = inl (omega (arith, total-outside arrived count refl));
  through = λ i lt h. cc;
  fresh = λ i lt. tt;
}

module _ {count : ℕ} {b : Barrier} {pc : ℕ → Pc} (small : count < 2 ^ 31) (inv : Inv count b pc)
    (lock : Mutex.Inv (record { bar = b; pc = pc })) (i : ℕ) (lt : i < count) where
  Move-initial : {p p' : Pc} {b' : Barrier} → Move b p b' p' → b'.initial ≡ count
  Move-initial Move.enter = inv.initial
  Move-initial mv = ground (arith, inv.initial)

  -- The facts that the cases share.
  record Mover (p p' : Pc) : Type 0 where
    at : pc i ≡ p
    sum : total arrived count (update pc i p') + arrived p ≡ total arrived count pc + arrived p'
    room : (arrived p ≤ total arrived count pc) × (total arrived count pc + 1 ≤ count + arrived p)
    bound : total arrived count (update pc i p') ≤ count

  mover : (p' : Pc) → Mover (pc i) p'
  mover p' = record {
    at = refl;
    sum = total-update arrived count pc i p' lt;
    room = total-weight arrived arrived-le count pc i lt;
    bound = total-le arrived arrived-le count (update pc i p');
  }

  Move-tokens :
      {p p' : Pc} {b' : Barrier}
      → Move b p b' p'
      → Mover p p'
      → (b'.tokens + total arrived count (update pc i p') ≡ count)
        ⊎ (total arrived count (update pc i p') ≡ count)
  Move-tokens Move.stores_tokens m = ground (arith, inv.tokens, inv.fresh i lt)
  Move-tokens Move.resets_tokens m = ground (arith, inv.tokens, inv.through i lt)
  Move-tokens mv m = ground (arith, inv.tokens)

  Move-through :
      {p p' : Pc} {b' : Barrier}
      → Move b p b' p'
      → Mover p p'
      → (j : ℕ) → j < count
      → is_through (update pc i p' j) ≡ true
      → total arrived count (update pc i p') ≡ count
  Move-through (Move.is_last e) m j below h = ground (arith, inv.tokens)
  Move-through (Move.was_reset e) m j below h = ground (arith, inv.tokens, inv.initial)
  Move-through mv m j below h = ground (arith, inv.through j below, inv.through i lt)

  Move-IsFresh :
      {p p' : Pc} {b' : Barrier}
      → Move b p b' p'
      → Mover p p'
      → (j : ℕ) → j < count
      → IsFresh b' (update pc i p' j)
  Move-IsFresh Move.stores_tokens m j below = ground (arith, inv.fresh j below, lock.single i j)
  Move-IsFresh Move.resets_tokens m j below =
      ground (
        arith,
        inv.fresh j below,
        inv.through i lt,
        total-weight arrived arrived-le count pc j below,
      )
  Move-IsFresh mv m j below = ground (arith, inv.fresh j below)

  Move-Inv : {p' : Pc} {b' : Barrier} → Move b (pc i) b' p' → Inv count b' (update pc i p')
  Move-Inv {p'} mv = record {
    initial = Move-initial mv;
    tokens = Move-tokens mv (mover p');
    through = Move-through mv (mover p');
    fresh = Move-IsFresh mv (mover p');
  }

Step-Inv :
    {count : ℕ} {s t : System}
    → count < 2 ^ 31
    → Mutex.Inv s
    → Inv count s.bar s.pc
    → Step count s t
    → Inv count t.bar t.pc
Step-Inv small lock inv (step i lt mv) = Move-Inv small inv lock i lt mv

Reach-Inv :
    {count : ℕ} {s : System} → count < 2 ^ 31 → Reach count (start count) s → Inv count s.bar s.pc
Reach-Inv {count} small here = Inv-start count
Reach-Inv small (next r st) = Step-Inv small (Mutex.Reach-Inv r) (Reach-Inv small r) st

arrived-of-total :
    (n : ℕ) (pc : ℕ → Pc) → total arrived n pc ≡ n → (i : ℕ) → i < n → arrived (pc i) ≡ 1
arrived-of-total n pc e i lt =
    omega (arith, total-weight arrived arrived-le n pc i lt, arrived-le (pc i))

-- In every interleaving of the harts of a barrier of fewer than 2^31 harts, each calling it
-- once: when any hart is behind it, every hart has come to it and given back its token.
pub none_passes_early :
    {count : ℕ} {s : System}
    → count < 2 ^ 31
    → Reach count (start count) s
    → (i j : ℕ) → i < count
    → j < count
    → s.pc i ≡ Pc.done
    → arrived (s.pc j) ≡ 1
none_passes_early {count} {s} small r i j lti ltj at_end =
    let inv = Reach-Inv small r in
    arrived-of-total count s.pc (inv.through i lti (ground arith)) j ltj
