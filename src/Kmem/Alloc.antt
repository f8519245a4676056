-- ===== src/Kmem/Alloc.antt =====
-- `kmalloc` and `kfree` on the list of free pages.
use riscv_hypervisor.Common.{
  ℕ, ◌≡◌, ◌≢◌, refl, Bool, true, false, List, [], ◌∷◌, arith, ◌==◌, if◌then◌else◌,
}
use riscv_hypervisor.Common.Effects.{ok, panic, fault, bad_free}
use riscv_hypervisor.Ram.{Ram, write_word, clear_words}
use riscv_hypervisor.Ram.Laws.{in_range, clear_words-at}
use riscv_hypervisor.Kmem.{valid_address, kmalloc, kfree}
use riscv_hypervisor.Kmem.Chain.{
  has, IsFree, IsPlaced, valid_address-bounds, IsChain-frame, AreValid-has,
}

-- A word of the page at `p`.
abbrev pub in_page : ℕ → ℕ → Bool
in_page p a = in_range 512 p a

abbrev taken : Ram → ℕ → Ram
taken ram p = record { memory = clear_words 512 p ram.memory; freelist = ram.memory p }

-- A listed page is not one that the list lacks.
pub has-ne : (p q : ℕ) (ps : List ℕ) → has p ps ≡ false → has q ps ≡ true → (q == p) ≡ false
has-ne p q [] lacks h = cc
has-ne p q (x ∷ ps) lacks h = ground (arith, has-ne p q ps)

-- Another page of the pool shares no word with this one.
clear_words-frame :
    (dynamic : ℕ) (memory : ℕ → ℕ) (p q : ℕ)
    → IsPlaced dynamic
    → valid_address dynamic p ≡ true
    → valid_address dynamic q ≡ true
    → (q == p) ≡ false
    → clear_words 512 p memory q ≡ memory q
clear_words-frame dynamic memory p q placed hp hq ne =
    let bp = valid_address-bounds dynamic p placed hp in
    let bq = valid_address-bounds dynamic q placed hq in
    let at = clear_words-at 512 p memory q in ground arith

kmalloc-cons : (ram : Ram) (p : ℕ) → ram.freelist ≡ p → p ≢ 0 → kmalloc ram ≡ ok p (taken ram p)
unfolding kmalloc
kmalloc-cons ram p e ne = let nonzero : (p == 0) ≡ false = ground arith in rw (e, nonzero)

IsFree-taken :
    (dynamic : ℕ) (ram : Ram) (p : ℕ) (ps : List ℕ)
    → IsPlaced dynamic
    → IsFree dynamic ram (p ∷ ps)
    → IsFree dynamic (taken ram p) ps
IsFree-taken dynamic ram p ps placed free = record {
  chain =
      IsChain-frame ram.memory (clear_words 512 p ram.memory) (ram.memory p) ps
        (λ q h.
          clear_words-frame dynamic ram.memory p q placed free.valid.0
            (AreValid-has dynamic ps q free.valid.1 h) (has-ne p q ps free.distinct.0 h))
        free.chain.2;
  valid = free.valid.1;
  distinct = free.distinct.1;
}

-- With the end of the image inside the RAM and a page p first on the list of free pages,
-- kmalloc returns p, keeps the rest of the list, clears the words of p and changes no other
-- word.
pub kmalloc-takes :
    (dynamic : ℕ) (ram : Ram) (p : ℕ) (ps : List ℕ)
    → IsPlaced dynamic
    → IsFree dynamic ram (p ∷ ps)
    → (after : Ram) × (kmalloc ram ≡ ok p after)
      × IsFree dynamic after ps
      × ((a : ℕ) → after.memory a ≡ (if in_page p a then 0 else ram.memory a))
kmalloc-takes dynamic ram p ps placed free = (
  taken ram p,
  kmalloc-cons ram p free.chain.0 free.chain.1,
  IsFree-taken dynamic ram p ps placed free,
  clear_words-at 512 p ram.memory,
)

-- With no free page kmalloc does not return: it clears memory from the null pointer on.
pub kmalloc-empty : (dynamic : ℕ) (ram : Ram) → IsFree dynamic ram [] → kmalloc ram ≡ fault
unfolding kmalloc
kmalloc-empty dynamic ram free = rw free.chain

-- A valid page that is not free is put first on the list.
pub IsFree-put :
    (dynamic : ℕ) (ram : Ram) (p : ℕ) (ps : List ℕ)
    → IsPlaced dynamic
    → IsFree dynamic ram ps
    → has p ps ≡ false
    → valid_address dynamic p ≡ true
    → IsFree dynamic record { memory = write_word ram.memory p ram.freelist; freelist = p } (p ∷ ps)
IsFree-put dynamic ram p ps placed free fresh valid =
    let bounds = valid_address-bounds dynamic p placed valid in
    let self : (p == p) ≡ true = ground arith in
    let memory : ℕ → ℕ = write_word ram.memory p ram.freelist in
    record {
      chain = (
        refl,
        (ground arith),
        IsChain-frame ram.memory memory (memory p) ps (λ q h. rw (has-ne p q ps fresh h))
            (rw self free.chain),
      );
      valid = (valid, free.valid);
      distinct = (fresh, free.distinct);
    }

-- With the end of the image inside the RAM, freeing a valid page that is not on the list of
-- free pages ends, puts it first, keeps the list behind it and changes only the page's first
-- word.
pub kfree-puts :
    (dynamic : ℕ) (ram : Ram) (p : ℕ) (ps : List ℕ)
    → IsPlaced dynamic
    → IsFree dynamic ram ps
    → has p ps ≡ false
    → valid_address dynamic p ≡ true
    → (after : Ram) × (kfree dynamic p ram ≡ ok tt after)
      × IsFree dynamic after (p ∷ ps)
      × ((a : ℕ) → after.memory a ≡ (if a == p then ram.freelist else ram.memory a))
unfolding kfree
kfree-puts dynamic ram p ps placed free fresh valid = (
  record { memory = write_word ram.memory p ram.freelist; freelist = p },
  rw valid,
  IsFree-put dynamic ram p ps placed free fresh valid,
  λ a. refl,
)

pub kfree-panic :
    (dynamic : ℕ) (ram : Ram) (p : ℕ)
    → valid_address dynamic p ≡ false
    → kfree dynamic p ram ≡ panic bad_free
unfolding kfree
kfree-panic dynamic ram p bad = rw bad
