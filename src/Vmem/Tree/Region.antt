-- ===== src/Vmem/Tree/Region.antt =====
-- `map_pages` on the tree: each page of a region is set once, and all others are kept.
use riscv_hypervisor.Common.{
  ℕ, zero, suc, ◌+◌, ◌*◌, ◌%◌, ◌^◌, ◌<◌, ◌≡◌, ◌≢◌, ◌⊎◌, refl, sym, ap, ◌∙◌, true, false, Bool-cases,
  inl, inr, arith, if◌then◌else◌, u64, ltb, List,
}
use riscv_hypervisor.Memory.{page_size, kpa2pa}
use riscv_hypervisor.Ram.{Ram}
use riscv_hypervisor.Kmem.Chain.{IsPlaced}
use riscv_hypervisor.Vmem.Map.{leaf_entry}
use riscv_hypervisor.Vmem.Tree.{
  Use, unused, given, IsRoot, Space, Moves, Moves-refl, Moves-trans, Moves-more,
}
use riscv_hypervisor.Vmem.Tree.Mapping.{entry_of, is_same_page}

-- The virtual address of a round.
abbrev pub round_address : ℕ → ℕ → ℕ
round_address va offset = u64 (va + offset)

-- What a last entry leads to: the physical address of the round, or a page that was given.
abbrev pub Target : (ℕ → Use) → ℕ → ℕ → ℕ → ℕ → ℕ → Type 0
Target own va zero offset flags e =
    (page : ℕ) × (own page ≡ given (round_address va offset)) × (e ≡ leaf_entry (kpa2pa page) flags)
Target own va (suc pa) offset flags e = e ≡ leaf_entry (u64 (suc pa + offset)) flags

pub Target-mono :
    (own own' : ℕ → Use) (va pa offset flags e : ℕ)
    → ((q : ℕ) → own q ≢ unused → own' q ≡ own q)
    → Target own va pa offset flags e
    → Target own' va pa offset flags e
Target-mono own own' va zero offset flags e kept (page, g, is_leaf) =
    (page, kept page (λ u. cc) ∙ g, is_leaf)
Target-mono own own' va (suc pa) offset flags e kept is_leaf = is_leaf

-- A page that the region sets, or one outside it with its old entry.
abbrev pub Entered : (ℕ → Use) → ℕ → ℕ → ℕ → ℕ → ℕ → ℕ → ℕ → ℕ → Type 0
Entered own count offset va pa flags x old e =
    ((n : ℕ) × (n < count)
      × (is_same_page x (round_address va (offset + n * page_size)) ≡ true)
      × Target own va pa (offset + n * page_size) flags e)
    ⊎ (((n : ℕ) → n < count → is_same_page x (round_address va (offset + n * page_size)) ≡ false)
        × (e ≡ old))

-- The region is mapped, with at most three pages for each round.
pub record Region (dynamic root : ℕ) (own : ℕ → Use) (pages : List ℕ) (ram : Ram)
    (count offset va pa flags : ℕ) (ram' : Ram) : Type 0 where
  pub own' : ℕ → Use
  pub pages' : List ℕ
  pub moves : Moves dynamic root (3 * count) own own' pages pages' ram ram'
  pub entries :
      (x : ℕ)
      → Entered own' count offset va pa flags x
          (entry_of ram.memory root x)
          (entry_of ram'.memory root x)

-- A page of the region is mapped already, or the region is larger than what is translated.
abbrev pub Clashes : ℕ → Ram → ℕ → ℕ → ℕ → Type 0
Clashes root ram count offset va =
    ((n : ℕ) × (n < count)
      × (entry_of ram.memory root (round_address va (offset + n * page_size)) % 2 ≡ 1))
    ⊎ (2 ^ 29 < count)

round_apart :
    (va offset n : ℕ)
    → suc n < 2 ^ 29
    → is_same_page (round_address va (offset + page_size + n * page_size)) (round_address va offset)
      ≡ false
round_apart va offset n h = ground arith

module _ (dynamic root : ℕ) (placed : IsPlaced dynamic) (r : IsRoot root) (va pa flags : ℕ) where
  pub no_rounds :
      (own : ℕ → Use) (pages : List ℕ) (ram : Ram) (offset : ℕ)
      → Space dynamic root own pages ram
      → Region dynamic root own pages ram 0 offset va pa flags ram
  no_rounds own pages ram offset space = record {
    own' = own;
    pages' = pages;
    moves = Moves-refl dynamic root own pages ram space;
    entries = λ x. inr ((λ n h. ground arith), refl);
  }

  -- The page of a round: its physical address, after the allocation where there is one.
  pub record Round (own : ℕ → Use) (pages : List ℕ) (ram : Ram) (offset : ℕ) (ram' : Ram)
      : Type 0 where
    pub own' : ℕ → Use
    pub pages' : List ℕ
    pub moves : Moves dynamic root 3 own own' pages pages' ram ram'
    pub value : ℕ
    pub target : Target own' va pa offset flags value
    pub entries :
        (x : ℕ)
        → entry_of ram'.memory root x
          ≡ (if is_same_page x (round_address va offset) then value else entry_of ram.memory root x)

  pub takes_one_more :
      (own : ℕ → Use) (pages : List ℕ) (ram t u : Ram) (left offset : ℕ)
      → (first : Round own pages ram offset t)
      → Region dynamic root first.own' first.pages' t left (offset + page_size) va pa flags u
      → Region dynamic root own pages ram (suc left) offset va pa flags u
  takes_one_more own pages ram t u left offset first rest = record {
    own' = rest.own';
    pages' = rest.pages';
    moves =
        Moves-more dynamic root (3 + 3 * left) (3 * suc left) own rest.own' pages rest.pages' ram u
          (Moves-trans dynamic root 3 (3 * left) own first.own' rest.own' pages first.pages'
            rest.pages' ram t u first.moves rest.moves)
          (omega arith);
    entries = λ x. entered x (rest.entries x);
  }
    where
      entered :
          (x : ℕ)
          → Entered rest.own' left
              (offset + page_size)
              va
              pa
              flags
              x
              (entry_of t.memory root x)
              (entry_of u.memory root x)
          → Entered rest.own'
              (suc left)
              offset
              va
              pa
              flags
              x
              (entry_of ram.memory root x)
              (entry_of u.memory root x)
      entered x (inl (n, h, same, target)) =
          let shift : offset + page_size + n * page_size ≡ offset + suc n * page_size =
            omega arith in
          inl (suc n, omega arith, rw (sym shift) same, rw (sym shift) target)
      entered x (inr (apart, kept)) = elim (Bool-cases (is_same_page x (round_address va offset))) [
        | inl e ↦
            (let shift : offset ≡ offset + 0 * page_size = omega arith in
              let value : entry_of u.memory root x ≡ first.value =
                kept ∙ first.entries x ∙ rw e refl in
              inl (
                0,
                omega arith,
                rw (sym shift) e,
                rw (value, sym shift)
                    (Target-mono first.own' rest.own' va pa offset flags first.value
                      rest.moves.grows.kept first.target),
              ))
        | inr e ↦ inr ((λ n h. all_apart n h e apart), kept ∙ first.entries x ∙ rw e refl)
      ]
        where
          all_apart :
              (n : ℕ)
              → n < suc left
              → is_same_page x (round_address va offset) ≡ false
              → ((m : ℕ)
                  → m < left
                  → is_same_page x (round_address va (offset + page_size + m * page_size)) ≡ false)
              → is_same_page x (round_address va (offset + n * page_size)) ≡ false
          all_apart zero h e apart =
              let shift : offset + 0 * page_size ≡ offset = omega arith in rw shift e
          all_apart (suc n) h e apart =
              let shift : offset + suc n * page_size ≡ offset + page_size + n * page_size =
                omega arith in
              rw shift (apart n (omega arith))

  pub clash_earlier :
      (own : ℕ → Use) (pages : List ℕ) (ram t : Ram) (left offset : ℕ)
      → Round own pages ram offset t
      → Clashes root t left (offset + page_size) va
      → Clashes root ram (suc left) offset va
  clash_earlier own pages ram t left offset first (inr big) = inr (omega arith)
  clash_earlier own pages ram t left offset first (inl (n, h, valid)) =
      elim (Bool-cases (ltb (2 ^ 29) (suc left))) [
        | inl e ↦ inr (ground (arith, e))
        | inr e ↦
            (let shift : offset + page_size + n * page_size ≡ offset + suc n * page_size =
                omega arith in
              let apart = round_apart va offset n (ground (arith, e)) in
              let old = first.entries (round_address va (offset + page_size + n * page_size)) in
              let same : entry_of t.memory root (round_address va (offset + suc n * page_size))
                  ≡ entry_of ram.memory root (round_address va (offset + suc n * page_size)) =
                rw (sym shift) (old ∙ rw apart refl) in
              inl (
                suc n,
                omega arith,
                ap (λ (o : ℕ). o % 2) (sym same)
                    ∙ ap (λ o. entry_of t.memory root (round_address va o) % 2) (sym shift)
                    ∙ valid,
              ))
      ]
