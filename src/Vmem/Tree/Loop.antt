-- ===== src/Vmem/Tree/Loop.antt =====
-- The rounds of `map_loop` on the tree.
use riscv_hypervisor.Common.{
  ℕ, zero, suc, ◌+◌, ◌*◌, ◌/◌, ◌%◌, ◌<◌, ◌≡◌, refl, sym, ap, ◌∙◌, true, false, inl, arith, ◌==◌,
  if◌then◌else◌, u64, is_negative, List, length,
}
use riscv_hypervisor.Common.Effects.{Cmd, Outcome, ◌>>=◌, pure, and_then}
use riscv_hypervisor.Common.Runs.{Runs, Runs-mono, and_then-Runs}
use riscv_hypervisor.Memory.{page_size, kpa2pa, pg_round_up}
use riscv_hypervisor.Ram.{Ram}
use riscv_hypervisor.Kmem.{kmalloc}
use riscv_hypervisor.Kmem.Chain.{IsPlaced}
use riscv_hypervisor.Vmem.{minus_one, map_page, map_loop, map_pages}
use riscv_hypervisor.Vmem.Map.{leaf_entry}
use riscv_hypervisor.Vmem.Tree.{
  Use, IsRoot, Space, Moves, Moves-refl, Moves-trans, Moves-more, root_index, upper_index,
  lower_index,
}
use riscv_hypervisor.Vmem.Tree.Mapping.{entry_of, Mapped, map_page-Runs}
use riscv_hypervisor.Vmem.Tree.Give.{Given, kmalloc-Given}
use riscv_hypervisor.Vmem.Tree.Region.{
  round_address, Target, Region, Clashes, Round, no_rounds, takes_one_more, clash_earlier,
  Target-mono,
}

-- The physical page of a round is chosen, and nothing that was mapped has changed.
pub record Chosen (dynamic root va pa flags : ℕ) (own : ℕ → Use) (pages : List ℕ) (ram : Ram)
    (offset tmp : ℕ) (ram' : Ram) : Type 0 where
  pub own' : ℕ → Use
  pub pages' : List ℕ
  pub moves : Moves dynamic root 1 own own' pages pages' ram ram'
  pub same : (x : ℕ) → entry_of ram'.memory root x ≡ entry_of ram.memory root x
  pub target : Target own' va pa offset flags (leaf_entry tmp flags)

choose : ℕ → ℕ → Cmd Ram ℕ
choose pa offset =
    if pa == 0 then (kmalloc >>= λ kpa. pure (kpa2pa kpa)) else pure (u64 (pa + offset))

choose-Runs :
    (dynamic root : ℕ)
    → IsPlaced dynamic
    → IsRoot root
    → (va flags offset : ℕ) (own : ℕ → Use) (pages : List ℕ) (ram : Ram)
    → Space dynamic root own pages ram
    → (pa : ℕ)
    → Runs ⊥
        (length pages < 1)
        (Chosen dynamic root va pa flags own pages ram offset)
        (choose pa offset ram)
unfolding choose
choose-Runs dynamic root placed r va flags offset own pages ram space zero =
    and_then-Runs ⊥ (length pages < 1) (Given dynamic root own pages ram (round_address va offset))
      (Chosen dynamic root va 0 flags own pages ram offset) (kmalloc ram) (λ kpa. pure (kpa2pa kpa))
      (kmalloc-Given dynamic root placed r own ram (round_address va offset) pages space)
      (λ page t g. record {
        own' = g.own';
        pages' = g.pages';
        moves = g.moves;
        same = λ x.
            g.same (root_index x) (upper_index x) (lower_index x) (omega arith) (omega arith)
              (omega arith);
        target = (page, g.is_given, refl);
      })
choose-Runs dynamic root placed r va flags offset own pages ram space (suc pa) =
    let nonzero : (suc pa == 0) ≡ false = ground arith in
    let chosen : Chosen dynamic root va (suc pa) flags own pages ram offset (u64 (suc pa + offset))
        ram =
      record {
        own' = own;
        pages' = pages;
        moves =
            Moves-more dynamic root 0 1 own own pages pages ram ram
              (Moves-refl dynamic root own pages ram space) (omega arith);
        same = λ x. refl;
        target = refl;
      } in
    rw nonzero chosen

module _ (dynamic root : ℕ) (placed : IsPlaced dynamic) (r : IsRoot root) (va pa flags : ℕ) where
  abbrev Ends : (ℕ → Use) → List ℕ → Ram → ℕ → ℕ → ℕ → Ram → Type 0
  Ends own pages ram count offset rv after =
      (rv ≡ 0) × Region dynamic root own pages ram count offset va pa flags after

  -- The rounds after one.
  rest-Runs :
      (own : ℕ → Use) (pages : List ℕ) (ram t : Ram) (left offset : ℕ)
      → (first : Round dynamic root placed r va pa flags own pages ram offset t)
      → (m : Outcome Ram ℕ)
      → Runs
          (Clashes root t left (offset + page_size) va)
          (length first.pages' < 3 * left)
          (Ends first.own' first.pages' t left (offset + page_size))
          m
      → Runs
          (Clashes root ram (suc left) offset va)
          (length pages < 3 * suc left)
          (Ends own pages ram (suc left) offset)
          m
  rest-Runs own pages ram t left offset first m runs =
      Runs-mono (Clashes root t left (offset + page_size) va) (length first.pages' < 3 * left)
        (Ends first.own' first.pages' t left (offset + page_size))
        (Clashes root ram (suc left) offset va) (length pages < 3 * suc left)
        (Ends own pages ram (suc left) offset) m runs
        (clash_earlier dynamic root placed r va pa flags own pages ram t left offset first)
        (λ few. let takes = first.moves.takes in omega arith)
        (λ rv u e. (
          e.0,
          takes_one_more dynamic root placed r va pa flags own pages ram t u left offset first e.1,
        ))

  round :
      (own : ℕ → Use) (pages : List ℕ) (ram t u : Ram) (offset tmp : ℕ)
      → (c : Chosen dynamic root va pa flags own pages ram offset tmp t)
      → Mapped dynamic root c.own' c.pages' t (round_address va offset) (leaf_entry tmp flags) u
      → Round dynamic root placed r va pa flags own pages ram offset u
  round own pages ram t u offset tmp c m = record {
    own' = m.own';
    pages' = m.pages';
    moves =
        Moves-trans dynamic root 1 2 own c.own' m.own' pages c.pages' m.pages' ram t u c.moves
          m.moves;
    value = leaf_entry tmp flags;
    target =
        Target-mono c.own' m.own' va pa offset flags (leaf_entry tmp flags) m.moves.grows.kept
          c.target;
    entries = λ x. m.entries x ∙ rw (c.same x) refl;
  }

  -- A round from the choice of its page on.
  Chosen-Runs :
      (left offset tmp : ℕ) (own : ℕ → Use) (pages : List ℕ) (ram t : Ram)
      → (next : Cmd Ram ℕ)
      → ((own' : ℕ → Use) (pages' : List ℕ) (u : Ram)
          → Space dynamic root own' pages' u
          → Runs
              (Clashes root u left (offset + page_size) va)
              (length pages' < 3 * left)
              (Ends own' pages' u left (offset + page_size))
              (next u))
      → Chosen dynamic root va pa flags own pages ram offset tmp t
      → Runs
          (Clashes root ram (suc left) offset va)
          (length pages < 3 * suc left)
          (Ends own pages ram (suc left) offset)
          (and_then
            (map_page root (round_address va offset) tmp flags true t)
            (λ rv. if is_negative rv then pure minus_one else next))
  Chosen-Runs left offset tmp own pages ram t next go c =
      let P : ℕ → Ram → Type 0 = λ rv u.
        (rv ≡ 0)
        × Mapped dynamic root c.own' c.pages' t (round_address va offset) (leaf_entry tmp flags)
            u in
      let Stops = Clashes root ram (suc left) offset va in
      let Lacks = length pages < 3 * suc left in
      and_then-Runs Stops Lacks P (Ends own pages ram (suc left) offset)
        (map_page root (round_address va offset) tmp flags true t) _
        (Runs-mono (entry_of t.memory root (round_address va offset) % 2 ≡ 1) (length c.pages' < 2)
          P Stops Lacks P (map_page root (round_address va offset) tmp flags true t)
          (map_page-Runs dynamic root placed r (round_address va offset) tmp flags c.own' c.pages' t
            c.moves.space)
          (λ valid.
            (let shift : offset + 0 * page_size ≡ offset = omega arith in
              inl (
                0,
                omega arith,
                ap (λ o. entry_of ram.memory root (round_address va o) % 2) shift
                    ∙ ap (λ (e : ℕ). e % 2) (sym (c.same (round_address va offset)))
                    ∙ valid,
              )))
          (λ few. let takes = c.moves.takes in omega arith) (λ rv u e. e))
        (λ rv u e. rw e.0 (
          let first = round own pages ram t u offset tmp c e.1 in
          rest-Runs own pages ram u left offset first (next u)
            (go first.own' first.pages' u first.moves.space)))

  map_loop-Runs :
      (left offset : ℕ) (own : ℕ → Use) (pages : List ℕ) (ram : Ram)
      → Space dynamic root own pages ram
      → Runs
          (Clashes root ram left offset va)
          (length pages < 3 * left)
          (Ends own pages ram left offset)
          (map_loop left offset root va pa flags true ram)
  unfolding map_loop choose
  map_loop-Runs zero offset own pages ram space =
      (refl, no_rounds dynamic root placed r va pa flags own pages ram offset space)
  map_loop-Runs (suc left) offset own pages ram space =
      and_then-Runs (Clashes root ram (suc left) offset va) (length pages < 3 * suc left)
        (Chosen dynamic root va pa flags own pages ram offset)
        (Ends own pages ram (suc left) offset) (choose pa offset ram) _
        (Runs-mono ⊥ (length pages < 1) (Chosen dynamic root va pa flags own pages ram offset)
          (Clashes root ram (suc left) offset va) (length pages < 3 * suc left)
          (Chosen dynamic root va pa flags own pages ram offset) (choose pa offset ram)
          (choose-Runs dynamic root placed r va flags offset own pages ram space pa) (λ e. absurd e)
          (λ few. omega arith) (λ tmp t c. c))
        (λ tmp t c.
          Chosen-Runs left offset tmp own pages ram t
            (map_loop left (offset + page_size) root va pa flags true)
            (λ own' pages' u s. map_loop-Runs left (offset + page_size) own' pages' u s) c)

  -- `map_pages` runs the rounds of the size in pages.
  pub map_pages-Runs :
      (size : ℕ) (own : ℕ → Use) (pages : List ℕ) (ram : Ram)
      → Space dynamic root own pages ram
      → Runs
          (Clashes root ram (pg_round_up size / page_size) 0 va)
          (length pages < 3 * (pg_round_up size / page_size))
          (Ends own pages ram (pg_round_up size / page_size) 0)
          (map_pages root va pa size flags true ram)
  unfolding map_pages
  map_pages-Runs size own pages ram space =
      map_loop-Runs (pg_round_up size / page_size) 0 own pages ram space
