-- ===== src/VmRun/Areas.antt =====
-- The areas of a guest's address space that `init_hs_pgtable` maps, and what the last entries show
-- of them.
use riscv_hypervisor.Common.{
  ℕ, zero, suc, refl, sym, ap, ◌∙◌, ◌-◌, ◌%◌, ◌+◌, ◌*◌, ◌/◌, ◌^◌, ◌<◌, ◌≤◌, ◌≡◌, ◌≢◌, ◌⊎◌, true,
  inl, inr, arith, u32, u64, sub64, bit_or, List, [], ◌∷◌, Option, none, some,
}
use riscv_hypervisor.Memory.{page_size, pte_u, pg_round_up, kpa2pa, pa2pte}
use riscv_hypervisor.Memory.Laws.{kpa2pa-eq-add}
use riscv_hypervisor.Vmem.Map.{leaf_entry-eq-add}
use riscv_hypervisor.Vmem.Tree.{Use, unused, given, foreign, IsPage}
use riscv_hypervisor.Vmem.Tree.Mapping.{entry_of, is_same_page}
use riscv_hypervisor.Vmem.Tree.Region.{round_address, Target, Target-mono}
use riscv_hypervisor.VmConfig.{VmConfig, MmioDev}
use riscv_hypervisor.VmRun.{guest_ram}

-- `count` pages from a guest's address on. The physical pages follow each other from `phys` on, or
-- are taken from the allocator where it is 0.
pub record Area : Type 0 where
  pub virt : ℕ
  pub phys : ℕ
  pub count : ℕ
  pub flags : ℕ

abbrev pub pages_of : ℕ → ℕ
pages_of size = pg_round_up size / page_size

abbrev pub device_area : MmioDev → Area
device_area dev = record {
  virt = dev.virt_base;
  phys = dev.phys_base;
  count = pages_of dev.size;
  flags = u32 (bit_or dev.perm pte_u);
}

-- The devices up to a null pointer.
abbrev pub device_areas : List (Option MmioDev) → List Area
device_areas [] = []
device_areas (none ∷ devs) = []
device_areas (some dev ∷ devs) = device_area dev ∷ device_areas devs

abbrev pub image_size : VmConfig → ℕ
image_size conf = pg_round_up (sub64 conf.image_end conf.image_base)

abbrev pub image_area : VmConfig → Area
image_area conf = record {
  virt = conf.memory_base;
  phys = conf.image_base;
  count = pages_of (image_size conf);
  flags = guest_ram;
}

abbrev pub memory_area : VmConfig → Area
memory_area conf = record {
  virt = u64 (conf.memory_base + image_size conf);
  phys = 0;
  count = pages_of (sub64 conf.memory_size (image_size conf));
  flags = guest_ram;
}

abbrev pub areas : VmConfig → List Area
areas conf = image_area conf ∷ memory_area conf ∷ device_areas conf.devices

-- The tables and pages that the areas take at most.
abbrev pub weight : List Area → ℕ
weight [] = 0
weight (a ∷ as') = 3 * a.count + weight as'

-- An address in a page of an area.
abbrev pub IsIn : Area → ℕ → ℕ → Type 0
IsIn a n x = (n < a.count) × (is_same_page x (round_address a.virt (n * page_size)) ≡ true)

abbrev pub IsCovered : List Area → ℕ → Type 0
IsCovered [] x = ⊥
IsCovered (a ∷ done) x = ((n : ℕ) × IsIn a n x) ⊎ IsCovered done x

-- No area is larger than what is translated, and none shares a page with one before it.
abbrev pub AreApart : List Area → List Area → Type 0
AreApart done [] = Unit
AreApart done (a ∷ later) =
    (a.count ≤ 2 ^ 29) × ((n x : ℕ) → IsIn a n x → IsCovered done x → ⊥) × AreApart (a ∷ done) later

-- A last entry that leads to the page of the address in an area.
abbrev pub Leads : (ℕ → Use) → List Area → ℕ → ℕ → Type 0
Leads own [] x e = ⊥
Leads own (a ∷ done) x e =
    ((n : ℕ) × IsIn a n x × Target own a.virt a.phys (n * page_size) a.flags e) ⊎ Leads own done x e

-- Every page of the areas is mapped.
abbrev pub AreMapped : (ℕ → Use) → (ℕ → ℕ) → ℕ → List Area → Type 0
AreMapped own memory root [] = Unit
AreMapped own memory root (a ∷ done) =
    ((n : ℕ)
      → n < a.count
      → Target own a.virt a.phys (n * page_size) a.flags
          (entry_of memory root (round_address a.virt (n * page_size))))
    × AreMapped own memory root done

-- The permissions are below the page number of an entry.
abbrev pub AreNarrow : List Area → Type 0
AreNarrow [] = Unit
AreNarrow (a ∷ listed) = (a.flags < 2 ^ 10) × AreNarrow listed

-- A valid last entry as the processor reads it: the number of a page above ten bits with the
-- permissions of an area.
abbrev pub names_page : Area → ℕ → ℕ
names_page a pa = pa / page_size * 2 ^ 10 + (a.flags + (1 - a.flags % 2))

-- The entry for a page of an area names the page at its place behind the area's physical address
-- or, where that is 0, the page that was given at the address of the guest.
abbrev pub IsEntry : (ℕ → Use) → Area → ℕ → ℕ → Type 0
IsEntry own a n e =
    ((a.phys ≢ 0) × (e ≡ names_page a (u64 (a.phys + n * page_size))))
    ⊎ ((a.phys ≡ 0)
        × ((page : ℕ) × (own page ≡ given (round_address a.virt (n * page_size)))
            × (e ≡ names_page a (kpa2pa page))))

-- The entries for all pages of the areas.
abbrev pub AreEntered : (ℕ → Use) → (ℕ → ℕ) → ℕ → List Area → Type 0
AreEntered own memory root [] = Unit
AreEntered own memory root (a ∷ done) =
    ((n : ℕ)
      → n < a.count
      → IsEntry own a n (entry_of memory root (round_address a.virt (n * page_size))))
    × AreEntered own memory root done

Target-IsEntry :
    (own : ℕ → Use) (a : Area) (n e pa : ℕ)
    → ((q : ℕ) → own q ≢ foreign → IsPage q)
    → a.flags < 2 ^ 10
    → a.phys ≡ pa
    → Target own a.virt pa (n * page_size) a.flags e
    → IsEntry own a n e
unfolding pa2pte
Target-IsEntry own a n e zero pages few is (page, g, leaf) =
    let p = pages page (λ f. cc) in
    let low = kpa2pa-eq-add page (omega arith) (omega arith) in
    inr (
      is,
      (page, g, leaf ∙ leaf_entry-eq-add (kpa2pa page) a.flags (omega arith) few ∙ omega arith),
    )
Target-IsEntry own a n e (suc pa) pages few is leaf = inl (
  (λ z. omega arith),
  leaf
      ∙ leaf_entry-eq-add (u64 (suc pa + n * page_size)) a.flags (omega arith) few
      ∙ ap (λ p. p + (a.flags + (1 - a.flags % 2))) (omega arith)
      ∙ ap (λ p. names_page a (u64 (p + n * page_size))) (sym is),
)

pub AreMapped-AreEntered :
    (own : ℕ → Use) (memory : ℕ → ℕ) (root : ℕ) (done : List Area)
    → ((q : ℕ) → own q ≢ foreign → IsPage q)
    → AreNarrow done
    → AreMapped own memory root done
    → AreEntered own memory root done
AreMapped-AreEntered own memory root [] pages few m = tt
AreMapped-AreEntered own memory root (a ∷ done) pages few m = (
  (λ n h.
      Target-IsEntry own a n (entry_of memory root (round_address a.virt (n * page_size))) a.phys
        pages few.0 refl (m.0 n h)),
  AreMapped-AreEntered own memory root done pages few.1 m.1,
)

pub Leads-mono :
    (own own' : ℕ → Use) (done : List Area) (x e : ℕ)
    → ((q : ℕ) → own q ≢ unused → own' q ≡ own q)
    → Leads own done x e
    → Leads own' done x e
Leads-mono own own' [] x e kept l = l
Leads-mono own own' (a ∷ done) x e kept (inl (n, i, t)) =
    inl (n, i, Target-mono own own' a.virt a.phys (n * page_size) a.flags e kept t)
Leads-mono own own' (a ∷ done) x e kept (inr l) = inr (Leads-mono own own' done x e kept l)

pub Leads-IsCovered :
    (own : ℕ → Use) (done : List Area) (x e : ℕ) → Leads own done x e → IsCovered done x
Leads-IsCovered own [] x e l = l
Leads-IsCovered own (a ∷ done) x e (inl (n, i, t)) = inl (n, i)
Leads-IsCovered own (a ∷ done) x e (inr l) = inr (Leads-IsCovered own done x e l)

-- Entries that are the same on the areas keep them mapped.
pub AreMapped-frame :
    (own own' : ℕ → Use) (memory memory' : ℕ → ℕ) (root : ℕ) (done : List Area)
    → ((q : ℕ) → own q ≢ unused → own' q ≡ own q)
    → ((x : ℕ) → IsCovered done x → entry_of memory' root x ≡ entry_of memory root x)
    → AreMapped own memory root done
    → AreMapped own' memory' root done
AreMapped-frame own own' memory memory' root [] kept same m = tt
AreMapped-frame own own' memory memory' root (a ∷ done) kept same m = (
  (λ n h. rw (same (round_address a.virt (n * page_size)) (inl (n, (h, ground arith)))) (
      Target-mono own own' a.virt a.phys (n * page_size) a.flags
        (entry_of memory root (round_address a.virt (n * page_size))) kept (m.0 n h))),
  AreMapped-frame own own' memory memory' root done kept (λ x c. same x (inr c)) m.1,
)
