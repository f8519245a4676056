-- ===== src/Examples/Spaces.antt =====
-- The address spaces of two small guests, with fifteen free pages.
use riscv_hypervisor.Common.{
  ℕ, ◌+◌, ◌*◌, ◌/◌, ◌%◌, ◌<◌, ◌≤◌, ◌≡◌, refl, ap, arith, ltb, true, if◌then◌else◌, List, [], ◌∷◌,
  Option, none, some, inl, inr, length, u64,
}
use riscv_hypervisor.Common.Effects.{ok}
use riscv_hypervisor.Memory.{page_size, kva2kpa, pa2kpa, kpa2pa, pg_round_up}
use riscv_hypervisor.Memory.Laws.{kpa2pa-eq-add}
use riscv_hypervisor.Ram.{Ram}
use riscv_hypervisor.Kmem.{valid_address}
use riscv_hypervisor.Kmem.Chain.{has, IsFree, IsPlaced, AreValid}
use riscv_hypervisor.Vmem.{map_page, convert_va_to_pa}
use riscv_hypervisor.Vmem.Map.{leaf_entry}
use riscv_hypervisor.Vmem.Tree.{Use, IsRoot, Space}
use riscv_hypervisor.Vmem.Tree.Mapping.{entry_of, is_same_page}
use riscv_hypervisor.Vmem.Tree.Total.{map_page_sets, map_page_round_trip}
use riscv_hypervisor.VmConfig.{VmConfig, MmioDev, serial}
use riscv_hypervisor.VmRun.{init_hs_pgtable}
use riscv_hypervisor.VmRun.Areas.{areas, weight, IsIn, AreApart, AreEntered, image_area}
use riscv_hypervisor.VmRun.Space.{own_at_first, cleared, cleared-Space, cleared-Built}
use riscv_hypervisor.VmRun.Shown.{Shows, init_hs_pgtable-Shows}
use riscv_hypervisor.VmRun.Image.{init_hs_pgtable-convert_va_to_pa}
use riscv_hypervisor.VmRun.Apart.{IsOutside, IsSound, AreSeparate, guests_memory_apart}

-- The end of the image, in its page of the kernel's addresses.
abbrev dynamic : ℕ
dynamic = 0xffffffc00ff00080

abbrev first : ℕ
first = 0xffffffe00ff01000

abbrev pages : List ℕ
pages =
    first
    ∷ (first + 0x1000)
    ∷ (first + 0x2000)
    ∷ (first + 0x3000)
    ∷ (first + 0x4000)
    ∷ (first + 0x5000)
    ∷ (first + 0x6000)
    ∷ (first + 0x7000)
    ∷ (first + 0x8000)
    ∷ (first + 0x9000)
    ∷ (first + 0xa000)
    ∷ (first + 0xb000)
    ∷ (first + 0xc000)
    ∷ (first + 0xd000)
    ∷ (first + 0xe000)
    ∷ []

abbrev ram : Ram
ram = record { memory = λ a. if ltb a (first + 0xe000) then a + 0x1000 else 0; freelist = first }

placed : IsPlaced dynamic
placed = omega arith

pages-valid : AreValid dynamic pages
unfolding valid_address kva2kpa pa2kpa
pages-valid = (
  refl,
  (
    refl,
    (
      refl,
      (
        refl,
        (refl, (refl, (refl, (refl, (refl, (refl, (refl, (refl, (refl, (refl, (refl, tt))))))))))),
      ),
    ),
  ),
)

pages-IsFree : IsFree dynamic ram pages
pages-IsFree = record {
  chain = (
    refl,
    (omega arith),
    (
      refl,
      (omega arith),
      (
        refl,
        (omega arith),
        (
          refl,
          (omega arith),
          (
            refl,
            (omega arith),
            (
              refl,
              (omega arith),
              (
                refl,
                (omega arith),
                (
                  refl,
                  (omega arith),
                  (
                    refl,
                    (omega arith),
                    (
                      refl,
                      (omega arith),
                      (
                        refl,
                        (omega arith),
                        (
                          refl,
                          (omega arith),
                          (refl, (omega arith), (refl, (omega arith), (refl, (omega arith), refl))),
                        ),
                      ),
                    ),
                  ),
                ),
              ),
            ),
          ),
        ),
      ),
    ),
  );
  valid = pages-valid;
  distinct = (
    refl,
    (
      refl,
      (
        refl,
        (
          refl,
          (
            refl,
            (refl, (refl, (refl, (refl, (refl, (refl, (refl, (refl, (refl, (refl, tt)))))))))),
          ),
        ),
      ),
    ),
  );
}

abbrev guest : ℕ → ℕ → List (Option MmioDev) → VmConfig
guest image root devices = record {
  cpu_affinity = 1;
  image_base = image;
  image_end = image + 0x1000;
  memory_base = 0x80100000;
  memory_size = 0x2000;
  entry = 0x80100000;
  devices = devices;
  vm_pgtable = root;
}

abbrev a : VmConfig
a = guest 0x80040000 0xffffffc000100000 (some serial ∷ none ∷ [])

abbrev b : VmConfig
b = guest 0x80050000 0xffffffc000104000 (none ∷ [])

a-AreApart : AreApart [] (areas a)
unfolding pg_round_up
a-AreApart = (
  omega arith,
  (λ n x i c. c),
  (
    omega arith,
    (λ n x i c. elim c [ inl (m, j) ↦ ground arith | inr e ↦ e ]),
    (
      omega arith,
      (λ n x i c. elim c [
        | inl (m, j) ↦ ground arith
        | inr (inl (m, j)) ↦ ground arith
        | inr (inr e) ↦ e
      ]),
      tt,
    ),
  ),
)

b-AreApart : AreApart [] (areas b)
unfolding pg_round_up
b-AreApart = (
  omega arith,
  (λ n x i c. c),
  (omega arith, (λ n x i c. elim c [ inl (m, j) ↦ ground arith | inr e ↦ e ]), tt),
)

a-weight : weight (areas a) ≡ 9
unfolding pg_round_up
a-weight = refl

b-weight : weight (areas b) ≡ 6
unfolding pg_round_up
b-weight = refl

pages-high : (q : ℕ) → has q pages ≡ true → (first ≤ q) × (q < first + 0xf000)
pages-high q h = ground arith

kpa2pa-high : (q : ℕ) → has q pages ≡ true → 0x8ff00000 ≤ kpa2pa q
kpa2pa-high q h =
    let bounds = pages-high q h in
    let low = kpa2pa-eq-add q (omega arith) (omega arith) in omega arith

a-IsOutside : IsOutside (areas a) pages
unfolding pg_round_up
a-IsOutside q h backed =
    let high = kpa2pa-high q h in
    elim backed [
      | inl (n, i, nonzero, allowed, p) ↦ omega arith
      | inr (inl (n, i, nonzero, allowed, p)) ↦ absurd (nonzero refl)
      | inr (inr (inl (n, i, nonzero, allowed, p))) ↦ omega arith
      | inr (inr (inr e)) ↦ e
    ]

b-IsOutside : IsOutside (areas b) pages
unfolding pg_round_up
b-IsOutside q h backed =
    let high = kpa2pa-high q h in
    elim backed [
      | inl (n, i, nonzero, allowed, p) ↦ omega arith
      | inr (inl (n, i, nonzero, allowed, p)) ↦ absurd (nonzero refl)
      | inr (inr e) ↦ e
    ]

a-IsRoot : IsRoot a.vm_pgtable
a-IsRoot = (omega arith, omega arith)

b-IsRoot : IsRoot b.vm_pgtable
b-IsRoot = (omega arith, omega arith)

a-IsSound : IsSound a pages
a-IsSound = (a-IsRoot, tt, a-AreApart, (omega arith, (omega arith, (omega arith, tt))), a-IsOutside)

b-IsSound : IsSound b pages
b-IsSound = (b-IsRoot, tt, b-AreApart, (omega arith, (omega arith, tt)), b-IsOutside)

-- The cleared root of the first guest.
start : Space dynamic a.vm_pgtable (own_at_first pages) pages (cleared ram a.vm_pgtable)
start = cleared-Space dynamic a.vm_pgtable placed a-IsRoot pages ram pages-IsFree

start-unmapped : (va : ℕ) → entry_of (cleared ram a.vm_pgtable).memory a.vm_pgtable va % 2 ≡ 0
start-unmapped va =
    let built = cleared-Built dynamic a.vm_pgtable placed a-IsRoot pages ram pages-IsFree in
    elim (built.only va) [ inl e ↦ ap (λ (v : ℕ). v % 2) e | inr e ↦ absurd e ]

map_page_sets_example :
    (after : Ram) × (own' : ℕ → Use) × (pages' : List ℕ) × (map_page a.vm_pgtable 0x80100000
        0x80040000 0x1e true
        (cleared ram a.vm_pgtable)
      ≡ ok 0 after)
    × Space dynamic a.vm_pgtable own' pages' after
    × (length pages ≤ 2 + length pages')
    × ((x : ℕ)
        → entry_of after.memory a.vm_pgtable x ≡ (
            if is_same_page x 0x80100000
            then leaf_entry 0x80040000 0x1e
            else entry_of (cleared ram a.vm_pgtable).memory a.vm_pgtable x))
map_page_sets_example =
    map_page_sets dynamic a.vm_pgtable (own_at_first pages) pages (cleared ram a.vm_pgtable)
      0x80100000 0x80040000 0x1e placed a-IsRoot start (omega arith) (start-unmapped 0x80100000)

map_page_round_trip_example :
    (after : Ram) × (map_page a.vm_pgtable 0x80100123 0x80040000 0x1e true
        (cleared ram a.vm_pgtable)
      ≡ ok 0 after)
    × (convert_va_to_pa a.vm_pgtable 0x80100123 true after ≡ ok 0x80040123 after)
map_page_round_trip_example =
    map_page_round_trip dynamic a.vm_pgtable (own_at_first pages) pages (cleared ram a.vm_pgtable)
      0x80100123 0x80040000 0x1e placed a-IsRoot start (omega arith) (start-unmapped 0x80100123)
      (omega arith) (omega arith)

init_hs_pgtable-Shows_example :
    (after : Ram) × (own : ℕ → Use) × (pages' : List ℕ) × (init_hs_pgtable a ram ≡ ok tt after)
    × IsFree dynamic after pages'
    × Shows a pages pages' own after.memory
    × AreEntered own after.memory a.vm_pgtable (areas a)
init_hs_pgtable-Shows_example =
    init_hs_pgtable-Shows dynamic a pages ram placed a-IsRoot pages-IsFree tt a-AreApart
      (omega arith, (omega arith, (omega arith, tt))) (rw a-weight (omega arith))

init_hs_pgtable-convert_va_to_pa_example :
    (after : Ram) × (init_hs_pgtable a ram ≡ ok tt after)
    × ((n x : ℕ)
        → IsIn (image_area a) n x
        → convert_va_to_pa a.vm_pgtable x true after
          ≡ ok (u64 (0x80040000 + n * page_size) / page_size * page_size + x % page_size) after)
init_hs_pgtable-convert_va_to_pa_example =
    init_hs_pgtable-convert_va_to_pa dynamic a pages ram placed a-IsRoot pages-IsFree tt a-AreApart
      (rw a-weight (omega arith)) (omega arith)

guests_memory_apart_example :
    (t u : Ram) × (init_hs_pgtable a ram ≡ ok tt t)
    × (init_hs_pgtable b t ≡ ok tt u)
    × AreSeparate a b u.memory
guests_memory_apart_example =
    guests_memory_apart dynamic a b pages ram placed pages-IsFree a-IsSound b-IsSound
      (inl (omega arith)) (rw (a-weight, b-weight) (omega arith))
