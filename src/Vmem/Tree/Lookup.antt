-- ===== src/Vmem/Tree/Lookup.antt =====
-- `convert_va_to_pa` on the tree: it reads the last entry of the address.
use riscv_hypervisor.Common.{
  ℕ, ◌-◌, ◌≤◌, ◌⊎◌, ◌==◌, ◌||◌, false, Bool-cases, if◌then◌else◌, ◌+◌, ◌*◌, ◌/◌, ◌%◌, ◌^◌, ◌<◌, ◌≡◌,
  ◌≢◌, refl, ap, ◌∙◌, true, inl, inr, arith, bit_or,
}
use riscv_hypervisor.Common.Masks.{bit_or-disjoint}
use riscv_hypervisor.Common.Effects.{ok, panic, bad_walk}
use riscv_hypervisor.Bits.{get_value}
use riscv_hypervisor.Bits.Value.{get_value-field}
use riscv_hypervisor.Memory.{page_size, vas_ram, pte2pa, pa2kpa}
use riscv_hypervisor.Memory.Laws.{pa2kpa-eq-add}
use riscv_hypervisor.Dtb.{dtb_memory, dtb_memory_size}
use riscv_hypervisor.Ram.{Ram}
use riscv_hypervisor.Vmem.{convert_va_to_pa}
use riscv_hypervisor.Vmem.Walk.{lookup, convert_va_to_pa-lookup}
use riscv_hypervisor.Vmem.Tree.{Use, slot, IsRoot, IsPage, Tree, root_index, upper_index}
use riscv_hypervisor.Vmem.Tree.Slots.{test_ne}
use riscv_hypervisor.Vmem.Tree.Entries.{
  entry_at-root_index, entry_at-upper_index, entry_at-lower_index, pte_v-test,
}
use riscv_hypervisor.Vmem.Tree.Mapping.{entry_of}

pte2pa-or : (e r : ℕ) → r < page_size → bit_or (pte2pa e) r ≡ pte2pa e + r
unfolding pte2pa
pte2pa-or e r h =
    let q : e / 2 ^ 10 * 2 ^ 12 % 2 ^ 64 ≡ e / 2 ^ 10 % 2 ^ 52 * 2 ^ 12 = omega arith in
    rw q (bit_or-disjoint 12 (e / 2 ^ 10 % 2 ^ 52) r h)

module _ (root : ℕ) (own : ℕ → Use) (r : IsRoot root) (va : ℕ) where
  -- The address of the entry.
  lookup-entry_of :
      (memory : ℕ → ℕ)
      → Tree root own memory
      → entry_of memory root va % 2 ≡ 1
      → (lookup memory root va true ≢ 0)
        × (memory (lookup memory root va true) ≡ entry_of memory root va)
  lookup-entry_of memory tree valid = elim (tree.roots (root_index va) (omega arith)) [
    | inl even ↦ absurd (let bad : 0 % 2 ≡ 1 = rw even at valid in omega arith)
    | inr (t1, o1, l1) ↦ elim (tree.uppers (root_index va) (upper_index va) t1 o1 (omega arith)) [
      | inl even ↦ absurd (let bad : 0 % 2 ≡ 1 = rw (l1.0, l1.2, even) at valid in omega arith)
      | inr (t2, o2, l2) ↦
          (let p1 = tree.pages t1 (λ e. cc) in
            let p2 = tree.pages t2 (λ e. cc) in
            rw
              (
                entry_at-root_index root va r,
                pte_v-test (memory (slot root (root_index va))),
                l1.0,
                l1.2,
                entry_at-upper_index t1 va p1,
                pte_v-test (memory (slot t1 (upper_index va))),
                l2.0,
                l2.2,
                entry_at-lower_index t2 va p2,
              )
              ((λ e. omega arith), refl))
    ]
  ]

  pub convert_va_to_pa-entry_of :
      (ram : Ram)
      → Tree root own ram.memory
      → entry_of ram.memory root va % 2 ≡ 1
      → convert_va_to_pa root va true ram
        ≡ ok (pte2pa (entry_of ram.memory root va) + va % page_size) ram
  convert_va_to_pa-entry_of ram tree valid =
      let found = lookup-entry_of ram.memory tree valid in
      let offset : get_value va 0 12 ≡ va % page_size =
        omega (arith, get_value-field va 0 12 (omega arith) (omega arith)) in
      convert_va_to_pa-lookup root va true ram
      ∙ rw (test_ne root 0 r.0, test_ne (lookup ram.memory root va true) 0 found.0, found.1, offset)
          (ap (λ pa. ok pa ram)
            (pte2pa-or (entry_of ram.memory root va) (va % page_size) (omega arith)))

-- The page that an entry names, and the kernel's address of a table there.
abbrev pub page_named : ℕ → ℕ
page_named e = e / 2 ^ 10 % 2 ^ 52 * page_size

abbrev pub table_named : ℕ → ℕ
table_named e = vas_ram + (page_named e - dtb_memory)

-- The entries that an address finds one after another.
abbrev pub root_entry : (ℕ → ℕ) → ℕ → ℕ → ℕ
root_entry memory root va = memory (root + 8 * (va / 2 ^ 30 % 2048))

abbrev pub upper_entry : (ℕ → ℕ) → ℕ → ℕ → ℕ
upper_entry memory root va =
    memory (table_named (root_entry memory root va) + 8 * (va / 2 ^ 21 % 512))

abbrev pub leaf_at : (ℕ → ℕ) → ℕ → ℕ → ℕ
leaf_at memory root va = memory (table_named (upper_entry memory root va) + 8 * (va / 2 ^ 12 % 512))

-- The entry is not valid, or it names a page of the memory.
abbrev pub IsLink : ℕ → Type 0
IsLink e =
    (e % 2 ≡ 0) ⊎ ((dtb_memory ≤ page_named e) × (page_named e < dtb_memory + dtb_memory_size))

pte2pa-page_named : (e : ℕ) → pte2pa e ≡ page_named e
unfolding pte2pa
pte2pa-page_named e = omega arith

-- A valid entry leads to the table that it names.
link-table_named :
    (e : ℕ)
    → IsLink e
    → (e % 2 == 0) ≡ false
    → (pa2kpa (pte2pa e) ≡ table_named e) × IsPage (table_named e)
link-table_named e (inl even) odd = absurd (ground arith)
link-table_named e (inr bounds) odd =
    (rw (pte2pa-page_named e) (pa2kpa-eq-add (page_named e) bounds.0 (omega arith)), omega arith)

lookup-entries :
    (memory : ℕ → ℕ) (root va : ℕ)
    → IsRoot root
    → IsLink (root_entry memory root va)
    → IsLink (upper_entry memory root va)
    → lookup memory root va true ≡ (
        if root_entry memory root va % 2 == 0 || upper_entry memory root va % 2 == 0
        then 0
        else table_named (upper_entry memory root va) + 8 * (va / 2 ^ 12 % 512))
lookup-entries memory root va r one two =
    let e1 = root_entry memory root va in
    let e2 = upper_entry memory root va in
    elim (Bool-cases (e1 % 2 == 0)) [
      | inl a ↦ rw (entry_at-root_index root va r, pte_v-test e1, a) refl
      | inr a ↦
          let t1 = link-table_named e1 one a in
          elim (Bool-cases (e2 % 2 == 0)) [
            | inl b ↦
                rw
                  (
                    entry_at-root_index root va r,
                    pte_v-test e1,
                    a,
                    t1.0,
                    entry_at-upper_index (table_named e1) va t1.1,
                    pte_v-test e2,
                    b,
                  )
                  refl
            | inr b ↦
                let t2 = link-table_named e2 two b in
                rw
                  (
                    entry_at-root_index root va r,
                    pte_v-test e1,
                    a,
                    t1.0,
                    entry_at-upper_index (table_named e1) va t1.1,
                    pte_v-test e2,
                    b,
                    t2.0,
                    entry_at-lower_index (table_named e2) va t2.1,
                  )
                  refl
          ]
    ]

-- For a root table in the kernel's image, where the root's entry for bits 30 to 40 of an
-- address, and the entry for its bits 21 to 29 in the table which that one names, are not valid
-- or name a page of the memory: convert_va_to_pa stops the hypervisor if one of the two is not
-- valid, and otherwise gives the page that the entry for bits 12 to 20 in the last table names,
-- valid or not, with the lowest 12 bits of the address, and changes nothing.
pub convert_va_to_pa-entries :
    (root va : ℕ) (ram : Ram)
    → IsRoot root
    → IsLink (root_entry ram.memory root va)
    → IsLink (upper_entry ram.memory root va)
    → convert_va_to_pa root va true ram ≡ (
        if root_entry ram.memory root va % 2 == 0 || upper_entry ram.memory root va % 2 == 0
        then panic bad_walk
        else ok (page_named (leaf_at ram.memory root va) + va % page_size) ram)
convert_va_to_pa-entries root va ram r one two =
    let memory = ram.memory in
    let e3 = leaf_at memory root va in
    let found = lookup-entries memory root va r one two in
    let offset : get_value va 0 12 ≡ va % page_size =
      omega (arith, get_value-field va 0 12 (omega arith) (omega arith)) in
    let low : pte2pa e3 ≡ page_named e3 = pte2pa-page_named e3 in
    elim (Bool-cases (root_entry memory root va % 2 == 0 || upper_entry memory root va % 2 == 0)) [
      | inl a ↦ convert_va_to_pa-lookup root va true ram ∙ rw (test_ne root 0 r.0, found, a) refl
      | inr a ↦
          let there : (table_named (upper_entry memory root va) + 8 * (va / 2 ^ 12 % 512) == 0)
              ≡ false =
            ground arith in
          convert_va_to_pa-lookup root va true ram
          ∙ rw (test_ne root 0 r.0, found, a, there, offset)
              (ap (λ pa. ok pa ram) (pte2pa-or e3 (va % page_size) (omega arith) ∙ rw low refl))
    ]
