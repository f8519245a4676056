-- ===== src/Vmem/Map.antt =====
-- Mapping a page where the tables of its address exist.
use riscv_hypervisor.Common.{
  ℕ, zero, suc, ◌+◌, ◌-◌, ◌*◌, ◌/◌, ◌%◌, ◌^◌, ◌<◌, ◌≡◌, ◌≢◌, refl, Bool, true, false, Bool-cases,
  inl, inr, ◌==◌, bit_and, bit_or, sign_extend, arith,
}
use riscv_hypervisor.Common.Digits.{bit_or_step}
use riscv_hypervisor.Common.Masks.{bit_or-zero, bit_or-disjoint}
use riscv_hypervisor.Common.Effects.{ok}
use riscv_hypervisor.Bits.{get_value}
use riscv_hypervisor.Bits.Value.{get_value-field}
use riscv_hypervisor.Memory.{page_size, pte_v, pa2kpa, pa2pte, pte2pa}
use riscv_hypervisor.Memory.Laws.{pte2pa-eq-page, pa2pte-or}
use riscv_hypervisor.Ram.{Ram, write_word}
use riscv_hypervisor.Vmem.{entry_at, next_table, walk_from, walk, map_page, convert_va_to_pa}
use riscv_hypervisor.Vmem.Walk.{lookup_from, lookup, convert_va_to_pa-lookup}

-- The entries that lead to the last one are at other addresses.
abbrev pub IsOffPath : (ℕ → ℕ) → ℕ → ℕ → ℕ → Bool → ℕ → Type 0
IsOffPath memory zero kpa va x4 a = Unit
IsOffPath memory (suc level) kpa va x4 a =
    (entry_at kpa va (suc level) x4 ≢ a)
    × IsOffPath memory level (pa2kpa (pte2pa (memory (entry_at kpa va (suc level) x4)))) va x4 a

-- A write off the path keeps the lookup.
lookup_from-write_word :
    (memory : ℕ → ℕ) (level kpa va : ℕ) (x4 : Bool) (a value : ℕ)
    → IsOffPath memory level kpa va x4 a
    → lookup_from (write_word memory a value) level kpa va x4 ≡ lookup_from memory level kpa va x4
lookup_from-write_word memory zero kpa va x4 a value off = refl
lookup_from-write_word memory (suc level) kpa va x4 a value off =
    let entry = memory (entry_at kpa va (suc level) x4) in
    let other : (entry_at kpa va (suc level) x4 == a) ≡ false = ground (arith, off.0) in
    rw other (elim (Bool-cases (bit_and entry pte_v == 0)) [
      | inl e ↦ rw e
      | inr e ↦
          rw e (lookup_from-write_word memory level (pa2kpa (pte2pa entry)) va x4 a value off.1)
    ])

-- Where the tables exist, a walk that may allocate does not.
walk_from-alloc :
    (level kpa va : ℕ) (x4 : Bool) (ram : Ram)
    → lookup_from ram.memory level kpa va x4 ≢ 0
    → walk_from level kpa va true x4 ram ≡ ok (lookup_from ram.memory level kpa va x4) ram
unfolding walk_from next_table
walk_from-alloc zero kpa va x4 ram found = refl
walk_from-alloc (suc level) kpa va x4 ram found =
    let entry = ram.memory (entry_at kpa va (suc level) x4) in
    elim (Bool-cases (bit_and entry pte_v == 0)) [
      | inl e ↦ absurd (found (rw e))
      | inr e ↦ rw e (walk_from-alloc level (pa2kpa (pte2pa entry)) va x4 ram (rw e at found))
    ]

-- The entry that `map_page` writes.
abbrev pub leaf_entry : ℕ → ℕ → ℕ
leaf_entry pa flags = bit_or (bit_or (pa2pte pa) (sign_extend flags)) pte_v

bit_or-one : (x : ℕ) → bit_or x 1 ≡ x + (1 - x % 2)
bit_or-one x = omega (arith, bit_or_step x 1, bit_or-zero (x / 2))

pub leaf_entry-eq-add :
    (pa flags : ℕ)
    → pa < 2 ^ 64
    → flags < 2 ^ 10
    → leaf_entry pa flags ≡ pa2pte pa + (flags + (1 - flags % 2))
unfolding pa2pte
leaf_entry-eq-add pa flags fits few =
    let plain : sign_extend flags ≡ flags = ground arith in
    rw (plain, pa2pte-or pa flags fits few) (omega (arith, bit_or-one (pa2pte pa + flags)))

-- It is valid.
pub leaf_entry-odd : (pa flags : ℕ) → pa < 2 ^ 64 → flags < 2 ^ 10 → leaf_entry pa flags % 2 ≡ 1
unfolding pa2pte
leaf_entry-odd pa flags fits few = omega (arith, leaf_entry-eq-add pa flags fits few)

pub leaf_entry-page :
    (pa flags : ℕ)
    → pa < 2 ^ 64
    → flags < 2 ^ 10
    → pte2pa (leaf_entry pa flags) ≡ pa / page_size * page_size
leaf_entry-page pa flags fits few =
    rw (leaf_entry-eq-add pa flags fits few)
      (pte2pa-eq-page pa (flags + (1 - flags % 2)) fits (omega arith))

map_page-leaf :
    (pgtable va pa flags : ℕ) (x4 : Bool) (ram : Ram)
    → pgtable ≢ 0
    → lookup ram.memory pgtable va x4 ≢ 0
    → bit_and (ram.memory (lookup ram.memory pgtable va x4)) pte_v ≡ 0
    → map_page pgtable va pa flags x4 ram
      ≡ ok 0 record ram {
        memory = write_word ram.memory (lookup ram.memory pgtable va x4) (leaf_entry pa flags);
      }
unfolding map_page walk
map_page-leaf pgtable va pa flags x4 ram root found free =
    let a : (pgtable == 0) ≡ false = ground arith in
    let b : (lookup ram.memory pgtable va x4 == 0) ≡ false = ground arith in
    rw (a, walk_from-alloc 2 pgtable va x4 ram found, b, free)

convert_va_to_pa-at :
    (pgtable va : ℕ) (x4 : Bool) (ram : Ram) (leaf pa : ℕ)
    → pgtable ≢ 0
    → lookup ram.memory pgtable va x4 ≡ leaf
    → leaf ≢ 0
    → pte2pa (ram.memory leaf) ≡ pa / page_size * page_size
    → convert_va_to_pa pgtable va x4 ram ≡ ok (pa / page_size * page_size + va % page_size) ram
convert_va_to_pa-at pgtable va x4 ram leaf pa root e found entry =
    let a : (pgtable == 0) ≡ false = ground arith in
    let b : (leaf == 0) ≡ false = ground arith in
    let offset : get_value va 0 12 ≡ va % 2 ^ 12 =
      omega (arith, get_value-field va 0 12 (omega arith) (omega arith)) in
    rw (
      convert_va_to_pa-lookup pgtable va x4 ram,
      a,
      e,
      b,
      entry,
      offset,
      bit_or-disjoint 12 (pa / page_size) (va % page_size) (omega arith),
    )

-- Where there is a table and the tables of an address below it exist, its last entry is not
-- valid and none of the entries that lead to it is the last one itself, and for a 64-bit
-- physical address and flags below 2^10: map_page ends with 0, and then the address translates
-- to the mapped page with the offset of the address.
pub map_page-convert_va_to_pa :
    (pgtable va pa flags : ℕ) (x4 : Bool) (ram : Ram)
    → pgtable ≢ 0
    → lookup ram.memory pgtable va x4 ≢ 0
    → bit_and (ram.memory (lookup ram.memory pgtable va x4)) pte_v ≡ 0
    → IsOffPath ram.memory 2 pgtable va x4 (lookup ram.memory pgtable va x4)
    → pa < 2 ^ 64
    → flags < 2 ^ 10
    → (after : Ram) × (map_page pgtable va pa flags x4 ram ≡ ok 0 after)
      × (convert_va_to_pa pgtable va x4 after
          ≡ ok (pa / page_size * page_size + va % page_size) after)
map_page-convert_va_to_pa pgtable va pa flags x4 ram root found free off fits few =
    let leaf = lookup ram.memory pgtable va x4 in
    let after : Ram = record ram { memory = write_word ram.memory leaf (leaf_entry pa flags) } in
    let same : lookup after.memory pgtable va x4 ≡ leaf =
      lookup_from-write_word ram.memory 2 pgtable va x4 leaf (leaf_entry pa flags) off in
    (
      after,
      map_page-leaf pgtable va pa flags x4 ram root found free,
      convert_va_to_pa-at pgtable va x4 after leaf pa root same found (written_entry leaf),
    )
  where
    written_entry :
        (leaf : ℕ)
        → pte2pa (write_word ram.memory leaf (leaf_entry pa flags) leaf)
          ≡ pa / page_size * page_size
    written_entry leaf =
        let self : (leaf == leaf) ≡ true = ground arith in
        rw self (leaf_entry-page pa flags fits few)
