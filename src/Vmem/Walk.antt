-- ===== src/Vmem/Walk.antt =====
-- Walks of a page table without an allocation.
use riscv_hypervisor.Common.{
  ℕ, zero, suc, Bool, false, ◌≡◌, refl, Bool-cases, inl, inr, ◌==◌, if◌then◌else◌, bit_and, bit_or,
}
use riscv_hypervisor.Common.Effects.{ok, panic, bad_walk, no_root}
use riscv_hypervisor.Bits.{get_value}
use riscv_hypervisor.Memory.{pte_v, pa2kpa, pte2pa}
use riscv_hypervisor.Ram.{Ram}
use riscv_hypervisor.Vmem.{entry_at, next_table, walk_from, walk, convert_va_to_pa}

-- What the hardware finds: the entry of each level is valid, the last one gives the page.
abbrev pub lookup_from : (ℕ → ℕ) → ℕ → ℕ → ℕ → Bool → ℕ
lookup_from memory zero kpa va x4 = entry_at kpa va 0 x4
lookup_from memory (suc level) kpa va x4 =
    let entry = memory (entry_at kpa va (suc level) x4) in
    if bit_and entry pte_v == 0 then 0 else lookup_from memory level (pa2kpa (pte2pa entry)) va x4

-- The address of the last entry for `va`, or 0.
abbrev pub lookup : (ℕ → ℕ) → ℕ → ℕ → Bool → ℕ
lookup memory pgtable va x4 = lookup_from memory 2 pgtable va x4

pub walk_from-lookup :
    (level kpa va : ℕ) (x4 : Bool) (ram : Ram)
    → walk_from level kpa va false x4 ram ≡ ok (lookup_from ram.memory level kpa va x4) ram
unfolding walk_from next_table
walk_from-lookup zero kpa va x4 ram = refl
walk_from-lookup (suc level) kpa va x4 ram =
    let entry = ram.memory (entry_at kpa va (suc level) x4) in
    elim (Bool-cases (bit_and entry pte_v == 0)) [
      | inl a ↦ rw a
      | inr a ↦ rw a (walk_from-lookup level (pa2kpa (pte2pa entry)) va x4 ram)
    ]

-- A translation is the lookup in the tables as they lie in memory: it changes nothing and gives
-- the page of the last entry with the offset of the address, or stops if there is no table or
-- no last entry.
pub convert_va_to_pa-lookup :
    (pgtable va : ℕ) (x4 : Bool) (ram : Ram)
    → convert_va_to_pa pgtable va x4 ram ≡ (
        if pgtable == 0
        then panic no_root
        else if lookup ram.memory pgtable va x4 == 0
        then panic bad_walk
        else ok
            (bit_or (pte2pa (ram.memory (lookup ram.memory pgtable va x4))) (get_value va 0 12))
            ram)
unfolding convert_va_to_pa walk
convert_va_to_pa-lookup pgtable va x4 ram = elim (Bool-cases (pgtable == 0)) [
  | inl a ↦ rw a
  | inr a ↦ elim (Bool-cases (lookup ram.memory pgtable va x4 == 0)) [
    | inl b ↦ rw (a, walk_from-lookup 2 pgtable va x4 ram, b)
    | inr b ↦ rw (a, walk_from-lookup 2 pgtable va x4 ram, b)
  ]
]
