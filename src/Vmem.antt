-- ===== src/Vmem.antt =====
-- mem/vmem.c: page tables of three levels. A table pointer is a kernel address of the RAM; a null
-- pointer is 0, and an `int` its 32-bit pattern.
pub mod Walk
pub mod Map
pub mod Kernel
pub mod Tree
use riscv_hypervisor.Common.{
  ℕ, zero, suc, ◌+◌, ◌-◌, ◌*◌, ◌/◌, ◌^◌, Bool, Option, none, some, true, false, ◌&&◌, not, ◌==◌,
  if◌then◌else◌, bit_and, bit_or, u64, u32, sub64, sign_extend, is_negative,
}
use riscv_hypervisor.Common.Effects.{Cmd, no_root, remapped, bad_walk, ◌>>=◌, ◌>>◌, pure, panic_if}
use riscv_hypervisor.Bits.{get_value}
use riscv_hypervisor.Memory.{page_size, levels, pte_v, pa2pte, pte2pa, pa2kpa, kpa2pa, pg_round_up}
use riscv_hypervisor.Ram.{Ram, load, store, memset}
use riscv_hypervisor.Kmem.{kmalloc}

unfoldable pub va2idx : ℕ → ℕ → Bool → ℕ
va2idx va level x4 =
    if level == levels - 1 && x4
    then get_value va (level * 9 + 12) 11
    else get_value va (level * 9 + 12) 9

-- `&kpa[va2idx(va, level, x4)]`
abbrev pub entry_at : ℕ → ℕ → ℕ → Bool → ℕ
entry_at kpa va level x4 = u64 (kpa + 8 * va2idx va level x4)

-- The table that a missing entry gets: none, or a cleared page that the entry leads to.
unfoldable pub new_table : ℕ → Cmd Ram (Option ℕ)
new_table pte = do
  kpa ← kmalloc
  if kpa == 0
      then pure none
      else do memset kpa page_size; store pte (bit_or (pa2pte (kpa2pa kpa)) pte_v); pure (some kpa)

-- The table that an entry leads to, or none.
unfoldable pub next_table : ℕ → Bool → Cmd Ram (Option ℕ)
next_table pte alloc = do
  entry ← load pte
  if bit_and entry pte_v == 0
      then if alloc then new_table pte else pure none
      else pure (some (pa2kpa (pte2pa entry)))

-- The loop of `walk` from the table `kpa` of a level on, and its return.
unfoldable pub walk_from : ℕ → ℕ → ℕ → Bool → Bool → Cmd Ram ℕ
walk_from zero kpa va alloc x4 = pure (entry_at kpa va 0 x4)
walk_from (suc level) kpa va alloc x4 = do
  next ← next_table (entry_at kpa va (suc level) x4) alloc
  elim next [ none ↦ pure 0 | some table ↦ walk_from level table va alloc x4 ]

unfoldable pub walk : ℕ → ℕ → Bool → Bool → Cmd Ram ℕ
walk pgtable va alloc x4 = do
  panic_if (pgtable == 0) no_root
  walk_from (levels - 1) pgtable va alloc x4

-- The -1 of a failure as an `int`.
abbrev pub minus_one : ℕ
minus_one = 2 ^ 32 - 1

unfoldable pub map_page : ℕ → ℕ → ℕ → ℕ → Bool → Cmd Ram ℕ
map_page pgtable va pa pte_flags x4 = do
  leaf ← walk pgtable va true x4
  if leaf == 0 then pure minus_one else do
    entry ← load leaf
    panic_if (not (bit_and entry pte_v == 0)) remapped
    store leaf (bit_or (bit_or (pa2pte pa) (sign_extend pte_flags)) pte_v)
    pure 0

-- The loop of `map_pages`, with the rounds that are left.
unfoldable pub map_loop : ℕ → ℕ → ℕ → ℕ → ℕ → ℕ → Bool → Cmd Ram ℕ
map_loop zero i pgtable va pa pte_flags x4 = pure 0
map_loop (suc left) i pgtable va pa pte_flags x4 = do
  tmp ← if pa == 0 then (kmalloc >>= λ kpa. pure (kpa2pa kpa)) else pure (u64 (pa + i))
  rv ← map_page pgtable (u64 (va + i)) tmp pte_flags x4
  if is_negative rv
      then pure minus_one
      else map_loop left (i + page_size) pgtable va pa pte_flags x4

-- The size is rounded up to whole pages, one for each round.
unfoldable pub map_pages : ℕ → ℕ → ℕ → ℕ → ℕ → Bool → Cmd Ram ℕ
map_pages pgtable va pa size pte_flags x4 =
    map_loop (pg_round_up size / page_size) 0 pgtable va pa pte_flags x4

unfoldable pub convert_va_to_pa : ℕ → ℕ → Bool → Cmd Ram ℕ
convert_va_to_pa pgtable va x4 = do
  pte ← walk pgtable va false x4
  panic_if (pte == 0) bad_walk
  entry ← load pte
  pure (bit_or (pte2pa entry) (get_value va 0 12))
