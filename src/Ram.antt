-- ===== src/Ram.antt =====
-- The memory that the kernel reaches by addresses, as 64-bit words at multiples of 8, and `memset`
-- of lib/string.c. Every `memset` of the kernel clears whole words.
pub mod Laws
use riscv_hypervisor.Common.{ℕ, zero, suc, ◌+◌, ◌/◌, ◌==◌, if◌then◌else◌}
use riscv_hypervisor.Common.Effects.{Cmd, ok, fault}

-- `freelist` is that of the page allocator, mem/kmem.c.
pub record Ram : Type 0 where
  pub memory : ℕ → ℕ
  pub freelist : ℕ

abbrev pub write_word : (ℕ → ℕ) → ℕ → ℕ → ℕ → ℕ
write_word memory address value a = if a == address then value else memory a

abbrev pub load : ℕ → Cmd Ram ℕ
load address ram = ok (ram.memory address) ram

abbrev pub store : ℕ → ℕ → Cmd Ram (Unit {0})
store address value ram = ok tt (record ram { memory = write_word ram.memory address value })

-- The loop of `memset`, by words, with the words that are left.
unfoldable pub clear_words : ℕ → ℕ → (ℕ → ℕ) → ℕ → ℕ
clear_words zero address memory = memory
clear_words (suc left) address memory = clear_words left (address + 8) (write_word memory address 0)

-- `memset(dst, 0, size)`; a write through a null pointer is undefined.
unfoldable pub memset : ℕ → ℕ → Cmd Ram (Unit {0})
memset dst size ram =
    if dst == 0
    then fault
    else ok tt (record ram { memory = clear_words (size / 8) dst ram.memory })
