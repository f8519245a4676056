-- ===== src/Kmem.antt =====
-- mem/kmem.c: the allocator of physical pages, a list threaded through the free pages. Its lock
-- makes each operation one step; the lock itself is modelled in Lock. `dynamic` is the address,
-- from the linker, behind the kernel image.
pub mod Chain
pub mod Alloc
pub mod Init
use riscv_hypervisor.Common.{
  ℕ, zero, suc, ◌+◌, ◌-◌, ◌/◌, ◌%◌, ◌^◌, Bool, true, false, ◌||◌, not, ltb, leb, ◌==◌,
  if◌then◌else◌, u64, Option, none, some,
}
use riscv_hypervisor.Common.Effects.{Cmd, bad_free, ◌>>=◌, ◌>>◌, pure, get, modify, panic_if}
use riscv_hypervisor.Dtb.{dtb_memory_end, dtb_memory_size}
use riscv_hypervisor.Memory.{page_size, pa2kpa, kva2kpa, pg_round_up}
use riscv_hypervisor.Ram.{Ram, write_word, load, store, memset}

unfoldable pub valid_address : ℕ → ℕ → Bool
valid_address dynamic kpa =
    if not (kpa % page_size == 0)
    then false
    else if ltb kpa (kva2kpa dynamic) || leb (pa2kpa dtb_memory_end) kpa
    then false
    else true

-- The page that is taken off the list is cleared, also where there is none.
unfoldable pub kmalloc : Cmd Ram ℕ
unfolding memset
kmalloc = do
  ram ← get
  let page = ram.freelist
  modify λ ram. if page == 0 then ram else record ram { freelist = ram.memory page }
  memset page page_size
  pure page

unfoldable pub bootstrap_kfree : ℕ → Ram → Ram
bootstrap_kfree kpa ram = record { memory = write_word ram.memory kpa ram.freelist; freelist = kpa }

unfoldable pub kfree : ℕ → ℕ → Cmd Ram (Unit {0})
unfolding valid_address
kfree dynamic kpa = do
  panic_if (not (valid_address dynamic kpa)) bad_free
  modify λ ram. record { memory = write_word ram.memory kpa ram.freelist; freelist = kpa }

-- The loop of `init_kmem`; `none` means that the fuel ran out.
unfoldable pub init_loop : ℕ → ℕ → ℕ → Ram → Option Ram
init_loop zero dynamic kpa ram = none
init_loop (suc fuel) dynamic kpa ram =
    let rest = init_loop fuel dynamic (u64 (kpa + page_size)) (bootstrap_kfree kpa ram) in
    if valid_address dynamic kpa then rest else some ram

-- The pages of the whole RAM, and one test that fails, bound the rounds.
unfoldable pub init_kmem : ℕ → Ram → Option Ram
init_kmem dynamic ram =
    init_loop (dtb_memory_size / page_size + 1) dynamic (kva2kpa (pg_round_up dynamic)) ram
