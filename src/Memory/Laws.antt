-- ===== src/Memory/Laws.antt =====
-- The conversions of addresses undo one another on the ranges that the kernel uses.
use riscv_hypervisor.Common.{
  ℕ, ◌+◌, ◌-◌, ◌*◌, ◌/◌, ◌%◌, ◌^◌, ◌≤◌, ◌<◌, ◌≡◌, ap, arith, bit_or, sub64,
}
use riscv_hypervisor.Common.Masks.{bit_and-ones, bit_and-shifted, bit_or-disjoint}
use riscv_hypervisor.Dtb.{dtb_memory}
use riscv_hypervisor.Memory.{page_size, vas_ram, kpa2pa, pa2kpa, pg_round_up, pa2pte, pte2pa}
use riscv_hypervisor.Common.Digits.{bit_or_comm}

-- The linear map of the RAM is an addition, on the 128 GB that it spans.
pub pa2kpa-eq-add :
    (pa : ℕ) → dtb_memory ≤ pa → pa < dtb_memory + 2 ^ 37 → pa2kpa pa ≡ vas_ram + (pa - dtb_memory)
unfolding pa2kpa
pa2kpa-eq-add pa lo hi =
    let offset : sub64 pa dtb_memory ≡ pa - dtb_memory = omega arith in
    rw (offset, bit_or_comm)
      (omega (arith, bit_or-disjoint 37 (2 ^ 27 - 1) (pa - dtb_memory) (omega arith)))

pub kpa2pa-eq-add :
    (kpa : ℕ) → vas_ram ≤ kpa → kpa < 2 ^ 64 → kpa2pa kpa ≡ kpa - vas_ram + dtb_memory
unfolding kpa2pa
kpa2pa-eq-add kpa lo hi = omega (arith, bit_and-ones 37 kpa)

-- On the 128 GB from the start of the memory, the kernel's linear address of a physical address
-- leads back to it.
pub kpa2pa-pa2kpa : (pa : ℕ) → dtb_memory ≤ pa → pa < dtb_memory + 2 ^ 37 → kpa2pa (pa2kpa pa) ≡ pa
kpa2pa-pa2kpa pa lo hi = omega (
  arith,
  pa2kpa-eq-add pa lo hi,
  ap kpa2pa (pa2kpa-eq-add pa lo hi),
  kpa2pa-eq-add (vas_ram + (pa - dtb_memory)) (omega arith) (omega arith),
)

pub pa2kpa-kpa2pa : (kpa : ℕ) → vas_ram ≤ kpa → kpa < 2 ^ 64 → pa2kpa (kpa2pa kpa) ≡ kpa
pa2kpa-kpa2pa kpa lo hi =
    rw (kpa2pa-eq-add kpa lo hi)
      (omega (arith, pa2kpa-eq-add (kpa - vas_ram + dtb_memory) (omega arith) (omega arith)))

pub pg_round_up-eq-div :
    (a : ℕ) → a + 4095 < 2 ^ 64 → pg_round_up a ≡ (a + 4095) / page_size * page_size
unfolding pg_round_up
pg_round_up-eq-div a h =
    let fits : (a + page_size - 1) % 2 ^ 64 ≡ a + 4095 = omega arith in
    rw fits (
      omega (
        arith,
        bit_and-shifted 12 (2 ^ 52 - 1) (a + 4095),
        bit_and-ones 52 ((a + 4095) / page_size),
      ))

-- Below the last page of the 64-bit addresses, rounding up gives a multiple of the page size
-- that is at least the address and less than a page above it.
pub pg_round_up_bounds :
    (a : ℕ)
    → a + 4095 < 2 ^ 64
    → (a ≤ pg_round_up a) × (pg_round_up a < a + page_size) × (pg_round_up a % page_size ≡ 0)
pg_round_up_bounds a h = omega (arith, pg_round_up-eq-div a h)

pub pte2pa-eq-page :
    (pa flags : ℕ)
    → pa < 2 ^ 64
    → flags < 2 ^ 10
    → pte2pa (pa2pte pa + flags) ≡ pa / page_size * page_size
unfolding pa2pte pte2pa
pte2pa-eq-page pa flags hp hf = omega arith

-- Flags are joined to a page number by an addition.
pub pa2pte-or :
    (pa flags : ℕ) → pa < 2 ^ 64 → flags < 2 ^ 10 → bit_or (pa2pte pa) flags ≡ pa2pte pa + flags
unfolding pa2pte
pa2pte-or pa flags hp hf =
    let fits : pa / 2 ^ 12 * 2 ^ 10 % 2 ^ 64 ≡ pa / 2 ^ 12 * 2 ^ 10 = omega arith in
    rw fits (bit_or-disjoint 10 (pa / 2 ^ 12) flags hf)
