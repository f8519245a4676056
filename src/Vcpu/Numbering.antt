-- ===== src/Vcpu/Numbering.antt =====
-- The numbers that a virtual machine sees for its harts.
use riscv_hypervisor.Common.{ℕ, zero, suc, ◌+◌, ◌/◌, ◌%◌, ◌^◌, ◌<◌, ◌≡◌, arith}
use riscv_hypervisor.Common.Masks.{bit_and-ones, div-pow-suc}
use riscv_hypervisor.Bits.Count.{ones}
use riscv_hypervisor.Vcpu.{vhartid_loop, get_vhartid}

vhartid_loop-ones :
    (left affinity vhartid : ℕ) → vhartid_loop left affinity vhartid ≡ vhartid + ones left affinity
unfolding vhartid_loop ones
vhartid_loop-ones zero affinity vhartid = omega arith
vhartid_loop-ones (suc left) affinity vhartid = ground (
  arith,
  bit_and-ones 1 affinity,
  vhartid_loop-ones left (affinity / 2) vhartid,
  vhartid_loop-ones left (affinity / 2) (vhartid + 1),
)

-- A hart's virtual number is the number of harts of the machine below it.
pub get_vhartid-ones : (hartid affinity : ℕ) → get_vhartid hartid affinity ≡ ones hartid affinity
unfolding get_vhartid
get_vhartid-ones hartid affinity = omega (arith, vhartid_loop-ones hartid affinity 0)

pub ones-lt : (i j x : ℕ) → i < j → x / 2 ^ i % 2 ≡ 1 → ones i x < ones j x
unfolding ones
ones-lt i zero x h b = absurd (omega arith)
ones-lt zero (suc j) x h b = omega arith
ones-lt (suc i) (suc j) x h b =
    omega (arith, ones-lt i j (x / 2) (omega arith) (rw (← div-pow-suc x i) b))

-- If hart i belongs to a machine and i is below j, the virtual number of i is below that of j.
pub get_vhartid-lt :
    (i j affinity : ℕ)
    → i < j
    → affinity / 2 ^ i % 2 ≡ 1
    → get_vhartid i affinity < get_vhartid j affinity
get_vhartid-lt i j affinity h own =
    omega
      (arith, get_vhartid-ones i affinity, get_vhartid-ones j affinity, ones-lt i j affinity h own)
