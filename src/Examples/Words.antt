-- ===== src/Examples/Words.antt =====
-- Fields, counts and calls on small numbers.
use riscv_hypervisor.Common.{ℕ, ◌≡◌, ◌<◌, ◌+◌, refl, arith, some}
use riscv_hypervisor.Bits.{count_set_bits}
use riscv_hypervisor.Bits.Count.{ones, count_set_bits-ones}
use riscv_hypervisor.Vcpu.{get_vhartid}
use riscv_hypervisor.Vcpu.Numbering.{get_vhartid-lt}
use riscv_hypervisor.Sbi.{Sbiret, Ecall}
use riscv_hypervisor.Sbi.Decode.{set_timer, send, decode, send-decode}

-- Bits 0, 32 and 33 are set, and the last two count once.
count_set_bits-ones_example : count_set_bits 0x300000001 ≡ some 2
unfolding ones
count_set_bits-ones_example = count_set_bits-ones 0x300000001 (omega arith)

get_vhartid-lt_example : get_vhartid 1 0b1010 < get_vhartid 3 0b1010
get_vhartid-lt_example = get_vhartid-lt 1 3 0b1010 (omega arith) refl

-- A firmware that counts the calls.
abbrev counts : Ecall → ℕ → Sbiret × ℕ
counts r calls = (record { error = 0; value = 0 }, calls + 1)

send-decode_example :
    (r : Ecall) × (send counts (set_timer 5) 0 ≡ counts r 0) × (decode r ≡ some (set_timer 5))
send-decode_example = send-decode counts (set_timer 5) 0
