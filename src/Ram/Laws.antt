-- ===== src/Ram/Laws.antt =====
-- What clearing a range of words does to each word.
use riscv_hypervisor.Common.{
  ℕ, zero, suc, ◌+◌, ◌-◌, ◌*◌, ◌%◌, ◌≡◌, Bool, ◌&&◌, ltb, leb, arith, ◌==◌, if◌then◌else◌,
}
use riscv_hypervisor.Ram.{write_word, clear_words}

-- One of the `words` words from `address` on.
abbrev pub in_range : ℕ → ℕ → ℕ → Bool
in_range words address a = leb address a && ltb a (address + 8 * words) && (a - address) % 8 == 0

pub clear_words-at :
    (left address : ℕ) (memory : ℕ → ℕ) (a : ℕ)
    → clear_words left address memory a ≡ (if in_range left address a then 0 else memory a)
unfolding clear_words
clear_words-at zero address memory a = ground arith
clear_words-at (suc left) address memory a =
    ground (arith, clear_words-at left (address + 8) (write_word memory address 0) a)
