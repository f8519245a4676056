-- ===== src/Uart/Setup.antt =====
-- The registers of a 16550 after accesses.
use riscv_hypervisor.Common.{
  ℕ, ◌+◌, ◌*◌, ◌/◌, ◌^◌, Bool-cases, inl, inr, ◌≡◌, refl, List, [], ◌∷◌, ◌==◌, if◌then◌else◌,
  bit_and, Bool, not,
}
use riscv_hypervisor.Uart.{PortAccess, read, write, init_uart, ier, lcr_dlab}

-- What the port is set to. With bit 7 of the line control register the first two registers are the
-- two halves of the divisor.
pub record Settings : Type 0 where
  pub divisor_low : ℕ
  pub divisor_high : ℕ
  pub interrupts : ℕ
  pub fifo : ℕ
  pub line : ℕ
  pub modem : ℕ
  pub sent : List ℕ

-- The divisor is in reach.
abbrev pub selects_divisor : Settings → Bool
selects_divisor s = not (bit_and s.line lcr_dlab == 0)

abbrev pub written : ℕ → ℕ → Settings → Settings
written reg val s =
    if reg == 0
    then if selects_divisor s
      then record s { divisor_low = val }
      else record s { sent = val ∷ s.sent }
    else if reg == 1
    then if selects_divisor s
      then record s { divisor_high = val }
      else record s { interrupts = val }
    else if reg == 2
    then record s { fifo = val }
    else if reg == 3
    then record s { line = val }
    else if reg == 4
    then record s { modem = val }
    else s

-- The settings after accesses, the newest of which is first.
abbrev pub settings : List PortAccess → Settings → Settings
settings [] s = s
settings (read reg ∷ bus) s = settings bus s
settings (write reg val ∷ bus) s = written reg val (settings bus s)

-- 38400 baud from a clock of 115200, 8 bits without parity, cleared queues that are in use, no
-- flow control and an interrupt for a received character.
abbrev pub IsSetUp : Settings → Type 0
IsSetUp s =
    (s.divisor_low + 2 ^ 8 * s.divisor_high ≡ 115200 / 38400)
    × (s.line ≡ 3)
    × (s.fifo ≡ 7)
    × (s.modem ≡ 0)
    × (s.interrupts ≡ 1)

-- With the divisor in reach or not, the first write sends nothing.
ier_first : (s : Settings) → (written ier 0 s).sent ≡ s.sent
ier_first s = elim (Bool-cases (selects_divisor s)) [ inl e ↦ rw e refl | inr e ↦ rw e refl ]

-- Whatever was accessed before, the port is set up, and nothing is sent.
pub init_uart-IsSetUp :
    (bus : List PortAccess) (s : Settings)
    → IsSetUp (settings (init_uart bus) s)
      × ((settings (init_uart bus) s).sent ≡ (settings bus s).sent)
unfolding init_uart
init_uart-IsSetUp bus s = ((refl, refl, refl, refl, refl), ier_first (settings bus s))
