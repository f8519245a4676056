-- ===== src/Examples/Printing.antt =====
-- Formats, and a serial port.
use riscv_hypervisor.Common.{
  ℕ, zero, suc, ◌-◌, ◌^◌, ◌<◌, ◌≡◌, refl, List, [], ◌∷◌, length, All, none, some, false, ltb,
  if◌then◌else◌, arith,
}
use riscv_hypervisor.Common.Effects.{ok, fault}
use riscv_hypervisor.Printf.{Printer, word, string, say, start_printer, printf}
use riscv_hypervisor.Printf.Pieces.{
  Piece, plain, directive, decimal, hex, normal, half, signed, unsigned, text, percent, IsPrintable,
  StandsForAll,
}
use riscv_hypervisor.Printf.Refines.{printf-StandsForAll, printf-open_end}
use riscv_hypervisor.Uart.{read, write, Port, uartputc}
use riscv_hypervisor.Uart.Output.{has_room, polled, RoomAfter, uartputc-RoomAfter}

abbrev blank : Printer
blank = record { out = []; args = []; invalid_length = false; unknown = false }

-- "x%d%xhu%s%%" on -5, 0xbeef and a null pointer.
abbrev pieces : List Piece
pieces =
    plain 120
    ∷ directive decimal normal (signed (2 ^ 64 - 5))
    ∷ directive hex half (unsigned 0xbeef)
    ∷ directive decimal normal (text none)
    ∷ directive decimal normal percent
    ∷ []

pieces-IsPrintable : All IsPrintable pieces
pieces-IsPrintable = ground arith

printf-StandsForAll_example :
    (t : List ℕ) × (printf
        (some (120 ∷ 37 ∷ 100 ∷ 37 ∷ 120 ∷ 104 ∷ 117 ∷ 37 ∷ 115 ∷ 37 ∷ 37 ∷ []))
        (word (2 ^ 64 - 5) ∷ word 0xbeef ∷ string none ∷ [])
        blank
      ≡ ok tt (say t (start_printer [] blank)))
    × StandsForAll pieces t
printf-StandsForAll_example = printf-StandsForAll pieces [] blank pieces-IsPrintable

-- "x%"
printf-open_end_example : printf (some (120 ∷ 37 ∷ [])) [] blank ≡ fault
printf-open_end_example = printf-open_end (plain 120 ∷ []) [] blank (ground arith)

-- A port that has room once its state was read twice.
abbrev slow_port : Port
slow_port bus reg = if ltb (length bus) 2 then 0 else 2 ^ 5

slow_port-RoomAfter : RoomAfter slow_port 2 []
slow_port-RoomAfter = record { full = full_word; room = refl }
  where
    full_word : (k : ℕ) → k < 2 → has_room slow_port (polled k []) ≡ false
    full_word zero h = refl
    full_word (suc zero) h = refl
    full_word (suc (suc k)) h = absurd (omega (arith, h))

uartputc-RoomAfter_example :
    uartputc slow_port 10 65 [] ≡ some (write 0 65 ∷ read 5 ∷ read 5 ∷ read 5 ∷ [])
uartputc-RoomAfter_example =
    uartputc-RoomAfter slow_port 2 10 65 [] (omega arith) slow_port-RoomAfter
