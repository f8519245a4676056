-- ===== src/Uart/Output.antt =====
-- A character waits until the port has room for it.
use riscv_hypervisor.Common.{
  ℕ, zero, suc, ◌<◌, ◌≡◌, refl, List, ◌∷◌, some, false, true, ◌==◌, ◌^◌, ◌%◌, arith, bit_and, Bool,
  not, Bool-cases, inl, inr,
}
use riscv_hypervisor.Uart.{
  PortAccess, read, write, Port, lsr, lsr_thr_empty, thr, uartputc_loop, uartputc,
}

-- The port says that it has room.
abbrev pub has_room : Port → List PortAccess → Bool
has_room port bus = not (bit_and (port bus lsr % 2 ^ 8) lsr_thr_empty == 0)

-- The accesses once the state was read some times.
abbrev pub polled : ℕ → List PortAccess → List PortAccess
polled zero bus = bus
polled (suc n) bus = polled n (read lsr ∷ bus)

-- The first `n` readings find no room, and the next one does.
pub record RoomAfter (port : Port) (n : ℕ) (bus : List PortAccess) : Type 0 where
  pub full : (k : ℕ) → k < n → has_room port (polled k bus) ≡ false
  pub room : has_room port (polled n bus) ≡ true

RoomAfter-next :
    (port : Port) (n : ℕ) (bus : List PortAccess)
    → RoomAfter port (suc n) bus
    → RoomAfter port n (read lsr ∷ bus)
RoomAfter-next port n bus after = record {
  full = λ k h. after.full (suc k) (omega (arith, h));
  room = after.room;
}

full_word :
    (port : Port) (bus : List PortAccess)
    → has_room port bus ≡ false
    → (bit_and (port bus lsr % 2 ^ 8) lsr_thr_empty == 0) ≡ true
full_word port bus h = elim (Bool-cases (bit_and (port bus lsr % 2 ^ 8) lsr_thr_empty == 0)) [
  | inl e ↦ e
  | inr e ↦ cc (h, e)
]

empty_word :
    (port : Port) (bus : List PortAccess)
    → has_room port bus ≡ true
    → (bit_and (port bus lsr % 2 ^ 8) lsr_thr_empty == 0) ≡ false
empty_word port bus h = elim (Bool-cases (bit_and (port bus lsr % 2 ^ 8) lsr_thr_empty == 0)) [
  | inl e ↦ cc (h, e)
  | inr e ↦ e
]

uartputc_loop-RoomAfter :
    (fuel : ℕ) (port : Port) (n c : ℕ) (bus : List PortAccess)
    → n < fuel
    → RoomAfter port n bus
    → uartputc_loop port fuel c bus ≡ some (write thr (c % 2 ^ 8) ∷ polled (suc n) bus)
unfolding uartputc_loop
uartputc_loop-RoomAfter zero port n c bus h after = absurd (omega (arith, h))
uartputc_loop-RoomAfter (suc fuel) port zero c bus h after =
    rw (empty_word port bus after.room) refl
uartputc_loop-RoomAfter (suc fuel) port (suc n) c bus h after =
    rw (full_word port bus (after.full 0 (omega arith))) (
      uartputc_loop-RoomAfter fuel port n c (read lsr ∷ bus) (omega (arith, h))
        (RoomAfter-next port n bus after))

-- If the serial port has no room at the first n readings of its state and room at the next, a
-- call of uartputc with more than n rounds ends: it reads the state n + 1 times and then writes
-- the character's low byte once.
pub uartputc-RoomAfter :
    (port : Port) (n fuel c : ℕ) (bus : List PortAccess)
    → n < fuel
    → RoomAfter port n bus
    → uartputc port fuel c bus ≡ some (write thr (c % 2 ^ 8) ∷ polled (suc n) bus)
unfolding uartputc
uartputc-RoomAfter port n fuel c bus h after = uartputc_loop-RoomAfter fuel port n c bus h after
