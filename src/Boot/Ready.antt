-- ===== src/Boot/Ready.antt =====
-- What the boot processor leaves behind at the first barrier of `main`.
use riscv_hypervisor.Common.{
  ℕ, zero, suc, ◌+◌, ◌%◌, ◌^◌, ◌<◌, ◌≡◌, refl, ap, ◌∙◌, false, List, [], ◌∷◌, All, some, arith,
}
use riscv_hypervisor.Common.Effects.{ok}
use riscv_hypervisor.Kmem.Chain.{IsFree, IsPlaced}
use riscv_hypervisor.Kmem.Init.{HasAll, init_kmem-HasAll}
use riscv_hypervisor.Printf.{printf, print_loop, print_round, next}
use riscv_hypervisor.Uart.{
  PortAccess, read, write, Port, lsr, thr, pci_write, pci_serial_base, init_uart, init_pci,
  enable_io_access, set_io_base,
}
use riscv_hypervisor.Uart.Output.{RoomAfter, polled, uartputc-RoomAfter}
use riscv_hypervisor.Uart.Setup.{
  Settings, settings, selects_divisor, IsSetUp, init_uart-IsSetUp, written,
}
use riscv_hypervisor.Boot.{Board, blank, booting, put_text, print_message, boot_phase}

-- However the port was accessed, it has room after some readings, fewer than a bound.
abbrev pub Drains : Port → ℕ → Type 0
Drains port fuel = (bus : List PortAccess) → (n : ℕ) × (n < fuel) × RoomAfter port n bus

-- Reading the state changes no setting.
settings-polled :
    (n : ℕ) (bus : List PortAccess) (s : Settings) → settings (polled n bus) s ≡ settings bus s
settings-polled zero bus s = refl
settings-polled (suc n) bus s = settings-polled n (read lsr ∷ bus) s

-- The characters sent, newest first, before others.
abbrev pub sent_before : List ℕ → List ℕ → List ℕ
sent_before [] sent = sent
sent_before (c ∷ text) sent = sent_before text (c ∷ sent)

-- The settings once a text was sent.
abbrev pub after_text : List ℕ → Settings → Settings
after_text text s = record s { sent = sent_before text s.sent }

sent_char :
    (c : ℕ) (s : Settings)
    → selects_divisor s ≡ false
    → c < 2 ^ 8
    → written thr (c % 2 ^ 8) s ≡ record s { sent = c ∷ s.sent }
sent_char c s h fits = let whole : c % 2 ^ 8 ≡ c = omega arith in rw (h, whole) refl

-- A text is sent to a port that is not in its set-up.
put_text-settings :
    (port : Port) (fuel : ℕ) (text : List ℕ) (bus : List PortAccess) (s : Settings)
    → Drains port fuel
    → All (λ c. c < 2 ^ 8) text
    → selects_divisor (settings bus s) ≡ false
    → (after : List PortAccess) × (put_text port fuel text bus ≡ some after)
      × (settings after s ≡ after_text text (settings bus s))
unfolding put_text
put_text-settings port fuel [] bus s drains fits h = (bus, refl, refl)
put_text-settings port fuel (c ∷ text) bus s drains fits h =
    let room = drains bus in
    let n = room.0 in
    let bus' = write thr (c % 2 ^ 8) ∷ polled (suc n) bus in
    let one = uartputc-RoomAfter port n fuel c bus room.1 room.2 in
    let seen : settings bus' s ≡ record (settings bus s) { sent = c ∷ (settings bus s).sent } =
      ap (λ (z : Settings). written thr (c % 2 ^ 8) z) (settings-polled n (read lsr ∷ bus) s)
      ∙ sent_char c (settings bus s) h fits.0 in
    let rest = put_text-settings port fuel text bus' s drains fits.1 (rw seen h) in
    (rest.0, rw (put_text, one) rest.1, rest.2 ∙ ap (λ (z : Settings). after_text text z) seen)

-- What the message makes of the printer.
booting-prints : printf (some booting) [] blank ≡ ok tt (record blank { out = booting })
unfolding printf print_loop print_round next
booting-prints = refl

-- All memory behind the image is free, the serial port is set up and has sent the message, and two
-- registers of the PCI device are written.
pub record IsReady (dynamic : ℕ) (set : Settings) (old new : Board) : Type 0 where
  pub pages : List ℕ
  pub free : IsFree dynamic new.core.machine.ram pages
  pub complete : HasAll dynamic pages
  pub set_up : IsSetUp (settings new.port set)
  pub said : (settings new.port set).sent ≡ sent_before booting (settings old.port set).sent
  pub pci_ready :
      new.pci ≡ pci_write (pci_serial_base + 16) 4 1 ∷ pci_write (pci_serial_base + 4) 2 1 ∷ old.pci
  pub same_hart : new.core.machine.hart ≡ old.core.machine.hart

-- With the end of the image inside the RAM, an empty list of free pages and a serial port that,
-- however it was accessed, has room after fewer readings of its state than the rounds of
-- uartputc: on the boot processor main comes to its first barrier, the list of free pages is
-- linked through memory and holds exactly the valid addresses, the port is set to 38400 baud, 8
-- bits, queues in use and an interrupt for received characters, whatever it was set to before,
-- it has sent the message and nothing else, and the PCI device's command and base registers,
-- and nothing else of it, are written.
pub boot_phase-IsReady :
    (dynamic : ℕ) (port : Port) (fuel : ℕ) (set : Settings) (s : Board)
    → IsPlaced dynamic
    → s.core.machine.ram.freelist ≡ 0
    → Drains port fuel
    → (after : Board) × (boot_phase dynamic port fuel 0 s ≡ ok tt after)
      × IsReady dynamic set s after
unfolding boot_phase print_message init_pci enable_io_access set_io_base
boot_phase-IsReady dynamic port fuel set s placed empty drains =
    let kmem = init_kmem-HasAll dynamic s.core.machine.ram placed empty in
    let up = init_uart-IsSetUp s.port set in
    let closed : selects_divisor (settings (init_uart s.port) set) ≡ false = rw up.0.1 refl in
    let sends =
      put_text-settings port fuel booting (init_uart s.port) set drains (ground arith) closed in
    (
      record s {
        core = record (s.core) { machine = record (s.core.machine) { ram = kmem.0 } };
        port = sends.0;
        pci = init_pci s.pci;
      },
      rw (kmem.2, booting-prints, sends.1) refl,
      record {
        pages = kmem.1;
        free = kmem.3;
        complete = kmem.4;
        set_up = rw sends.2 up.0;
        said = ap (λ (z : Settings). z.sent) sends.2 ∙ ap (sent_before booting) up.1;
        pci_ready = refl;
        same_hart = refl;
      },
    )
