-- ===== src/Printf/Uint.antt =====
-- `print_uint` on every number and base that its digits reach.
use native.Mathlib.Nat.{div-add-mod, pow-suc, mod-lt, div-lt_iff_lt-mul, mul-le-mul_left, mul-pos}
use mathlib.Core.List.{append_assoc, append-nil}
use riscv_hypervisor.Common.{
  ℕ, zero, suc, ◌+◌, ◌*◌, ◌/◌, ◌%◌, ◌^◌, ◌<◌, ◌≤◌, ◌≡◌, ◌≢◌, refl, sym, ◌∙◌, All, ap, List, [], ◌∷◌,
  ◌++◌, length, length-append, ltb, Bool-cases, inl, inr, true, arith,
}
use riscv_hypervisor.Common.Effects.{ok}
use riscv_hypervisor.Printf.{Printer, say, char_at, fill_buf, print_uint}
use riscv_hypervisor.Printf.Texts.{IsDecimalDigit, IsDecimal}
use riscv_hypervisor.Printf.Digits.{
  digit_char, digit_at-char, read_digits, read_digits-append, read_digits-char, put_all-say,
}

-- Divided by a base, a number that fits a bit more fits without it.
div-lt_half : (tmp base room : ℕ) → 2 ≤ base → tmp < 2 ^ suc room → tmp / base < 2 ^ room
div-lt_half tmp base room low fits =
    let less : 2 ^ room * 2 ≤ 2 ^ room * base = mul-le-mul_left (2 ^ room) low in
    (div-lt_iff_lt-mul (omega arith)).1 (omega (arith, pow-suc 2 room))

-- What the digits in the buffer are.
record Filled (tmp base room : ℕ) (buf : List ℕ) (s : Printer) : Type 0 where
  text : List ℕ
  fills : fill_buf (suc room) tmp base buf s ≡ ok (text ++ buf) s
  reads : read_digits base 0 text ≡ tmp
  short : length text ≤ suc room
  are_digits : base ≡ 10 → All IsDecimalDigit text
  no_zero : tmp ≢ 0 → char_at text ≢ 48
  is_zero : tmp ≡ 0 → text ≡ 48 ∷ []

digit_char-IsDecimalDigit : (d : ℕ) → d < 10 → IsDecimalDigit (digit_char d)
digit_char-IsDecimalDigit d small = ground arith

digit_char-nonzero : (d : ℕ) → d ≢ 0 → digit_char d ≢ 48
digit_char-nonzero d some e = ground arith

char_at-append : (base : ℕ) (t u : List ℕ) → read_digits base 0 t ≢ 0 → char_at (t ++ u) ≡ char_at t
unfolding read_digits
char_at-append base [] u some = absurd (some refl)
char_at-append base (c ∷ t) u some = refl

All-snoc :
    (t : List ℕ) (c : ℕ)
    → All IsDecimalDigit t
    → IsDecimalDigit c
    → All IsDecimalDigit (t ++ c ∷ [])
All-snoc [] c all last = (last, tt)
All-snoc (d ∷ t) c all last = (all.0, All-snoc t c all.1 last)

last_digit :
    (room tmp base : ℕ) (buf : List ℕ) (s : Printer)
    → 2 ≤ base
    → base ≤ 16
    → tmp / base ≡ 0
    → Filled tmp base room buf s
unfolding fill_buf read_digits
last_digit room tmp base buf s low high done =
    let rem : tmp % base < base = mod-lt tmp (omega arith) in
    let small : 0 * base + tmp % base ≡ tmp =
      omega (arith, div-add-mod tmp base, ap (λ (t : ℕ). base * t) done) in
    record {
      text = digit_char (tmp % base) ∷ [];
      fills = rw (digit_at-char (tmp % base) (omega arith) s, done) refl;
      reads = rw (read_digits-char base 0 (tmp % base) [] (omega arith)) small;
      short = omega arith;
      are_digits = λ ten. (digit_char-IsDecimalDigit (tmp % base) (omega (arith, rem, ten)), tt);
      no_zero = λ some. digit_char-nonzero (tmp % base) (λ z. some (omega (arith, small, z)));
      is_zero =
          λ z. (let none_left : tmp % base ≡ 0 = omega (arith, small, z) in rw none_left refl);
    }

next_digit :
    (room tmp base : ℕ) (buf : List ℕ) (s : Printer)
    → 2 ≤ base
    → base ≤ 16
    → ltb 0 (tmp / base) ≡ true
    → Filled (tmp / base) base room (digit_char (tmp % base) ∷ buf) s
    → Filled tmp base (suc room) buf s
unfolding fill_buf read_digits
next_digit room tmp base buf s low high more rest =
    let rem : tmp % base < base = mod-lt tmp (omega arith) in
    let positive : tmp / base ≢ 0 = λ z. absurd (ground arith) in
    let sum : tmp / base * base + tmp % base ≡ tmp = omega (arith, div-add-mod tmp base) in
    record {
      text = rest.text ++ digit_char (tmp % base) ∷ [];
      fills = rw (digit_at-char (tmp % base) (omega arith) s, more, append_assoc) rest.fills;
      reads =
          rw
            (
              read_digits-append base 0 rest.text,
              rest.reads,
              read_digits-char base (tmp / base) (tmp % base) [] (omega arith),
            )
            sum;
      short = rw (length-append rest.text) (omega (arith, rest.short));
      are_digits = λ ten.
          All-snoc rest.text (digit_char (tmp % base)) (rest.are_digits ten)
            (digit_char-IsDecimalDigit (tmp % base) (omega (arith, rem, ten)));
      no_zero = λ some.
          rw
            (char_at-append base rest.text (digit_char (tmp % base) ∷ [])
              (λ z. absurd (positive (sym rest.reads ∙ z))))
            (rest.no_zero positive);
      is_zero = λ z.
          (let grown : 0 < tmp / base * base = mul-pos (ground arith) (omega arith) in
            absurd (omega (arith, sum, grown, z)));
    }

fill_buf-Filled :
    (room tmp base : ℕ) (buf : List ℕ) (s : Printer)
    → 2 ≤ base
    → base ≤ 16
    → tmp < 2 ^ suc room
    → Filled tmp base room buf s
fill_buf-Filled zero tmp base buf s low high fits =
    last_digit zero tmp base buf s low high (omega (arith, div-lt_half tmp base 0 low fits))
fill_buf-Filled (suc room) tmp base buf s low high fits = elim (Bool-cases (ltb 0 (tmp / base))) [
  | inr e ↦ last_digit (suc room) tmp base buf s low high (ground arith)
  | inl e ↦ next_digit room tmp base buf s low high e (
      fill_buf-Filled room (tmp / base) base (digit_char (tmp % base) ∷ buf) s low high
        (div-lt_half tmp base (suc room) low fits))
]

-- A number of 64 bits in decimal: its digits, without a leading zero, and they fit the buffer.
pub print_uint-IsDecimal :
    (num : ℕ) (s : Printer)
    → num < 2 ^ 64
    → (text : List ℕ) × (print_uint num 10 s ≡ ok tt (say text s))
      × IsDecimal text num
      × (length text ≤ 64)
unfolding print_uint
print_uint-IsDecimal num s fits =
    let filled = fill_buf-Filled 63 num 10 [] s (omega arith) (omega arith) fits in
    (
      filled.text,
      rw (filled.fills, append-nil) (put_all-say filled.text s),
      record {
        are_digits = filled.are_digits refl;
        reads = filled.reads;
        no_zero = filled.no_zero;
        is_zero = filled.is_zero;
      },
      filled.short,
    )
