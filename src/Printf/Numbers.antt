-- ===== src/Printf/Numbers.antt =====
-- Numbers and strings as the directives print them.
use mathlib.Core.List.{append-nil}
use native.Mathlib.Nat.{mod-eq_of_lt}
use riscv_hypervisor.Common.{
  ℕ, ◌+◌, ◌-◌, ◌*◌, ◌^◌, ◌%◌, ◌<◌, ◌≤◌, ◌≡◌, ◌≢◌, refl, ap, ◌∙◌, inl, inr, List, [], ◌∷◌, All, true,
  false, ltb, ◌==◌, Bool-cases, arith,
}
use riscv_hypervisor.Common.Effects.{ok}
use riscv_hypervisor.Printf.{
  Printer, Arg, word, say, put_string, print_number, print_padded, print_unsigned, print_signed,
  next_arg, negate, cut,
}
use riscv_hypervisor.Printf.Digits.{say-say}
use riscv_hypervisor.Printf.Uint.{print_uint-IsDecimal}
use riscv_hypervisor.Printf.Padded.{
  binary_cut, hex_cut, print_padded-binary_cut, print_padded-hex_cut,
}
use riscv_hypervisor.Printf.Texts.{binary_text, hex_text}
use riscv_hypervisor.Printf.Pieces.{
  Format, decimal, binary, hex, Length, normal, long, half, quarter, base_of, bytes, Numeral,
  SignedNumeral, least,
}

-- A number of a type of some length.
pub cut-lt : (l : Length) (w : ℕ) → cut (bytes l) w < 2 ^ (8 * bytes l)
cut-lt normal w = omega arith
cut-lt long w = omega arith
cut-lt half w = omega arith
cut-lt quarter w = omega arith

pub width-le : (l : Length) → 2 ^ (8 * bytes l) ≤ 2 ^ 64
width-le normal = omega arith
width-le long = omega arith
width-le half = omega arith
width-le quarter = omega arith

binary_width : (l : Length) → 2 ^ (bytes l * 8) ≡ 2 ^ (8 * bytes l)
binary_width normal = refl
binary_width long = refl
binary_width half = refl
binary_width quarter = refl

hex_width : (l : Length) → 16 ^ (bytes l * 2) ≡ 2 ^ (8 * bytes l)
hex_width normal = refl
hex_width long = refl
hex_width half = refl
hex_width quarter = refl

bytes-le : (l : Length) → bytes l ≤ 8
bytes-le normal = omega arith
bytes-le long = omega arith
bytes-le half = omega arith
bytes-le quarter = omega arith

uncut : (n a b : ℕ) → a ≡ b → n < b → n % a ≡ n
uncut n a b e h = rw e (mod-eq_of_lt h)

pub print_number-Numeral :
    (f : Format) (l : Length) (n : ℕ) (s : Printer)
    → n < 2 ^ (8 * bytes l)
    → (t : List ℕ) × (print_number n (base_of f) (bytes l) s ≡ ok tt (say t s)) × Numeral f l t n
unfolding print_number
print_number-Numeral decimal l n s h =
    let shown = print_uint-IsDecimal n s (omega (arith, width-le l)) in (shown.0, shown.1, shown.2)
print_number-Numeral binary l n s h =
    let shown = print_padded-binary_cut n (bytes l) s (bytes-le l) (omega (arith, width-le l)) in
    let whole = uncut n (2 ^ (bytes l * 8)) (2 ^ (8 * bytes l)) (binary_width l) h in
    (
      binary_cut (bytes l) n,
      shown.0,
      (ap (binary_text (bytes l * 8) (bytes l * 8)) whole, shown.1 ∙ whole, shown.2),
    )
print_number-Numeral hex l n s h =
    let shown = print_padded-hex_cut n (bytes l) s (bytes-le l) (omega (arith, width-le l)) in
    let whole = uncut n (16 ^ (bytes l * 2)) (2 ^ (8 * bytes l)) (hex_width l) h in
    (hex_cut (bytes l) n, shown.0, (ap (hex_text (bytes l * 2)) whole, shown.1 ∙ whole, shown.2))

-- The digits of a pointer.
pub print_padded-Numeral :
    (n : ℕ) (s : Printer)
    → n < 2 ^ 64
    → (t : List ℕ) × (print_padded n 16 8 s ≡ ok tt (say t s)) × Numeral hex long t n
unfolding print_number
print_padded-Numeral n s h = print_number-Numeral hex long n s h

-- The state once its first argument is taken.
abbrev pub drop_arg : List Arg → Printer → Printer
drop_arg args s = record s { args = args }

pub next_arg-take :
    (arg : Arg) (args : List Arg) (s : Printer)
    → s.args ≡ arg ∷ args
    → next_arg s ≡ ok arg (drop_arg args s)
unfolding next_arg
next_arg-take arg args s h = rw h

pub print_unsigned-Numeral :
    (f : Format) (l : Length) (w : ℕ) (args : List Arg) (s : Printer)
    → s.args ≡ word w ∷ args
    → (t : List ℕ) × (print_unsigned (base_of f) (bytes l) s ≡ ok tt (say t (drop_arg args s)))
      × Numeral f l t (cut (bytes l) w)
unfolding print_unsigned
print_unsigned-Numeral f l w args s h =
    let shown = print_number-Numeral f l (cut (bytes l) w) (drop_arg args s) (cut-lt l w) in
    (shown.0, rw (next_arg-take (word w) args s h) shown.1, shown.2)

pub put_string-say :
    (t : List ℕ) (s : Printer) → All (λ c. c ≢ 0) t → put_string t s ≡ ok tt (say t s)
unfolding put_string
put_string-say [] s h = rw append-nil
put_string-say (c ∷ t) s h =
    let more : (c == 0) ≡ false = ground (arith, h.0) in
    rw (more, put_string-say t (say (c ∷ []) s) h.1, say-say)

-- A type has as many negative numbers as others.
width-least : (l : Length) → 2 ^ (8 * bytes l) ≡ least l + least l
width-least normal = refl
width-least long = refl
width-least half = refl
width-least quarter = refl

negate-sub :
    (l : Length) (v : ℕ) (s : Printer)
    → v ≢ least l
    → negate (bytes l) v s ≡ ok (2 ^ (8 * bytes l) - v) s
unfolding negate
negate-sub l v s h =
    let other : (v == least l) ≡ false = ground (arith, h) in
    elim (Bool-cases (ltb 2 (bytes l))) [ inl e ↦ rw (other, e) refl | inr e ↦ rw e refl ]

pub print_signed-SignedNumeral :
    (f : Format) (l : Length) (w : ℕ) (args : List Arg) (s : Printer)
    → s.args ≡ word w ∷ args
    → cut (bytes l) w ≢ least l
    → (t : List ℕ) × (print_signed (base_of f) (bytes l) s ≡ ok tt (say t (drop_arg args s)))
      × SignedNumeral (ltb (cut (bytes l) w) (least l)) f l t (cut (bytes l) w)
unfolding print_signed
print_signed-SignedNumeral f l w args s h least' =
    elim (Bool-cases (ltb (cut (bytes l) w) (least l))) [
      | inl e ↦
          let shown = print_number-Numeral f l (cut (bytes l) w) (drop_arg args s) (cut-lt l w) in
          (shown.0, rw (next_arg-take (word w) args s h, e) shown.1, rw e shown.2)
      | inr e ↦
          let size = 2 ^ (8 * bytes l) - cut (bytes l) w in
          let below : size < least l = ground (arith, width-least l, least', e, cut-lt l w) in
          let small : ltb size (least l) ≡ true = ground (arith, below) in
          let shown =
            print_number-Numeral f l size (say (45 ∷ []) (drop_arg args s))
              (omega (arith, width-least l)) in
          (
            45 ∷ shown.0,
            rw
                (
                  next_arg-take (word w) args s h,
                  e,
                  negate-sub l (cut (bytes l) w) (say (45 ∷ []) (drop_arg args s)) least',
                  small,
                  shown.1,
                  say-say,
                )
                refl,
            rw e (shown.0, refl, shown.2),
          )
    ]
