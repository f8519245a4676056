-- ===== src/Printf/Digits.antt =====
-- Reading digits back, and the characters that the digits are put as.
use mathlib.Core.List.{append_assoc, append-nil}
use riscv_hypervisor.Common.{
  ℕ, ◌+◌, ◌-◌, ◌*◌, ◌<◌, ◌≡◌, refl, ltb, leb, ◌==◌, if◌then◌else◌, List, [], ◌∷◌, ◌++◌, arith,
  false,
}
use riscv_hypervisor.Common.Effects.{ok}
use riscv_hypervisor.Printf.{Printer, say, digit_at, put_all}

abbrev pub digit_value : ℕ → ℕ
digit_value c = if leb c 57 then c - 48 else c - 87

-- The number that a text of digits writes in a base, behind a number that is already read; the
-- underscores that split binary digits are passed over.
unfoldable pub read_digits : ℕ → ℕ → List ℕ → ℕ
read_digits base acc [] = acc
read_digits base acc (c ∷ text) =
    read_digits base (if c == 95 then acc else acc * base + digit_value c) text

pub read_digits-append :
    (base acc : ℕ) (xs ys : List ℕ)
    → read_digits base acc (xs ++ ys) ≡ read_digits base (read_digits base acc xs) ys
unfolding read_digits
read_digits-append base acc [] ys = refl
read_digits-append base acc (x ∷ xs) ys =
    read_digits-append base (if x == 95 then acc else acc * base + digit_value x) xs ys

abbrev pub digit_char : ℕ → ℕ
digit_char d = if ltb d 10 then 48 + d else 87 + d

pub digit_at-char : (d : ℕ) → d < 16 → (s : Printer) → digit_at d s ≡ ok (digit_char d) s
unfolding digit_at
digit_at-char d h s = ground arith

pub digit_value-char : (d : ℕ) → d < 16 → digit_value (digit_char d) ≡ d
digit_value-char d h = ground arith

pub read_digits-char :
    (base acc d : ℕ) (text : List ℕ)
    → d < 16
    → read_digits base acc (digit_char d ∷ text) ≡ read_digits base (acc * base + d) text
unfolding read_digits
read_digits-char base acc d text h =
    let plain : (digit_char d == 95) ≡ false = ground arith in rw (plain, digit_value-char d h)

-- An underscore is passed over.
pub read_digits-split :
    (base acc : ℕ) (text : List ℕ) → read_digits base acc (95 ∷ text) ≡ read_digits base acc text
unfolding read_digits
read_digits-split base acc text = refl

pub say-say : (a b : List ℕ) (s : Printer) → say b (say a s) ≡ say (a ++ b) s
say-say a b s = rw append_assoc

pub put_all-say : (buf : List ℕ) (s : Printer) → put_all buf s ≡ ok tt (say buf s)
unfolding put_all
put_all-say [] s = rw append-nil
put_all-say (c ∷ buf) s = rw (put_all-say buf (say (c ∷ []) s), say-say)
