-- ===== src/Printf/Texts.antt =====
-- The texts that `print_padded` and `print_uint` of lib/printf.c are to put for a number: binary,
-- hexadecimal and decimal ones.
use riscv_hypervisor.Common.{
  ℕ, zero, suc, ◌+◌, ◌/◌, ◌%◌, ◌^◌, ◌≤◌, ◌≡◌, ◌≢◌, refl, ap, ◌∙◌, List, [], ◌∷◌, ◌++◌, All, false,
  ◌==◌, ◌&&◌, not, if◌then◌else◌, arith,
}
use riscv_hypervisor.Printf.{char_at}
use riscv_hypervisor.Printf.Digits.{digit_char, read_digits}

-- The lowest `left` hexadecimal digits, most significant first.
abbrev pub hex_text : ℕ → ℕ → List ℕ
hex_text zero v = []
hex_text (suc left) v = digit_char (v / 16 ^ left) ∷ hex_text left (v % 16 ^ left)

-- An underscore stands in front of each byte but the first.
abbrev pub split_before : ℕ → ℕ → List ℕ
split_before total left = if left % 8 == 0 && not (left == total) then 95 ∷ [] else []

-- The lowest `left` binary digits of `total`, most significant first.
abbrev pub binary_text : ℕ → ℕ → ℕ → List ℕ
binary_text total zero v = []
binary_text total (suc left) v =
    split_before total (suc left)
    ++ (digit_char (v / 2 ^ left) ∷ binary_text total left (v % 2 ^ left))

abbrev pub IsDecimalDigit : ℕ → Type 0
IsDecimalDigit c = (48 ≤ c) × (c ≤ 57)

-- The digits of a number, with none in front that could be left out: 0 is written 0, and no other
-- number starts with it.
pub record IsDecimal (t : List ℕ) (n : ℕ) : Type 0 where
  pub are_digits : All IsDecimalDigit t
  pub reads : read_digits 10 0 t ≡ n
  pub no_zero : n ≢ 0 → char_at t ≢ 48
  pub is_zero : n ≡ 0 → t ≡ 48 ∷ []

-- The text of the last loop of `print_padded`, by its test.
abbrev pub loop_text : ℕ → ℕ → ℕ → ℕ → ℕ → ℕ → ℕ → List ℕ
loop_text zero i start bits chars base v = []
loop_text (suc left) i start bits chars base v =
    (if not (i == start) && bits == 1 && i % chars == 0 then 95 ∷ [] else [])
    ++ (digit_char (v / base ^ left)
        ∷ loop_text left (i + 1) start bits chars base (v % base ^ left))

pub loop_text-hex_text : (left i start v : ℕ) → loop_text left i start 4 2 16 v ≡ hex_text left v
loop_text-hex_text zero i start v = refl
loop_text-hex_text (suc left) i start v =
    let never : (not (i == start) && false) ≡ false = ground arith in
    rw (never, loop_text-hex_text left (i + 1) start (v % 16 ^ left)) refl

pub loop_text-binary_text :
    (left i start total v : ℕ)
    → i + left ≡ 64
    → start + total ≡ 64
    → start % 8 ≡ 0
    → loop_text left i start 1 8 2 v ≡ binary_text total left v
loop_text-binary_text zero i start total v e s w = refl
loop_text-binary_text (suc left) i start total v e s w =
    let test : (not (i == start) && 1 == 1 && i % 8 == 0)
        ≡ (suc left % 8 == 0 && not (suc left == total)) =
      ground arith in
    ap
      (λ b.
        (if b then 95 ∷ [] else [])
        ++ (digit_char (v / 2 ^ left) ∷ loop_text left (i + 1) start 1 8 2 (v % 2 ^ left)))
      test
    ∙ ap (λ rest. split_before total (suc left) ++ (digit_char (v / 2 ^ left) ∷ rest))
        (loop_text-binary_text left (i + 1) start total (v % 2 ^ left) (omega arith) s w)
