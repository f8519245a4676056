-- ===== src/Printf/Padded.antt =====
-- `print_padded` in base 2 and base 16.
use mathlib.Core.List.{append-nil}
use native.Mathlib.Nat.{
  one-le-pow, pow-succ', pow-zero, eq_of_mul-eq-mul_left, div-lt_iff_lt-mul, mul-pos, mod-lt,
  mul_comm, mul_assoc,
}
use riscv_hypervisor.Common.{
  ℕ, zero, suc, ◌+◌, ◌-◌, ◌*◌, ◌/◌, ◌%◌, ◌^◌, ◌<◌, ◌≤◌, ◌≡◌, refl, ap, ◌∙◌, List, [], ◌∷◌, ◌==◌,
  ◌&&◌, not, Bool-cases, inl, inr, false, arith, if◌then◌else◌, shr, shl64,
}
use riscv_hypervisor.Common.Effects.{Outcome, ok}
use riscv_hypervisor.Printf.{Printer, say, bits_loop, shift_loop, padded_loop, print_padded}
use riscv_hypervisor.Printf.Digits.{
  digit_char, digit_at-char, read_digits, read_digits-char, read_digits-split, say-say,
}
use riscv_hypervisor.Printf.Texts.{
  binary_text, hex_text, loop_text, loop_text-hex_text, loop_text-binary_text,
}
use riscv_hypervisor.Printf.Fields.{
  first_digit, rest_digits, read_step, field_mod, shift_loop-mul, pow-add,
}

-- The characters that are digits.
abbrev pub digit_count : List ℕ → ℕ
digit_count [] = 0
digit_count (c ∷ text) = if c == 95 then digit_count text else suc (digit_count text)

-- What a loop puts: the `left` digits of `v`.
pub record HasDigits (left i start bits chars num base p v : ℕ) (s : Printer) : Type 0 where
  pub text : List ℕ
  pub puts : padded_loop left i start bits chars num s ≡ ok tt (say text s)
  pub reads : (acc : ℕ) → read_digits base acc text ≡ acc * p + v
  pub count : digit_count text ≡ left
  pub exact : text ≡ loop_text left i start bits chars base v

HasDigits-zero :
    (i start bits chars num base p v : ℕ) (s : Printer)
    → p ≡ 1
    → v < p
    → HasDigits 0 i start bits chars num base p v s
unfolding padded_loop read_digits
HasDigits-zero i start bits chars num base p v s one lt = record {
  text = [];
  puts = rw append-nil;
  reads = λ acc. omega (arith, ap (λ (t : ℕ). acc * t) one);
  count = refl;
  exact = refl;
}

module _ (bits base c : ℕ) (low : 2 ≤ base) (high : base ≤ 16) (top : 2 ^ (64 - bits) ≡ c)
    (width : 2 ^ bits ≡ base) (word : base * c ≡ 2 ^ 64) where
  HasDigits-suc :
      (left i start chars p m v : ℕ) (s : Printer)
      → p ≡ base ^ left
      → p * m ≡ c
      → 0 < p
      → 0 < m
      → v < base * p
      → ((t : Printer)
          → HasDigits left (i + 1) start bits chars (v % p * (m * base)) base p (v % p) t)
      → HasDigits (suc left) i start bits chars (v * m) base (base * p) v s
  unfolding padded_loop
  HasDigits-suc left i start chars p m v s power e pp pm lt rest =
      let digit : shr (v * m) (64 - bits) ≡ v / p = rw top (first_digit c m p v e pp pm) in
      let next : shl64 (v * m) bits ≡ v % p * (m * base) =
        rw (width, ← word) (rest_digits base c m p v e pp pm (omega arith)) in
      let small : v / p < base = (div-lt_iff_lt-mul pp).1 lt in
      let plain : (digit_char (v / p) == 95) ≡ false = ground arith in
      let char = digit_at-char (v / p) (omega arith) in
      elim (Bool-cases (not (i == start) && bits == 1 && i % chars == 0)) [
        | inl a ↦
            let r = rest (say (digit_char (v / p) ∷ []) (say (95 ∷ []) s)) in
            record {
              text = 95 ∷ digit_char (v / p) ∷ r.text;
              puts = rw (a, digit, char (say (95 ∷ []) s), next, r.puts, say-say, say-say);
              reads = λ acc.
                  read_digits-split base acc (digit_char (v / p) ∷ r.text)
                  ∙ read_digits-char base acc (v / p) r.text (omega arith)
                  ∙ (r.reads (acc * base + v / p) ∙ read_step acc base p v);
              count = rw plain (ap suc r.count);
              exact = rw (a, ← power) (ap (λ text. 95 ∷ digit_char (v / p) ∷ text) r.exact);
            }
        | inr a ↦
            let r = rest (say (digit_char (v / p) ∷ []) s) in
            record {
              text = digit_char (v / p) ∷ r.text;
              puts = rw (a, digit, char s, next, r.puts, say-say);
              reads = λ acc.
                  read_digits-char base acc (v / p) r.text (omega arith)
                  ∙ (r.reads (acc * base + v / p) ∙ read_step acc base p v);
              count = rw plain (ap suc r.count);
              exact = rw (a, ← power) (ap (λ text. digit_char (v / p) ∷ text) r.exact);
            }
      ]

  padded_loop-HasDigits :
      (left i start chars m v : ℕ) (s : Printer)
      → base ^ left * m ≡ 2 ^ 64
      → 0 < m
      → v < base ^ left
      → HasDigits left i start bits chars (v * m) base (base ^ left) v s
  padded_loop-HasDigits zero i start chars m v s e pm lt =
      HasDigits-zero i start bits chars (v * m) base (base ^ 0) v s (pow-zero base) lt
  padded_loop-HasDigits (suc left) i start chars m v s e pm lt =
      let p = base ^ left in
      let pp : 0 < p = omega (arith, one-le-pow left base) in
      let grown : base ^ suc left ≡ base * p = pow-succ' base left in
      let whole : base * (p * m) ≡ base * c =
        omega (arith, ap (λ (t : ℕ). t * m) grown, mul_assoc base p m) in
      let e' : p * m ≡ c = eq_of_mul-eq-mul_left base (omega arith) (p * m) c whole in
      let shifted : p * (m * base) ≡ 2 ^ 64 =
        omega (arith, mul_assoc p m base, mul_comm (p * m) base) in
      rw grown (
        HasDigits-suc left i start chars p m v s refl e' pp pm (omega arith) (λ t.
          padded_loop-HasDigits left (i + 1) start chars (m * base) (v % p) t shifted
            (mul-pos pm (omega arith)) (mod-lt v pp)))

  -- The word is shifted until the field is at its top, and the field is put.
  pub print_field :
      (start left chars num : ℕ) (s : Printer)
      → base ^ left * base ^ start ≡ 2 ^ 64
      → num < 2 ^ 64
      → HasDigits left start start bits chars
          (shift_loop start bits num)
          base
          (base ^ left)
          (num % base ^ left)
          s
  print_field start left chars num s e fits =
      let pp : 0 < base ^ left = omega (arith, one-le-pow left base) in
      let pm : 0 < base ^ start = omega (arith, one-le-pow start base) in
      let top : shift_loop start bits num ≡ num % base ^ left * base ^ start =
        rw (shift_loop-mul start bits base num width fits, ← e)
          (field_mod (base ^ left) (base ^ start) num pp pm) in
      rw top (
        padded_loop-HasDigits left start start chars (base ^ start) (num % base ^ left) s e pm
          (mod-lt num pp))

-- How many digits a byte has.
abbrev pub per_byte : ℕ → ℕ
per_byte base = if base == 2 then 8 else 2

-- A field of some bytes fills the word with what it is shifted by.
field_bytes :
    (base chars bytes : ℕ)
    → base ^ (bytes * chars + (8 - bytes) * chars) ≡ 2 ^ 64
    → base ^ (bytes * chars) * base ^ ((8 - bytes) * chars) ≡ 2 ^ 64
field_bytes base chars bytes e = rw (← pow-add base (bytes * chars) ((8 - bytes) * chars)) e

recount :
    (a b i start bits chars num : ℕ) (s : Printer) {r : Outcome Printer (Unit {0})}
    → a ≡ b
    → padded_loop b i start bits chars num s ≡ r
    → padded_loop a i start bits chars num s ≡ r
recount a b i start bits chars num s e h =
    ap (λ (t : ℕ). padded_loop t i start bits chars num s) e ∙ h

-- What `print_padded` puts.
record Put (num base bytes : ℕ) (s : Printer) (shown : List ℕ) : Type 0 where
  text : List ℕ
  prints : print_padded num base bytes s ≡ ok tt (say text s)
  reads : read_digits base 0 text ≡ num % base ^ (bytes * per_byte base)
  count : digit_count text ≡ bytes * per_byte base
  exact : text ≡ shown

-- The binary text of a number cut to some bytes, and the hexadecimal one.
abbrev pub binary_cut : ℕ → ℕ → List ℕ
binary_cut bytes num = binary_text (bytes * 8) (bytes * 8) (num % 2 ^ (bytes * 8))

abbrev pub hex_cut : ℕ → ℕ → List ℕ
hex_cut bytes num = hex_text (bytes * 2) (num % 16 ^ (bytes * 2))

binary-Put :
    (num bytes : ℕ) (s : Printer)
    → bytes ≤ 8
    → num < 2 ^ 64
    → Put num 2 bytes s (binary_cut bytes num)
unfolding print_padded bits_loop
binary-Put num bytes s le fits =
    let all : bytes * 8 + (8 - bytes) * 8 ≡ 64 = omega arith in
    let rounds : 64 - (8 - bytes) * 8 ≡ bytes * 8 = omega arith in
    let put =
      print_field 1 2 (2 ^ 63) (omega arith) (omega arith) refl refl refl ((8 - bytes) * 8)
        (bytes * 8) 8 num s (field_bytes 2 8 bytes (ap (λ (t : ℕ). 2 ^ t) all)) fits in
    record {
      text = put.text;
      prints = recount _ _ _ _ _ _ _ _ rounds put.puts;
      reads = omega (arith, put.reads 0);
      count = put.count;
      exact =
          put.exact
          ∙ loop_text-binary_text (bytes * 8) ((8 - bytes) * 8) ((8 - bytes) * 8) (bytes * 8) _
              (omega arith) (omega arith) (omega arith);
    }

hex-Put :
    (num bytes : ℕ) (s : Printer)
    → bytes ≤ 8
    → num < 2 ^ 64
    → Put num 16 bytes s (hex_cut bytes num)
unfolding print_padded bits_loop
hex-Put num bytes s le fits =
    let all : bytes * 2 + (8 - bytes) * 2 ≡ 16 = omega arith in
    let rounds : 16 - (8 - bytes) * 2 ≡ bytes * 2 = omega arith in
    let put =
      print_field 4 16 (2 ^ 60) (omega arith) (omega arith) refl refl refl ((8 - bytes) * 2)
        (bytes * 2) 2 num s (field_bytes 16 2 bytes (ap (λ (t : ℕ). 16 ^ t) all)) fits in
    record {
      text = put.text;
      prints = recount _ _ _ _ _ _ _ _ rounds put.puts;
      reads = omega (arith, put.reads 0);
      count = put.count;
      exact = put.exact ∙ loop_text-hex_text (bytes * 2) ((8 - bytes) * 2) ((8 - bytes) * 2) _;
    }

-- A number in base 2 and a width in bytes: its digits cut to it.
pub print_padded-binary_cut :
    (num bytes : ℕ) (s : Printer)
    → bytes ≤ 8
    → num < 2 ^ 64
    → (print_padded num 2 bytes s ≡ ok tt (say (binary_cut bytes num) s))
      × (read_digits 2 0 (binary_cut bytes num) ≡ num % 2 ^ (bytes * 8))
      × (digit_count (binary_cut bytes num) ≡ bytes * 8)
print_padded-binary_cut num bytes s le fits =
    let put = binary-Put num bytes s le fits in rw (← put.exact) (put.prints, put.reads, put.count)

-- A number in base 16.
pub print_padded-hex_cut :
    (num bytes : ℕ) (s : Printer)
    → bytes ≤ 8
    → num < 2 ^ 64
    → (print_padded num 16 bytes s ≡ ok tt (say (hex_cut bytes num) s))
      × (read_digits 16 0 (hex_cut bytes num) ≡ num % 16 ^ (bytes * 2))
      × (digit_count (hex_cut bytes num) ≡ bytes * 2)
print_padded-hex_cut num bytes s le fits =
    let put = hex-Put num bytes s le fits in rw (← put.exact) (put.prints, put.reads, put.count)
