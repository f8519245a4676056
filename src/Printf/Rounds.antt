-- ===== src/Printf/Rounds.antt =====
-- A round of the loop of `printf` on a directive, up to its type.
use riscv_hypervisor.Common.{ℕ, ◌≡◌, refl, List, ◌∷◌, ◌++◌, ◌==◌, ◌||◌, Bool, false, arith}
use riscv_hypervisor.Common.Effects.{Outcome, ok, and_then}
use riscv_hypervisor.Printf.{
  Printer, char_at, next, decide_format, decide_length, decide_type, print_round,
}
use riscv_hypervisor.Printf.Pieces.{
  Format, decimal, binary, hex, Length, normal, long, half, quarter, base_of, bytes, format_chars,
  length_chars,
}

-- The letters of formats and lengths.
abbrev pub is_option : ℕ → Bool
is_option c = c == 98 || c == 120 || c == 108 || c == 104

decide_format-chars :
    (f : Format) (at : List ℕ) (s : Printer)
    → (char_at at == 98 || char_at at == 120) ≡ false
    → decide_format (format_chars f ++ at) s ≡ ok (base_of f, at) s
unfolding decide_format next
decide_format-chars decimal at s h = ground arith
decide_format-chars binary at s h = refl
decide_format-chars hex at s h = refl

decide_length-chars :
    (l : Length) (c : ℕ) (rest : List ℕ) (s : Printer)
    → is_option c ≡ false
    → decide_length (length_chars l ++ c ∷ rest) s ≡ ok (bytes l, c ∷ rest) s
unfolding decide_length next
decide_length-chars normal c rest s h = ground arith
decide_length-chars long c rest s h = refl
decide_length-chars half c rest s h = ground arith
decide_length-chars quarter c rest s h = refl

length_chars-head :
    (l : Length) (c : ℕ) (rest : List ℕ)
    → is_option c ≡ false
    → (char_at (length_chars l ++ c ∷ rest) == 98 || char_at (length_chars l ++ c ∷ rest) == 120)
      ≡ false
length_chars-head normal c rest h = ground arith
length_chars-head long c rest h = refl
length_chars-head half c rest h = refl
length_chars-head quarter c rest h = refl

-- What is left of the round behind the type.
abbrev pub behind : List ℕ → Outcome Printer (Unit {0}) → Outcome Printer (List ℕ)
behind rest r = and_then r (λ _ s. ok rest s)

pub print_round-directive :
    (f : Format) (l : Length) (c : ℕ) (rest : List ℕ) (s : Printer)
    → is_option c ≡ false
    → print_round (37 ∷ (format_chars f ++ (length_chars l ++ c ∷ rest))) s
      ≡ behind rest (decide_type (base_of f) (bytes l) c s)
unfolding print_round next
print_round-directive f l c rest s h = rw (
  decide_format-chars f (length_chars l ++ c ∷ rest) s (length_chars-head l c rest h),
  decide_length-chars l c rest s h,
)
