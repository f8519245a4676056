-- ===== src/Printf/Refines.antt =====
-- `printf` on formats as its comment describes them, and on others.
use mathlib.Core.List.{append-nil}
use riscv_hypervisor.Common.{
  ℕ, suc, ◌+◌, ◌≡◌, refl, sym, ap, ◌∙◌, Bool, true, List, [], ◌∷◌, ◌++◌, length, All, some, false,
  ◌==◌, ◌||◌, arith,
}
use riscv_hypervisor.Common.Effects.{ok, panic, fault, unknown_specifier}
use riscv_hypervisor.Printf.{
  Printer, Arg, say, printf, start_printer, char_at, next, decide_format, decide_length,
  decide_type, print_round, print_loop,
}
use riscv_hypervisor.Printf.Digits.{say-say}
use riscv_hypervisor.Printf.Pieces.{
  Format, Length, base_of, bytes, format_chars, length_chars, Piece, plain, directive, spell,
  spell_all, arguments_all, IsPrintable, StandsForAll,
}
use riscv_hypervisor.Printf.Rounds.{print_round-directive, is_option}
use riscv_hypervisor.Printf.Numbers.{drop_arg}
use riscv_hypervisor.Printf.Directives.{print_round-StandsFor, keep_args}
use riscv_hypervisor.Printf.Fuel.{print_loop-enough}

spell-open : (p : Piece) (rest : List ℕ) → IsPrintable p → (char_at (spell p rest) == 0) ≡ false
spell-open (plain c) rest v = ground (arith, v.0)
spell-open (directive f l shown) rest v = refl

say-nil : (s : Printer) → say [] s ≡ s
say-nil s = rw append-nil refl

-- The loop prints what the pieces ask for and goes on behind them.
print_loop-pieces :
    (ps : List Piece) (rest : List ℕ) (more : List Arg) (fuel : ℕ) (s : Printer)
    → All IsPrintable ps
    → s.args ≡ arguments_all ps more
    → (t : List ℕ) × (print_loop (length ps + fuel) (spell_all ps rest) s
        ≡ print_loop fuel rest (say t (drop_arg more s)))
      × StandsForAll ps t
unfolding print_loop
print_loop-pieces [] rest more fuel s v h = (
  [],
  ap (λ (n : ℕ). print_loop n rest s) {y = fuel} (omega arith)
      ∙ ap (λ (z : Printer). print_loop fuel rest z)
          (keep_args more s h ∙ sym (say-nil (drop_arg more s))),
  refl,
)
print_loop-pieces (p ∷ ps) rest more fuel s v h =
    let round = print_round-StandsFor p (spell_all ps rest) (arguments_all ps more) s v.0 h in
    let others =
      print_loop-pieces ps rest more fuel (say round.0 (drop_arg (arguments_all ps more) s)) v.1
        refl in
    let one : print_loop (length (p ∷ ps) + fuel) (spell_all (p ∷ ps) rest) s
        ≡ print_loop (suc (length ps + fuel)) (spell_all (p ∷ ps) rest) s =
      ap (λ (n : ℕ). print_loop n (spell_all (p ∷ ps) rest) s) {y = suc (length ps + fuel)}
        (omega arith) in
    (
      round.0 ++ others.0,
      one
          ∙ rw (spell-open p (spell_all ps rest) v.0, round.1, others.1)
              (ap (λ (z : Printer). print_loop fuel rest z)
                (say-say round.0 others.0 (drop_arg more s))),
      (round.0, others.0, refl, round.2, others.2),
    )

-- The whole call, up to the end of the pieces.
printf-pieces :
    (ps : List Piece) (rest : List ℕ) (more : List Arg) (s : Printer)
    → All IsPrintable ps
    → (t : List ℕ) × (print_loop
          (length (spell_all ps rest) + 1)
          (spell_all ps rest)
          (start_printer (arguments_all ps more) s)
        ≡ print_loop (suc (suc (length (spell_all ps rest)))) rest (say t (start_printer more s)))
      × StandsForAll ps t
printf-pieces ps rest more s v =
    let fmt = spell_all ps rest in
    let start = start_printer (arguments_all ps more) s in
    let pieces = print_loop-pieces ps rest more (suc (suc (length fmt))) start v refl in
    (
      pieces.0,
      sym (print_loop-enough (length ps + 1) fmt start)
          ∙ ap (λ (n : ℕ). print_loop n fmt start) {y = length ps + suc (suc (length fmt))}
              (omega arith)
          ∙ pieces.1,
      pieces.2,
    )

-- For a list of plain characters, which are neither 0 nor '%', and of directives of a format, a
-- length and a type, each with its argument, where a string holds no 0, a pointer is a 64-bit
-- number and a signed number is not the smallest of its type: printf on the format that they
-- spell and on their arguments, with others behind, ends, and puts a text in which every
-- character and directive stands for what it asks for: the decimal digits of the number, none
-- of them a leading zero, or all its binary or hexadecimal digits, as many as the type has,
-- with an underscore before each byte but the first in binary, a minus before the size of a
-- negative number, the characters of a string, or (null).
pub printf-StandsForAll :
    (ps : List Piece) (more : List Arg) (s : Printer)
    → All IsPrintable ps
    → (t : List ℕ) × (printf (some (spell_all ps [])) (arguments_all ps more) s
        ≡ ok tt (say t (start_printer more s)))
      × StandsForAll ps t
unfolding printf print_loop
printf-StandsForAll ps more s v =
    let pieces = printf-pieces ps [] more s v in (pieces.0, rw pieces.1 refl, pieces.2)

-- A letter that is no type.
abbrev pub is_type : ℕ → Bool
is_type c = c == 37 || c == 112 || c == 115 || c == 100 || c == 117

unknown_type :
    (base length c : ℕ) (s : Printer)
    → is_type c ≡ false
    → decide_type base length c s ≡ ok tt (record s { unknown = true })
unfolding decide_type
unknown_type base length c s h = ground arith

-- For plain characters, neither 0 nor '%', and directives with their arguments, where a string
-- holds no 0, a pointer is a 64-bit number and a signed number is not the smallest of its type:
-- on a format that spells them and ends in a '%', any format and length, and a letter that is
-- neither one of a format or length nor one of a type, printf stops the hypervisor with the
-- message of an unknown specifier.
pub printf-unknown :
    (ps : List Piece) (f : Format) (l : Length) (c : ℕ) (more : List Arg) (s : Printer)
    → All IsPrintable ps
    → is_option c ≡ false
    → is_type c ≡ false
    → printf
        (some (spell_all ps (37 ∷ (format_chars f ++ (length_chars l ++ c ∷ [])))))
        (arguments_all ps more)
        s
      ≡ panic unknown_specifier
unfolding printf print_loop
printf-unknown ps f l c more s v option type =
    let pieces = printf-pieces ps (37 ∷ (format_chars f ++ (length_chars l ++ c ∷ []))) more s v in
    rw
      (
        pieces.1,
        print_round-directive f l c [] (say pieces.0 (start_printer more s)) option,
        unknown_type (base_of f) (bytes l) c (say pieces.0 (start_printer more s)) type,
      )
      refl

-- For plain characters, neither 0 nor '%', and directives with their arguments, where a string
-- holds no 0, a pointer is a 64-bit number and a signed number is not the smallest of its type:
-- on a format that spells them and ends in a single '%', printf reads behind the terminating 0.
pub printf-open_end :
    (ps : List Piece) (more : List Arg) (s : Printer)
    → All IsPrintable ps
    → printf (some (spell_all ps (37 ∷ []))) (arguments_all ps more) s ≡ fault
unfolding printf print_loop print_round next decide_format decide_length decide_type
printf-open_end ps more s v = rw (printf-pieces ps (37 ∷ []) more s v).1 refl
