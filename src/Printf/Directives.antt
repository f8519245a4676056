-- ===== src/Printf/Directives.antt =====
-- What each directive of a format prints.
use riscv_hypervisor.Common.{
  ℕ, ◌≡◌, ◌≢◌, refl, ap, ◌∙◌, All, List, [], ◌∷◌, ◌++◌, none, some, false, ◌==◌, arith,
}
use riscv_hypervisor.Common.Effects.{ok}
use riscv_hypervisor.Printf.{
  Printer, Arg, word, string, say, cut, decide_type, print_round, next, null_text, print_signed,
  print_unsigned,
}
use riscv_hypervisor.Printf.Digits.{say-say}
use riscv_hypervisor.Printf.Pieces.{
  Format, Length, normal, long, half, quarter, base_of, bytes, Shown, percent, pointer, text,
  signed, unsigned, Piece, plain, directive, type_char, taken, spell, arguments, IsShowable,
  IsPrintable, Stands, StandsFor,
}
use riscv_hypervisor.Printf.Rounds.{print_round-directive, is_option, behind}
use riscv_hypervisor.Printf.Numbers.{
  drop_arg, print_padded-Numeral, next_arg-take, put_string-say, print_unsigned-Numeral,
  print_signed-SignedNumeral,
}

-- A type that is of one of the four lengths.
decide_type-signed :
    (base : ℕ) (l : Length) (s : Printer)
    → decide_type base (bytes l) 100 s ≡ print_signed base (bytes l) s
unfolding decide_type
decide_type-signed base normal s = refl
decide_type-signed base long s = refl
decide_type-signed base half s = refl
decide_type-signed base quarter s = refl

decide_type-unsigned :
    (base : ℕ) (l : Length) (s : Printer)
    → decide_type base (bytes l) 117 s ≡ print_unsigned base (bytes l) s
unfolding decide_type
decide_type-unsigned base normal s = refl
decide_type-unsigned base long s = refl
decide_type-unsigned base half s = refl
decide_type-unsigned base quarter s = refl

-- The state that took no argument.
pub keep_args : (more : List Arg) (s : Printer) → s.args ≡ more → s ≡ drop_arg more s
keep_args more s h = ap (λ (a : List Arg). drop_arg a s) h

null_text-All : All (λ c. c ≢ 0) null_text
null_text-All = ground arith

decide_type-Stands :
    (f : Format) (l : Length) (shown : Shown) (more : List Arg) (s : Printer)
    → IsShowable l shown
    → s.args ≡ taken shown ++ more
    → (t : List ℕ) × (decide_type (base_of f) (bytes l) (type_char shown) s
        ≡ ok tt (say t (drop_arg more s)))
      × Stands f l shown t
unfolding decide_type
decide_type-Stands f l percent more s v h =
    (37 ∷ [], ap (λ (z : Printer). ok tt (say (37 ∷ []) z)) (keep_args more s h), refl)
decide_type-Stands f l (pointer w) more s v h =
    let start = say (48 ∷ 120 ∷ []) s in
    let shown = print_padded-Numeral w (drop_arg more start) v in
    let whole : cut 8 w ≡ w = omega (arith, v) in
    (
      48 ∷ 120 ∷ shown.0,
      rw (say-say (48 ∷ []) (120 ∷ []) s, next_arg-take (word w) more start h, whole, shown.1)
          (ap (λ (z : Printer). ok tt z) (say-say (48 ∷ 120 ∷ []) shown.0 (drop_arg more s))),
      (shown.0, refl, shown.2),
    )
decide_type-Stands f l (text none) more s v h = (
  null_text,
  rw (next_arg-take (string none) more s h)
      (put_string-say null_text (drop_arg more s) null_text-All),
  refl,
)
decide_type-Stands f l (text (some t)) more s v h =
    (t, rw (next_arg-take (string (some t)) more s h) (put_string-say t (drop_arg more s) v), refl)
decide_type-Stands f l (signed w) more s v h =
    let shown = print_signed-SignedNumeral f l w more s h v in
    (shown.0, decide_type-signed (base_of f) l s ∙ shown.1, shown.2)
decide_type-Stands f l (unsigned w) more s v h =
    let shown = print_unsigned-Numeral f l w more s h in
    (shown.0, decide_type-unsigned (base_of f) l s ∙ shown.1, shown.2)

type_char-is_option : (shown : Shown) → is_option (type_char shown) ≡ false
type_char-is_option percent = refl
type_char-is_option (pointer w) = refl
type_char-is_option (text t) = refl
type_char-is_option (signed w) = refl
type_char-is_option (unsigned w) = refl

-- A round prints the text that its piece stands for.
pub print_round-StandsFor :
    (p : Piece) (rest : List ℕ) (more : List Arg) (s : Printer)
    → IsPrintable p
    → s.args ≡ arguments p more
    → (t : List ℕ) × (print_round (spell p rest) s ≡ ok rest (say t (drop_arg more s)))
      × StandsFor p t
unfolding print_round next
print_round-StandsFor (plain c) rest more s v h =
    let other : (c == 37) ≡ false = ground (arith, v.1) in
    (c ∷ [], rw other (ap (λ (z : Printer). ok rest (say (c ∷ []) z)) (keep_args more s h)), refl)
print_round-StandsFor (directive f l shown) rest more s v h =
    let shows = decide_type-Stands f l shown more s v h in
    (
      shows.0,
      print_round-directive f l (type_char shown) rest s (type_char-is_option shown)
          ∙ ap (λ r. behind rest r) shows.1,
      shows.2,
    )
