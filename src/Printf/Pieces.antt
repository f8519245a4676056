-- ===== src/Printf/Pieces.antt =====
-- The formats that the comment of lib/printf.c describes, `%{format}{length}{type}`, each with the
-- argument that it takes, and the text that stands for it.
use riscv_hypervisor.Common.{
  ℕ, ◌-◌, ◌*◌, ◌^◌, ◌<◌, ◌≡◌, ◌≢◌, List, [], ◌∷◌, ◌++◌, All, Option, none, some, Bool, true, false,
  ltb,
}
use riscv_hypervisor.Printf.{Arg, word, string, null_text, cut}
use riscv_hypervisor.Printf.Digits.{read_digits}
use riscv_hypervisor.Printf.Padded.{digit_count}
use riscv_hypervisor.Printf.Texts.{IsDecimal, binary_text, hex_text}

pub data Format : Type 0 where
  decimal : Format
  binary : Format
  hex : Format

pub data Length : Type 0 where
  normal : Length
  long : Length
  half : Length
  quarter : Length

abbrev pub base_of : Format → ℕ
base_of decimal = 10
base_of binary = 2
base_of hex = 16

abbrev pub bytes : Length → ℕ
bytes normal = 4
bytes long = 8
bytes half = 2
bytes quarter = 1

abbrev pub format_chars : Format → List ℕ
format_chars decimal = []
format_chars binary = 98 ∷ []
format_chars hex = 120 ∷ []

abbrev pub length_chars : Length → List ℕ
length_chars normal = []
length_chars long = 108 ∷ []
length_chars half = 104 ∷ []
length_chars quarter = 104 ∷ 104 ∷ []

-- The directives, with what they are called with.
pub data Shown : Type 0 where
  percent : Shown
  pointer : ℕ → Shown
  text : Option (List ℕ) → Shown
  signed : ℕ → Shown
  unsigned : ℕ → Shown

pub data Piece : Type 0 where
  plain : ℕ → Piece
  directive : Format → Length → Shown → Piece

abbrev pub type_char : Shown → ℕ
type_char percent = 37
type_char (pointer w) = 112
type_char (text t) = 115
type_char (signed w) = 100
type_char (unsigned w) = 117

abbrev pub taken : Shown → List Arg
taken percent = []
taken (pointer w) = word w ∷ []
taken (text t) = string t ∷ []
taken (signed w) = word w ∷ []
taken (unsigned w) = word w ∷ []

abbrev pub spell : Piece → List ℕ → List ℕ
spell (plain c) rest = c ∷ rest
spell (directive f l shown) rest =
    37 ∷ (format_chars f ++ (length_chars l ++ type_char shown ∷ rest))

abbrev pub arguments : Piece → List Arg → List Arg
arguments (plain c) more = more
arguments (directive f l shown) more = taken shown ++ more

-- The format and the arguments of a list of pieces, before others.
abbrev pub spell_all : List Piece → List ℕ → List ℕ
spell_all [] rest = rest
spell_all (p ∷ ps) rest = spell p (spell_all ps rest)

abbrev pub arguments_all : List Piece → List Arg → List Arg
arguments_all [] more = more
arguments_all (p ∷ ps) more = arguments p (arguments_all ps more)

-- The smallest number of a signed type.
abbrev pub least : Length → ℕ
least l = 2 ^ (8 * bytes l - 1)

-- A plain character is neither 0 nor '%', a string holds no 0, and a number is not the smallest of
-- its signed type, which has no negative.
abbrev pub IsShowable : Length → Shown → Type 0
IsShowable l percent = Unit
IsShowable l (pointer w) = w < 2 ^ 64
IsShowable l (text none) = Unit
IsShowable l (text (some t)) = All (λ c. c ≢ 0) t
IsShowable l (signed w) = cut (bytes l) w ≢ least l
IsShowable l (unsigned w) = Unit

abbrev pub IsPrintable : Piece → Type 0
IsPrintable (plain c) = (c ≢ 0) × (c ≢ 37)
IsPrintable (directive f l shown) = IsShowable l shown

-- Decimal numbers have the digits they need, binary and hexadecimal ones those of the type.
abbrev pub Numeral : Format → Length → List ℕ → ℕ → Type 0
Numeral decimal l t n = IsDecimal t n
Numeral binary l t n =
    (t ≡ binary_text (bytes l * 8) (bytes l * 8) n)
    × (read_digits 2 0 t ≡ n)
    × (digit_count t ≡ bytes l * 8)
Numeral hex l t n =
    (t ≡ hex_text (bytes l * 2) n) × (read_digits 16 0 t ≡ n) × (digit_count t ≡ bytes l * 2)

-- The sign and the size of a number.
abbrev pub SignedNumeral : Bool → Format → Length → List ℕ → ℕ → Type 0
SignedNumeral true f l t v = Numeral f l t v
SignedNumeral false f l t v = (u : List ℕ) × (t ≡ 45 ∷ u) × Numeral f l u (2 ^ (8 * bytes l) - v)

abbrev pub Stands : Format → Length → Shown → List ℕ → Type 0
Stands f l percent t = t ≡ 37 ∷ []
Stands f l (pointer w) t = (u : List ℕ) × (t ≡ 48 ∷ 120 ∷ u) × Numeral hex long u w
Stands f l (text none) t = t ≡ null_text
Stands f l (text (some x)) t = t ≡ x
Stands f l (signed w) t = SignedNumeral (ltb (cut (bytes l) w) (least l)) f l t (cut (bytes l) w)
Stands f l (unsigned w) t = Numeral f l t (cut (bytes l) w)

-- The text that a piece asks for.
abbrev pub StandsFor : Piece → List ℕ → Type 0
StandsFor (plain c) t = t ≡ c ∷ []
StandsFor (directive f l shown) t = Stands f l shown t

abbrev pub StandsForAll : List Piece → List ℕ → Type 0
StandsForAll [] t = t ≡ []
StandsForAll (p ∷ ps) t =
    (a : List ℕ) × (b : List ℕ) × (t ≡ a ++ b) × StandsFor p a × StandsForAll ps b
