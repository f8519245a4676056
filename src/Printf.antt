-- ===== src/Printf.antt =====
-- lib/printf.c: formatted messages. `uartputc` is modelled in Uart; here a character that is put is
-- added to the text. The lock around `printf` makes a call one step.
pub mod Digits
pub mod Texts
pub mod Uint
pub mod Fields
pub mod Padded
pub mod Pieces
pub mod Rounds
pub mod Numbers
pub mod Directives
pub mod Refines
pub mod Fuel
use riscv_hypervisor.Common.{
  ℕ, zero, suc, ◌+◌, ◌-◌, ◌*◌, ◌/◌, ◌%◌, ◌^◌, Bool, true, false, ◌&&◌, ◌||◌, not, ◌==◌, ltb, leb,
  if◌then◌else◌, List, [], ◌∷◌, ◌++◌, length, get_elem?, Option, none, some, shl64, shr, u32,
}
use riscv_hypervisor.Common.Effects.{
  Cmd, ok, fault, bad_base, null_format, bad_length, unknown_specifier, ◌>>=◌, ◌>>◌, pure, stop,
  get, modify, panic_if,
}

-- An argument of the call: what a register holds, or a string without its terminating 0, if any.
pub data Arg : Type 0 where
  word : ℕ → Arg
  string : Option (List ℕ) → Arg

-- The text so far, the arguments that are left and the local flags.
pub record Printer : Type 0 where
  pub out : List ℕ
  pub args : List Arg
  pub invalid_length : Bool
  pub unknown : Bool

abbrev pub say : List ℕ → Printer → Printer
say text s = record s { out = s.out ++ text }

abbrev pub put : ℕ → Cmd Printer (Unit {0})
put c = modify (say (c ∷ []))

-- "0123456789abcdef" with its terminating 0.
abbrev pub digits : List ℕ
digits = 48 ∷ 49 ∷ 50 ∷ 51 ∷ 52 ∷ 53 ∷ 54 ∷ 55 ∷ 56 ∷ 57 ∷ 97 ∷ 98 ∷ 99 ∷ 100 ∷ 101 ∷ 102 ∷ 0 ∷ []

-- `digits[d]`; an index behind the array is undefined.
unfoldable pub digit_at : ℕ → Cmd Printer ℕ
digit_at d = elim (get_elem? digits d) [ none ↦ (λ s. fault) | some c ↦ pure c ]

-- The first loop of `print_uint`, with the room that is left in the buffer; behind it a write is
-- undefined. The buffer is listed last character first.
unfoldable pub fill_buf : ℕ → ℕ → ℕ → List ℕ → Cmd Printer (List ℕ)
fill_buf zero tmp base buf = λ s. fault
fill_buf (suc room) tmp base buf = do
  c ← digit_at (tmp % base)
  let rest = fill_buf room (tmp / base) base (c ∷ buf)
  if ltb 0 (tmp / base) then rest else pure (c ∷ buf)

-- The second loop, from the last character on.
unfoldable pub put_all : List ℕ → Cmd Printer (Unit {0})
put_all [] = pure tt
put_all (c ∷ buf) = put c >> put_all buf

unfoldable pub print_uint : ℕ → ℕ → Cmd Printer (Unit {0})
print_uint num base = do panic_if (ltb base 2) bad_base; buf ← fill_buf 64 num base []; put_all buf

-- `bits_in_char`; a base has at most 5 halvings here.
unfoldable pub bits_loop : ℕ → ℕ → ℕ → ℕ
bits_loop zero base bits = bits
bits_loop (suc fuel) base bits =
    let rest = bits_loop fuel (base / 2) (bits + 1) in if ltb 1 base then rest else bits

unfoldable pub shift_loop : ℕ → ℕ → ℕ → ℕ
shift_loop zero bits num = num
shift_loop (suc left) bits num = shift_loop left bits (shl64 num bits)

-- The last loop of `print_padded`, with the rounds that are left.
unfoldable pub padded_loop : ℕ → ℕ → ℕ → ℕ → ℕ → ℕ → Cmd Printer (Unit {0})
padded_loop zero i start bits chars num = pure tt
padded_loop (suc left) i start bits chars num = do
  if not (i == start) && bits == 1 && i % chars == 0 then put 95 else pure tt
  c ← digit_at (shr num (64 - bits))
  put c
  padded_loop left (i + 1) start bits chars (shl64 num bits)

unfoldable pub print_padded : ℕ → ℕ → ℕ → Cmd Printer (Unit {0})
print_padded num base bytes = do
  panic_if (not (base == 2) && not (base == 16)) bad_base
  let bits = bits_loop 5 base 0
  let chars = 8 / bits
  let start = (8 - bytes) * chars
  padded_loop (8 * chars - start) start start bits chars (shift_loop start bits num)

-- A position in a format is the characters from there on. Behind them stands the terminating 0, and
-- to read behind that is undefined.
abbrev pub char_at : List ℕ → ℕ
char_at [] = 0
char_at (c ∷ at) = c

-- `c = fmt[++i]`
unfoldable pub next : List ℕ → Cmd Printer (List ℕ)
next [] = λ s. fault
next (c ∷ at) = pure at

-- `va_arg`; an argument that is missing or read at another type is undefined.
unfoldable pub next_arg : Cmd Printer Arg
next_arg s = take s.args s
  where
    take : List Arg → Cmd Printer Arg
    take [] = λ s. fault
    take (arg ∷ args) = λ s. ok arg (record s { args = args })

abbrev pub as_word : Arg → Cmd Printer ℕ
as_word (word w) = pure w
as_word (string text) = λ s. fault

-- "(null)"
abbrev pub null_text : List ℕ
null_text = 40 ∷ 110 ∷ 117 ∷ 108 ∷ 108 ∷ 41 ∷ []

abbrev pub as_string : Arg → Cmd Printer (List ℕ)
as_string (word w) = λ s. fault
as_string (string none) = pure null_text
as_string (string (some text)) = pure text

unfoldable pub put_string : List ℕ → Cmd Printer (Unit {0})
put_string [] = pure tt
put_string (c ∷ text) = if c == 0 then pure tt else (put c >> put_string text)

-- The last lines of PRINT_UINT and PRINT_INT.
unfoldable pub print_number : ℕ → ℕ → ℕ → Cmd Printer (Unit {0})
print_number num base length =
    if base == 2 || base == 16 then print_padded num base length else print_uint num base

-- The cut to a type of so many bytes.
abbrev pub cut : ℕ → ℕ → ℕ
cut length w = w % 2 ^ (8 * length)

unfoldable pub print_unsigned : ℕ → ℕ → Cmd Printer (Unit {0})
print_unsigned base length = do
  arg ← next_arg
  w ← as_word arg
  print_number (cut length w) base length

-- `-var`: the least `int8` and `int16` are computed as an `int` and cut to themselves, the negation
-- of the others is undefined.
unfoldable pub negate : ℕ → ℕ → Cmd Printer ℕ
negate length v =
    if ltb 2 length && v == 2 ^ (8 * length - 1) then (λ s. fault) else pure (2 ^ (8 * length) - v)

-- The conversion to the `uint64` of the parameter.
abbrev pub extend : ℕ → ℕ → ℕ
extend length v = if ltb v (2 ^ (8 * length - 1)) then v else v + (2 ^ 64 - 2 ^ (8 * length))

unfoldable pub print_signed : ℕ → ℕ → Cmd Printer (Unit {0})
print_signed base length = do
  arg ← next_arg
  w ← as_word arg
  if ltb (cut length w) (2 ^ (8 * length - 1))
      then print_number (cut length w) base length
      else (do put 45; v ← negate length (cut length w); print_number (extend length v) base length)

unfoldable pub decide_format : List ℕ → Cmd Printer (ℕ × List ℕ)
decide_format at =
    if char_at at == 98
    then with_base 2
    else if char_at at == 120
    then with_base 16
    else pure (10, at)
  where
    with_base : ℕ → Cmd Printer (ℕ × List ℕ)
    with_base base = next at >>= λ at. pure (base, at)

unfoldable pub decide_length : List ℕ → Cmd Printer (ℕ × List ℕ)
decide_length at =
    if char_at at == 108
    then (next at >>= λ at. pure (8, at))
    else if char_at at == 104
    then (do
      at ← next at
      if char_at at == 104 then (next at >>= λ at. pure (1, at)) else pure (2, at))
    else pure (4, at)

-- The cases of a length are 1, 2, 4 and 8.
abbrev pub valid_length : ℕ → Bool
valid_length length = length == 1 || length == 2 || length == 4 || length == 8

unfoldable pub decide_type : ℕ → ℕ → ℕ → Cmd Printer (Unit {0})
decide_type base length c =
    if c == 37
    then put 37
    else if c == 112
    then (do put 48; put 120; arg ← next_arg; w ← as_word arg; print_padded (cut 8 w) 16 8)
    else if c == 115
    then (do arg ← next_arg; text ← as_string arg; put_string text)
    else if c == 100
    then if valid_length length
      then print_signed base length
      else modify (λ s. record s { invalid_length = true })
    else if c == 117
    then if valid_length length
      then print_unsigned base length
      else modify (λ s. record s { invalid_length = true })
    else modify (λ s. record s { unknown = true })

-- One round of the loop.
unfoldable pub print_round : List ℕ → Cmd Printer (List ℕ)
print_round at =
    if char_at at == 37
    then (do
      at ← next at
      format ← decide_format at
      length ← decide_length format.1
      decide_type format.0 length.0 (char_at length.1)
      next length.1)
    else (do put (char_at at); next at)

unfoldable pub print_loop : ℕ → List ℕ → Cmd Printer (Unit {0})
print_loop zero at = λ s. fault
print_loop (suc fuel) at =
    if char_at at == 0 then pure tt else (print_round at >>= λ at. print_loop fuel at)

abbrev pub start_printer : List Arg → Printer → Printer
start_printer args s = record s { args = args; invalid_length = false; unknown = false }

unfoldable pub printf : Option (List ℕ) → List Arg → Cmd Printer (Unit {0})
printf none args = stop null_format
printf (some fmt) args = do
  modify (start_printer args)
  print_loop (length fmt + 1) fmt
  s ← get
  panic_if s.invalid_length bad_length
  panic_if s.unknown unknown_specifier
