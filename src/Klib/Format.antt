-- ===== src/Klib/Format.antt =====
-- `console_vprintf`: how it reads the arguments, and the flags, the width and the precision of a
-- directive. An `int` is its bit pattern.
use cs111winter.Base.{
  ℕ, ◌+◌, ◌-◌, ◌*◌, ◌%◌, ◌^◌, Bool, ◌&&◌, Option, none, some, List, [], ◌∷◌, bit_or, ◌==◌, leb,
  if◌then◌else◌, int_ltb, minus_one,
}
pub mod Lengths

-- What `va_arg` reads: a word, as an `int`, or a pointer, as the string there.
pub data Arg : Type 0 where
  word : ℕ → Arg
  text : List ℕ → Arg

-- To read an argument as what it is not, or behind the last, is undefined: `none`.
abbrev pub arg_int : List Arg → Option (ℕ × List Arg)
arg_int [] = none
arg_int (word x ∷ args) = some (x % 2 ^ 32, args)
arg_int (text s ∷ args) = none

abbrev pub arg_string : List Arg → Option (List ℕ × List Arg)
arg_string [] = none
arg_string (word x ∷ args) = none
arg_string (text s ∷ args) = some (s, args)

-- The bit of a character in `flag_chars`; 0 for any other.
abbrev pub flag_bit : ℕ → ℕ
flag_bit c =
    if c == 35
    then 1
    else if c == 48
    then 2
    else if c == 45
    then 4
    else if c == 32
    then 8
    else if c == 43
    then 16
    else 0

-- The flags, and the format behind them.
unfoldable pub take_flags : (flags : ℕ) → List ℕ → ℕ × List ℕ
take_flags flags [] = (flags, [])
take_flags flags (c ∷ f) =
    let rest = take_flags (bit_or flags (flag_bit c)) f in
    if flag_bit c == 0 then (flags, c ∷ f) else rest

abbrev pub is_digit : ℕ → Bool
is_digit c = leb 48 c && leb c 57

-- A decimal number behind the digits of `n`.
unfoldable pub take_number : (n : ℕ) → List ℕ → ℕ × List ℕ
take_number n [] = (n, [])
take_number n (c ∷ f) =
    let rest = take_number ((10 * n + c - 48) % 2 ^ 32) f in if is_digit c then rest else (n, c ∷ f)

-- What has been read of a directive, with the format and the arguments to come.
pub record Parsed : Type 0 where
  pub number : ℕ
  pub format : List ℕ
  pub args : List Arg

-- `*` stands for a number that is an argument.
abbrev pub take_star : List ℕ → List Arg → Option Parsed
take_star f args = elim (arg_int args) [
  | none ↦ none
  | some (x, args') ↦ some (record { number = x; format = f; args = args' })
]

abbrev pub no_number : List ℕ → List Arg → Parsed
no_number f args = record { number = minus_one; format = f; args = args }

abbrev pub read_number : List ℕ → List Arg → Parsed
read_number f args = record {
  number = (take_number 0 f).0;
  format = (take_number 0 f).1;
  args = args;
}

unfoldable pub take_width : List ℕ → List Arg → Option Parsed
unfolding take_number
take_width [] args = some (no_number [] args)
take_width (c ∷ f) args =
    if leb 49 c && leb c 57
    then some (read_number (c ∷ f) args)
    else if c == 42
    then take_star f args
    else some (no_number (c ∷ f) args)

-- The precision behind a `.`, before a negative one becomes 0.
unfoldable pub take_digits : List ℕ → List Arg → Option Parsed
unfolding take_number
take_digits [] args = some (no_number [] args)
take_digits (c ∷ f) args =
    if is_digit c
    then some (read_number (c ∷ f) args)
    else if c == 42
    then take_star f args
    else some (no_number (c ∷ f) args)

abbrev pub at_least_0 : Parsed → Parsed
at_least_0 p = record p { number = if int_ltb p.number 0 then 0 else p.number }

unfoldable pub take_precision : List ℕ → List Arg → Option Parsed
unfolding take_digits
take_precision [] args = some (no_number [] args)
take_precision (c ∷ f) args =
    if c == 46
    then (elim (take_digits f args) [ none ↦ none | some p ↦ some (at_least_0 p) ])
    else some (no_number (c ∷ f) args)
