-- ===== src/Klib/Printf.antt =====
-- `console_vprintf`: a format string and a list of arguments. An `int` is its bit pattern.
use cs111winter.Base.{
  ℕ, zero, suc, ◌+◌, ◌-◌, ◌*◌, ◌%◌, ◌^◌, Bool, true, false, not, ◌&&◌, Option, none, some, List, [],
  ◌∷◌, bit_and, bit_or, length, take, ◌==◌, leb, ltb, if◌then◌else◌, int_ltb, minus_one,
}
pub mod Field
pub mod Safe
use cs111winter.Klib.{strlen, strnlen}
use cs111winter.Klib.Console.{Screen, console_putc, put_times, put_string}
use cs111winter.Klib.Format.{
  Arg, arg_int, arg_string, Parsed, take_flags, take_width, take_precision,
}
use cs111winter.Klib.Numbers.{upper_digits, lower_digits, fill_numbuf}

-- What the conversion character leaves in `data`, `numeric` and `negative`.
pub record Converted : Type 0 where
  pub chars : List ℕ
  pub numeric : Bool
  pub negative : Bool

abbrev pub signed : (precision x : ℕ) → Converted
signed precision x = record {
  chars = fill_numbuf (if int_ltb 0 x then x else (2 ^ 32 - x) % 2 ^ 32) 10 upper_digits precision;
  numeric = true;
  negative = int_ltb x 0;
}

abbrev pub unsigned : (precision base : ℕ) (table : List ℕ) (x : ℕ) → Converted
unsigned precision base table x = record {
  chars = fill_numbuf x base table precision;
  numeric = true;
  negative = false;
}

abbrev pub plain : List ℕ → Converted
plain chars = record { chars = chars; numeric = false; negative = false }

-- What a directive comes to: a field to print, or a new color; with the arguments behind it.
pub data Conversion : Type 0 where
  field : Converted → List Arg → Conversion
  recolor : ℕ → List Arg → Conversion

abbrev pub with_int : List Arg → (ℕ → List Arg → Conversion) → Option Conversion
with_int args f = elim (arg_int args) [ none ↦ none | some (x, args') ↦ some (f x args') ]

abbrev pub with_string : List Arg → Option Conversion
with_string args = elim (arg_string args) [
  | none ↦ none
  | some (chars, args') ↦ some (field (plain chars) args')
]

-- The `switch` on the conversion character.
unfoldable pub convert : (c precision : ℕ) → List Arg → Option Conversion
convert c precision args =
    if c == 100
    then with_int args (λ x. field (signed precision x))
    else if c == 117
    then with_int args (λ x. field (unsigned precision 10 upper_digits x))
    else if c == 120
    then with_int args (λ x. field (unsigned precision 16 lower_digits x))
    else if c == 88
    then with_int args (λ x. field (unsigned precision 16 upper_digits x))
    else if c == 115
    then with_string args
    else if c == 67
    then with_int args recolor
    else if c == 99
    then with_int args (λ x. field (plain ((x % 256) ∷ [])))
    else some (field (plain (c ∷ [])) args)

-- The rounds of `for (; n > 0; --n)`.
abbrev pub positive : ℕ → ℕ
positive n = if int_ltb 0 n then n else 0

abbrev pub field_length : (precision : ℕ) → Converted → ℕ
field_length precision d =
    (if int_ltb precision 0 then strlen d.chars else strnlen d.chars precision) % 2 ^ 32

-- The character in front of a number; 0 for none.
abbrev pub sign_char : (flags : ℕ) → Converted → ℕ
sign_char flags d =
    if d.numeric && d.negative
    then 45
    else if not (bit_and flags 16 == 0)
    then 43
    else if not (bit_and flags 8 == 0)
    then 32
    else 0

abbrev pub one_if : ℕ → ℕ
one_if c = if c == 0 then 0 else 1

abbrev pub zeros_of : (flags width precision : ℕ) → (numeric : Bool) → (len sign : ℕ) → ℕ
zeros_of flags width precision numeric len sign =
    if numeric && int_ltb len precision
    then precision - len
    else if (bit_and flags 6 == 2)
        && numeric
        && int_ltb precision 0
        && int_ltb ((len + one_if sign) % 2 ^ 32) width
    then width - len - one_if sign
    else 0

-- The width that is left for spaces.
abbrev pub padding : (width len pad sign : ℕ) → ℕ
padding width len pad sign =
    (width + (2 ^ 32 - len) + (2 ^ 32 - pad) + (2 ^ 32 - one_if sign)) % 2 ^ 32

abbrev pub put_sign : (color sign : ℕ) → Screen → Screen
put_sign color sign s = if sign == 0 then s else console_putc color sign s

unfoldable pub print_field : (color flags width precision : ℕ) → Converted → Screen → Screen
print_field color flags width precision d s =
    let len = field_length precision d in
    let sign = sign_char flags d in
    let pad = zeros_of flags width precision d.numeric len sign in
    let rest = positive (padding width len pad sign) in
    let left = not (bit_and flags 4 == 0) in
    let s1 = put_times (if left then 0 else rest) color 32 s in
    let s2 = put_times (positive pad) color 48 (put_sign color sign s1) in
    let s3 = put_string color (take (positive len) d.chars) s2 in
    put_times (if left then rest else 0) color 32 s3

-- What one round of the outer loop leads to.
pub data Step : Type 0 where
  stop : Screen → Step
  undefined : Step
  next : (color : ℕ) → List ℕ → List Arg → Screen → Step

abbrev pub finish : (color flags width precision : ℕ) → List ℕ → Option Conversion → Screen → Step
finish color flags width precision f none s = undefined
finish color flags width precision f (some (recolor color' args)) s = next color' f args s
finish color flags width precision f (some (field d args)) s =
    next color f args (print_field color flags width precision d s)

-- At the end of the format a `%` is printed, and the outer loop finds the end again.
unfoldable pub convert_next :
    (color flags width : ℕ) → (precision : ℕ) → List ℕ → List Arg → Screen → Step
unfolding convert print_field
convert_next color flags width precision [] args s =
    finish color flags width precision [] (some (field (plain (37 ∷ [])) args)) s
convert_next color flags width precision (c ∷ f) args s =
    if c == 0
    then finish color flags width precision [] (some (field (plain (37 ∷ [])) args)) s
    else finish color flags width precision f (convert c precision args) s

-- A directive, from behind its `%`.
unfoldable pub directive : (color : ℕ) → List ℕ → List Arg → Screen → Step
unfolding take_flags take_width take_precision convert_next
directive color f args s =
    let (flags, f') = take_flags 0 f in
    elim (take_width f' args) [
      | none ↦ undefined
      | some w ↦ elim (take_precision w.format w.args) [
        | none ↦ undefined
        | some p ↦ convert_next color flags w.number p.number p.format p.args s
      ]
    ]

unfoldable pub print_step : (color : ℕ) → List ℕ → List Arg → Screen → Step
unfolding directive console_putc
print_step color [] args s = stop s
print_step color (c ∷ f) args s =
    if c == 0
    then stop s
    else if c == 37
    then directive color f args s
    else next color f args (console_putc color c s)

pub data Printed : Type 0 where
  done : Screen → Printed
  bad_args : Printed
  out_of_fuel : Printed

unfoldable pub print_from : ℕ → (color : ℕ) → List ℕ → List Arg → Screen → Printed
unfolding print_step
print_from zero color f args s = out_of_fuel
print_from (suc n) color f args s = elim (print_step color f args s) [
  | stop s' ↦ done s'
  | undefined ↦ bad_args
  | next color' f' args' s' ↦ print_from n color' f' args' s'
]

-- Each round takes a character of the format at least.
unfoldable pub console_vprintf : (color : ℕ) → List ℕ → List Arg → Screen → Printed
unfolding print_from
console_vprintf color format args s = print_from (length format + 1) color format args s
