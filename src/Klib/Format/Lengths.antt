-- ===== src/Klib/Format/Lengths.antt =====
-- What is read of a directive leaves no more of the format than there was.
use cs111winter.Base.{
  ℕ, suc, ◌+◌, ◌-◌, ◌*◌, ◌%◌, ◌^◌, ◌≤◌, inl, inr, Bool, true, false, if◌then◌else◌, Option, none,
  some, List, [], ◌∷◌, arith, Bool-cases, ◌==◌, length, leb, ◌&&◌, bit_or,
}
use cs111winter.Klib.Format.{
  read_number, Arg, word, text, Parsed, take_flags, take_number, take_width, take_digits,
  take_precision, take_star, is_digit, flag_bit, at_least_0,
}

pub take_flags-length : (flags : ℕ) (f : List ℕ) → length (take_flags flags f).1 ≤ length f
unfolding take_flags
take_flags-length flags [] = omega arith
take_flags-length flags (c ∷ f) = elim (Bool-cases (flag_bit c == 0)) [
  | inl e ↦ rw e (omega arith)
  | inr e ↦ rw e (omega (arith, take_flags-length (bit_or flags (flag_bit c)) f))
]

take_number-length : (n : ℕ) (f : List ℕ) → length (take_number n f).1 ≤ length f
unfolding take_number
take_number-length n [] = omega arith
take_number-length n (c ∷ f) = elim (Bool-cases (is_digit c)) [
  | inl e ↦ rw e (omega (arith, take_number-length ((10 * n + c - 48) % 2 ^ 32) f))
  | inr e ↦ rw e (omega arith)
]

pub data Shrinks (n : ℕ) : Option Parsed → Type 0 where
  failed : Shrinks n none
  shrinks : {p : Parsed} → length p.format ≤ n → Shrinks n (some p)

take_star-Shrinks :
    (n : ℕ) (f : List ℕ) (args : List Arg) → length f ≤ n → Shrinks n (take_star f args)
take_star-Shrinks n f [] h = failed
take_star-Shrinks n f (word x ∷ args) h = shrinks h
take_star-Shrinks n f (text s ∷ args) h = failed

pub if-Shrinks :
    (n : ℕ) (b : Bool) {x y : Option Parsed}
    → Shrinks n x
    → Shrinks n y
    → Shrinks n (if b then x else y)
if-Shrinks n true hx hy = hx
if-Shrinks n false hx hy = hy

read-Shrinks : (f : List ℕ) (args : List Arg) → Shrinks (length f) (some (read_number f args))
read-Shrinks f args = shrinks (take_number-length 0 f)

pub take_width-Shrinks : (f : List ℕ) (args : List Arg) → Shrinks (length f) (take_width f args)
unfolding take_width
take_width-Shrinks [] args = shrinks (omega arith)
take_width-Shrinks (c ∷ f) args =
    if-Shrinks _ (leb 49 c && leb c 57) (read-Shrinks (c ∷ f) args)
      (if-Shrinks _ (c == 42) (take_star-Shrinks _ f args (omega arith)) (shrinks (omega arith)))

take_digits-Shrinks : (f : List ℕ) (args : List Arg) → Shrinks (length f) (take_digits f args)
unfolding take_digits
take_digits-Shrinks [] args = shrinks (omega arith)
take_digits-Shrinks (c ∷ f) args =
    if-Shrinks _ (is_digit c) (read-Shrinks (c ∷ f) args)
      (if-Shrinks _ (c == 42) (take_star-Shrinks _ f args (omega arith)) (shrinks (omega arith)))

at_least_0-Shrinks :
    (n : ℕ) (o : Option Parsed)
    → Shrinks n o
    → Shrinks (suc n) (elim o [ none ↦ none | some p ↦ some (at_least_0 p) ])
at_least_0-Shrinks n _ failed = failed
at_least_0-Shrinks n _ (shrinks h) = shrinks (omega arith)

pub take_precision-Shrinks :
    (f : List ℕ) (args : List Arg) → Shrinks (length f) (take_precision f args)
unfolding take_precision
take_precision-Shrinks [] args = shrinks (omega arith)
take_precision-Shrinks (c ∷ f) args =
    if-Shrinks _ (c == 46) (at_least_0-Shrinks _ _ (take_digits-Shrinks f args))
      (shrinks (omega arith))
