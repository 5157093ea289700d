-- ===== src/Klib/Tests.antt =====
-- Runs of the C library and of the theorems about it.
use cs111winter.Base.{
  ℕ, ◌+◌, ◌≡◌, ◌<◌, ◌≤◌, refl, inl, inr, List, [], ◌∷◌, length, arith, ◌==◌, not, bit_and,
  minus_one, ◌-◌, ◌^◌,
}
use Prim.Native.Nat.{max}
use cs111winter.Klib.{copy_back, memmove}
use cs111winter.Klib.{copy_back, strlen}
use cs111winter.Klib.Console.{put_times}
use cs111winter.Klib.Copying.{IsCopy, memmove_lem}
use cs111winter.Klib.Console.{Screen, put_string}
use cs111winter.Klib.Console.Bounds.{IsOnConsole}
use cs111winter.Klib.Numbers.{upper_digits, lower_digits, fill_numbuf}
use cs111winter.Klib.Numbers.Laws.{IsText, is_lower, is_upper, value_from, fill_numbuf_lem}
use cs111winter.Klib.Format.{word}
use cs111winter.Klib.Printf.{
  Printed, done, bad_args, Converted, signed, print_field, console_vprintf,
}
use cs111winter.Klib.Printf.Safe.{Outcome, console_vprintf_lem}
use cs111winter.Klib.Printf.Field.{
  sign_text, IsSign, IsPad, given, body_of, field_text, print_field_lem,
}

abbrev counted : ℕ → ℕ
counted a = a

memmove_runs : memmove 4 12 10 counted 15 ≡ 13
unfolding memmove copy_back
memmove_runs = refl

memmove_lem_example : IsCopy 4 12 10 counted (memmove 4 12 10 counted)
memmove_lem_example = memmove_lem 4 12 10 counted

-- 255 in hexadecimal is `ff`.
fill_numbuf_runs : fill_numbuf 255 16 lower_digits minus_one ≡ 102 ∷ 102 ∷ []
unfolding fill_numbuf
fill_numbuf_runs = refl

fill_numbuf_lem_example :
    (value_from 16 0 (fill_numbuf 255 16 lower_digits minus_one) ≡ 255)
    × IsText (fill_numbuf 255 16 lower_digits minus_one)
    × (length (fill_numbuf 255 16 lower_digits minus_one) ≤ 10)
fill_numbuf_lem_example =
    fill_numbuf_lem 16 lower_digits 255 minus_one (inr refl) is_lower (omega arith)

abbrev blank : Screen
blank = record { cursor = 0xB8000; cells = λ a. 0 }

abbrev cursor_of : Printed → ℕ
cursor_of (done s) = s.cursor
cursor_of bad_args = 0
cursor_of Printed.out_of_fuel = 1

-- `%5d` of -42 takes five cells, and a newline the rest of the line.
console_vprintf_runs :
    cursor_of (console_vprintf 0x700 (37 ∷ 53 ∷ 100 ∷ []) (word (2 ^ 32 - 42) ∷ []) blank) ≡ 0xB800A
unfolding console_vprintf put_times put_string strlen fill_numbuf
console_vprintf_runs = refl

newline_runs : cursor_of (console_vprintf 0x700 (65 ∷ 10 ∷ []) [] blank) ≡ 0xB80A0
unfolding console_vprintf
newline_runs = refl

blank-IsOnConsole : IsOnConsole blank
blank-IsOnConsole = record { near = omega arith; even = refl }

console_vprintf_lem_example :
    Outcome blank (console_vprintf 0x700 (37 ∷ 53 ∷ 100 ∷ []) (word (2 ^ 32 - 42) ∷ []) blank)
console_vprintf_lem_example =
    console_vprintf_lem 0x700 (37 ∷ 53 ∷ 100 ∷ []) (word (2 ^ 32 - 42) ∷ []) blank blank-IsOnConsole

abbrev minus_42 : Converted
minus_42 = signed minus_one (2 ^ 32 - 42)

minus_42-length : length minus_42.chars < 2 ^ 28
unfolding fill_numbuf
minus_42-length = omega arith

print_field_lem_example :
    (body : List ℕ) × (pad : ℕ) × (sign : ℕ) × (body ≡ body_of minus_one minus_42.chars)
    × IsSign 2 minus_42 sign
    × IsPad 2 5 minus_one minus_42 (length body) (length (sign_text sign)) pad
    × (print_field 0x700 2 5 minus_one minus_42 blank
        ≡ put_string 0x700 (field_text 5 pad sign (not (bit_and 2 4 == 0)) body) blank)
    × (length (field_text 5 pad sign (not (bit_and 2 4 == 0)) body)
        ≡ max 5 (length body + pad + length (sign_text sign)))
print_field_lem_example =
    print_field_lem 0x700 2 5 5 minus_one minus_42 blank (given (omega arith)) (inl refl)
      (fill_numbuf_lem 10 upper_digits 42 minus_one (inl refl) is_upper (omega arith)).1
      minus_42-length
