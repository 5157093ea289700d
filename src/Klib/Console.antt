-- ===== src/Klib/Console.antt =====
-- `console_putc`: the console is 80 × 25 cells of 16 bits. A cursor is a pointer to a cell, given
-- by its address in bytes.
use cs111winter.Base.{
  ℕ, zero, suc, ◌+◌, ◌-◌, ◌*◌, ◌/◌, ◌%◌, ◌^◌, List, [], ◌∷◌, bit_or, ◌==◌, leb, ltb, if◌then◌else◌,
}
pub mod Bounds
use cs111winter.Klib.{write}

abbrev pub console_begin : ℕ
console_begin = 0xB8000

abbrev pub console_end : ℕ
console_end = 0xB8FA0

-- The cursor, and the cell at each address.
pub record Screen : Type 0 where
  pub cursor : ℕ
  pub cells : ℕ → ℕ

-- `*cursor++ = c | color`
abbrev pub put_cell : (color c : ℕ) → Screen → Screen
put_cell color c s = record s {
  cursor = s.cursor + 2;
  cells = write s.cursor (bit_or c color % 2 ^ 16) s.cells;
}

-- The rest of the line is filled with `n` spaces.
unfoldable pub blanks : ℕ → (color : ℕ) → Screen → Screen
blanks zero color s = s
blanks (suc n) color s = blanks n color (put_cell color 32 s)

-- From `pos` to 80, for a `pos` that is negative where the cursor stands above the console.
abbrev pub to_line_end : ℕ → ℕ
to_line_end cursor =
    if ltb cursor console_begin
    then 80 + (console_begin - cursor) / 2 % 80
    else 80 - (cursor - console_begin) / 2 % 80

abbrev pub wrapped : Screen → Screen
wrapped s = if leb console_end s.cursor then record s { cursor = console_begin } else s

unfoldable pub console_putc : (color c : ℕ) → Screen → Screen
unfolding blanks
console_putc color c s =
    let s' = wrapped s in
    if c == 10 then blanks (to_line_end s'.cursor) color s' else put_cell color c s'

-- The same character `n` times, and the characters of a string.
unfoldable pub put_times : ℕ → (color c : ℕ) → Screen → Screen
put_times zero color c s = s
put_times (suc n) color c s = put_times n color c (console_putc color c s)

unfoldable pub put_string : (color : ℕ) → List ℕ → Screen → Screen
put_string color [] s = s
put_string color (c ∷ data') s = put_string color data' (console_putc color c s)
