-- ===== src/Klib/Console/Bounds.antt =====
-- Where the console's cells are written.
use cs111winter.Base.{
  ℕ, zero, suc, ◌+◌, ◌-◌, ◌*◌, ◌%◌, ◌≤◌, ◌<◌, ◌≡◌, ◌⊎◌, inl, inr, refl, ◌∙◌, List, [], ◌∷◌, arith,
  Bool-cases, leb, ◌==◌,
}
use cs111winter.Klib.Console.{
  Screen, console_begin, console_end, put_cell, blanks, console_putc, put_times, put_string,
  to_line_end, wrapped,
}

-- The cursor is on a cell of the console, or just behind the last.
pub record IsOnConsole (s : Screen) : Type 0 where
  pub near : (console_begin ≤ s.cursor) × (s.cursor ≤ console_end)
  pub even : s.cursor % 2 ≡ 0

-- From a cursor on the console, only cells of the console have changed.
pub record Stays (s s' : Screen) : Type 0 where
  pub on : IsOnConsole s'
  pub outside : (a : ℕ) → (a < console_begin) ⊎ (console_end ≤ a) → s'.cells a ≡ s.cells a

pub Stays-refl : (s : Screen) → IsOnConsole s → Stays s s
Stays-refl s on = record { on = on; outside = λ a out. refl }

pub Stays-trans : {s s' s'' : Screen} → Stays s s' → Stays s' s'' → Stays s s''
Stays-trans a b = record { on = b.on; outside = λ x out. b.outside x out ∙ a.outside x out }

put_cell-Stays :
    (color c : ℕ) (s : Screen)
    → IsOnConsole s
    → s.cursor < console_end
    → Stays s (put_cell color c s)
put_cell-Stays color c s on free =
    let near = on.near in
    let even = on.even in
    record {
      on = record { near = omega arith; even = omega arith };
      outside = λ a out. ground arith;
    }

blanks-Stays :
    (n color : ℕ) (s : Screen)
    → IsOnConsole s
    → s.cursor + 2 * n ≤ console_end
    → Stays s (blanks n color s) × ((blanks n color s).cursor ≡ s.cursor + 2 * n)
unfolding blanks
blanks-Stays zero color s on room = (Stays-refl s on, omega arith)
blanks-Stays (suc n) color s on room =
    let one = put_cell-Stays color 32 s on (omega arith) in
    let (rest, at) = blanks-Stays n color (put_cell color 32 s) one.on (omega arith) in
    (Stays-trans one rest, at ∙ omega arith)

-- The first cell of a line, or the place behind the last line.
abbrev pub AtLineStart : Screen → Type 0
AtLineStart s = (s.cursor - console_begin) % 160 ≡ 0

line_fits :
    (cursor : ℕ)
    → (console_begin ≤ cursor) × (cursor < console_end)
    → cursor % 2 ≡ 0
    → (cursor + 2 * to_line_end cursor ≤ console_end)
      × ((cursor + 2 * to_line_end cursor - console_begin) % 160 ≡ 0)
line_fits cursor near even = (ground arith, ground arith)

wrapped-Stays :
    (s : Screen) → IsOnConsole s → Stays s (wrapped s) × ((wrapped s).cursor < console_end)
wrapped-Stays s on =
    let near = on.near in
    elim (Bool-cases (leb console_end s.cursor)) [
      | inl e ↦ rw e (
        record { on = record { near = omega arith; even = refl }; outside = λ a out. refl },
        omega arith,
      )
      | inr e ↦ rw e (Stays-refl s on, ground arith)
    ]

-- A character leaves a cursor on the console there, and changes no cell outside; behind a newline
-- the cursor is at the start of a line.
pub console_putc_lem :
    (color c : ℕ) (s : Screen)
    → IsOnConsole s
    → Stays s (console_putc color c s) × (c ≡ 10 → AtLineStart (console_putc color c s))
unfolding console_putc
console_putc_lem color c s on =
    let s' = wrapped s in
    let (first, free) = wrapped-Stays s on in
    let near = first.on.near in
    elim (Bool-cases (c == 10)) [
      | inl e ↦
          let (fits, start) = line_fits s'.cursor (near.0, free) first.on.even in
          let (rest, at) = blanks-Stays (to_line_end s'.cursor) color s' first.on fits in
          rw e (Stays-trans first rest, λ newline. rw at start)
      | inr e ↦ rw e (
        Stays-trans first (put_cell-Stays color c s' first.on free),
        λ newline. absurd (ground arith),
      )
    ]

pub put_times-Stays : (n color c : ℕ) (s : Screen) → IsOnConsole s → Stays s (put_times n color c s)
unfolding put_times
put_times-Stays zero color c s on = Stays-refl s on
put_times-Stays (suc n) color c s on =
    let one = (console_putc_lem color c s on).0 in
    Stays-trans one (put_times-Stays n color c (console_putc color c s) one.on)

pub put_string-Stays :
    (color : ℕ) (data' : List ℕ) (s : Screen) → IsOnConsole s → Stays s (put_string color data' s)
unfolding put_string
put_string-Stays color [] s on = Stays-refl s on
put_string-Stays color (c ∷ data') s on =
    let one = (console_putc_lem color c s on).0 in
    Stays-trans one (put_string-Stays color data' (console_putc color c s) one.on)
