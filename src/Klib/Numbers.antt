-- ===== src/Klib/Numbers.antt =====
-- `fill_numbuf`: the digits of a number. The buffer is the list of the characters from the pointer
-- on, which grows to the front.
use cs111winter.Base.{ℕ, zero, suc, ◌/◌, ◌%◌, List, [], ◌∷◌, ◌==◌, ◌&&◌, get_or, if◌then◌else◌}
pub mod Laws

abbrev pub upper_digits : List ℕ
upper_digits = 48 ∷ 49 ∷ 50 ∷ 51 ∷ 52 ∷ 53 ∷ 54 ∷ 55 ∷ 56 ∷ 57 ∷ 65 ∷ 66 ∷ 67 ∷ 68 ∷ 69 ∷ 70 ∷ []

abbrev pub lower_digits : List ℕ
lower_digits = 48 ∷ 49 ∷ 50 ∷ 51 ∷ 52 ∷ 53 ∷ 54 ∷ 55 ∷ 56 ∷ 57 ∷ 97 ∷ 98 ∷ 99 ∷ 100 ∷ 101 ∷ 102 ∷ []

-- The loop, for at most `n` rounds. A value of 32 bits is 0 after 32 divisions.
unfoldable pub fill_from : ℕ → (val base : ℕ) → (table buf : List ℕ) → List ℕ
fill_from zero val base table buf = buf
fill_from (suc n) val base table buf =
    let buf' : List ℕ = get_or table (val % base) 0 ∷ buf in
    let rest = fill_from n (val / base) base table buf' in if val / base == 0 then buf' else rest

unfoldable pub fill_numbuf : (val base : ℕ) → (table : List ℕ) → (precision : ℕ) → List ℕ
unfolding fill_from
fill_numbuf val base table precision =
    if (precision == 0) && (val == 0) then [] else fill_from 32 val base table []
