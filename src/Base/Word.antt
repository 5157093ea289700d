-- ===== src/Base/Word.antt =====
-- Comparisons of two `int`, given by their 32-bit patterns.
use Prim.Native.Nat.{ℕ, ◌+◌, ◌-◌, ◌%◌, ◌^◌}
use mathlib.Core.Bool.{Bool}
use cs111winter.Base.Tests.{ltb, leb}

abbrev pub int_leb : ℕ → ℕ → Bool
int_leb a b = leb ((a + 2 ^ 31) % 2 ^ 32) ((b + 2 ^ 31) % 2 ^ 32)

abbrev pub int_ltb : ℕ → ℕ → Bool
int_ltb a b = ltb ((a + 2 ^ 31) % 2 ^ 32) ((b + 2 ^ 31) % 2 ^ 32)

-- The pattern of -1.
abbrev pub minus_one : ℕ
minus_one = 2 ^ 32 - 1
