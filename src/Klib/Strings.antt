-- ===== src/Klib/Strings.antt =====
-- The lengths of strings.
use cs111winter.Base.{ℕ, zero, suc, ◌≡◌, List, [], ◌∷◌, arith}
use Prim.Native.Nat.{min}
use cs111winter.Klib.{strlen, strnlen}

-- `strnlen` finds the length that `strlen` finds, or the limit when it is less.
pub strnlen_lem : (s : List ℕ) (maxlen : ℕ) → strnlen s maxlen ≡ min maxlen (strlen s)
unfolding strnlen strlen
strnlen_lem [] maxlen = omega arith
strnlen_lem (c ∷ s) zero = omega arith
strnlen_lem (c ∷ s) (suc maxlen) = ground (arith, strnlen_lem s maxlen)
