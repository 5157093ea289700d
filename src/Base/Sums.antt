-- ===== src/Base/Sums.antt =====
-- Sums of the first values of a function.
use Prim.Native.Nat.{ℕ, zero, suc, ◌+◌, ◌*◌, ◌≤◌, ◌<◌}
use mathlib.Core.Path.{◌≡◌, refl, sym}
use mathlib.Core.Logic.{◌≢◌}
use native.Mathlib.Omega.{arith}
use native.Mathlib.Decide.{ℕ_discrete}

unfoldable pub sum_to : ℕ → (ℕ → ℕ) → ℕ
sum_to zero f = 0
sum_to (suc n) f = f n + sum_to n f

pub sum_to-same : (n : ℕ) (f g : ℕ → ℕ) → ((j : ℕ) → j < n → g j ≡ f j) → sum_to n g ≡ sum_to n f
unfolding sum_to
sum_to-same zero f g same = refl
sum_to-same (suc n) f g same =
    omega (arith, same n (omega arith), sum_to-same n f g (λ j less. same j (omega arith)))

-- One of the terms changes.
pub sum_to-moves :
    (n i : ℕ) (f g : ℕ → ℕ)
    → i < n
    → ((j : ℕ) → j ≢ i → g j ≡ f j)
    → sum_to n g + f i ≡ sum_to n f + g i
unfolding sum_to
sum_to-moves zero i f g less same = absurd (omega arith)
sum_to-moves (suc n) i f g less same = elim (ℕ_discrete i n) [
  | yes e ↦
      let others = sum_to-same n f g (λ j l. same j (omega (arith, e))) in
      rw e (omega (arith, others))
  | no other ↦
      omega (arith, same n (λ e. other (sym e)), sum_to-moves n i f g (omega (arith, other)) same)
]

pub sum_to-at : (n i : ℕ) (f : ℕ → ℕ) → i < n → f i ≤ sum_to n f
unfolding sum_to
sum_to-at zero i f less = absurd (omega arith)
sum_to-at (suc n) i f less = elim (ℕ_discrete i n) [
  | yes e ↦ rw e (omega arith)
  | no other ↦ omega (arith, sum_to-at n i f (omega (arith, other)))
]

pub sum_to-bound : (n b : ℕ) (f : ℕ → ℕ) → ((j : ℕ) → j < n → f j ≤ b) → sum_to n f ≤ n * b
unfolding sum_to
sum_to-bound zero b f below = omega arith
sum_to-bound (suc n) b f below =
    ground (arith, below n (omega arith), sum_to-bound n b f (λ j l. below j (omega arith)))
