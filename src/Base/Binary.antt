-- ===== src/Base/Binary.antt =====
-- Single bits of a word, and what `|` and `&` with a one-bit mask do to them.
use Prim.Native.Nat.{
  ℕ, zero, suc, ◌+◌, ◌-◌, ◌*◌, ◌/◌, ◌%◌, ◌^◌, ◌≤◌, ◌<◌, min, max, digits, bit_and, bit_or,
  bit_and-bitwise, bit_or-bitwise,
}
use mathlib.Core.Path.{◌≡◌, refl}
use native.Mathlib.Nat.{le_refl, pow-suc, one-le-pow}
use native.Mathlib.Omega.{arith}
use cs111winter.Base.Tests.{◌==◌, if◌then◌else◌}

-- The `k`th bit of `w`.
unfoldable pub bit : ℕ → ℕ → ℕ
bit zero w = w % 2
bit (suc k) w = bit k (w / 2)

pub bit-lt : (k w : ℕ) → bit k w < 2
unfolding bit
bit-lt zero w = omega arith
bit-lt (suc k) w = bit-lt k (w / 2)

bit-zero : (k : ℕ) → bit k 0 ≡ 0
unfolding bit
bit-zero zero = refl
bit-zero (suc k) = bit-zero k

-- What `a & b` and `a | b` compute: digit by digit, with a count of the digits of `a` to go.
abbrev meet : (n a b : ℕ) → ℕ
meet n a b = digits (λ y. 0) min n a b

abbrev join : (n a b : ℕ) → ℕ
join n a b = digits (λ y. y) max n a b

-- A count of `a` is enough for all digits of `a`.
meet-bit : (k n a b : ℕ) → a ≤ n → bit k (meet n a b) ≡ min (bit k a) (bit k b)
unfolding bit
meet-bit k zero zero b h = ground (arith, bit-zero k)
meet-bit k (suc n) zero b h = ground (arith, bit-zero k)
meet-bit k zero (suc a) b h = absurd (omega arith)
meet-bit zero (suc n) (suc a) b h = omega arith
meet-bit (suc k) (suc n) (suc a) b h =
    let rest : ℕ = meet n (suc a / 2) (b / 2) in
    let half : (rest * 2 + min (suc a % 2) (b % 2)) / 2 ≡ rest = omega arith in
    rw half (meet-bit k n (suc a / 2) (b / 2) (omega arith))

join-bit : (k n a b : ℕ) → a ≤ n → bit k (join n a b) ≡ max (bit k a) (bit k b)
unfolding bit
join-bit k zero zero b h = ground (arith, bit-zero k)
join-bit k (suc n) zero b h = ground (arith, bit-zero k)
join-bit k zero (suc a) b h = absurd (omega arith)
join-bit zero (suc n) (suc a) b h = omega arith
join-bit (suc k) (suc n) (suc a) b h =
    let rest : ℕ = join n (suc a / 2) (b / 2) in
    let half : (rest * 2 + max (suc a % 2) (b % 2)) / 2 ≡ rest = omega arith in
    rw half (join-bit k n (suc a / 2) (b / 2) (omega arith))

bit-bit_or : (k a b : ℕ) → bit k (bit_or a b) ≡ max (bit k a) (bit k b)
bit-bit_or k a b = rw (bit_or-bitwise a b) (join-bit k a a b (le_refl _))

bit-bit_and : (k a b : ℕ) → bit k (bit_and a b) ≡ min (bit k a) (bit k b)
bit-bit_and k a b = rw (bit_and-bitwise a b) (meet-bit k a a b (le_refl _))

-- The mask `1 << k` and its complement in `n` bits.
bit-pow : (j k : ℕ) → bit j (2 ^ k) ≡ (if j == k then 1 else 0)
unfolding bit
bit-pow zero zero = refl
bit-pow (suc j) zero = ground (arith, bit-zero j)
bit-pow zero (suc k) = ground (arith, pow-suc 2 k)
bit-pow (suc j) (suc k) =
    let half : 2 ^ suc k / 2 ≡ 2 ^ k = omega (arith, pow-suc 2 k) in
    rw half (ground (arith, bit-pow j k))

pub bit-ones : (n j : ℕ) → j < n → bit j (2 ^ n - 1) ≡ 1
unfolding bit
bit-ones zero j h = absurd (omega arith)
bit-ones (suc n) zero h = omega (arith, pow-suc 2 n, one-le-pow n 2)
bit-ones (suc n) (suc j) h =
    let half : (2 ^ suc n - 1) / 2 ≡ 2 ^ n - 1 = omega (arith, pow-suc 2 n, one-le-pow n 2) in
    rw half (bit-ones n j (omega arith))

pub pow-lt : (k n : ℕ) → k < n → 2 ^ k < 2 ^ n
pow-lt zero zero h = absurd (omega arith)
pow-lt zero (suc n) h = omega (arith, pow-suc 2 n, one-le-pow n 2)
pow-lt (suc k) zero h = absurd (omega arith)
pow-lt (suc k) (suc n) h = omega (arith, pow-suc 2 n, pow-suc 2 k, pow-lt k n (omega arith))

bit-mask : (n j k : ℕ) → j < n → k < n → bit j (2 ^ n - 1 - 2 ^ k) ≡ (if j == k then 0 else 1)
unfolding bit
bit-mask zero j k hj hk = absurd (omega arith)
bit-mask (suc n) zero zero hj hk = omega (arith, pow-suc 2 n, one-le-pow n 2)
bit-mask (suc n) (suc j) zero hj hk =
    let half : (2 ^ suc n - 1 - 2 ^ 0) / 2 ≡ 2 ^ n - 1 =
      omega (arith, pow-suc 2 n, one-le-pow n 2) in
    rw half (ground (arith, bit-ones n j (omega arith)))
bit-mask (suc n) zero (suc k) hj hk =
    ground (arith, pow-suc 2 n, pow-suc 2 k, one-le-pow k 2, pow-lt k n (omega arith))
bit-mask (suc n) (suc j) (suc k) hj hk =
    let half : (2 ^ suc n - 1 - 2 ^ suc k) / 2 ≡ 2 ^ n - 1 - 2 ^ k =
      omega (arith, pow-suc 2 n, pow-suc 2 k, one-le-pow n 2, pow-lt k n (omega arith)) in
    rw half (ground (arith, bit-mask n j k (omega arith) (omega arith)))

pub bit-set : (w j k : ℕ) → bit j (bit_or w (2 ^ k)) ≡ (if j == k then 1 else bit j w)
bit-set w j k = ground (arith, bit-bit_or j w (2 ^ k), bit-pow j k, bit-lt j w)

pub bit-clear :
    (n w j k : ℕ)
    → j < n
    → k < n
    → bit j (bit_and w (2 ^ n - 1 - 2 ^ k)) ≡ (if j == k then 0 else bit j w)
bit-clear n w j k hj hk =
    ground (arith, bit-bit_and j w (2 ^ n - 1 - 2 ^ k), bit-mask n j k, bit-lt j w)

meet-none : (n a : ℕ) → meet n a 0 ≡ 0
meet-none zero a = refl
meet-none (suc n) zero = refl
meet-none (suc n) (suc a) = omega (arith, meet-none n (suc a / 2))

meet-pow : (n k a : ℕ) → a ≤ n → meet n a (2 ^ k) ≡ bit k a * 2 ^ k
unfolding bit
meet-pow zero k zero h = rw (bit-zero k) (omega arith)
meet-pow zero k (suc a) h = absurd (omega arith)
meet-pow (suc n) k zero h = rw (bit-zero k) (omega arith)
meet-pow (suc n) zero (suc a) h = omega (arith, meet-none n (suc a / 2))
meet-pow (suc n) (suc k) (suc a) h =
    let half : 2 ^ suc k / 2 ≡ 2 ^ k = omega (arith, pow-suc 2 k) in
    rw half (grind (arith, pow-suc 2 k, meet-pow n k (suc a / 2)))

-- `w & (1 << k)` is nonzero exactly when the bit is set.
pub bit_and-pow : (w k : ℕ) → bit_and w (2 ^ k) ≡ bit k w * 2 ^ k
bit_and-pow w k = rw (bit_and-bitwise w (2 ^ k)) (meet-pow w k w (le_refl _))

-- The operations stay within a width.
join-lt : (n w a b : ℕ) → a < 2 ^ w → b < 2 ^ w → join n a b < 2 ^ w
join-lt zero w a b ha hb = hb
join-lt (suc n) w zero b ha hb = hb
join-lt (suc n) zero (suc a) b ha hb = absurd (omega arith)
join-lt (suc n) (suc w) (suc a) b ha hb =
    let double = pow-suc 2 w in
    let rest = join-lt n w (suc a / 2) (b / 2) (omega (arith, double)) (omega (arith, double)) in
    omega (arith, double, rest)

pub bit_or-lt : (n a b : ℕ) → a < 2 ^ n → b < 2 ^ n → bit_or a b < 2 ^ n
bit_or-lt n a b ha hb = rw (bit_or-bitwise a b) (join-lt a n a b ha hb)

meet-le : (n a b : ℕ) → meet n a b ≤ a
meet-le zero a b = omega arith
meet-le (suc n) zero b = omega arith
meet-le (suc n) (suc a) b = omega (arith, meet-le n (suc a / 2) (b / 2))

pub bit_and-le : (a b : ℕ) → bit_and a b ≤ a
bit_and-le a b = rw (bit_and-bitwise a b) (meet-le a a b)
