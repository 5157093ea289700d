-- ===== src/Ospfs/Bitvector/Laws.antt =====
-- The bitvector operations, bit by bit and word by word.
use cs111winter.Base.{
  ℕ, ◌+◌, ◌-◌, ◌*◌, ◌/◌, ◌%◌, ◌^◌, ◌<◌, ◌≡◌, ap, not, ◌&&◌, ◌||◌, arith, ◌==◌, if◌then◌else◌,
  bit_and, bit_or, bit, bit-lt, bit-set, bit-clear, bit_and-pow, bit_or-lt, pow-lt, bit_and-le,
}
use native.Mathlib.Nat.{one-le-pow}
use native.Mathlib.Decide.{ℕ_discrete}
use cs111winter.Ospfs.Mem.{
  Mem, Ptr, Apart, load32, store32, load32-lt, load32-store32, load32-store32_ne, store32_outside,
}
use cs111winter.Ospfs.Bitvector.{word_at, bitvector_set, bitvector_clear, bitvector_test}

test-bit :
    (m : Mem) (v : Ptr) (i : ℕ)
    → bitvector_test m v i ≡ (bit (i % 32) (load32 m (word_at v i)) == 1)
unfolding bitvector_test
test-bit m v i =
    let w : ℕ = load32 m (word_at v i) in
    let k : ℕ = i % 32 in grind (arith, bit_and-pow w k, bit-lt k w, one-le-pow k 2)

module _ (m : Mem) (v : Ptr) where
  -- A store to the word of bit `i`, seen from the word of bit `j`.
  load_word-store :
      (i j x : ℕ)
      → x < 2 ^ 32
      → load32 (store32 m (word_at v i) x) (word_at v j)
        ≡ (if i / 32 == j / 32 then x else load32 m (word_at v j))
  load_word-store i j x h = elim (ℕ_discrete (i / 32) (j / 32)) [
    | yes e ↦ rw (← e) (ground (arith, load32-store32 m (word_at v i) x))
    | no ne ↦ ground (arith, load32-store32_ne m (word_at v i) x (word_at v j) (omega arith))
  ]

  mask-lt : (i : ℕ) → 2 ^ (i % 32) < 2 ^ 32
  mask-lt i = pow-lt (i % 32) 32 (omega arith)

  -- Setting bit `i` makes the test of bit `i` true and leaves that of every other bit.
  pub test-set :
      (i j : ℕ) → bitvector_test (bitvector_set m v i) v j ≡ ((i == j) || bitvector_test m v j)
  unfolding bitvector_set
  test-set i j =
      let w : ℕ = load32 m (word_at v i) in
      let fits : bit_or w (2 ^ (i % 32)) < 2 ^ 32 =
        bit_or-lt 32 w (2 ^ (i % 32)) (load32-lt m (word_at v i)) (mask-lt i) in
      rw
        (
          test-bit (store32 m (word_at v i) (bit_or w (2 ^ (i % 32)))) v j,
          test-bit m v j,
          load_word-store i j (bit_or w (2 ^ (i % 32))) fits,
        )
        (elim (ℕ_discrete (i / 32) (j / 32)) [
          | yes e ↦
              ground (arith, bit-set w (j % 32) (i % 32), ap (λ (q : ℕ). load32 m (v + 4 * q)) e)
          | no ne ↦ ground arith
        ])

  -- Clearing bit `i` makes the test of bit `i` false and leaves that of every other bit.
  pub test-clear :
      (i j : ℕ)
      → bitvector_test (bitvector_clear m v i) v j ≡ (not (i == j) && bitvector_test m v j)
  unfolding bitvector_clear
  test-clear i j =
      let w : ℕ = load32 m (word_at v i) in
      let kept : ℕ = bit_and w (2 ^ 32 - 1 - 2 ^ (i % 32)) in
      let fits : kept < 2 ^ 32 =
        omega (arith, bit_and-le w (2 ^ 32 - 1 - 2 ^ (i % 32)), load32-lt m (word_at v i)) in
      rw
        (test-bit (store32 m (word_at v i) kept) v j, test-bit m v j, load_word-store i j kept fits)
        (elim (ℕ_discrete (i / 32) (j / 32)) [
          | yes e ↦
              ground
                (arith, bit-clear 32 w (j % 32) (i % 32), ap (λ (q : ℕ). load32 m (v + 4 * q)) e)
          | no ne ↦ ground arith
        ])

  pub set_outside : (i : ℕ) (b : Ptr) → Apart (word_at v i) 4 b 1 → bitvector_set m v i b ≡ m b
  unfolding bitvector_set
  set_outside i b h = store32_outside m (word_at v i) _ b h

  pub clear_outside : (i : ℕ) (b : Ptr) → Apart (word_at v i) 4 b 1 → bitvector_clear m v i b ≡ m b
  unfolding bitvector_clear
  clear_outside i b h = store32_outside m (word_at v i) _ b h
