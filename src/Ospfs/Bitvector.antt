-- ===== src/Ospfs/Bitvector.antt =====
-- lab3/ospfsmod.c, BITVECTOR OPERATIONS: single bits of an array of 32-bit words.
use cs111winter.Base.{ℕ, ◌+◌, ◌-◌, ◌*◌, ◌/◌, ◌%◌, ◌^◌, Bool, not, ◌==◌, bit_and, bit_or}
pub mod Laws
use cs111winter.Ospfs.Mem.{Mem, Ptr, load32, store32}

-- The address of the word that holds bit `i`.
abbrev pub word_at : Ptr → ℕ → Ptr
word_at vector i = vector + 4 * (i / 32)

unfoldable pub bitvector_set : Mem → Ptr → ℕ → Mem
bitvector_set m vector i =
    store32 m (word_at vector i) (bit_or (load32 m (word_at vector i)) (2 ^ (i % 32)))

-- `~(1 << k)` is all ones but bit `k`.
unfoldable pub bitvector_clear : Mem → Ptr → ℕ → Mem
bitvector_clear m vector i =
    store32 m (word_at vector i) (bit_and (load32 m (word_at vector i)) (2 ^ 32 - 1 - 2 ^ (i % 32)))

unfoldable pub bitvector_test : Mem → Ptr → ℕ → Bool
bitvector_test m vector i = not (bit_and (load32 m (word_at vector i)) (2 ^ (i % 32)) == 0)
