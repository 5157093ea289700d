-- ===== src/Ospfs/Alloc/Laws.antt =====
-- `allocate_block` and `free_block` on the free map, and what they leave alone.
use cs111winter.Base.{
  ◌/◌, ◌*◌, ℕ, zero, suc, ◌+◌, ◌-◌, ◌≤◌, ◌<◌, ◌≡◌, ◌⊎◌, inl, inr, refl, ◌∙◌, true, false, not, ◌&&◌,
  ◌||◌, arith, ◌==◌, ltb, leb, Bool-cases,
}
use native.Mathlib.Decide.{ℕ_discrete}
use cs111winter.Ospfs.Mem.{Same-refl, Same-sub, load32-Same, Same, Mem, Ptr, Apart}
use cs111winter.Ospfs.Bitvector.{bitvector_test, word_at, bitvector_clear}
use cs111winter.Ospfs.Bitvector.Laws.{test-set, test-clear, set_outside, clear_outside}
use cs111winter.Ospfs.Layout.{os_nblocks}
use cs111winter.Ospfs.Alloc.{
  bitvector_test, bitmap, is_free, allocate_from, allocate_block, free_block,
}

-- `b` was the first free block from `lo` on, below `hi`; now it is taken, and the map is otherwise
-- as it was. No byte outside the word of its bit has changed.
pub record Taken (lo hi : ℕ) (m : Mem) (b : ℕ) (m' : Mem) : Type 0 where
  pub above : lo ≤ b
  pub below : b < hi
  pub was_free : is_free m b ≡ true
  pub first : (j : ℕ) → lo ≤ j → j < b → is_free m j ≡ false
  pub map_after : (j : ℕ) → is_free m' j ≡ (not (b == j) && is_free m j)
  pub outside : (a : Ptr) → Apart (word_at bitmap b) 4 a 1 → m' a ≡ m a

-- No block from `lo` on, below `hi`, is free, and nothing has changed.
pub record Full (lo hi : ℕ) (m : Mem) (b : ℕ) (m' : Mem) : Type 0 where
  pub null : b ≡ 0
  pub none_free : (j : ℕ) → lo ≤ j → j < hi → is_free m j ≡ false
  pub same : m' ≡ m

abbrev pub Allocated : ℕ → ℕ → Mem → ℕ × Mem → Type 0
Allocated lo hi m r = Taken lo hi m r.0 r.1 ⊎ Full lo hi m r.0 r.1

-- A block that is not free may be put in front of a search.
Allocated-skip :
    (cur hi : ℕ) (m : Mem) (r : ℕ × Mem)
    → is_free m cur ≡ false
    → Allocated (cur + 1) hi m r
    → Allocated cur hi m r
Allocated-skip cur hi m r used (inl t) = inl (record {
  above = omega (arith, t.above);
  below = t.below;
  was_free = t.was_free;
  first =
      λ j lo b. elim (ℕ_discrete j cur) [ yes e ↦ rw e used | no ne ↦ t.first j (omega arith) b ];
  map_after = t.map_after;
  outside = t.outside;
})
Allocated-skip cur hi m r used (inr f) = inr (record {
  null = f.null;
  none_free = λ j lo b. elim (ℕ_discrete j cur) [
    | yes e ↦ rw e used
    | no ne ↦ f.none_free j (omega arith) b
  ];
  same = f.same;
})

Taken-here :
    (cur hi : ℕ) (m : Mem)
    → cur < hi
    → is_free m cur ≡ true
    → Taken cur hi m cur (bitvector_clear m bitmap cur)
Taken-here cur hi m h free = record {
  above = omega arith;
  below = h;
  was_free = free;
  first = λ j lo b. absurd (omega arith);
  map_after = λ j. test-clear m bitmap cur j;
  outside = λ a apart. clear_outside m bitmap cur a apart;
}

allocate_from_lem :
    (k : ℕ) (m : Mem) (cur hi : ℕ) → k ≡ hi - cur → Allocated cur hi m (allocate_from k m cur)
unfolding allocate_from
allocate_from_lem zero m cur hi e =
    inr (record { null = refl; none_free = λ j lo b. absurd (omega arith); same = refl })
allocate_from_lem (suc k) m cur hi e = elim (Bool-cases (is_free m cur)) [
  | inl free ↦ rw free (inl (Taken-here cur hi m (omega arith) free))
  | inr used ↦
      rw used (Allocated-skip cur hi m _ used (allocate_from_lem k m (cur + 1) hi (omega arith)))
]

-- Either the lowest free block from 3 on is taken, with no other bit and no other byte changed; or
-- there is none, the result is 0 and nothing changes.
pub allocate_block_lem : (m : Mem) → Allocated 3 (os_nblocks m) m (allocate_block m)
unfolding allocate_block
allocate_block_lem m = allocate_from_lem (os_nblocks m - 3) m 3 (os_nblocks m) refl

-- `free_block` marks a block of the disk from 3 on free and changes no other bit; any other number
-- is ignored.
pub free_block_map :
    (m : Mem) (b j : ℕ)
    → is_free (free_block m b) j ≡ ((leb 3 b && ltb b (os_nblocks m) && (b == j)) || is_free m j)
unfolding free_block
free_block_map m b j = ground (arith, test-set m bitmap b j)

pub free_block_outside :
    (m : Mem) (b : ℕ) (a : Ptr) → Apart (word_at bitmap b) 4 a 1 → free_block m b a ≡ m a
unfolding free_block
free_block_outside m b a h = ground (arith, set_outside m bitmap b a)

-- Neither operation writes below the bitmap, where the superblock is.
pub allocate_block_low : (m : Mem) → Same 0 2048 m (allocate_block m).1
allocate_block_low m = elim (allocate_block_lem m) [
  | inl t ↦ record { keeps = λ x lo hi. t.outside x (inr (omega arith)) }
  | inr f ↦ rw f.same (Same-refl 0 2048 m)
]

pub free_block_low : (m : Mem) (b : ℕ) → Same 0 2048 m (free_block m b)
free_block_low m b = record { keeps = λ x lo hi. free_block_outside m b x (inr (omega arith)) }

pub os_nblocks-allocate : (m : Mem) → os_nblocks (allocate_block m).1 ≡ os_nblocks m
os_nblocks-allocate m =
    load32-Same 1028 (Same-sub (omega arith) (omega arith) (allocate_block_low m))

-- Freeing the block that `allocate_block` has just returned brings the free map back.
pub free-allocate :
    (m : Mem) (j : ℕ)
    → is_free (free_block (allocate_block m).1 (allocate_block m).0) j ≡ is_free m j
free-allocate m j =
    free_block_map (allocate_block m).1 (allocate_block m).0 j ∙ (elim (allocate_block_lem m) [
      | inl t ↦
          let low = t.above in
          let high = t.below in
          let after = t.map_after j in
          rw (os_nblocks-allocate m, after)
            (elim (ℕ_discrete j (allocate_block m).0) [
              | yes e ↦ rw e (ground (arith, t.was_free))
              | no ne ↦ ground arith
            ])
      | inr f ↦ rw (f.same, f.null)
    ])

-- The free bit of a block is a matter of one word.
pub is_free-Same :
    {m m' : Mem} (j : ℕ) → Same (word_at bitmap j) 4 m m' → is_free m' j ≡ is_free m j
unfolding bitvector_test
is_free-Same j s = rw (load32-Same (word_at bitmap j) s)

-- What is behind the words of the disk's bits is not written.
pub allocate_block_high :
    (m : Mem) (a : Ptr) (n : ℕ)
    → 2048 + 4 * (os_nblocks m / 32 + 1) ≤ a
    → Same a n m (allocate_block m).1
allocate_block_high m a n h = elim (allocate_block_lem m) [
  | inl t ↦ let below = t.below in record { keeps = λ x lo hi. t.outside x (inl (omega arith)) }
  | inr f ↦ rw f.same (Same-refl a n m)
]

pub free_block_high :
    (m : Mem) (b : ℕ) (a : Ptr) (n : ℕ)
    → 2048 + 4 * (os_nblocks m / 32 + 1) ≤ a
    → Same a n m (free_block m b)
unfolding free_block
free_block_high m b a n h = elim (Bool-cases (ltb b 3 || leb (os_nblocks m) b)) [
  | inl out ↦ rw out (Same-refl a n m)
  | inr within ↦
      rw within (record { keeps = λ x lo hi. set_outside m bitmap b x (inl (ground arith)) })
]
