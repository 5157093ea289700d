-- ===== src/Ospfs/Resize/Direct.antt =====
-- One round of growing or shrinking a file of direct blocks: what `add_block` and `remove_block`
-- change in the inode and in the free map.
use cs111winter.Ospfs.Index.{indir_index, direct_index}
use cs111winter.Base.{
  minus_one, refl, leb, ap, ℕ, ◌+◌, ◌*◌, ◌/◌, ◌%◌, ◌^◌, ◌≤◌, ◌<◌, ◌≡◌, ◌≢◌, ◌⊎◌, inl, inr, ◌∙◌,
  true, false, not, ◌&&◌, arith, ◌==◌,
}
use cs111winter.Ospfs.Mem.{
  Mem, Ptr, Same, load32, store32, load32-store32, load32-store32_ne, load32-Same, Same-trans,
  Same-store32,
}
use cs111winter.Ospfs.Bitvector.{word_at}
use cs111winter.Ospfs.Layout.{ospfs_size2nblocks, os_nblocks, oi_size, oi_direct}
use cs111winter.Ospfs.Alloc.{bitmap, is_free, allocate_block}
use cs111winter.Ospfs.Alloc.Laws.{
  allocate_block_lem, Taken, allocate_block_low, allocate_block_high, is_free-Same,
}
use cs111winter.Ospfs.Resize.{direct_index, indir_index, grown, add_block, enospc, Status, ok, err}

-- The inode at `oi` lies behind the bitmap.
abbrev pub IsPlaced : Ptr → Mem → Type 0
IsPlaced oi m = 2048 + 4 * (os_nblocks m / 32 + 1) ≤ oi

abbrev pub size_of : Ptr → Mem → ℕ
size_of oi m = load32 m (oi_size oi)

abbrev pub slot_of : Ptr → Mem → ℕ → ℕ
slot_of oi m i = load32 m (oi_direct oi i)

pub blocks-lt : (size : ℕ) → size ≤ 9216 → ospfs_size2nblocks size < 10
unfolding ospfs_size2nblocks
blocks-lt size h = omega arith

-- A write of `v` to direct slot `n` and of `s` to the size, as both functions end.
module _ (oi n v s : ℕ) (m : Mem) where
  abbrev pub edited : Mem
  edited = store32 (store32 m (oi_direct oi n) v) (oi_size oi) s

  pub edited-size : size_of oi edited ≡ s % 2 ^ 32
  edited-size = load32-store32 (store32 m (oi_direct oi n) v) oi s

  pub edited-slot : slot_of oi edited n ≡ v % 2 ^ 32
  edited-slot =
      load32-store32_ne (store32 m (oi_direct oi n) v) oi s (oi_direct oi n) (inl (omega arith))
      ∙ load32-store32 m (oi_direct oi n) v

  pub edited-others : (i : ℕ) → i ≢ n → slot_of oi edited i ≡ slot_of oi m i
  edited-others i ne =
      load32-store32_ne (store32 m (oi_direct oi n) v) oi s (oi_direct oi i) (inl (omega arith))
      ∙ load32-store32_ne m (oi_direct oi n) v (oi_direct oi i) (omega arith)

  pub edited-Same : (a : Ptr) (k : ℕ) → a + k ≤ oi → Same a k m edited
  edited-Same a k h =
      Same-trans (Same-store32 a k m (oi_direct oi n) v (inr (omega arith)))
        (Same-store32 a k (store32 m (oi_direct oi n) v) oi s (inr h))

  pub edited-map :
      (j nb : ℕ) → 2048 + 4 * (nb / 32 + 1) ≤ oi → j < nb → is_free edited j ≡ is_free m j
  edited-map j nb placed h = is_free-Same j (edited-Same (word_at bitmap j) 4 (omega arith))

-- The file at `oi` had `n` direct blocks and has got block `b` as one more.
pub record Added (oi n : ℕ) (m : Mem) (b : ℕ) (m' : Mem) : Type 0 where
  pub above : 3 ≤ b
  pub below : b < os_nblocks m
  pub was_free : is_free m b ≡ true
  pub size : size_of oi m' ≡ size_of oi m + 1024
  pub slot : slot_of oi m' n ≡ b
  pub others : (i : ℕ) → i ≢ n → slot_of oi m' i ≡ slot_of oi m i
  pub map_after : (j : ℕ) → j < os_nblocks m → is_free m' j ≡ (not (b == j) && is_free m j)
  pub low : Same 0 2048 m m'

-- The two outcomes of `add_block` for such a file.
abbrev pub AddOutcome : Ptr → ℕ → Mem → Status × Mem → Type 0
AddOutcome oi n m r =
    ((r.0 ≡ err enospc) × (r.1 ≡ m) × ((j : ℕ) → 3 ≤ j → j < os_nblocks m → is_free m j ≡ false))
    ⊎ ((r.0 ≡ ok) × Added oi n m (allocate_block m).0 r.1)

module _ (oi : Ptr) (m : Mem) (placed : IsPlaced oi m) (fits : os_nblocks m ≤ 2 ^ 22) where
  module _ (n : ℕ) (few : n < 10) where
    allocated-size : size_of oi (allocate_block m).1 ≡ size_of oi m
    allocated-size = load32-Same oi (allocate_block_high m oi 4 placed)

    allocated-slot : (i : ℕ) → slot_of oi (allocate_block m).1 i ≡ slot_of oi m i
    allocated-slot i =
        load32-Same (oi_direct oi i) (allocate_block_high m (oi_direct oi i) 4 (omega arith))

    linked-Added :
        size_of oi m ≤ 9216
        → Taken 3 (os_nblocks m) m (allocate_block m).0 (allocate_block m).1
        → Added oi n m
            (allocate_block m).0
            (edited oi n (allocate_block m).0 (size_of oi m + 1024) (allocate_block m).1)
    linked-Added small t =
        let b : ℕ = (allocate_block m).0 in
        let s : ℕ = size_of oi m + 1024 in
        let m1 : Mem = (allocate_block m).1 in
        let below = t.below in
        record {
          above = t.above;
          below = t.below;
          was_free = t.was_free;
          size = omega (arith, edited-size oi n b s m1);
          slot = omega (arith, edited-slot oi n b s m1);
          others = λ i ne. edited-others oi n b s m1 i ne ∙ allocated-slot i;
          map_after = λ j h. edited-map oi n b s m1 j (os_nblocks m) placed h ∙ t.map_after j;
          low = Same-trans (allocate_block_low m) (edited-Same oi n b s m1 0 2048 (omega arith));
        }

    -- The tests of `add_block` for a file of fewer than ten blocks.
    direct_tests :
        (leb 65802 n ≡ false) × ((indir_index n == minus_one) ≡ true) × (direct_index n ≡ n)
    unfolding indir_index direct_index
    direct_tests = (ground arith, ground arith, ground arith)

    grown-edited :
        (b : ℕ)
        → size_of oi m ≤ 9216
        → grown oi (store32 (allocate_block m).1 (oi_direct oi n) b)
          ≡ (ok, edited oi n b (size_of oi m + 1024) (allocate_block m).1)
    unfolding grown
    grown-edited b small =
        rw
          (
            load32-store32_ne (allocate_block m).1 (oi_direct oi n) b oi (inr (omega arith)),
            allocated-size,
          )
          (ap (λ (x : ℕ). (ok, edited oi n b x (allocate_block m).1)) (omega arith))

  module _ (small : size_of oi m ≤ 9216) where
    abbrev n : ℕ
    n = ospfs_size2nblocks (size_of oi m)

    few : n < 10
    few = blocks-lt (size_of oi m) small

    add_block-full : (allocate_block m).0 ≡ 0 → add_block oi m ≡ (err enospc, (allocate_block m).1)
    unfolding add_block
    add_block-full e = let t = direct_tests n few in rw (t.0, e)

    add_block-taken :
        ((allocate_block m).0 == 0) ≡ false
        → add_block oi m
          ≡ (ok, edited oi n (allocate_block m).0 (size_of oi m + 1024) (allocate_block m).1)
    unfolding add_block
    add_block-taken e =
        let t = direct_tests n few in
        rw (t.0, e, t.1, t.2) (grown-edited n few (allocate_block m).0 small)

    pub add_block_direct : AddOutcome oi n m (add_block oi m)
    add_block_direct = elim (allocate_block_lem m) [
      | inl t ↦
          let above = t.above in
          rw (add_block-taken (ground arith)) (inr (refl, linked-Added n few small t))
      | inr f ↦ rw (add_block-full f.null) (inl (refl, f.same, f.none_free))
    ]
