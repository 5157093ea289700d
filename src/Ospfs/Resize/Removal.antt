-- ===== src/Ospfs/Resize/Removal.antt =====
-- One round of shrinking a file of direct blocks, and the removal of a block just added.
use cs111winter.Base.{
  minus_one, ℕ, ◌+◌, ◌-◌, ◌%◌, ◌^◌, ◌≤◌, ◌<◌, ◌≡◌, ◌≢◌, inr, refl, ◌∙◌, true, false, ◌||◌, arith,
  ◌==◌,
}
use cs111winter.Ospfs.Mem.{Mem, Ptr, Same, store32, load32-store32_ne, load32-Same, Same-trans}
use cs111winter.Ospfs.Layout.{os_nblocks, oi_direct, ospfs_size2nblocks}
use cs111winter.Ospfs.Alloc.{is_free, free_block}
use cs111winter.Ospfs.Alloc.Laws.{free_block_high, free_block_low, free_block_map}
use cs111winter.Ospfs.Index.{indir_index, direct_index}
use cs111winter.Ospfs.Resize.{ok, shrunk, remove_block}
use cs111winter.Ospfs.Resize.Direct.{
  IsPlaced, size_of, slot_of, edited, edited-size, edited-slot, edited-others, edited-Same,
  edited-map,
}

-- The file at `oi` had `n + 1` direct blocks and has lost the last one, `b`.
pub record Removed (oi n : ℕ) (m : Mem) (b : ℕ) (m' : Mem) : Type 0 where
  pub size : size_of oi m' ≡ (size_of oi m + 2 ^ 32 - 1024) % 2 ^ 32
  pub slot : slot_of oi m' n ≡ 0
  pub others : (i : ℕ) → i ≢ n → slot_of oi m' i ≡ slot_of oi m i
  pub map_after : (j : ℕ) → j < os_nblocks m → is_free m' j ≡ ((b == j) || is_free m j)
  pub low : Same 0 2048 m m'

-- A file of a size from 1 on whose sum with 1023 does not wrap has one block less after 1024 is
-- taken from its size: where the subtraction
-- wraps, below 1024 bytes, the wrap in `ospfs_size2nblocks` makes up for it.
pub blocks-shrunk :
    (size : ℕ)
    → 0 < size
    → size + 1023 < 2 ^ 32
    → ospfs_size2nblocks ((size + 2 ^ 32 - 1024) % 2 ^ 32) + 1 ≡ ospfs_size2nblocks size
unfolding ospfs_size2nblocks
blocks-shrunk size h k = omega arith

blocks_of-direct :
    (size : ℕ)
    → 0 < size
    → size ≤ 10240
    → (ospfs_size2nblocks size ≢ 0) × (ospfs_size2nblocks size - 1 < 10)
unfolding ospfs_size2nblocks
blocks_of-direct size h k = omega arith

module _ (oi : Ptr) (m : Mem) (placed : IsPlaced oi m) where
  module _ (n b : ℕ) where
    freed-size : size_of oi (free_block m b) ≡ size_of oi m
    freed-size = load32-Same oi (free_block_high m b oi 4 placed)

    freed-slot : (i : ℕ) → slot_of oi (free_block m b) i ≡ slot_of oi m i
    freed-slot i =
        load32-Same (oi_direct oi i) (free_block_high m b (oi_direct oi i) 4 (omega arith))

    unlinked-Removed :
        3 ≤ b
        → b < os_nblocks m
        → Removed oi n m b
            (edited oi n 0 ((size_of oi m + 2 ^ 32 - 1024) % 2 ^ 32) (free_block m b))
    unlinked-Removed lo hi =
        let s : ℕ = (size_of oi m + 2 ^ 32 - 1024) % 2 ^ 32 in
        let m1 : Mem = free_block m b in
        record {
          size = omega (arith, edited-size oi n 0 s m1);
          slot = edited-slot oi n 0 s m1;
          others = λ i ne. edited-others oi n 0 s m1 i ne ∙ freed-slot i;
          map_after = λ j h.
              edited-map oi n 0 s m1 j (os_nblocks m) placed h
              ∙ ground (arith, free_block_map m b j);
          low = Same-trans (free_block_low m b) (edited-Same oi n 0 s m1 0 2048 (omega arith));
        }

    shrunk-edited :
        n < 10
        → shrunk oi (store32 (free_block m b) (oi_direct oi n) 0)
          ≡ (ok, edited oi n 0 ((size_of oi m + 2 ^ 32 - 1024) % 2 ^ 32) (free_block m b))
    unfolding shrunk
    shrunk-edited few =
        rw
          (load32-store32_ne (free_block m b) (oi_direct oi n) 0 oi (inr (omega arith)), freed-size)

  module _ (some_bytes : 0 < size_of oi m) (small : size_of oi m ≤ 10240) where
    abbrev last : ℕ
    last = ospfs_size2nblocks (size_of oi m) - 1

    last_tests :
        ((ospfs_size2nblocks (size_of oi m) == 0) ≡ false)
        × ((indir_index last == minus_one) ≡ true)
        × (direct_index last ≡ last)
    unfolding indir_index direct_index
    last_tests =
        let h = blocks_of-direct (size_of oi m) some_bytes small in
        (ground arith, ground arith, ground arith)

    remove_block_eq : remove_block oi m ≡ (
      ok,
      edited oi last 0 ((size_of oi m + 2 ^ 32 - 1024) % 2 ^ 32) (free_block m (slot_of oi m last)),
    )
    unfolding remove_block
    remove_block_eq =
        let t = last_tests in
        let h = blocks_of-direct (size_of oi m) some_bytes small in
        rw (t.0, t.1, t.2) (shrunk-edited last (slot_of oi m last) h.1)

    -- For an inode behind the bitmap, with a size from 1 to 10240 and a block of the disk in its
    -- last slot, remove_block succeeds: the file has one block less, its last slot is 0, its other
    -- slots stay, this block alone joins the free map, and the superblock is as it was.
    pub remove_block_direct :
        3 ≤ slot_of oi m last
        → slot_of oi m last < os_nblocks m
        → ((remove_block oi m).0 ≡ ok) × Removed oi last m (slot_of oi m last) (remove_block oi m).1
    remove_block_direct lo hi =
        rw remove_block_eq (refl, unlinked-Removed last (slot_of oi m last) lo hi)
