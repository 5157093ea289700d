-- ===== src/Ospfs/Alloc.antt =====
-- lab3/ospfsmod.c, FREE-BLOCK BITMAP OPERATIONS.
use cs111winter.Base.{ℕ, zero, suc, ◌+◌, ◌-◌, Bool, ◌||◌, ltb, leb, if◌then◌else◌}
pub mod Laws
use cs111winter.Ospfs.Mem.{Mem, Ptr}
use cs111winter.Ospfs.Bitvector.{bitvector_set, bitvector_clear, bitvector_test}
use cs111winter.Ospfs.Layout.{freemap_blk, os_nblocks}

-- `void *bitmap = ospfs_block(OSPFS_FREEMAP_BLK)`
abbrev pub bitmap : Ptr
bitmap = 2048

abbrev pub is_free : Mem → ℕ → Bool
is_free m b = bitvector_test m bitmap b

-- The loop of `allocate_block` from block `cur` on, with `k` blocks left.
unfoldable pub allocate_from : ℕ → Mem → ℕ → ℕ × Mem
allocate_from zero m cur = (0, m)
allocate_from (suc k) m cur =
    let rest = allocate_from k m (cur + 1) in
    if is_free m cur then (cur, bitvector_clear m bitmap cur) else rest

-- The block number is 0 if the disk is full.
unfoldable pub allocate_block : Mem → ℕ × Mem
unfolding allocate_from
allocate_block m = allocate_from (os_nblocks m - (freemap_blk + 1)) m (freemap_blk + 1)

-- The `if` in front of the last call has an empty body, so the bit is set whatever it was.
unfoldable pub free_block : Mem → ℕ → Mem
free_block m blockno =
    if ltb blockno 3 || leb (os_nblocks m) blockno then m else bitvector_set m bitmap blockno
