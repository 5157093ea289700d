-- ===== src/Ospfs/Index/Laws.antt =====
-- The index functions against the layout that `ospfs_inode_blockno` reads by.
use cs111winter.Base.{
  minus_one, ℕ, ◌+◌, ◌-◌, ◌/◌, ◌%◌, ◌^◌, ◌≤◌, ◌<◌, ◌≡◌, ◌↔◌, arith, ◌==◌, ltb, if◌then◌else◌,
}
use cs111winter.Ospfs.Index.{indir2_index, indir_index, direct_index}

-- The layout of lab3/ospfs.h: ten direct blocks, 256 under the indirect block, 256 under each of
-- the blocks that the doubly indirect block names.
pub data Slot : Type 0 where
  direct : ℕ → Slot
  indirect : ℕ → Slot
  indirect2 : ℕ → ℕ → Slot

-- Where `ospfs_inode_blockno` looks for block `b`.
abbrev pub slot : ℕ → Slot
slot b =
    if ltb b 10
    then direct b
    else if ltb b 266
    then indirect (b - 10)
    else indirect2 ((b - 266) / 256) ((b - 266) % 256)

-- Where `add_block` and `remove_block` record block `b`, by the cases of their `switch`.
abbrev pub recorded : ℕ → Slot
recorded b =
    if indir_index b == minus_one
    then direct (direct_index b)
    else if indir_index b == 0
    then indirect (direct_index b)
    else indirect2 (indir_index b) (direct_index b)

-- For the direct blocks and those under the indirect block, up to block 265, the slot that the index
-- functions lead to is the one that `ospfs_inode_blockno` reads. The wrap of the last
-- line of `direct_index` is what makes it right for the blocks 256 to 265.
pub recorded-slot : (b : ℕ) → b < 266 → recorded b ≡ slot b
unfolding indir_index direct_index
recorded-slot b h = ground arith

-- From block 522 on the slot that the index functions lead to is again the one that
-- `ospfs_inode_blockno` reads.
pub recorded-slot_far : (b : ℕ) → 522 ≤ b → b < 2 ^ 32 → recorded b ≡ slot b
unfolding indir_index direct_index
recorded-slot_far b h k = ground arith

-- For a block b from 10 to 265, block b + 256 is recorded in the slot of block b.
pub recorded_collides : (b : ℕ) → 10 ≤ b → b < 266 → recorded (b + 256) ≡ recorded b
unfolding indir_index direct_index
recorded_collides b h k = ground arith

-- `indir2_index` says -1 for block 266, which is under the doubly indirect block, and is right
-- for every other block.
pub indir2_index_lem : (b : ℕ) → (indir2_index b ≡ 0) ↔ (266 < b)
unfolding indir2_index
indir2_index_lem b = ground arith
