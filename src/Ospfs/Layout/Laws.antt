-- ===== src/Ospfs/Layout/Laws.antt =====
-- Sizes, and where the parts of a well-formed image lie.
use cs111winter.Base.{ℕ, ◌+◌, ◌*◌, ◌/◌, ◌^◌, ◌≤◌, ◌<◌, ◌≡◌, some, arith}
use cs111winter.Ospfs.Mem.{Mem}
use cs111winter.Ospfs.Layout.{
  blksize, os_nblocks, os_ninodes, os_firstinob, ospfs_size2nblocks, ospfs_block, ospfs_inode,
}

-- If size + 1023 does not wrap, `ospfs_size2nblocks` is the ceiling of size / 1024: so many blocks
-- hold the file, and one less does not.
pub size2nblocks_ceil :
    (size : ℕ)
    → size + 1023 < 2 ^ 32
    → (size ≤ ospfs_size2nblocks size * blksize)
      × (ospfs_size2nblocks size * blksize < size + blksize)
unfolding ospfs_size2nblocks
size2nblocks_ceil size h = omega arith

-- The last 1023 sizes wrap: they are taken for files with no block.
pub size2nblocks_wraps :
    (size : ℕ) → 2 ^ 32 ≤ size + 1023 → size < 2 ^ 32 → ospfs_size2nblocks size ≡ 0
unfolding ospfs_size2nblocks
size2nblocks_wraps size h k = omega arith

-- A further block is a further 1024 bytes.
pub size2nblocks-add :
    (size : ℕ)
    → size + 2047 < 2 ^ 32
    → ospfs_size2nblocks (size + 1024) ≡ ospfs_size2nblocks size + 1
unfolding ospfs_size2nblocks
size2nblocks-add size h = omega arith

pub block_eq : (b : ℕ) → b < 2 ^ 22 → ospfs_block b ≡ b * 1024
unfolding ospfs_block
block_eq b h = omega arith

-- What the format asks of an image: the number of blocks fits the addresses, the bitmap lies in
-- front of the inodes and has a bit for each block, and the inodes end on the disk. `first_data`
-- is the first block behind the inodes.
abbrev pub first_data : Mem → ℕ
first_data m = os_firstinob m + (os_ninodes m + 15) / 16

pub record IsImage (m : Mem) : Type 0 where
  pub fits : os_nblocks m ≤ 2 ^ 22
  pub map_fits : 2048 + 4 * (os_nblocks m / 32 + 1) ≤ os_firstinob m * 1024
  pub data_fits : first_data m ≤ os_nblocks m

-- In a well-formed image every inode number below `os_ninodes` has its inode, 64 bytes behind the
-- one before, in the blocks from `os_firstinob` on.
pub inode_at :
    (m : Mem) (ino : ℕ)
    → IsImage m
    → ino < os_ninodes m
    → ospfs_inode m ino ≡ some (os_firstinob m * 1024 + 64 * ino)
unfolding ospfs_inode
inode_at m ino image h = ground (arith, block_eq (os_firstinob m))
