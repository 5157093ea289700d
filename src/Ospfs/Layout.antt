-- ===== src/Ospfs/Layout.antt =====
-- lab3/ospfs.h and the helper functions of lab3/ospfsmod.c: the constants of the format, the
-- superblock, the fields of an inode, and the way from a file offset to a block of the disk.
use cs111winter.Base.{
  ℕ, ◌+◌, ◌-◌, ◌*◌, ◌/◌, ◌%◌, ◌^◌, ◌||◌, Option, none, some, ◌==◌, leb, if◌then◌else◌,
}
use cs111winter.Ospfs.Mem.{Mem, Ptr, load32}
pub mod Laws

abbrev pub blksize : ℕ
blksize = 1024

abbrev pub freemap_blk : ℕ
freemap_blk = 2

abbrev pub inodesize : ℕ
inodesize = 64

abbrev pub ndirect : ℕ
ndirect = 10

abbrev pub nindirect : ℕ
nindirect = blksize / 4

abbrev pub maxfileblks : ℕ
maxfileblks = ndirect + nindirect + nindirect * nindirect

abbrev pub ftype_reg : ℕ
ftype_reg = 0

abbrev pub ftype_dir : ℕ
ftype_dir = 1

abbrev pub ftype_symlink : ℕ
ftype_symlink = 2

abbrev pub root_ino : ℕ
root_ino = 1

-- `ospfs_super_t`: the superblock lies at byte 1024 of the image.
abbrev pub super : Ptr
super = blksize

abbrev pub os_nblocks : Mem → ℕ
os_nblocks m = load32 m (super + 4)

abbrev pub os_ninodes : Mem → ℕ
os_ninodes m = load32 m (super + 8)

abbrev pub os_firstinob : Mem → ℕ
os_firstinob m = load32 m (super + 12)

-- `ospfs_inode_t`: where each field lies in the 64 bytes of an inode at `oi`.
abbrev pub oi_size : Ptr → Ptr
oi_size oi = oi

abbrev pub oi_ftype : Ptr → Ptr
oi_ftype oi = oi + 4

abbrev pub oi_nlink : Ptr → Ptr
oi_nlink oi = oi + 8

abbrev pub oi_mode : Ptr → Ptr
oi_mode oi = oi + 12

abbrev pub oi_direct : Ptr → ℕ → Ptr
oi_direct oi i = oi + 16 + 4 * i

abbrev pub oi_indirect : Ptr → Ptr
oi_indirect oi = oi + 56

abbrev pub oi_indirect2 : Ptr → Ptr
oi_indirect2 oi = oi + 60

-- `ospfs_size2nblocks`: the sum wraps in `uint32_t`.
unfoldable pub ospfs_size2nblocks : ℕ → ℕ
ospfs_size2nblocks size = (size + blksize - 1) % 2 ^ 32 / blksize

-- `ospfs_block`: the product wraps in `uint32_t`.
unfoldable pub ospfs_block : ℕ → Ptr
ospfs_block blockno = blockno * blksize % 2 ^ 32

-- `ospfs_inode`: `none` is the null pointer.
unfoldable pub ospfs_inode : Mem → ℕ → Option Ptr
unfolding ospfs_block
ospfs_inode m ino =
    if leb (os_ninodes m) ino then none else some (ospfs_block (os_firstinob m) + inodesize * ino)

-- The word `i` of the block `b`.
abbrev pub block_word : ℕ → ℕ → Ptr
block_word b i = ospfs_block b + 4 * i

unfoldable pub ospfs_inode_blockno : Mem → Ptr → ℕ → ℕ
ospfs_inode_blockno m oi offset =
    let blockno = offset / blksize in
    if leb (load32 m (oi_size oi)) offset || (load32 m (oi_ftype oi) == ftype_symlink)
    then 0
    else if leb (ndirect + nindirect) blockno
    then (let blockoff = blockno - (ndirect + nindirect) in
        let indirect2_block = load32 m (oi_indirect2 oi) in
        let indirect_block = load32 m (block_word indirect2_block (blockoff / nindirect)) in
        load32 m (block_word indirect_block (blockoff % nindirect)))
    else if leb ndirect blockno
    then load32 m (block_word (load32 m (oi_indirect oi)) (blockno - ndirect))
    else load32 m (oi_direct oi blockno)

unfoldable pub ospfs_inode_data : Mem → Ptr → ℕ → Ptr
unfolding ospfs_inode_blockno ospfs_block
ospfs_inode_data m oi offset = ospfs_block (ospfs_inode_blockno m oi offset) + offset % blksize
