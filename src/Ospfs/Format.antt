-- ===== src/Ospfs/Format.antt =====
-- lab3/ospfsformat.c: how it lays out an image. Here `getblk` gives the bytes of a block of the image
-- itself; the cache is in Format/Cache. `none` is the end of the program with an error. The words of
-- the image are little-endian, so that `swizzle` (Format/Swizzle) has nothing to do.
use cs111winter.Base.{
  ℕ, zero, suc, ◌+◌, ◌-◌, ◌*◌, ◌/◌, ◌%◌, ◌^◌, ◌&&◌, not, Option, none, some, ◌==◌, ltb, leb,
  if◌then◌else◌, bit_and,
}
pub mod Marking
pub mod Pointers
pub mod Doubly
pub mod Storing
pub mod Entries
pub mod Files
pub mod Tree
pub mod Swizzle
pub mod Cache
mod Tests
use cs111winter.Ospfs.Mem.{Mem, Ptr, load32, store32}
use cs111winter.Ospfs.Layout.{
  blksize, freemap_blk, inodesize, ndirect, nindirect, maxfileblks, super, ospfs_block, block_word,
  oi_direct, oi_indirect, oi_indirect2,
}

abbrev pub blkbitsize : ℕ
blkbitsize = blksize * 8

abbrev pub blkinodes : ℕ
blkinodes = blksize / inodesize

abbrev pub magic : ℕ
magic = 0x013101AE

-- The image with `nextb`, the next block that has not been used, and `nextinode`.
pub record Disk : Type 0 where
  pub image : Mem
  pub nextb : ℕ
  pub nextinode : ℕ

-- All bytes of a block become `v`.
abbrev pub fill_block : ℕ → (v : ℕ) → Mem → Mem
fill_block bno v m a =
    if leb (ospfs_block bno) a && ltb a (ospfs_block bno + blksize) then v else m a

-- The words and the bytes of a block are read and written in the image.
abbrev pub put_word : Ptr → ℕ → Disk → Disk
put_word a v d = record d { image = store32 d.image a v }

-- The `nblocks` and `ninodes` of the command line.
module _ (nblocks ninodes : ℕ) where
  abbrev pub nbitblock : ℕ
  nbitblock = (nblocks + blkbitsize - 1) / blkbitsize

  abbrev pub ninodeblock : ℕ
  ninodeblock = (ninodes + blkinodes - 1) / blkinodes

  abbrev pub firstinob : ℕ
  firstinob = freemap_blk + nbitblock

  -- `getblk(bno, 0, …)`, and `getblk(bno, 1, …)` where `v` is 0.
  abbrev pub getblk : ℕ → Disk → Option Disk
  getblk bno d = if leb nblocks bno then none else some d

  abbrev pub getblk_filled : ℕ → (v : ℕ) → Disk → Option Disk
  getblk_filled bno v d =
      if leb nblocks bno then none else some (record d { image = fill_block bno v d.image })

  -- `getblk(nextb++, 1, …)`
  abbrev pub new_block : Disk → Option Disk
  new_block d = getblk_filled d.nextb 0 (record d { nextb = d.nextb + 1 })

  -- The block that the word at `slot` names, which is made if the word is 0.
  unfoldable pub pointer_block : Ptr → Disk → Option (ℕ × Disk)
  pointer_block slot d =
      if load32 d.image slot == 0
      then (elim (new_block d) [ none ↦ none | some d' ↦ some (d.nextb, put_word slot d.nextb d') ])
      else (elim (getblk (load32 d.image slot) d) [
        | none ↦ none
        | some d' ↦ some (load32 d.image slot, d')
      ])

  abbrev pub put_in : (i bno : ℕ) → Option (ℕ × Disk) → Option Disk
  put_in i bno o = elim o [ none ↦ none | some (b, d) ↦ some (put_word (block_word b i) bno d) ]

  unfoldable pub store_indirect : Ptr → (bno i : ℕ) → Disk → Option Disk
  unfolding pointer_block
  store_indirect oi bno i d = put_in i bno (pointer_block (oi_indirect oi) d)

  unfoldable pub store_indirect2 : Ptr → (bno i : ℕ) → Disk → Option Disk
  unfolding pointer_block
  store_indirect2 oi bno i d = elim (pointer_block (oi_indirect2 oi) d) [
    | none ↦ none
    | some (b, d') ↦ put_in (i % nindirect) bno (pointer_block (block_word b (i / nindirect)) d')
  ]

  -- Block `nblk` of the file with the inode at `oi` is block `bno` of the disk.
  unfoldable pub storeblk : Ptr → (bno nblk : ℕ) → Disk → Option Disk
  unfolding store_indirect store_indirect2
  storeblk oi bno nblk d =
      if ltb nblk ndirect
      then some (put_word (oi_direct oi nblk) bno d)
      else if ltb nblk (ndirect + nindirect)
      then store_indirect oi bno (nblk - ndirect) d
      else if ltb nblk maxfileblks
      then store_indirect2 oi bno (nblk - (ndirect + nindirect)) d
      else none

  -- The number of the inode and where it lies.
  unfoldable pub allocinode : Disk → Option (ℕ × (Ptr × Disk))
  allocinode d =
      let ino = d.nextinode in
      if ino == ninodes
      then none
      else (elim (getblk (firstinob + ino / blkinodes) (record d { nextinode = ino + 1 })) [
        | none ↦ none
        | some d' ↦
            some
              (ino, (ospfs_block (firstinob + ino / blkinodes) + inodesize * (ino % blkinodes), d'))
      ])

  -- The `k` blocks from `bno` on.
  unfoldable pub fill_blocks : ℕ → (bno v : ℕ) → Disk → Option Disk
  fill_blocks zero bno v d = some d
  fill_blocks (suc k) bno v d = elim (getblk_filled bno v d) [
    | none ↦ none
    | some d' ↦ fill_blocks k (bno + 1) v d'
  ]

  -- The file that is the disk is all zeros at first.
  unfoldable pub opendisk : Option Disk
  unfolding fill_blocks
  opendisk =
      let new : Disk = record { image = λ a. 0; nextb = firstinob + ninodeblock; nextinode = 0 } in
      elim (fill_blocks nbitblock freemap_blk 0xFF new) [
        | none ↦ none
        | some d ↦ fill_blocks ninodeblock firstinob 0 d
      ]

  -- Bit `i` of block `bno` becomes 0.
  abbrev pub clear_bit : (bno i : ℕ) → Disk → Disk
  clear_bit bno i d =
      let a = block_word bno (i / 32) in
      put_word a (bit_and (load32 d.image a) (2 ^ 32 - 1 - 2 ^ (i % 32))) d

  -- The first loop of `finishfs`, for `k` blocks from `i` on, and its second, for `k` bits.
  unfoldable pub mark_blocks : ℕ → ℕ → Disk → Option Disk
  mark_blocks zero i d = some d
  mark_blocks (suc k) i d = elim (getblk (freemap_blk + i / blkbitsize) d) [
    | none ↦ none
    | some d' ↦ mark_blocks k (i + 1) (clear_bit (freemap_blk + i / blkbitsize) (i % blkbitsize) d')
  ]

  unfoldable pub mark_rest : ℕ → ℕ → Disk → Disk
  mark_rest zero i d = d
  mark_rest (suc k) i d = mark_rest k (i + 1) (clear_bit (freemap_blk + nbitblock - 1) i d)

  unfoldable pub mark_past_end : Disk → Option Disk
  unfolding mark_rest
  mark_past_end d =
      if nblocks == nbitblock * blkbitsize
      then some d
      else (elim (getblk (freemap_blk + nbitblock - 1) d) [
        | none ↦ none
        | some d' ↦ some (mark_rest (blkbitsize - nblocks % blkbitsize) (nblocks % blkbitsize) d')
      ])

  abbrev pub put_super : Disk → Disk
  put_super d =
      put_word (super + 12) firstinob
        (put_word (super + 8) ninodes (put_word (super + 4) nblocks (put_word super magic d)))

  unfoldable pub finishfs : Disk → Option Disk
  unfolding mark_blocks mark_past_end
  finishfs d = elim (mark_blocks d.nextb 0 d) [
    | none ↦ none
    | some d1 ↦ elim (mark_past_end d1) [
      | none ↦ none
      | some d2 ↦ elim (getblk_filled 1 0 d2) [ none ↦ none | some d3 ↦ some (put_super d3) ]
    ]
  ]
