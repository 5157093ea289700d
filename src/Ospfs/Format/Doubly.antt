-- ===== src/Ospfs/Format/Doubly.antt =====
-- A block that `storeblk` records under the doubly indirect block is the one that the module finds.
use cs111winter.Base.{
  ◌≡◌, ◌^◌, ◌/◌, ◌%◌, ◌-◌, ℕ, ◌+◌, ◌*◌, ◌≤◌, ◌<◌, ◌≢◌, ◌∙◌, inr, refl, arith, true, false, some,
  ltb, ◌==◌,
}
use cs111winter.Ospfs.Mem.{Mem, Ptr, Apart, load32, store32}
use cs111winter.Ospfs.Layout.{oi_size, oi_ftype, oi_indirect2, block_word, ospfs_inode_blockno}
use cs111winter.Ospfs.Io.Placing.{block_place}
use cs111winter.Ospfs.Format.{Disk, storeblk, store_indirect2}
use cs111winter.Ospfs.Format.Pointers.{
  Source, old, new, pointer_block_lem, find_indirect2, sized, sized-within, sized-load,
  sized-stored,
}

-- What a word may name that is a pointer to a block of pointers: one of the blocks before, and not
-- the one that holds the inode.
pub record IsPointer (limit oi w : ℕ) : Type 0 where
  pub below : w < limit
  pub apart : Apart (1024 * w) 1024 oi 64

-- An inode in front of the blocks to come, on a disk with room for two blocks more. Its doubly
-- indirect block and the indirect block under it that word `j` names, if any, are not one block.
pub record HasRoom2 (nblocks : ℕ) (d : Disk) (oi : Ptr) (j : ℕ) : Type 0 where
  pub room : (d.nextb + 1 < nblocks) × (nblocks ≤ 8192)
  pub before : oi + 64 ≤ 1024 * d.nextb
  pub outer :
      load32 d.image (oi_indirect2 oi) ≢ 0 → IsPointer d.nextb oi (load32 d.image (oi_indirect2 oi))
  pub inner :
      load32 d.image (oi_indirect2 oi) ≢ 0
      → load32 d.image (block_word (load32 d.image (oi_indirect2 oi)) j) ≢ 0
      → IsPointer d.nextb oi (load32 d.image (block_word (load32 d.image (oi_indirect2 oi)) j))
        × (load32 d.image (block_word (load32 d.image (oi_indirect2 oi)) j)
            ≢ load32 d.image (oi_indirect2 oi))

-- What `pointer_block` leaves of that, with the doubly indirect block `b2`.
record HasOuter (nblocks : ℕ) (d d1 : Disk) (oi : Ptr) (j b2 : ℕ) : Type 0 where
  limits : (d.nextb ≤ d1.nextb) × (d1.nextb < nblocks)
  pointer : IsPointer d1.nextb oi b2
  inner :
      load32 d1.image (block_word b2 j) ≢ 0
      → IsPointer d1.nextb oi (load32 d1.image (block_word b2 j))
        × (load32 d1.image (block_word b2 j) ≢ b2)

IsPointer-grow :
    {limit limit' oi w : ℕ} → limit ≤ limit' → IsPointer limit oi w → IsPointer limit' oi w
IsPointer-grow h p = let low = p.below in record { below = omega arith; apart = p.apart }

outer_lem :
    (nblocks : ℕ) (d d1 : Disk) (oi : Ptr) (j b2 : ℕ)
    → HasRoom2 nblocks d oi j
    → j < 256
    → Source (oi_indirect2 oi) d b2 d1
    → HasOuter nblocks d d1 oi j b2
outer_lem nblocks d d1 oi j b2 r h (old ne e same) =
    let room = r.room in
    rw (same, e) (record { limits = omega arith; pointer = r.outer ne; inner = r.inner ne })
outer_lem nblocks d d1 oi j b2 r h (new e next zeros) =
    let room = r.room in
    let before = r.before in
    record {
      limits = omega arith;
      pointer = record { below = omega arith; apart = inr (omega arith) };
      inner = λ ne. absurd (ne (zeros j h));
    }

-- The indirect block under it.
inner_lem :
    (nblocks : ℕ) (d d1 d2 : Disk) (oi : Ptr) (j b2 b1 : ℕ)
    → nblocks ≤ 8192
    → oi + 64 ≤ 1024 * d.nextb
    → HasOuter nblocks d d1 oi j b2
    → Source (block_word b2 j) d1 b1 d2
    → IsPointer 8192 oi b1 × (b1 ≢ b2)
inner_lem nblocks d d1 d2 oi j b2 b1 top before o (old ne e same) =
    let limits = o.limits in
    let (p, other) = o.inner ne in rw e (IsPointer-grow (omega arith) p, other)
inner_lem nblocks d d1 d2 oi j b2 b1 top before o (new e next zeros) =
    let limits = o.limits in
    let low = o.pointer.below in
    (record { below = omega arith; apart = inr (omega arith) }, omega arith)

-- What the module finds behind the two blocks of pointers, once a block and a size are stored.
far_read :
    (m : Mem) (oi : Ptr) (bno n s off b1 b2 : ℕ)
    → IsPointer 8192 oi b2
    → IsPointer 8192 oi b1 × (b1 ≢ b2)
    → (266 ≤ n) × (n < 65802)
    → (bno < 2 ^ 32) × (s < 2 ^ 32)
    → off < s
    → off / 1024 ≡ n
    → load32 m (oi_ftype oi) ≢ 2
    → load32 m (oi_indirect2 oi) ≡ b2
    → load32 m (block_word b2 ((n - 266) / 256)) ≡ b1
    → ospfs_inode_blockno
        (store32 (store32 m (block_word b1 ((n - 266) % 256)) bno) (oi_size oi) s)
        oi
        off
      ≡ bno
far_read m oi bno n s off b1 b2 p2 (p1, other) h (word, small) within block ftype at2 at1 =
    let low2 = p2.below in
    let low1 = p1.below in
    let apart2 = p2.apart in
    let apart1 = p1.apart in
    let place2 = block_place b2 (omega arith) in
    let place1 = block_place b1 (omega arith) in
    let slot : Ptr = block_word b1 ((n - 266) % 256) in
    let m' : Mem = sized m oi slot bno s off within small in
    let keeps : (a : Ptr) → (oi + 4 ≤ a) × (a + 4 ≤ oi + 64) → load32 m' a ≡ load32 m a =
      λ a in_inode. sized-load m oi slot bno s off within small a (omega arith) (ground arith) in
    let type' = keeps (oi_ftype oi) (omega arith) in
    let not_link : (load32 m' (oi_ftype oi) == 2) ≡ false = ground arith in
    let at1' =
      sized-load m oi slot bno s off within small (block_word b2 ((n - 266) / 256)) (ground arith)
        (ground arith) in
    find_indirect2 m' oi off (sized-within m oi slot bno s off within small) not_link n b1 b2 h
      block (keeps (oi_indirect2 oi) (omega arith) ∙ at2) (at1' ∙ at1)
    ∙ sized-stored m oi slot bno s off within small (ground arith)
    ∙ omega arith

module _ (nblocks ninodes : ℕ) (d : Disk) (oi : Ptr) (bno n s off : ℕ)
    (r : HasRoom2 nblocks d oi ((n - 266) / 256)) (ftype : load32 d.image (oi_ftype oi) ≢ 2)
    (word : bno < 2 ^ 32) (small : s < 2 ^ 32) (within : off < s) (block : off / 1024 ≡ n) where
  -- When storeblk is given a block of a file that is no symbolic link, one of those behind the
  -- first 266 that a file can have, on a disk with room for two blocks more, it succeeds; and once
  -- the inode has a size that reaches the block, the module finds the disk block that was given at
  -- every offset in it. The inode lies in front of the blocks to come, and the two blocks of
  -- pointers, as far as it has them, are apart from it and from each other.
  pub storeblk-blockno_far :
      (266 ≤ n) × (n < 65802)
      → (d' : Disk) × (storeblk nblocks ninodes oi bno n d ≡ some d')
        × (ospfs_inode_blockno (store32 d'.image (oi_size oi) s) oi off ≡ bno)
  unfolding storeblk store_indirect2
  storeblk-blockno_far h =
      let j : ℕ = (n - 266) / 256 in
      let in_block : j < 256 = omega arith in
      let room = r.room in
      let before = r.before in
      let (b2, d1, ends1, has1) =
        pointer_block_lem nblocks ninodes d (oi_indirect2 oi) (omega arith) (omega arith)
          (λ ne. (r.outer ne).below) in
      let o = outer_lem nblocks d d1 oi j b2 r in_block has1.source in
      let limits = o.limits in
      let low2 = o.pointer.below in
      let apart2 = o.pointer.apart in
      let place2 = block_place b2 (omega arith) in
      let (b1, d2, ends2, has2) =
        pointer_block_lem nblocks ninodes d1 (block_word b2 j) (omega arith) (omega arith)
          (λ ne. (o.inner ne).0.below) in
      let (p1, other) = inner_lem nblocks d d1 d2 oi j b2 b1 room.1 before o has2.source in
      let p2 : IsPointer 8192 oi b2 = IsPointer-grow (omega arith) o.pointer in
      let type1 = has1.keeps (oi_ftype oi) (omega arith) (omega arith) in
      let type2 = has2.keeps (oi_ftype oi) (omega arith) (ground arith) in
      let at2 = has2.keeps (oi_indirect2 oi) (omega arith) (ground arith) in
      let near : ltb n 10 ≡ false = ground arith in
      let not_one : ltb n 266 ≡ false = ground arith in
      let not_far : ltb n 65802 ≡ true = ground arith in
      (
        record d2 { image = store32 d2.image (block_word b1 ((n - 266) % 256)) bno },
        rw (near, not_one, not_far, ends1, ends2, store_indirect2) refl,
        far_read d2.image oi bno n s off b1 b2 p2 (p1, other) h (word, small) within block
            (omega (arith, type1, type2, ftype)) (at2 ∙ has1.named) has2.named,
      )
