-- ===== src/Ospfs/Format/Storing.antt =====
-- A block that `storeblk` records is the one that the module finds.
use cs111winter.Base.{
  ℕ, ◌+◌, ◌-◌, ◌*◌, ◌/◌, ◌^◌, ◌≤◌, ◌<◌, ◌≡◌, ◌≢◌, inl, inr, refl, ◌∙◌, true, false, some, arith,
  ◌==◌, ltb, Bool-cases,
}
use cs111winter.Ospfs.Mem.{Mem, Ptr, Apart, load32, store32}
use cs111winter.Ospfs.Layout.{
  oi_size, oi_ftype, oi_direct, oi_indirect, block_word, ospfs_inode_blockno,
}
use cs111winter.Ospfs.Io.Placing.{block_place}
use cs111winter.Ospfs.Format.{Disk, storeblk, store_indirect}
use cs111winter.Ospfs.Format.Pointers.{
  old, new, pointer_block_lem, find_direct, find_indirect, sized, sized-within, sized-load,
  sized-stored,
}

-- An inode in front of the blocks to come, whose indirect block, if any, is one of the blocks before
-- and does not hold the inode itself; on a disk with room for one block more.
pub record HasRoom (nblocks : ℕ) (d : Disk) (oi : Ptr) : Type 0 where
  pub room : (d.nextb < nblocks) × (nblocks ≤ 8192)
  pub before : oi + 64 ≤ 1024 * d.nextb
  pub indirect :
      load32 d.image (oi_indirect oi) ≢ 0
      → (load32 d.image (oi_indirect oi) < d.nextb)
        × Apart (1024 * load32 d.image (oi_indirect oi)) 1024 oi 64

module _ (nblocks ninodes : ℕ) (d : Disk) (oi : Ptr) (bno n s off : ℕ) (r : HasRoom nblocks d oi)
    (ftype : load32 d.image (oi_ftype oi) ≢ 2) (word : bno < 2 ^ 32) (small : s < 2 ^ 32)
    (within : off < s) (block : off / 1024 ≡ n) where
  abbrev Found : Type 0
  Found =
      (d' : Disk) × (storeblk nblocks ninodes oi bno n d ≡ some d')
      × (ospfs_inode_blockno (store32 d'.image (oi_size oi) s) oi off ≡ bno)

  store_direct_lem : n < 10 → Found
  unfolding storeblk
  store_direct_lem h =
      let slot : Ptr = oi_direct oi n in
      let near : ltb n 10 ≡ true = ground arith in
      let m' : Mem = sized d.image oi slot bno s off within small in
      let type' : load32 m' (oi_ftype oi) ≡ load32 d.image (oi_ftype oi) =
        sized-load d.image oi slot bno s off within small (oi_ftype oi) (omega arith)
          (omega arith) in
      let not_link : (load32 m' (oi_ftype oi) == 2) ≡ false = ground arith in
      (
        record d { image = store32 d.image slot bno },
        rw near refl,
        find_direct m' oi off (sized-within d.image oi slot bno s off within small) not_link n h
              block
            ∙ sized-stored d.image oi slot bno s off within small (omega arith)
            ∙ omega arith,
      )

  store_indirect_lem : (10 ≤ n) × (n < 266) → Found
  unfolding storeblk store_indirect
  store_indirect_lem h =
      let room = r.room in
      let before = r.before in
      let (b, d1, ends, has) =
        pointer_block_lem nblocks ninodes d (oi_indirect oi) room (omega arith)
          (λ ne. (r.indirect ne).0) in
      let (low, apart) : (b < 8192) × Apart (1024 * b) 1024 oi 64 = elim has.source [
        | old ne e same ↦ let known = r.indirect ne in rw e (omega arith, known.1)
        | new e next zero' ↦ rw e (omega arith, inr (omega arith))
      ] in
      let place = block_place b (omega arith) in
      let slot : Ptr = block_word b (n - 10) in
      let near : ltb n 10 ≡ false = ground arith in
      let not_far : ltb n 266 ≡ true = ground arith in
      let m' : Mem = sized d1.image oi slot bno s off within small in
      let keeps : (a : Ptr) → (oi + 4 ≤ a) × (a + 4 ≤ oi + 64) → load32 m' a ≡ load32 d1.image a =
        λ a in_inode.
          sized-load d1.image oi slot bno s off within small a (omega arith) (ground arith) in
      let type' = keeps (oi_ftype oi) (omega arith) in
      let type1 = has.keeps (oi_ftype oi) (omega arith) (omega arith) in
      let not_link : (load32 m' (oi_ftype oi) == 2) ≡ false = ground arith in
      let named : load32 m' (oi_indirect oi) ≡ b =
        keeps (oi_indirect oi) (omega arith) ∙ has.named in
      (
        record d1 { image = store32 d1.image slot bno },
        rw (near, not_far, ends) refl,
        find_indirect m' oi off (sized-within d1.image oi slot bno s off within small) not_link n b
              h block named
            ∙ sized-stored d1.image oi slot bno s off within small (ground arith)
            ∙ omega arith,
      )

  -- When storeblk is given one of the first 266 blocks of a file that is no symbolic link, on a
  -- disk with room for one block more, it succeeds; and once the inode has a size that reaches the
  -- block, the module finds the disk block that was given at every offset in it. The inode lies in
  -- front of the blocks to come, and apart from its indirect block, if it has one.
  pub storeblk-blockno : n < 266 → Found
  storeblk-blockno h = elim (Bool-cases (ltb n 10)) [
    | inl direct ↦ store_direct_lem (ground arith)
    | inr indirect ↦ store_indirect_lem (ground arith)
  ]
