-- ===== src/Ospfs/Format/Files/Readable.antt =====
-- A file that writefile copies, as the module reads it.
use cs111winter.Base.{
  ℕ, ◌+◌, ◌*◌, ◌/◌, ◌%◌, ◌^◌, ◌≤◌, ◌<◌, ◌≡◌, inl, refl, ap, ◌∙◌, false, List, some, arith, ◌==◌,
  leb, length, get_or,
}
use cs111winter.Ospfs.Mem.{
  Mem, Ptr, Same, load8, load32, load32-Same, store32, load32-store32, load32-store32_ne,
  load8-store32,
}
use cs111winter.Ospfs.Layout.{
  oi_size, oi_ftype, oi_mode, oi_direct, ospfs_block, ospfs_inode_blockno, ospfs_inode_data,
}
use cs111winter.Ospfs.Layout.Laws.{block_eq}
use cs111winter.Ospfs.Format.{Disk, put_word}
use cs111winter.Ospfs.Format.Pointers.{find_direct}
use cs111winter.Ospfs.Format.Files.{fill_file}
use cs111winter.Ospfs.Format.Files.Contents.{Written, write_blocks_lem}

module _ (mode : ℕ) (bytes : List ℕ) (oi : Ptr) (d : Disk) where
  -- The inode with its type and mode, and the size that it gets at the end.
  abbrev typed : Disk
  typed = put_word (oi_mode oi) mode (put_word (oi_ftype oi) 0 d)

  abbrev sized : Disk → Mem
  sized d1 = store32 d1.image (oi_size oi) (length bytes)

  module _ (d1 : Disk) (fits : length bytes ≤ 10240) (before : oi + 64 ≤ 1024 * d.nextb)
      (low : d.nextb + 10 < 2 ^ 22) (w : Written oi 0 bytes typed d1) where
    sized-ftype : load32 (sized d1) (oi_ftype oi) ≡ 0
    sized-ftype =
        let first : Mem = store32 d.image (oi_ftype oi) 0 in
        let kept : Same (oi_ftype oi) 4 typed.image d1.image = record {
          keeps = λ x lo hi. w.spares x (omega arith) (inl (omega arith));
        } in
        load32-store32_ne d1.image (oi_size oi) (length bytes) (oi_ftype oi) (omega arith)
        ∙ load32-Same (oi_ftype oi) kept
        ∙ load32-store32_ne first (oi_mode oi) mode (oi_ftype oi) (omega arith)
        ∙ load32-store32 d.image (oi_ftype oi) 0

    sized-size : load32 (sized d1) (oi_size oi) ≡ length bytes
    sized-size = load32-store32 d1.image (oi_size oi) (length bytes) ∙ omega arith

    sized-data :
        (i : ℕ)
        → i < length bytes
        → load8 (sized d1) (ospfs_inode_data (sized d1) oi i) ≡ get_or bytes i 0 % 256
    unfolding ospfs_inode_data
    sized-data i h =
        let m' : Mem = sized d1 in
        let within : leb (load32 m' (oi_size oi)) i ≡ false = ground (arith, sized-size) in
        let not_link : (load32 m' (oi_ftype oi) == 2) ≡ false = ground (arith, sized-ftype) in
        let same_slot : oi_direct oi (0 + i / 1024) ≡ oi_direct oi (i / 1024) = omega arith in
        let found : ospfs_inode_blockno m' oi i ≡ d.nextb + i / 1024 =
          find_direct m' oi i within not_link (i / 1024) (omega arith) refl
          ∙ load32-store32_ne d1.image (oi_size oi) (length bytes) (oi_direct oi (i / 1024))
              (omega arith)
          ∙ ap (λ a. load32 d1.image a) (omega arith)
          ∙ w.named i h in
        let place : ospfs_block (d.nextb + i / 1024) ≡ (d.nextb + i / 1024) * 1024 =
          block_eq (d.nextb + i / 1024) (omega arith) in
        ap (λ a. load8 m' a) (ap (λ b. ospfs_block b + i % 1024) found ∙ omega (arith, place))
        ∙ load8-store32 d1.image (oi_size oi) (length bytes) (1024 * d.nextb + i) (omega arith)
        ∙ w.holds i h

  -- When ospfsformat copies a file of at most 10240 bytes, on a disk with room for it and one
  -- block more and with the inode in front of the blocks to come, it succeeds: the inode has the
  -- length of the file as its size, and at every offset the module finds the byte of the file
  -- there.
  pub fill_file_lem :
      (nblocks ninodes : ℕ)
      → length bytes ≤ 10240
      → (d.nextb + length bytes / 1024 < nblocks) × (nblocks ≤ 8192)
      → oi + 64 ≤ 1024 * d.nextb
      → (d' : Disk) × (fill_file nblocks ninodes mode bytes oi d ≡ some d')
        × (load32 d'.image (oi_size oi) ≡ length bytes)
        × ((i : ℕ)
            → i < length bytes
            → load8 d'.image (ospfs_inode_data d'.image oi i) ≡ get_or bytes i 0 % 256)
  unfolding fill_file
  fill_file_lem nblocks ninodes fits room before =
      let (d1, runs, w) =
        write_blocks_lem nblocks ninodes oi (length bytes / 1024 + 1) 0 bytes typed (omega arith)
          (omega arith) room before in
      (
        record d1 { image = sized d1 },
        rw (runs, fill_file) (ap (λ n. some (put_word (oi_size oi) n d1)) (omega arith)),
        sized-size d1 fits before (omega arith) w,
        sized-data d1 fits before (omega arith) w,
      )
