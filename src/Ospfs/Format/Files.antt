-- ===== src/Ospfs/Format/Files.antt =====
-- lab3/ospfsformat.c: writefile, addsymlink and writesymlink. What the host's calls give is an
-- argument: the bytes of a file and its digest, the target of a link. That a host call fails is not
-- followed, apart from the end of a file.
pub mod Contents
pub mod Readable
use cs111winter.Base.{
  ℕ, zero, suc, ◌+◌, ◌*◌, ◌/◌, ◌%◌, Bool, true, false, ◌||◌, not, List, [], ◌∷◌, ◌++◌, Option, none,
  some, ◌==◌, ltb, if◌then◌else◌, length, take, drop,
}
use cs111winter.Ospfs.Mem.{Ptr, load32, store_bytes}
use cs111winter.Ospfs.Layout.{
  blksize, inodesize, ospfs_block, ftype_reg, ftype_symlink, oi_size, oi_ftype, oi_nlink, oi_mode,
}
use cs111winter.Ospfs.Dir.{od_ino}
use cs111winter.Ospfs.Dir.Handlers.{maxsymlinklen, oi_symlink}
use cs111winter.Ospfs.Format.{
  Disk, put_word, getblk, getblk_filled, storeblk, allocinode, blkinodes, firstinob,
}
use cs111winter.Ospfs.Format.Entries.{
  Hardlink, get_hardlink, add_hardlink, Slot, too_long, entry, allocdirentry,
}

-- The image and the list of hard links.
pub record Tool : Type 0 where
  pub disk : Disk
  pub hardlinks : List Hardlink

module _ (nblocks ninodes : ℕ) where
  -- One round of the loop that copies a file: the bytes go to the block `nextb`, which becomes
  -- block `nblk` of the inode at `oi`.
  unfoldable pub put_block : Ptr → (nblk : ℕ) → List ℕ → Disk → Option Disk
  put_block oi nblk bytes d =
      storeblk nblocks ninodes oi d.nextb nblk
        (record d { image = store_bytes d.image (ospfs_block d.nextb) bytes; nextb = d.nextb + 1 })

  -- The loop, with the bytes that have not been read yet; the result is the size of the file.
  unfoldable pub write_blocks : (fuel : ℕ) → Ptr → (nblk : ℕ) → List ℕ → Disk → Option (ℕ × Disk)
  unfolding put_block
  write_blocks zero oi nblk bytes d = none
  write_blocks (suc fuel) oi nblk bytes d =
      let got : List ℕ = take blksize bytes in
      let n : ℕ = length got in
      elim (getblk_filled nblocks ninodes d.nextb 0 d) [
        | none ↦ none
        | some d1 ↦ if n == 0 then some (nblk * blksize, d1) else (elim (put_block oi nblk got d1) [
          | none ↦ none
          | some d2 ↦ elim (ltb n blksize) [
            | true ↦ some (nblk * blksize + n, d2)
            | false ↦ write_blocks fuel oi (nblk + 1) (drop blksize bytes) d2
          ]
        ])
      ]

  -- The inode `ino` of a file that has been met before: one link more.
  unfoldable pub link_again : Ptr → (ino : ℕ) → Disk → Option Disk
  link_again od ino d =
      let b : ℕ = firstinob nblocks ninodes + ino / blkinodes in
      let oi : Ptr = ospfs_block b + inodesize * (ino % blkinodes) in
      elim (getblk nblocks ninodes b (put_word (od_ino od) ino d)) [
        | none ↦ none
        | some d' ↦ some (put_word (oi_nlink oi) (load32 d'.image (oi_nlink oi) + 1) d')
      ]

  -- allocinode for the entry at `od`, with one link.
  unfoldable pub new_inode : Ptr → Disk → Option (ℕ × (Ptr × Disk))
  unfolding allocinode
  new_inode od d = elim (allocinode nblocks ninodes d) [
    | none ↦ none
    | some (ino, (oi, d')) ↦
        some (ino, (oi, put_word (oi_nlink oi) 1 (put_word (od_ino od) ino d')))
  ]

  -- The new inode of a regular file: type, mode, blocks and size.
  unfoldable pub fill_file : (mode : ℕ) → List ℕ → Ptr → Disk → Option Disk
  unfolding write_blocks
  fill_file mode bytes oi d =
      elim (write_blocks (length bytes / blksize + 1) oi 0 bytes
        (put_word (oi_mode oi) mode (put_word (oi_ftype oi) ftype_reg d))) [
          | none ↦ none
          | some (size, d') ↦ some (put_word (oi_size oi) size d')
        ]

  -- The common part of writefile and addsymlink: the entry, and an inode that is new, which `fill`
  -- fills, or one that has been met before. Without an entry the program crashes.
  unfoldable pub add_entry :
      (seen : ℕ) (record_link : ℕ → List Hardlink → List Hardlink) (fill : Ptr → Disk → Option Disk)
      → Option Slot
      → List Hardlink
      → Option Tool
  unfolding link_again new_inode
  add_entry seen record_link fill none links = none
  add_entry seen record_link fill (some too_long) links = none
  add_entry seen record_link fill (some (entry od d)) links =
      if seen == 0
      then (elim (new_inode od d) [
        | none ↦ none
        | some (ino, (oi, d')) ↦ elim (fill oi d') [
          | none ↦ none
          | some d2 ↦ some (record { disk = d2; hardlinks = record_link ino links })
        ]
      ])
      else (elim (link_again od seen d) [
        | none ↦ none
        | some d' ↦ some (record { disk = d'; hardlinks = links })
      ])

  -- `writefile`, with the last part of the file's name.
  unfoldable pub writefile :
      (link_contents : Bool)
      → Ptr
      → (name : List ℕ) (host mode : ℕ) (bytes digest : List ℕ) → Tool
      → Option Tool
  unfolding add_entry fill_file
  writefile link_contents dir name host mode bytes digest t =
      let linked : Bool = not (host == 0) || link_contents in
      let seen : ℕ =
        if linked then get_hardlink link_contents t.hardlinks host (some digest) else 0 in
      add_entry seen
        (λ ino links.
          if linked then add_hardlink link_contents host ino (some digest) links else links)
        (fill_file mode bytes) (allocdirentry nblocks ninodes dir name t.disk) t.hardlinks

  -- The new inode of a symbolic link: the target lies in the inode.
  unfoldable pub fill_symlink : List ℕ → Ptr → Disk → Option Disk
  fill_symlink target oi d =
      let typed : Disk = put_word (oi_ftype oi) ftype_symlink d in
      let copied : Disk = record typed {
        image = store_bytes typed.image (oi_symlink oi) (target ++ 0 ∷ []);
      } in
      some (put_word (oi_size oi) (length target) copied)

  -- `addsymlink`
  unfoldable pub addsymlink :
      (link_contents : Bool) → Ptr → (name target : List ℕ) (host : ℕ) → Tool → Option Tool
  unfolding add_entry fill_symlink
  addsymlink link_contents dir name target host t =
      let seen : ℕ = if host == 0 then 0 else get_hardlink link_contents t.hardlinks host none in
      add_entry seen
        (λ ino links. if host == 0 then links else add_hardlink link_contents host ino none links)
        (fill_symlink target) (allocdirentry nblocks ninodes dir name t.disk) t.hardlinks

  -- `writesymlink`: readlink has been asked for one byte more than a target may have.
  unfoldable pub writesymlink :
      (link_contents : Bool) → Ptr → (name target : List ℕ) (host : ℕ) → Tool → Option Tool
  unfolding addsymlink
  writesymlink link_contents dir name target host t =
      let link : List ℕ = take (maxsymlinklen + 1) target in
      if ltb maxsymlinklen (length link)
      then some t
      else addsymlink link_contents dir name link host t
