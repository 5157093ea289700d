-- ===== src/Ospfs/Format/Entries.antt =====
-- lab3/ospfsformat.c: get_hardlink, add_hardlink and allocdirentry. A digest is the list of its
-- bytes; `link_contents` is the flag of the command line.
use cs111winter.Base.{
  ℕ, zero, suc, ◌+◌, ◌-◌, ◌*◌, ◌/◌, ◌%◌, ◌^◌, Bool, true, false, ◌&&◌, ◌||◌, not, List, [], ◌∷◌,
  ◌++◌, Option, none, some, ◌==◌, ltb, leb, if◌then◌else◌, length, replicate,
}
use cs111winter.Ospfs.Mem.{Mem, Ptr, load32, store_bytes}
use cs111winter.Ospfs.Layout.{
  blksize, ndirect, nindirect, ospfs_block, block_word, oi_size, oi_direct, oi_indirect,
  oi_indirect2,
}
use cs111winter.Ospfs.Dir.{direntry_size, maxnamelen, od_ino, od_name}
use cs111winter.Ospfs.Format.{Disk, put_word, getblk, new_block, storeblk}

pub record Hardlink : Type 0 where
  pub osp_ino : ℕ
  pub host_ino : ℕ
  pub md5_digest : List ℕ

-- `memcmp(a, b, MD5_DIGEST_SIZE) == 0`
unfoldable pub same_digest : List ℕ → List ℕ → Bool
same_digest [] [] = true
same_digest (x ∷ xs) (y ∷ ys) = (x == y) && same_digest xs ys
same_digest _ _ = false

abbrev pub has_digest : Bool → List ℕ → Option (List ℕ) → Bool
has_digest link_contents a none = false
has_digest link_contents a (some b) = link_contents && same_digest a b

-- The list of hard links, the latest first; `none` is a null pointer for the digest.
unfoldable pub get_hardlink : Bool → List Hardlink → (host : ℕ) → Option (List ℕ) → ℕ
unfolding same_digest
get_hardlink link_contents [] host digest = 0
get_hardlink link_contents (cur ∷ rest) host digest =
    let later = get_hardlink link_contents rest host digest in
    if (not (host == 0) && (cur.host_ino == host)) || has_digest link_contents cur.md5_digest digest
    then cur.osp_ino
    else later

abbrev pub kept_digest : Bool → Option (List ℕ) → List ℕ
kept_digest link_contents none = replicate 16 0
kept_digest link_contents (some d) = if link_contents then d else replicate 16 0

-- The `unsigned long` inode number of the host is stored in 32 bits.
unfoldable pub add_hardlink :
    Bool → (host osp : ℕ) → Option (List ℕ) → List Hardlink → List Hardlink
add_hardlink link_contents host osp digest links =
    record {
      osp_ino = osp;
      host_ino = host % 2 ^ 32;
      md5_digest = kept_digest link_contents digest;
    }
    ∷ links

-- The first of the `k` entries from `od` on whose inode number is 0.
unfoldable pub blank_in : ℕ → Mem → Ptr → Option Ptr
blank_in zero m od = none
blank_in (suc k) m od =
    let rest = blank_in k m (od + direntry_size) in
    if load32 m (od_ino od) == 0 then some od else rest

-- `od_ino = 0` in the `k` entries from `od` on.
unfoldable pub clear_entries : ℕ → Ptr → Disk → Disk
clear_entries zero od d = d
clear_entries (suc k) od d = clear_entries k (od + direntry_size) (put_word (od_ino od) 0 d)

-- `strcpy(od->od_name, name)`
abbrev pub put_name : Ptr → List ℕ → Disk → Disk
put_name od name d = record d { image = store_bytes d.image (od_name od) (name ++ 0 ∷ []) }

-- What allocdirentry comes to.
pub data Slot : Type 0 where
  too_long : Slot
  entry : Ptr → Disk → Slot

module _ (nblocks ninodes : ℕ) where
  -- The word `i` of the block that the word at `slot` names.
  abbrev pub follow : Ptr → ℕ → Disk → Option ℕ
  follow slot i d = elim (getblk nblocks ninodes (load32 d.image slot) d) [
    | none ↦ none
    | some d' ↦ some (load32 d'.image (block_word (load32 d'.image slot) i))
  ]

  -- The disk block of the directory's block `nblk`.
  unfoldable pub dir_block : Ptr → (nblk : ℕ) → Disk → Option ℕ
  dir_block oi nblk d =
      let off : ℕ = nblk - (ndirect + nindirect) in
      if leb (ndirect + nindirect) nblk
      then (elim (follow (oi_indirect2 oi) (off / nindirect) d) [
        | none ↦ none
        | some b ↦
            follow (block_word (load32 d.image (oi_indirect2 oi)) (off / nindirect))
              (off % nindirect) d
      ])
      else (if leb ndirect nblk
          then follow (oi_indirect oi) (nblk - ndirect) d
          else some (load32 d.image (oi_direct oi nblk)))

  -- From `new_dirb` on: the directory gets one block more, its block number `nblk`.
  unfoldable pub new_dirb : Ptr → (nblk : ℕ) → List ℕ → Disk → Option Slot
  unfolding clear_entries
  new_dirb oi nblk name d =
      let od : Ptr = ospfs_block d.nextb in
      elim (new_block nblocks ninodes d) [
        | none ↦ none
        | some d1 ↦ elim (storeblk nblocks ninodes oi d.nextb nblk (clear_entries 8 od d1)) [
          | none ↦ none
          | some d2 ↦
              let size : ℕ = (load32 d2.image (oi_size oi) + blksize) % 2 ^ 32 in
              let d3 : Disk = put_word (oi_size oi) size d2 in
              if (nblk + 1) * blksize % 2 ^ 32 == size
              then some (entry od (put_name od name d3))
              else none
        ]
      ]

  -- `allocdirentry`; `too_long` is the null pointer, and `none` the end of the program.
  unfoldable pub allocdirentry : Ptr → List ℕ → Disk → Option Slot
  unfolding dir_block blank_in new_dirb
  allocdirentry oi name d =
      let blocks : ℕ = (load32 d.image (oi_size oi) + blksize - 1) % 2 ^ 32 / blksize in
      let fresh = new_dirb oi blocks name d in
      if ltb maxnamelen (length name)
      then some too_long
      else (if blocks == 0 then fresh else (elim (dir_block oi (blocks - 1) d) [
        | none ↦ none
        | some b ↦ elim (getblk nblocks ninodes b d) [
          | none ↦ none
          | some d' ↦ elim (blank_in 8 d'.image (ospfs_block b)) [
            | none ↦ fresh
            | some od ↦ some (entry od (put_name od name d'))
          ]
        ]
      ]))
