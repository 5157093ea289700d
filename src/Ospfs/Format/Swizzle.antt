-- ===== src/Ospfs/Format/Swizzle.antt =====
-- lab3/ospfsformat.c: swizzle, swizzleinode, swizzledirentry and swizzleblock, on a little-endian
-- machine, where the words of a block are little-endian already.
use cs111winter.Base.{
  ℕ, zero, suc, ◌+◌, ◌/◌, ◌%◌, ◌^◌, ◌≡◌, refl, ◌∙◌, true, false, ◌==◌, if◌then◌else◌, arith, Bool,
}
use cs111winter.Ospfs.Mem.{Mem, Ptr, load8, load32, store8}
use cs111winter.Ospfs.Layout.{blksize, inodesize, oi_size, oi_ftype, oi_nlink, oi_mode, oi_direct}
use cs111winter.Ospfs.Dir.{direntry_size, od_ino, od_name}

-- The word is read, and its bytes are written from the lowest on.
unfoldable pub swizzle : Ptr → Mem → Mem
swizzle x m =
    let y : ℕ = load32 m x in
    store8
      (store8 (store8 (store8 m x (y % 256)) (x + 1) (y / 2 ^ 8 % 256)) (x + 2) (y / 2 ^ 16 % 256))
      (x + 3) (y / 2 ^ 24 % 256)

-- The `n` words from `a` on.
unfoldable pub swizzle_words : ℕ → Ptr → Mem → Mem
swizzle_words zero a m = m
swizzle_words (suc n) a m = swizzle_words n (a + 4) (swizzle a m)

-- Size, type, mode and link count; then the ten direct blocks and the two indirect ones.
unfoldable pub swizzleinode : Ptr → Mem → Mem
swizzleinode oi m =
    let head : Mem =
      swizzle (oi_nlink oi)
        (swizzle (oi_mode oi) (swizzle (oi_ftype oi) (swizzle (oi_size oi) m))) in
    if load32 m (oi_nlink oi) == 0 then m else swizzle_words 12 (oi_direct oi 0) head

unfoldable pub swizzledirentry : Ptr → Mem → Mem
swizzledirentry od m = if load8 m (od_name od) == 0 then m else swizzle (od_ino od) m

unfoldable pub swizzle_inodes : ℕ → Ptr → Mem → Mem
swizzle_inodes zero a m = m
swizzle_inodes (suc n) a m = swizzle_inodes n (a + inodesize) (swizzleinode a m)

unfoldable pub swizzle_direntries : ℕ → Ptr → Mem → Mem
swizzle_direntries zero a m = m
swizzle_direntries (suc n) a m = swizzle_direntries n (a + direntry_size) (swizzledirentry a m)

pub data BlockType : Type 0 where
  block_super block_dir block_file block_bits block_inodes : BlockType

-- The block whose bytes lie from `b` on.
unfoldable pub swizzleblock : BlockType → Ptr → Mem → Mem
swizzleblock block_super b m = swizzle_words 4 b m
swizzleblock block_dir b m = swizzle_direntries (blksize / direntry_size) b m
swizzleblock block_file b m = m
swizzleblock block_bits b m = swizzle_words (blksize / 4) b m
swizzleblock block_inodes b m = swizzle_inodes (blksize / inodesize) b m

-- No byte changes.
abbrev Unchanged : Mem → Mem → Type 0
Unchanged m m' = (a : Ptr) → load8 m' a ≡ load8 m a

swizzle-Unchanged : (x : Ptr) (m : Mem) → Unchanged m (swizzle x m)
unfolding swizzle load32 load8 store8
swizzle-Unchanged x m a = ground arith

swizzle_words-Unchanged : (n : ℕ) (x : Ptr) (m : Mem) → Unchanged m (swizzle_words n x m)
unfolding swizzle_words
swizzle_words-Unchanged zero x m a = refl
swizzle_words-Unchanged (suc n) x m a =
    swizzle_words-Unchanged n (x + 4) (swizzle x m) a ∙ swizzle-Unchanged x m a

if-Unchanged :
    (b : Bool) (m l r : Mem) → Unchanged m l → Unchanged m r → Unchanged m (if b then l else r)
if-Unchanged true m l r p q = p
if-Unchanged false m l r p q = q

swizzleinode-Unchanged : (oi : Ptr) (m : Mem) → Unchanged m (swizzleinode oi m)
unfolding swizzleinode
swizzleinode-Unchanged oi m =
    if-Unchanged (load32 m (oi_nlink oi) == 0) m m _ (λ a. refl)
      (λ a.
        let m1 : Mem = swizzle (oi_size oi) m in
        let m2 : Mem = swizzle (oi_ftype oi) m1 in
        let m3 : Mem = swizzle (oi_mode oi) m2 in
        swizzle_words-Unchanged 12 (oi_direct oi 0) (swizzle (oi_nlink oi) m3) a
        ∙ swizzle-Unchanged (oi_nlink oi) m3 a
        ∙ swizzle-Unchanged (oi_mode oi) m2 a
        ∙ swizzle-Unchanged (oi_ftype oi) m1 a
        ∙ swizzle-Unchanged (oi_size oi) m a)

swizzledirentry-Unchanged : (od : Ptr) (m : Mem) → Unchanged m (swizzledirentry od m)
unfolding swizzledirentry
swizzledirentry-Unchanged od m =
    if-Unchanged (load8 m (od_name od) == 0) m m _ (λ a. refl) (swizzle-Unchanged (od_ino od) m)

swizzle_inodes-Unchanged : (n : ℕ) (x : Ptr) (m : Mem) → Unchanged m (swizzle_inodes n x m)
unfolding swizzle_inodes
swizzle_inodes-Unchanged zero x m a = refl
swizzle_inodes-Unchanged (suc n) x m a =
    swizzle_inodes-Unchanged n (x + inodesize) (swizzleinode x m) a ∙ swizzleinode-Unchanged x m a

swizzle_direntries-Unchanged : (n : ℕ) (x : Ptr) (m : Mem) → Unchanged m (swizzle_direntries n x m)
unfolding swizzle_direntries
swizzle_direntries-Unchanged zero x m a = refl
swizzle_direntries-Unchanged (suc n) x m a =
    swizzle_direntries-Unchanged n (x + direntry_size) (swizzledirentry x m) a
    ∙ swizzledirentry-Unchanged x m a

-- Swizzling a block of any type leaves every byte as it was.
pub swizzleblock_lem :
    (t : BlockType) (b : Ptr) (m : Mem) (a : Ptr) → load8 (swizzleblock t b m) a ≡ load8 m a
unfolding swizzleblock
swizzleblock_lem block_super b m = swizzle_words-Unchanged 4 b m
swizzleblock_lem block_dir b m = swizzle_direntries-Unchanged (blksize / direntry_size) b m
swizzleblock_lem block_file b m = λ a. refl
swizzleblock_lem block_bits b m = swizzle_words-Unchanged (blksize / 4) b m
swizzleblock_lem block_inodes b m = swizzle_inodes-Unchanged (blksize / inodesize) b m
