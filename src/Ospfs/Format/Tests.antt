-- ===== src/Ospfs/Format/Tests.antt =====
-- Runs of the theorems about ospfsformat.
use cs111winter.Base.{
  get_or, [], ◌∷◌, ℕ, ◌%◌, ◌^◌, ◌-◌, ◌<◌, ◌≡◌, refl, true, some, arith, ◌==◌, ltb, leb, ◌&&◌,
  bit-ones, bit_and-pow, not, bit_and,
}
use native.Mathlib.Nat.{one-le-pow}
use cs111winter.Ospfs.Mem.{load32, load8, store32}
use cs111winter.Ospfs.Layout.{
  ospfs_inode_data, oi_size, oi_ftype, oi_indirect, os_nblocks, os_ninodes, os_firstinob,
  ospfs_inode_blockno,
}
use cs111winter.Ospfs.Bitvector.{bitvector_test}
use cs111winter.Ospfs.Alloc.{is_free}
use cs111winter.Ospfs.Format.{Disk, finishfs, storeblk, firstinob}
use cs111winter.Ospfs.Layout.{oi_indirect2}
use cs111winter.Ospfs.Format.Doubly.{HasRoom2, storeblk-blockno_far}
use cs111winter.Ospfs.Format.Cache
use cs111winter.Ospfs.Format.Cache.{Cached}
use cs111winter.Ospfs.Format.Cache.View.{Sound}
use cs111winter.Ospfs.Format.Cache.Getblk.{Gives, getblk_lem}
use cs111winter.Ospfs.Format.Swizzle.{block_super, block_dir}
use cs111winter.Ospfs.Format.Files.{fill_file}
use cs111winter.Ospfs.Format.Files.Readable.{fill_file_lem}
use cs111winter.Ospfs.Format.Marking.{finishfs_lem}
use cs111winter.Ospfs.Format.Storing.{HasRoom, storeblk-blockno}

abbrev ones : Disk
ones = record { image = λ a. 255; nextb = 9; nextinode = 2 }

ones-is_free : (j : ℕ) → is_free ones.image j ≡ true
unfolding bitvector_test load32 load8
ones-is_free j =
    let k : ℕ = j % 32 in
    let set : not (bit_and (2 ^ 32 - 1) (2 ^ k) == 0) ≡ true =
      grind (arith, bit_and-pow (2 ^ 32 - 1) k, bit-ones 32 k (omega arith), one-le-pow k 2) in
    set

finishfs_lem_example :
    (d' : Disk) × (finishfs 100 32 ones ≡ some d')
    × ((j : ℕ) → j < 8192 → is_free d'.image j ≡ (leb 9 j && ltb j 100))
    × (os_nblocks d'.image ≡ 100)
    × (os_ninodes d'.image ≡ 32)
    × (os_firstinob d'.image ≡ firstinob 100 32)
finishfs_lem_example =
    finishfs_lem 100 32 ones (omega arith, omega arith) (omega arith) (omega arith)
      (λ j h. ones-is_free j)

abbrev zeros : Disk
zeros = record { image = λ a. 0; nextb = 5; nextinode = 2 }

zeros-indirect : load32 zeros.image (oi_indirect 4160) ≡ 0
unfolding load32 load8
zeros-indirect = refl

zeros-ftype : load32 zeros.image (oi_ftype 4160) ≡ 0
unfolding load32 load8
zeros-ftype = refl

zeros-HasRoom : HasRoom 100 zeros 4160
zeros-HasRoom = record {
  room = (omega arith, omega arith);
  before = omega arith;
  indirect = λ ne. absurd (ne zeros-indirect);
}

-- Block 12 of the file is recorded in a new indirect block.
storeblk-blockno_example :
    (d' : Disk) × (storeblk 100 32 4160 77 12 zeros ≡ some d')
    × (ospfs_inode_blockno (store32 d'.image (oi_size 4160) 13000) 4160 12500 ≡ 77)
storeblk-blockno_example =
    storeblk-blockno 100 32 zeros 4160 77 12 13000 12500 zeros-HasRoom (omega (arith, zeros-ftype))
      (omega arith) (omega arith) (omega arith) (omega arith) (omega arith)

zeros-indirect2 : load32 zeros.image (oi_indirect2 4160) ≡ 0
unfolding load32 load8
zeros-indirect2 = refl

zeros-HasRoom2 : HasRoom2 100 zeros 4160 3
zeros-HasRoom2 = record {
  room = (omega arith, omega arith);
  before = omega arith;
  outer = λ ne. absurd (ne zeros-indirect2);
  inner = λ ne. absurd (ne zeros-indirect2);
}

-- Block 1100 of the file is recorded by way of two new blocks.
storeblk-blockno_far_example :
    (d' : Disk) × (storeblk 100 32 4160 77 1100 zeros ≡ some d')
    × (ospfs_inode_blockno (store32 d'.image (oi_size 4160) 1130000) 4160 1126500 ≡ 77)
storeblk-blockno_far_example =
    storeblk-blockno_far 100 32 zeros 4160 77 1100 1130000 1126500 zeros-HasRoom2
      (omega (arith, zeros-ftype)) (omega arith) (omega arith) (omega arith) (omega arith)
      (omega arith, omega arith)

-- A file of two bytes.
fill_file_lem_example :
    (d' : Disk) × (fill_file 100 32 420 (104 ∷ 105 ∷ []) 4160 zeros ≡ some d')
    × (load32 d'.image (oi_size 4160) ≡ 2)
    × ((i : ℕ)
        → i < 2
        → load8 d'.image (ospfs_inode_data d'.image 4160 i) ≡ get_or (104 ∷ 105 ∷ []) i 0 % 256)
fill_file_lem_example =
    fill_file_lem 420 (104 ∷ 105 ∷ []) 4160 zeros 100 32 (omega arith) (omega arith, omega arith)
      (omega arith)

-- The cache at the start of the program.
abbrev empty_cache : Cached
empty_cache = record {
  blocks = λ i. record { bno = 0; type_of = block_super; busy = 0; used = 0; bytes = λ o. 0 };
  file = λ a. a % 256;
  t = 1;
}

empty_cache-Sound : Sound empty_cache
empty_cache-Sound = record { once = λ i j hi hj ne e. absurd (ne refl); unused = λ i h e. refl }

getblk_lem_example :
    (i : ℕ) × (c' : Cached) × (Cache.getblk 100 5 true block_dir empty_cache ≡ some (i, c'))
    × Gives 5 true empty_cache i c'
getblk_lem_example =
    getblk_lem 100 5 true block_dir empty_cache 0 empty_cache-Sound (λ e. cc, omega arith)
      (omega arith, refl) (λ k h e. cc)
