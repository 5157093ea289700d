-- ===== src/Ospfs/Tests.antt =====
-- Runs of the theorems about lab3/ospfsmod.c on a small disk: 16 blocks, block 3 on free, one inode
-- block behind the bitmap.
use cs111winter.Base.{◌+◌, ◌*◌, ◌/◌, ◌^◌, ◌≤◌, ◌≡◌, ◌-◌, refl, some, arith}
use cs111winter.Ospfs.Mem.{Mem, load8, store8, load32, store32}
use cs111winter.Ospfs.Layout.{os_nblocks, ospfs_size2nblocks, oi_direct}
use cs111winter.Ospfs.Alloc.{allocate_block}
use cs111winter.Ospfs.Alloc.Laws.{Allocated, allocate_block_lem}
use cs111winter.Ospfs.Index.Laws.{recorded, recorded_collides}
use cs111winter.Ospfs.Resize.{Status}
use cs111winter.Ospfs.Resize.Direct.{slot_of, size_of}
use cs111winter.Ospfs.Resize.Change.{change_size}
use cs111winter.Ospfs.Resize.Change.Total.{GrowOutcome, change_size_grow}

abbrev image : Mem
image = store32 (store32 (store32 (store32 (λ a. 0) 1028 16) 1032 16) 1036 3) 2048 0xFFF8

-- The same disk with a file of one block, block 5, in inode 0.
abbrev image1 : Mem
image1 = store32 (store32 image 3072 1000) (oi_direct 3072 0) 5

allocate_block_lem_example : Allocated 3 (os_nblocks image) image (allocate_block image)
allocate_block_lem_example = allocate_block_lem image

recorded_collides_example : recorded 276 ≡ recorded 20
recorded_collides_example = recorded_collides 20 (omega arith) (omega arith)

image_placed : 2048 + 4 * (os_nblocks image / 32 + 1) ≤ 3072
unfolding load32 load8 store32 store8
image_placed = omega arith

image_fits : os_nblocks image ≤ 2 ^ 22
unfolding load32 load8 store32 store8
image_fits = omega arith

image_size : size_of 3072 image ≡ 0
unfolding load32 load8 store32 store8
image_size = refl

image1_placed : 2048 + 4 * (os_nblocks image1 / 32 + 1) ≤ 3072
unfolding load32 load8 store32 store8
image1_placed = omega arith

image1_blocks : os_nblocks image1 ≡ 16
unfolding load32 load8 store32 store8
image1_blocks = refl

image1_size : size_of 3072 image1 ≡ 1000
unfolding load32 load8 store32 store8
image1_size = refl

image1_last : ospfs_size2nblocks (size_of 3072 image1) - 1 ≡ 0
unfolding load32 load8 store32 store8 ospfs_size2nblocks
image1_last = refl

image1_slot : slot_of 3072 image1 (ospfs_size2nblocks (size_of 3072 image1) - 1) ≡ 5
unfolding load32 load8 store32 store8 ospfs_size2nblocks
image1_slot = refl

image_grows : ospfs_size2nblocks (size_of 3072 image) ≤ ospfs_size2nblocks 3000
unfolding load32 load8 store32 store8 ospfs_size2nblocks
image_grows = omega arith

change_size_grow_example :
    (r : Status × Mem) × (change_size 11 3072 3000 image ≡ some r) × GrowOutcome 3072 3000 image r
change_size_grow_example =
    change_size_grow 11 3072 3000 image
      (record { placed = image_placed; fits = image_fits; small = omega (arith, image_size) })
      (omega arith) image_grows (omega arith)
