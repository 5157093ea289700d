-- ===== src/Ospfs/Resize.antt =====
-- lab3/ospfsmod.c, FILE OPERATIONS: growing and shrinking a file.
use cs111winter.Base.{minus_one, ℕ, ◌+◌, ◌-◌, ◌%◌, ◌^◌, ◌==◌, leb, if◌then◌else◌}
pub mod Change
pub mod Direct
pub mod Removal
use cs111winter.Ospfs.Mem.{Mem, Ptr, load32, store32}
use cs111winter.Ospfs.Layout.{
  blksize, maxfileblks, oi_size, oi_direct, oi_indirect, oi_indirect2, ospfs_size2nblocks,
  block_word,
}
use cs111winter.Ospfs.Alloc.{allocate_block, free_block}
use cs111winter.Ospfs.Index.{indir_index, direct_index}

-- The error numbers that the module returns, negated, as an `int`.
pub data Errno : Type 0 where
  enospc eio eperm enoent eexist enametoolong einval enomem efault : Errno

-- An `int` that is 0 or an error.
pub data Status : Type 0 where
  ok : Status
  err : Errno → Status

-- `oi->oi_size += OSPFS_BLKSIZE; return 0;`
unfoldable pub grown : Ptr → Mem → Status × Mem
grown oi m = (ok, store32 m (oi_size oi) ((load32 m (oi_size oi) + blksize) % 2 ^ 32))

-- The three cases of the `switch` of `add_block`, for the new data block `b`.
unfoldable pub add_direct : Ptr → ℕ → ℕ → Mem → Status × Mem
unfolding grown
add_direct oi index b m = grown oi (store32 m (oi_direct oi index) b)

-- `((uint32_t*) ospfs_block(oi->oi_indirect))[index] = b`
abbrev pub put_indirect : Ptr → ℕ → ℕ → Mem → Mem
put_indirect oi index b m = store32 m (block_word (load32 m (oi_indirect oi)) index) b

unfoldable pub add_indirect : Ptr → ℕ → ℕ → Mem → Status × Mem
unfolding grown
add_indirect oi index b m =
    if index == 0
    then (let (b1, m1) = allocate_block m in
        if b1 == 0
        then (err eio, free_block m1 b)
        else grown oi (put_indirect oi index b (store32 m1 (oi_indirect oi) b1)))
    else grown oi (put_indirect oi index b m)

-- The second half of the last case: `b1` is `allocated[1]`, 0 if it was not set.
unfoldable pub add_leaf : Ptr → (which index b b1 : ℕ) → Mem → Status × Mem
unfolding grown
add_leaf oi which index b b1 m =
    let (leaf, m1) = allocate_block m in
    if leaf == 0
    then (
      err eio,
      (if b1 == 0
          then free_block m1 b
          else store32 (free_block (free_block m1 b) b1) (oi_indirect2 oi) 0),
    )
    else (let m2 = store32 m1 (block_word (load32 m1 (oi_indirect2 oi)) which) leaf in
        grown oi (store32 m2 (block_word b1 index) b))

unfoldable pub add_indirect2 : Ptr → (which index b : ℕ) → Mem → Status × Mem
unfolding add_leaf
add_indirect2 oi which index b m =
    if index == 0
    then (let (b1, m1) = allocate_block m in
        if b1 == 0
        then (err eio, free_block m1 b)
        else add_leaf oi which index b b1 (store32 m1 (oi_indirect2 oi) b1))
    else add_leaf oi which index b 0 m

-- The `switch` of `add_block` on the index of the indirect block.
unfoldable pub add_at : Ptr → (which index b : ℕ) → Mem → Status × Mem
unfolding add_direct add_indirect add_indirect2
add_at oi which index b m =
    if which == minus_one
    then add_direct oi index b m
    else if which == 0
    then add_indirect oi index b m
    else add_indirect2 oi which index b m

unfoldable pub add_block : Ptr → Mem → Status × Mem
unfolding add_at
add_block oi m =
    let n = ospfs_size2nblocks (load32 m (oi_size oi)) in
    if leb maxfileblks n
    then (err enospc, m)
    else (let (b, m1) = allocate_block m in
        if b == 0 then (err enospc, m1) else add_at oi (indir_index n) (direct_index n) b m1)

-- `oi->oi_size -= OSPFS_BLKSIZE; return 0;`, which wraps below 0.
unfoldable pub shrunk : Ptr → Mem → Status × Mem
shrunk oi m = (ok, store32 m (oi_size oi) ((load32 m (oi_size oi) + 2 ^ 32 - blksize) % 2 ^ 32))

-- The three cases of the `switch` of `remove_block`.
unfoldable pub remove_direct : Ptr → ℕ → Mem → Mem
remove_direct oi index m =
    store32 (free_block m (load32 m (oi_direct oi index))) (oi_direct oi index) 0

unfoldable pub remove_indirect : Ptr → ℕ → Mem → Mem
remove_indirect oi index m =
    let m1 = free_block m (load32 m (block_word (load32 m (oi_indirect oi)) index)) in
    let m2 = put_indirect oi index 0 m1 in
    if index == 0
    then store32 (free_block m2 (load32 m2 (oi_indirect oi))) (oi_indirect oi) 0
    else m2

unfoldable pub remove_indirect2 : Ptr → (which index : ℕ) → Mem → Mem
remove_indirect2 oi which index m =
    let leaf = load32 m (block_word (load32 m (oi_indirect2 oi)) which) in
    let m1 = free_block m (load32 m (block_word leaf index)) in
    let m2 = store32 m1 (block_word leaf index) 0 in
    if index == 0
    then (let m3 = free_block m2 leaf in
        let m4 = store32 m3 (block_word (load32 m3 (oi_indirect2 oi)) which) 0 in
        if which == 0
        then store32 (free_block m4 (load32 m4 (oi_indirect2 oi))) (oi_indirect2 oi) 0
        else m4)
    else m2

unfoldable pub remove_at : Ptr → (which index : ℕ) → Mem → Mem
unfolding remove_direct remove_indirect remove_indirect2
remove_at oi which index m =
    if which == minus_one
    then remove_direct oi index m
    else if which == 0
    then remove_indirect oi index m
    else remove_indirect2 oi which index m

unfoldable pub remove_block : Ptr → Mem → Status × Mem
unfolding remove_at shrunk
remove_block oi m =
    let n = ospfs_size2nblocks (load32 m (oi_size oi)) in
    if n == 0
    then (err enospc, m)
    else shrunk oi (remove_at oi (indir_index (n - 1)) (direct_index (n - 1)) m)
