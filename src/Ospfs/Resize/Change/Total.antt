-- ===== src/Ospfs/Resize/Change/Total.antt =====
-- `change_size` as a whole, on files of direct blocks.
use cs111winter.Base.{
  ℕ, zero, suc, ◌≤◌, ◌<◌, ◌≡◌, ◌⊎◌, inl, inr, refl, ◌∙◌, false, some, arith, ltb,
}
use cs111winter.Ospfs.Mem.{Mem, Ptr, store32, load32-store32, load32-store32_ne, Same-refl}
use cs111winter.Ospfs.Layout.{oi_size, oi_direct, ospfs_size2nblocks}
use cs111winter.Ospfs.Resize.{enospc, Status, ok, err}
use cs111winter.Ospfs.Resize.Direct.{size_of, slot_of}
use cs111winter.Ospfs.Resize.Change.{blocks, grow_to, shrink_to, change_size}
use cs111winter.Ospfs.Resize.Change.Back.{Like, Ready, blocks-size}
use cs111winter.Ospfs.Resize.Change.Grow.{Grown, CanUndo-start, grow_to_lem}

shrink_to_done :
    (k fuel oi old new : ℕ) (m : Mem)
    → blocks oi m ≤ ospfs_size2nblocks new
    → shrink_to (suc k) fuel oi old new m ≡ some (ok, m)
unfolding shrink_to
shrink_to_done k fuel oi old new m h =
    let e : ltb (ospfs_size2nblocks new) (blocks oi m) ≡ false = ground arith in rw (e, shrink_to)

-- The outcomes of a growth: the file has the new size and its old blocks, or -ENOSPC, and then the
-- size, the blocks and the free map are as before.
abbrev pub GrowOutcome : Ptr → (new : ℕ) → Mem → Status × Mem → Type 0
GrowOutcome oi new m r =
    ((r.0 ≡ ok)
      × (size_of oi r.1 ≡ new)
      × ((i : ℕ) → i < blocks oi m → slot_of oi r.1 i ≡ slot_of oi m i))
    ⊎ ((r.0 ≡ err enospc) × Like oi (blocks oi m) m r.1)

module _ (k oi new : ℕ) (m : Mem) (small : new ≤ 10240) where
  -- The first loop is followed by the second, which has nothing to do, and by the new size.
  after_growing :
      (r : Status × Mem)
      → grow_to (suc k) (suc k) oi (size_of oi m) new m ≡ some r
      → Grown oi (size_of oi m) m (ospfs_size2nblocks new) r
      → (s : Status × Mem) × (change_size (suc k) oi new m ≡ some s) × GrowOutcome oi new m s
  unfolding change_size
  after_growing (ok, m1) e (inl (done, n, kept)) =
      let m2 : Mem = store32 m1 (oi_size oi) new in
      (
        (ok, m2),
        rw (e, shrink_to_done k (suc k) oi (size_of oi m) new m1 (omega arith)),
        inl (
          refl,
          omega (arith, load32-store32 m1 oi new),
          λ i h. load32-store32_ne m1 oi new (oi_direct oi i) (inl (omega arith)) ∙ kept.slots i h,
        ),
      )
  after_growing (ok, m1) e (inr (failed, like)) = cc
  after_growing (err x, m1) e (inl (done, n, kept)) = cc
  after_growing (err x, m1) e (inr out) = ((err x, m1), rw e, inr out)

-- For an inode behind the bitmap with a size of at most 10240, on a disk of at most 2^22 blocks,
-- and a new size of at most 10240 and of no fewer blocks, change_size ends with fuel for eleven
-- rounds. Either it succeeds, the file has the new size and its old blocks stay; or it is -ENOSPC,
-- and the size, the old blocks and the free map are as before.
pub change_size_grow :
    (fuel oi new : ℕ) (m : Mem)
    → Ready oi m
    → new ≤ 10240
    → ospfs_size2nblocks (size_of oi m) ≤ ospfs_size2nblocks new
    → 11 ≤ fuel
    → (r : Status × Mem) × (change_size fuel oi new m ≡ some r) × GrowOutcome oi new m r
change_size_grow zero oi new m ready small le enough = absurd (omega arith)
change_size_grow (suc k) oi new m ready small le enough =
    let top = blocks-size new small in
    let old : ℕ = size_of oi m in
    let (r, e, outcome) =
      grow_to_lem (suc k) oi old new m small (suc k) m ready (omega arith) le (omega (arith, top.0))
        (omega (arith, top.0)) (record { slots = λ i h. refl; low = Same-refl 0 2048 m })
        (CanUndo-start oi old m refl) in
    after_growing k oi new m small r e outcome
