-- ===== src/Ospfs/Resize/Change/Grow.antt =====
-- The first loop of `change_size` on a file of direct blocks.
use cs111winter.Base.{
  ℕ, zero, suc, ◌+◌, ◌≤◌, ◌<◌, ◌≡◌, ◌⊎◌, inl, inr, refl, ap, ◌∙◌, true, false, Option, some, arith,
  ltb,
}
use native.Mathlib.Decide.{dec_lt}
use cs111winter.Ospfs.Mem.{Mem, Same, Same-trans}
use cs111winter.Ospfs.Layout.{ospfs_size2nblocks}
use cs111winter.Ospfs.Resize.{enospc, Status, ok, err, add_block, remove_block}
use cs111winter.Ospfs.Resize.Direct.{size_of, slot_of, Added, add_block_direct}
use cs111winter.Ospfs.Resize.Change.{blocks, shrink_back, grow_to, give_up}
use cs111winter.Ospfs.Resize.Change.Back.{
  Like, Like-refl, Ready, Ready-Same, blocks-size, shrink_back_stop, shrink_back_go, back_round,
}

module _ (oi old : ℕ) (m0 : Mem) where
  abbrev pub n0 : ℕ
  n0 = ospfs_size2nblocks old

  -- The loop that goes back ends, in a memory like `m0`.
  abbrev pub Undone : Option Mem → Type 0
  Undone r = (m' : Mem) × (r ≡ some m') × Like oi n0 m0 m'

  -- From any memory like `m` it does so.
  abbrev pub CanUndo : Mem → Type 0
  CanUndo m =
      (f : ℕ) (m2 : Mem)
      → blocks oi m < n0 + f
      → Like oi (blocks oi m) m m2
      → Undone (shrink_back f oi old m2)

  pub CanUndo-start : size_of oi m0 ≡ old → CanUndo m0
  CanUndo-start e zero m2 fuel l = absurd (omega (arith, ap ospfs_size2nblocks e))
  CanUndo-start e (suc f) m2 fuel l =
      let e0 : blocks oi m0 ≡ n0 = ap ospfs_size2nblocks e in
      let e2 : blocks oi m2 ≡ n0 = ap ospfs_size2nblocks (l.size ∙ e) in
      (m2, shrink_back_stop f oi old m2 (omega arith), rw (← e0) l)

  CanUndo-Added :
      {b : ℕ} {m m1 : Mem}
      → Ready oi m
      → size_of oi m ≤ 9216
      → n0 ≤ blocks oi m
      → Added oi (blocks oi m) m b m1
      → CanUndo m
      → CanUndo m1
  CanUndo-Added {b} {m} {m1} ready small le a undo f m2 fuel l = more f fuel
    where
      e1 : blocks oi m1 ≡ blocks oi m + 1
      e1 = ap ospfs_size2nblocks a.size ∙ (blocks-size (size_of oi m) ready.small).3

      e2 : blocks oi m2 ≡ blocks oi m1
      e2 = ap ospfs_size2nblocks l.size

      more : (k : ℕ) → blocks oi m1 < n0 + k → Undone (shrink_back k oi old m2)
      more zero h = absurd (omega (arith, e1))
      more (suc k) h =
          rw (shrink_back_go k oi old m2 (omega (arith, e1, e2)))
            (undo k (remove_block oi m2).1 (omega (arith, e1)) (back_round ready small a l))

  -- What a loop that grows has left alone.
  pub record Kept (m : Mem) : Type 0 where
    pub slots : (i : ℕ) → i < n0 → slot_of oi m i ≡ slot_of oi m0 i
    pub low : Same 0 2048 m0 m

  -- The outcomes of growing to `n` blocks: it is done, or the disk is full and all is as before.
  abbrev pub Grown : ℕ → Status × Mem → Type 0
  Grown n r =
      ((r.0 ≡ ok) × (blocks oi r.1 ≡ n) × Kept r.1) ⊎ ((r.0 ≡ err enospc) × Like oi n0 m0 r.1)

module _ (k fuel : ℕ) (oi old new : ℕ) (m : Mem) where
  grow_to_done :
      ospfs_size2nblocks new ≤ blocks oi m → grow_to (suc k) fuel oi old new m ≡ some (ok, m)
  unfolding grow_to
  grow_to_done h =
      let e : ltb (blocks oi m) (ospfs_size2nblocks new) ≡ false = ground arith in rw (e, grow_to)

  module _ (h : blocks oi m < ospfs_size2nblocks new) where
    more_to_do : ltb (blocks oi m) (ospfs_size2nblocks new) ≡ true
    more_to_do = ground arith

    grow_to_go :
        (add_block oi m).0 ≡ ok
        → grow_to (suc k) fuel oi old new m ≡ grow_to k fuel oi old new (add_block oi m).1
    unfolding grow_to
    grow_to_go e = rw (more_to_do, e, grow_to)

    grow_to_full :
        (m' : Mem)
        → (add_block oi m).0 ≡ err enospc
        → shrink_back fuel oi old (add_block oi m).1 ≡ some m'
        → grow_to (suc k) fuel oi old new m ≡ some (err enospc, m')
    unfolding grow_to give_up
    grow_to_full m' e back = rw (more_to_do, e, back, grow_to)

module _ (fuel oi old new : ℕ) (m0 : Mem) (small : new ≤ 10240) where
  abbrev pub goal : ℕ
  goal = ospfs_size2nblocks new

  abbrev pub GrowsTo : Option (Status × Mem) → Type 0
  GrowsTo o = (r : Status × Mem) × (o ≡ some r) × Grown oi old m0 goal r

  -- From a memory on the way, with fuel for the rounds that are left.
  pub grow_to_lem :
      (k : ℕ) (m : Mem)
      → Ready oi m
      → n0 oi old m0 ≤ blocks oi m
      → blocks oi m ≤ goal
      → goal < blocks oi m + k
      → goal < n0 oi old m0 + fuel
      → Kept oi old m0 m
      → CanUndo oi old m0 m
      → GrowsTo (grow_to k fuel oi old new m)
  grow_to_lem zero m ready from below rounds enough kept undo = absurd (omega arith)
  grow_to_lem (suc k) m ready from below rounds enough kept undo =
      elim (dec_lt (blocks oi m) goal) [
        | no done ↦
            ((ok, m), grow_to_done k fuel oi old new m (omega arith), inl (refl, omega arith, kept))
        | yes more ↦
            let sizes = blocks-size (size_of oi m) ready.small in
            let top = blocks-size new small in
            let room : size_of oi m ≤ 9216 = sizes.1 (omega arith) in
            elim (add_block_direct oi m ready.placed ready.fits room) [
              | inl full ↦
                  let (m', e, like) =
                    undo fuel (add_block oi m).1 (omega arith)
                      (rw full.1 (Like-refl oi (blocks oi m) m)) in
                  (
                    (err enospc, m'),
                    grow_to_full k fuel oi old new m more m' full.0 e,
                    inr (refl, like),
                  )
              | inr (done, a) ↦
                  let m1 : Mem = (add_block oi m).1 in
                  let e1 : blocks oi m1 ≡ blocks oi m + 1 =
                    ap ospfs_size2nblocks a.size ∙ sizes.3 in
                  rw (grow_to_go k fuel oi old new m more done) (
                    grow_to_lem k m1 (Ready-Same ready a.low (omega (arith, a.size))) (omega arith)
                      (omega arith) (omega arith) enough
                      (record {
                        slots = λ i h. a.others i (omega arith) ∙ kept.slots i h;
                        low = Same-trans kept.low a.low;
                      })
                      (CanUndo-Added oi old m0 ready room from a undo))
            ]
      ]
