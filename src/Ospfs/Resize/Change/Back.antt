-- ===== src/Ospfs/Resize/Change/Back.antt =====
-- Going back after a failed growth of a file of direct blocks, one round at a time.
use cs111winter.Base.{
  ℕ, suc, ◌+◌, ◌-◌, ◌^◌, ◌≤◌, ◌<◌, ◌≡◌, refl, ap, ◌∙◌, true, false, some, arith, ltb,
}
use mathlib.Core.Path.{subst₂}
use cs111winter.Ospfs.Mem.{Mem, Ptr, Same, load32-Same, Same-trans, Same-sub, Same-refl}
use cs111winter.Ospfs.Layout.{os_nblocks, ospfs_size2nblocks}
use cs111winter.Ospfs.Alloc.{is_free}
use cs111winter.Ospfs.Resize.{remove_block}
use cs111winter.Ospfs.Resize.Direct.{IsPlaced, size_of, slot_of, Added}
use cs111winter.Ospfs.Resize.Removal.{Removed, remove_block_direct}
use cs111winter.Ospfs.Resize.Change.{blocks, shrink_back}

-- `m'` has the size, the first `n` direct blocks and the free map that `m` has at `oi`.
pub record Like (oi n : ℕ) (m m' : Mem) : Type 0 where
  pub size : size_of oi m' ≡ size_of oi m
  pub slots : (i : ℕ) → i < n → slot_of oi m' i ≡ slot_of oi m i
  pub map_same : (j : ℕ) → j < os_nblocks m → is_free m' j ≡ is_free m j
  pub low : Same 0 2048 m m'

pub Like-refl : (oi n : ℕ) (m : Mem) → Like oi n m m
Like-refl oi n m = record {
  size = refl;
  slots = λ i h. refl;
  map_same = λ j h. refl;
  low = Same-refl 0 2048 m;
}

pub os_nblocks-Same : {m m' : Mem} → Same 0 2048 m m' → os_nblocks m' ≡ os_nblocks m
os_nblocks-Same s = load32-Same 1028 (Same-sub (omega arith) (omega arith) s)

-- Taking away the block that was just added, in a memory that is like the one after the addition,
-- leads to one that is like the one before.
Removed-Added :
    (oi n b : ℕ) (m m1 m2 m3 : Mem)
    → size_of oi m ≤ 9216
    → Added oi n m b m1
    → Like oi (n + 1) m1 m2
    → Removed oi n m2 b m3
    → Like oi n m m3
Removed-Added oi n b m m1 m2 m3 small a l r =
    let nb1 : os_nblocks m1 ≡ os_nblocks m = os_nblocks-Same a.low in
    let nb2 : os_nblocks m2 ≡ os_nblocks m1 = os_nblocks-Same l.low in
    record {
      size = omega (arith, a.size, l.size, r.size);
      slots = λ i h. r.others i (omega arith) ∙ l.slots i (omega arith) ∙ a.others i (omega arith);
      map_same = λ j h.
          r.map_after j (omega arith)
          ∙ ground (arith, l.map_same j, a.map_after j, a.was_free, ap (is_free m) {x = b} {y = j});
      low = Same-trans a.low (Same-trans l.low r.low);
    }

-- What the size says of the number of blocks, for a file of direct blocks.
pub blocks-size :
    (size : ℕ)
    → size ≤ 10240
    → (ospfs_size2nblocks size < 11)
      × (ospfs_size2nblocks size < 10 → size ≤ 9216)
      × (0 < ospfs_size2nblocks size → 0 < size)
      × (ospfs_size2nblocks (size + 1024) ≡ ospfs_size2nblocks size + 1)
unfolding ospfs_size2nblocks
blocks-size size h = (omega arith, λ k. omega arith, λ k. omega arith, omega arith)

pub record Ready (oi : Ptr) (m : Mem) : Type 0 where
  pub placed : IsPlaced oi m
  pub fits : os_nblocks m ≤ 2 ^ 22
  pub small : size_of oi m ≤ 10240

pub Ready-Same :
    {oi : Ptr} {m m' : Mem} → Ready oi m → Same 0 2048 m m' → size_of oi m' ≤ 10240 → Ready oi m'
Ready-Same {oi} {m} {m'} r low small =
    let e : os_nblocks m' ≡ os_nblocks m = os_nblocks-Same low in
    record { placed = rw e r.placed; fits = rw e r.fits; small = small }

-- One round of each loop.
pub shrink_back_stop :
    (f : ℕ) (oi old : ℕ) (m : Mem)
    → blocks oi m ≤ ospfs_size2nblocks old
    → shrink_back (suc f) oi old m ≡ some m
unfolding shrink_back
shrink_back_stop f oi old m h =
    let e : ltb (ospfs_size2nblocks old) (blocks oi m) ≡ false = ground arith in rw (e, shrink_back)

pub shrink_back_go :
    (f : ℕ) (oi old : ℕ) (m : Mem)
    → ospfs_size2nblocks old < blocks oi m
    → shrink_back (suc f) oi old m ≡ shrink_back f oi old (remove_block oi m).1
unfolding shrink_back
shrink_back_go f oi old m h =
    let e : ltb (ospfs_size2nblocks old) (blocks oi m) ≡ true = ground arith in rw (e, shrink_back)

abbrev last_of : Ptr → Mem → ℕ
last_of oi m = blocks oi m - 1

module _ {oi b : ℕ} {m m1 m2 : Mem} (ready : Ready oi m) (small : size_of oi m ≤ 9216) where
  -- After an addition, in a memory like the one it led to, a removal goes back.
  pub back_round :
      Added oi (blocks oi m) m b m1
      → Like oi (blocks oi m1) m1 m2
      → Like oi (blocks oi m) m (remove_block oi m2).1
  back_round a l =
      let size = blocks-size (size_of oi m) ready.small in
      let e1 : blocks oi m1 ≡ blocks oi m + 1 = ap ospfs_size2nblocks a.size ∙ size.3 in
      let e2 : blocks oi m2 ≡ blocks oi m1 = ap ospfs_size2nblocks l.size in
      let at_last : last_of oi m2 ≡ blocks oi m = omega arith in
      let here : slot_of oi m2 (last_of oi m2) ≡ b =
        rw at_last (l.slots (blocks oi m) (omega arith) ∙ a.slot) in
      let r2 : Ready oi m2 =
        Ready-Same ready (Same-trans a.low l.low) (omega (arith, a.size, l.size)) in
      let nb : os_nblocks m2 ≡ os_nblocks m = os_nblocks-Same (Same-trans a.low l.low) in
      let above = a.above in
      let below = a.below in
      let out =
        remove_block_direct oi m2 r2.placed (omega (arith, a.size, l.size)) r2.small (omega arith)
          (omega arith) in
      Removed-Added oi (blocks oi m) b m m1 m2 (remove_block oi m2).1 small a (rw (← e1) l)
        (subst₂ (λ k c. Removed oi k m2 c (remove_block oi m2).1) at_last here out.1)
