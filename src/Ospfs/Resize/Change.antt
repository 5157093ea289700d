-- ===== src/Ospfs/Resize/Change.antt =====
-- lab3/ospfsmod.c, `change_size`. Each `while` runs on fuel, and `none` means that the fuel ran out.
use cs111winter.Base.{ℕ, zero, suc, true, false, Option, none, some, ltb}
pub mod Back
pub mod Grow
pub mod Total
use mathlib.Core.Option
use cs111winter.Ospfs.Mem.{Mem, Ptr, load32, store32}
use cs111winter.Ospfs.Layout.{oi_size, ospfs_size2nblocks}
use cs111winter.Ospfs.Resize.{Errno, enospc, Status, ok, err, add_block, remove_block}

abbrev blocks : Ptr → Mem → ℕ
blocks oi m = ospfs_size2nblocks (load32 m (oi_size oi))

-- The inner loops that go back to the old number of blocks.
pub shrink_back : ℕ → Ptr → (old : ℕ) → Mem → Option Mem
shrink_back zero oi old m = none
shrink_back (suc k) oi old m = elim (ltb (ospfs_size2nblocks old) (blocks oi m)) [
  | true ↦ shrink_back k oi old (remove_block oi m).1
  | false ↦ some m
]

pub grow_back : ℕ → Ptr → (old : ℕ) → Mem → Option Mem
grow_back zero oi old m = none
grow_back (suc k) oi old m = elim (ltb (blocks oi m) (ospfs_size2nblocks old)) [
  | true ↦ grow_back k oi old (add_block oi m).1
  | false ↦ some m
]

-- What follows a failed `add_block` or `remove_block`: only -ENOSPC goes back.
pub give_up : (Mem → Option Mem) → Errno → Mem → Option (Status × Mem)
give_up back enospc m = Option.map (λ m'. (err enospc, m')) (back m)
give_up back e m = some (err e, m)

pub grow_to : ℕ → (fuel : ℕ) → Ptr → (old new : ℕ) → Mem → Option (Status × Mem)
unfolding shrink_back give_up
grow_to zero fuel oi old new m = none
grow_to (suc k) fuel oi old new m = elim (ltb (blocks oi m) (ospfs_size2nblocks new)) [
  | true ↦ elim ((add_block oi m).0) [
    | ok ↦ grow_to k fuel oi old new (add_block oi m).1
    | err e ↦ give_up (shrink_back fuel oi old) e (add_block oi m).1
  ]
  | false ↦ some (ok, m)
]

pub shrink_to : ℕ → (fuel : ℕ) → Ptr → (old new : ℕ) → Mem → Option (Status × Mem)
unfolding grow_back give_up
shrink_to zero fuel oi old new m = none
shrink_to (suc k) fuel oi old new m = elim (ltb (ospfs_size2nblocks new) (blocks oi m)) [
  | true ↦ elim ((remove_block oi m).0) [
    | ok ↦ shrink_to k fuel oi old new (remove_block oi m).1
    | err e ↦ give_up (grow_back fuel oi old) e (remove_block oi m).1
  ]
  | false ↦ some (ok, m)
]

-- A loop that failed is the end of the function.
abbrev pub then_do : Option (Status × Mem) → (Mem → Option (Status × Mem)) → Option (Status × Mem)
then_do none k = none
then_do (some (ok, m)) k = k m
then_do (some (err e, m)) k = some (err e, m)

unfoldable pub change_size : (fuel : ℕ) → Ptr → (new_size : ℕ) → Mem → Option (Status × Mem)
unfolding grow_to shrink_to
change_size fuel oi new_size m =
    let old_size = load32 m (oi_size oi) in
    then_do (grow_to fuel fuel oi old_size new_size m) λ m1.
      then_do (shrink_to fuel fuel oi old_size new_size m1)
        λ m2. some (ok, store32 m2 (oi_size oi) new_size)
