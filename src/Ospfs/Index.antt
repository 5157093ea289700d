-- ===== src/Ospfs/Index.antt =====
-- lab3/ospfsmod.c: the three functions that say where block `b` of a file is recorded. An
-- `int32_t` is its bit pattern, so -1 is 2^32 - 1.
use cs111winter.Base.{minus_one, ℕ, ◌+◌, ◌-◌, ◌/◌, ◌%◌, ◌^◌, ltb, if◌then◌else◌}
pub mod Laws
use cs111winter.Ospfs.Layout.{ndirect, nindirect}

unfoldable pub indir2_index : ℕ → ℕ
indir2_index b = if ltb (ndirect + nindirect) b then 0 else minus_one

unfoldable pub indir_index : ℕ → ℕ
indir_index b =
    if ltb b ndirect
    then minus_one
    else if ltb b (ndirect + nindirect)
    then 0
    else (b - ndirect - nindirect) / nindirect

-- The difference in the last line wraps in `uint32_t`.
unfoldable pub direct_index : ℕ → ℕ
direct_index b =
    if ltb b ndirect
    then b
    else if ltb b nindirect
    then b - ndirect
    else (b + 2 ^ 32 - ndirect - nindirect) % 2 ^ 32 % nindirect
