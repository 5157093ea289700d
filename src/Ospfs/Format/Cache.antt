-- ===== src/Ospfs/Format/Cache.antt =====
-- lab3/ospfsformat.c: getblk and putblk with the cache of 16 blocks in front of the file that is the
-- disk. The file has its full length; flushb swizzles there and back, which changes nothing.
use cs111winter.Base.{
  ℕ, zero, suc, ◌+◌, ◌-◌, ◌*◌, ◌/◌, ◌%◌, ◌^◌, Bool, true, false, ◌&&◌, ◌||◌, not, Option, none,
  some, ◌==◌, ltb, leb, if◌then◌else◌,
}
pub mod View
pub mod Getblk
use cs111winter.Ospfs.Format.Swizzle.{
  BlockType, block_super, block_dir, block_file, block_bits, block_inodes,
}

-- `struct Block`, with its 1024 bytes by their offset.
pub record Block : Type 0 where
  pub bno : ℕ
  pub type_of : BlockType
  pub busy : ℕ
  pub used : ℕ
  pub bytes : ℕ → ℕ

-- The cache, the file, and the counter `t` of getblk. `t` and `used` are fixed-width integers in the
-- source; one run formats a disk of at most 8192 blocks, and does not count as far as they wrap.
pub record Cached : Type 0 where
  pub blocks : ℕ → Block
  pub file : ℕ → ℕ
  pub t : ℕ

abbrev pub nelem : ℕ
nelem = 16

abbrev pub put : ℕ → Block → (ℕ → Block) → ℕ → Block
put i b blocks j = if j == i then b else blocks j

-- The first of the `k` blocks from `i` on that holds block `bno` of the disk.
unfoldable pub find_block : ℕ → ℕ → (ℕ → Block) → (bno : ℕ) → Option ℕ
find_block zero i blocks bno = none
find_block (suc k) i blocks bno =
    let rest = find_block k (i + 1) blocks bno in if (blocks i).bno == bno then some i else rest

-- `least == -1 || cache[i].used < cache[least].used`
abbrev pub is_less : (ℕ → Block) → ℕ → Option ℕ → Bool
is_less blocks i none = true
is_less blocks i (some least) = ltb (blocks i).used (blocks least).used

-- The block that is not busy and was used least recently, among `least` and the `k` from `i` on.
unfoldable pub least_used : ℕ → ℕ → (ℕ → Block) → Option ℕ → Option ℕ
least_used zero i blocks least = least
least_used (suc k) i blocks least =
    least_used k (i + 1) blocks
      (if ((blocks i).busy == 0) && is_less blocks i least then some i else least)

-- `flushb`
unfoldable pub flushb : Block → (ℕ → ℕ) → ℕ → ℕ
flushb b file a = if a / 1024 == b.bno then b.bytes (a % 1024) else file a

abbrev pub same_type : BlockType → BlockType → Bool
same_type block_super block_super = true
same_type block_dir block_dir = true
same_type block_file block_file = true
same_type block_bits block_bits = true
same_type block_inodes block_inodes = true
same_type _ _ = false

-- From `out` on, for the block `b` at index `i`; `none` is the failed assertion.
unfoldable pub hand_out : ℕ → Block → (clr : Bool) → BlockType → Cached → Option (ℕ × Cached)
hand_out i b clr type c =
    let taken : Block = record b {
      type_of = type;
      busy = b.busy + 1;
      used = c.t + 1;
      bytes = if clr then (λ o. 0) else b.bytes;
    } in
    if same_type b.type_of type || (b.busy == 0)
    then some (i, record c { blocks = put i taken c.blocks; t = c.t + 1 })
    else none

-- A block that is not in the cache takes the place of the block at index `i`.
unfoldable pub load_block : ℕ → (bno : ℕ) (clr : Bool) → BlockType → Cached → Option (ℕ × Cached)
unfolding hand_out flushb
load_block i bno clr type c =
    let old : Block = c.blocks i in
    let flushed : ℕ → ℕ = if old.used == 0 then c.file else flushb old c.file in
    hand_out i
      (record old { bno = bno; type_of = type; busy = 0; bytes = λ o. flushed (1024 * bno + o) })
      clr type (record c { file = flushed })

-- `getblk`: the index of the block. `none` is the end of the program.
unfoldable pub getblk : (nblocks bno : ℕ) (clr : Bool) → BlockType → Cached → Option (ℕ × Cached)
unfolding hand_out load_block
getblk nblocks bno clr type c =
    if leb nblocks bno then none else (elim (find_block nelem 0 c.blocks bno) [
      | some i ↦ hand_out i (c.blocks i) clr type c
      | none ↦ elim (least_used nelem 0 c.blocks none) [
        | none ↦ none
        | some i ↦ load_block i bno clr type c
      ]
    ])

-- `putblk`
unfoldable pub putblk : ℕ → Cached → Cached
putblk i c = record c {
  blocks =
      put i (record (c.blocks i) { busy = ((c.blocks i).busy + 2 ^ 32 - 1) % 2 ^ 32 }) c.blocks;
}
