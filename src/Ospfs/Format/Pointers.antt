-- ===== src/Ospfs/Format/Pointers.antt =====
-- The blocks of pointers of a file: how ospfsformat makes them, and how the module follows them.
use cs111winter.Base.{
  ℕ, ◌+◌, ◌-◌, ◌*◌, ◌/◌, ◌%◌, ◌^◌, ◌≤◌, ◌<◌, ◌≡◌, ◌≢◌, inl, inr, refl, ◌∙◌, true, false, some,
  arith, ◌==◌, leb, Bool-cases,
}
use cs111winter.Ospfs.Mem.{
  Mem, Ptr, Apart, load8, load32, store32, load32-store32, load32-store32_ne, Same, load32-Same,
}
use cs111winter.Ospfs.Layout.{
  oi_size, oi_ftype, oi_direct, oi_indirect, oi_indirect2, block_word, ospfs_inode_blockno,
}
use cs111winter.Ospfs.Io.Placing.{block_place}
use cs111winter.Ospfs.Format.{Disk, fill_block, pointer_block}

-- A word outside a block that is cleared.
load32-fill_block :
    (m : Mem) (b a : ℕ)
    → b < 2 ^ 22
    → Apart (1024 * b) 1024 a 4
    → load32 (fill_block b 0 m) a ≡ load32 m a
load32-fill_block m b a small apart =
    let place = block_place b small in load32-Same a (record { keeps = λ x lo hi. ground arith })

load32-zeros : (a : Ptr) → load32 (λ x. 0) a ≡ 0
unfolding load32 load8
load32-zeros a = refl

-- How `pointer_block` comes by its block: the word names one, or it is a new one, which is cleared.
pub data Source (slot : Ptr) (d : Disk) (b : ℕ) (d' : Disk) : Type 0 where
  old : load32 d.image slot ≢ 0 → b ≡ load32 d.image slot → d' ≡ d → Source slot d b d'
  new :
      b ≡ d.nextb
      → d'.nextb ≡ d.nextb + 1
      → ((i : ℕ) → i < 256 → load32 d'.image (block_word b i) ≡ 0)
      → Source slot d b d'

-- The word at `slot` names the block then, and other words before the blocks to come are kept.
pub record HasBlock (slot : Ptr) (d : Disk) (b : ℕ) (d' : Disk) : Type 0 where
  pub named : load32 d'.image slot ≡ b
  pub source : Source slot d b d'
  pub keeps :
      (a : Ptr) → a + 4 ≤ 1024 * d.nextb → Apart slot 4 a 4 → load32 d'.image a ≡ load32 d.image a

-- A word of a block that is cleared.
fill_block-zero :
    (m : Mem) (b i : ℕ) → b < 2 ^ 22 → i < 256 → load32 (fill_block b 0 m) (block_word b i) ≡ 0
fill_block-zero m b i small h =
    let place = block_place b small in
    let same : Same (block_word b i) 4 (λ a. 0) (fill_block b 0 m) = record {
      keeps = λ x lo hi. ground arith;
    } in
    load32-Same (block_word b i) same ∙ load32-zeros (block_word b i)

pub pointer_block_lem :
    (nblocks ninodes : ℕ) (d : Disk) (slot : Ptr)
    → (d.nextb < nblocks) × (nblocks ≤ 8192)
    → slot + 4 ≤ 1024 * d.nextb
    → (load32 d.image slot ≢ 0 → load32 d.image slot < d.nextb)
    → (b : ℕ) × (d' : Disk) × (pointer_block nblocks ninodes slot d ≡ some (b, d'))
      × HasBlock slot d b d'
unfolding pointer_block
pointer_block_lem nblocks ninodes d slot room before known =
    elim (Bool-cases (load32 d.image slot == 0)) [
      | inl none' ↦
          let free : leb nblocks d.nextb ≡ false = ground arith in
          let cleared : Mem = fill_block d.nextb 0 d.image in
          let place = block_place d.nextb (omega arith) in
          (
            d.nextb,
            record {
              image = store32 cleared slot d.nextb;
              nextb = d.nextb + 1;
              nextinode = d.nextinode;
            },
            rw (none', free, pointer_block) refl,
            record {
              named = load32-store32 cleared slot d.nextb ∙ omega arith;
              source = new refl refl (λ i h.
                  load32-store32_ne cleared slot d.nextb (block_word d.nextb i) (omega arith)
                  ∙ fill_block-zero d.image d.nextb i (omega arith) h);
              keeps = λ a h apart.
                  load32-store32_ne cleared slot d.nextb a apart
                  ∙ load32-fill_block d.image d.nextb a (omega arith) (inr h);
            },
          )
      | inr some' ↦
          let used : leb nblocks (load32 d.image slot) ≡ false =
            let less = known (ground arith) in ground arith in
          (
            load32 d.image slot,
            d,
            rw (some', used, pointer_block) refl,
            record {
              named = refl;
              source = old (ground arith) refl refl;
              keeps = λ a h apart. refl;
            },
          )
    ]

-- The way of the module from an offset to a block.
module _ (m : Mem) (oi : Ptr) (off : ℕ) (within : leb (load32 m (oi_size oi)) off ≡ false)
    (ftype : (load32 m (oi_ftype oi) == 2) ≡ false) where
  pub find_direct :
      (n : ℕ) → n < 10 → off / 1024 ≡ n → ospfs_inode_blockno m oi off ≡ load32 m (oi_direct oi n)
  unfolding ospfs_inode_blockno
  find_direct n h e =
      let near : leb 10 n ≡ false = ground arith in
      let not_far : leb 266 n ≡ false = ground arith in rw (within, ftype, e, not_far, near) refl

  pub find_indirect :
      (n b : ℕ)
      → (10 ≤ n) × (n < 266)
      → off / 1024 ≡ n
      → load32 m (oi_indirect oi) ≡ b
      → ospfs_inode_blockno m oi off ≡ load32 m (block_word b (n - 10))
  unfolding ospfs_inode_blockno
  find_indirect n b h e at =
      let near : leb 10 n ≡ true = ground arith in
      let not_far : leb 266 n ≡ false = ground arith in
      rw (within, ftype, e, not_far, near, at) refl

  pub find_indirect2 :
      (n b1 b2 : ℕ)
      → (266 ≤ n) × (n < 65802)
      → off / 1024 ≡ n
      → load32 m (oi_indirect2 oi) ≡ b2
      → load32 m (block_word b2 ((n - 266) / 256)) ≡ b1
      → ospfs_inode_blockno m oi off ≡ load32 m (block_word b1 ((n - 266) % 256))
  unfolding ospfs_inode_blockno
  find_indirect2 n b1 b2 h e at2 at1 =
      let far : leb 266 n ≡ true = ground arith in rw (within, ftype, e, far, at2, at1) refl

-- After a word has been stored and then the size, the module reads the inode.
module _ (m : Mem) (oi : Ptr) (at v s off : ℕ) (h : off < s) (small : s < 2 ^ 32) where
  abbrev pub sized : Mem
  sized = store32 (store32 m at v) (oi_size oi) s

  pub sized-within : leb (load32 sized (oi_size oi)) off ≡ false
  sized-within = let size = load32-store32 (store32 m at v) (oi_size oi) s in ground arith

  pub sized-load : (a : Ptr) → Apart oi 4 a 4 → Apart at 4 a 4 → load32 sized a ≡ load32 m a
  sized-load a apart_size apart =
      load32-store32_ne (store32 m at v) (oi_size oi) s a apart_size
      ∙ load32-store32_ne m at v a apart

  pub sized-stored : Apart oi 4 at 4 → load32 sized at ≡ v % 2 ^ 32
  sized-stored apart =
      load32-store32_ne (store32 m at v) (oi_size oi) s at apart ∙ load32-store32 m at v
