-- ===== src/Ospfs/Io/Placing.antt =====
-- Where the bytes of a file lie, and what a copy into a block leaves of them.
use cs111winter.Base.{
  ℕ, zero, suc, ◌+◌, ◌*◌, ◌/◌, ◌%◌, ◌^◌, ◌≤◌, ◌<◌, ◌≡◌, ◌≢◌, ◌⊎◌, inl, inr, refl, sym, ap, ◌∙◌,
  true, false, List, [], ◌∷◌, arith, ◌==◌, leb, length, get_or, Bool-cases,
}
use cs111winter.Ospfs.Mem.{
  Mem, Ptr, Apart, Same, load8, store8, load32, store_bytes, load32-Same, Same-sub,
}
use cs111winter.Ospfs.Layout.{
  oi_size, oi_ftype, oi_direct, ospfs_block, ospfs_inode_blockno, ospfs_inode_data,
}

pub store_bytes_outside :
    (xs : List ℕ) (m : Mem) (a b : Ptr) → (b < a) ⊎ (a + length xs ≤ b) → store_bytes m a xs b ≡ m b
unfolding store_bytes store8
store_bytes_outside [] m a b out = refl
store_bytes_outside (x ∷ xs) m a b out =
    let here : store8 m a x b ≡ m b = ground arith in
    store_bytes_outside xs (store8 m a x) (a + 1) b (ground arith) ∙ here

pub store_bytes-get_or :
    (xs : List ℕ) (m : Mem) (a : Ptr) (i : ℕ)
    → i < length xs
    → load8 (store_bytes m a xs) (a + i) ≡ get_or xs i 0 % 256
unfolding store_bytes store8 load8
store_bytes-get_or [] m a i h = absurd (omega arith)
store_bytes-get_or (x ∷ xs) m a zero h =
    let here : store8 m a x (a + 0) ≡ x % 256 = ground arith in
    let kept = store_bytes_outside xs (store8 m a x) (a + 1) (a + 0) (inl (omega arith)) in
    ap (λ (v : ℕ). v % 256) (kept ∙ here) ∙ omega arith
store_bytes-get_or (x ∷ xs) m a (suc i) h =
    let there : a + 1 + i ≡ a + suc i = omega arith in
    rw (← there) (store_bytes-get_or xs (store8 m a x) (a + 1) i (omega arith))

-- A file of direct blocks that lie apart from its inode, no two of them at one place.
pub record IsFlat (m : Mem) (oi : Ptr) : Type 0 where
  pub size : load32 m (oi_size oi) ≤ 10240
  pub placed :
      (off : ℕ)
      → off < load32 m (oi_size oi)
      → ospfs_inode_blockno m oi off ≢ 0
      → (ospfs_inode_blockno m oi off < 2 ^ 22)
        × Apart (1024 * ospfs_inode_blockno m oi off) 1024 oi 64
  pub distinct :
      (off off' : ℕ)
      → off < load32 m (oi_size oi)
      → off' < load32 m (oi_size oi)
      → ospfs_inode_blockno m oi off ≢ 0
      → ospfs_inode_blockno m oi off ≡ ospfs_inode_blockno m oi off'
      → off / 1024 ≡ off' / 1024

module _ {m m' : Mem} {oi : Ptr} (same : Same oi 64 m m') where
  pub size-Same : load32 m' (oi_size oi) ≡ load32 m (oi_size oi)
  size-Same = load32-Same oi (Same-sub (omega arith) (omega arith) same)

  pub blockno-Same :
      (off : ℕ)
      → load32 m (oi_size oi) ≤ 10240
      → ospfs_inode_blockno m' oi off ≡ ospfs_inode_blockno m oi off
  unfolding ospfs_inode_blockno
  blockno-Same off small =
      let size' = size-Same in
      elim (Bool-cases (leb (load32 m (oi_size oi)) off)) [
        | inl past ↦
            let past' : leb (load32 m' (oi_size oi)) off ≡ true = ground arith in
            rw (past, past') refl
        | inr within ↦
            let within' : leb (load32 m' (oi_size oi)) off ≡ false = ground arith in
            let direct : leb 10 (off / 1024) ≡ false = ground arith in
            let not_far : leb 266 (off / 1024) ≡ false = ground arith in
            let near : off / 1024 < 10 = ground arith in
            let ftype = load32-Same (oi_ftype oi) (Same-sub (omega arith) (omega arith) same) in
            let slot =
              load32-Same (oi_direct oi (off / 1024)) (Same-sub (omega arith) (omega arith) same) in
            rw (within, within', direct, not_far, ftype, slot) refl
      ]

  pub data-Same :
      (off : ℕ)
      → load32 m (oi_size oi) ≤ 10240
      → ospfs_inode_data m' oi off ≡ ospfs_inode_data m oi off
  unfolding ospfs_inode_data
  data-Same off small = rw (blockno-Same off small) refl

  pub IsFlat-Same : IsFlat m oi → IsFlat m' oi
  IsFlat-Same f = record {
    size = rw size-Same f.size;
    placed = λ off h ne.
        let b = blockno-Same off f.size in
        let h' : off < load32 m (oi_size oi) = omega (arith, size-Same) in
        rw b (f.placed off h' (rw (← b) ne));
    distinct = λ off off' h h' ne e.
        let b = blockno-Same off f.size in
        let b' = blockno-Same off' f.size in
        let size' = size-Same in
        f.distinct off off' (omega arith) (omega arith) (rw (← b) ne) (sym b ∙ e ∙ b');
  }

-- Where a byte of a flat file lies.
pub data_place :
    (m : Mem) (oi : Ptr) (off : ℕ)
    → IsFlat m oi
    → off < load32 m (oi_size oi)
    → ospfs_inode_blockno m oi off ≢ 0
    → ospfs_inode_data m oi off ≡ 1024 * ospfs_inode_blockno m oi off + off % 1024
unfolding ospfs_inode_data ospfs_block
data_place m oi off f h ne = let small = (f.placed off h ne).0 in omega arith

pub block_place : (b : ℕ) → b < 2 ^ 22 → ospfs_block b ≡ 1024 * b
unfolding ospfs_block
block_place b small = omega arith

data_missing :
    (m : Mem) (oi : Ptr) (off : ℕ)
    → ospfs_inode_blockno m oi off ≡ 0
    → ospfs_inode_data m oi off ≡ off % 1024
unfolding ospfs_inode_data ospfs_block
data_missing m oi off e = rw e (omega arith)

-- Two bytes of it lie at different places.
pub data-injective :
    (m : Mem) (oi : Ptr) (off off' : ℕ)
    → IsFlat m oi
    → off < load32 m (oi_size oi)
    → off' < load32 m (oi_size oi)
    → ospfs_inode_blockno m oi off ≢ 0
    → ospfs_inode_data m oi off ≡ ospfs_inode_data m oi off'
    → off ≡ off'
data-injective m oi off off' f h h' ne same =
    elim (Bool-cases (ospfs_inode_blockno m oi off' == 0)) [
      | inl e ↦
          let p = data_place m oi off f h ne in
          let p' = data_missing m oi off' (ground arith) in absurd (omega arith)
      | inr e ↦
          let ne' : ospfs_inode_blockno m oi off' ≢ 0 = ground arith in
          let p = data_place m oi off f h ne in
          let p' = data_place m oi off' f h' ne' in
          let block : ospfs_inode_blockno m oi off ≡ ospfs_inode_blockno m oi off' = omega arith in
          let part = f.distinct off off' h h' ne block in omega arith
    ]
