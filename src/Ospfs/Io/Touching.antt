-- ===== src/Ospfs/Io/Touching.antt =====
-- What a write to a flat file changes, and how two writes in a row are one.
use cs111winter.Base.{
  ℕ, ◌+◌, ◌-◌, ◌*◌, ◌%◌, ◌≤◌, ◌<◌, ◌≡◌, ◌≢◌, ◌⊎◌, inl, inr, refl, sym, ap, ◌∙◌, List, arith, length,
  get_or,
}
use native.Mathlib.Decide.{dec_lt}
use cs111winter.Ospfs.Mem.{Mem, Ptr, Same, load8, load32, store_bytes}
use cs111winter.Ospfs.Layout.{oi_size, ospfs_block, ospfs_inode_blockno, ospfs_inode_data}
use cs111winter.Ospfs.Io.{Uaccess}
use cs111winter.Ospfs.Io.Laws.{file_byte, inode_blockno-same}
use cs111winter.Ospfs.Io.Placing.{
  block_place, store_bytes_outside, store_bytes-get_or, IsFlat, size-Same, blockno-Same, data-Same,
  IsFlat-Same, data_place, data-injective,
}

module _ (ua : Uaccess) where
  open ua use {User, copy_from_user}

  -- What the kernel says of `copy_from_user`: no more bytes arrive than were asked for, and if all
  -- were copied, they are those of the user's memory.
  pub record IsFetch (peek : User → ℕ → ℕ) : Type 0 where
    pub short : (u : User) (src n : ℕ) → length (copy_from_user u src n).1 ≤ n
    pub whole :
        (u : User) (src n : ℕ)
        → (copy_from_user u src n).0 ≡ 0
        → length (copy_from_user u src n).1 ≡ n
    pub fetched :
        (u : User) (src n i : ℕ)
        → (copy_from_user u src n).0 ≡ 0
        → i < n
        → get_or (copy_from_user u src n).1 i 0 ≡ peek u (src + i)

-- From `m` to `m'` only bytes of the file at the `n` offsets from `f_pos` on have changed.
pub record Touches (m : Mem) (oi : Ptr) (f_pos n : ℕ) (m' : Mem) : Type 0 where
  pub inode : Same oi 64 m m'
  pub spares :
      (a : Ptr)
      → ((off : ℕ)
          → f_pos ≤ off
          → off < f_pos + n
          → ospfs_inode_blockno m oi off ≢ 0
          → a ≢ ospfs_inode_data m oi off)
      → m' a ≡ m a

pub Touches-none : (m : Mem) (oi : Ptr) (f_pos n : ℕ) → Touches m oi f_pos n m
Touches-none m oi f_pos n = record {
  inode = record { keeps = λ x lo hi. refl };
  spares = λ a out. refl;
}

pub Touches-join :
    {m m1 m2 : Mem} {oi : Ptr} {f_pos n k : ℕ}
    → load32 m (oi_size oi) ≤ 10240
    → Touches m oi f_pos n m1
    → Touches m1 oi (f_pos + n) k m2
    → Touches m oi f_pos (n + k) m2
Touches-join {m} {m1} {m2} {oi} {f_pos} {n} {k} small p q = record {
  inode = record { keeps = λ x lo hi. q.inode.keeps x lo hi ∙ p.inode.keeps x lo hi };
  spares = λ a out.
      q.spares a (λ off lo hi ne same.
        let b = blockno-Same p.inode off small in
        let d = data-Same p.inode off small in
        out off (omega arith) (omega arith) (rw (← b) ne) (same ∙ d))
      ∙ p.spares a (λ off lo hi. out off (omega arith) (omega arith));
}

pub Touches-widen :
    {m m1 : Mem} {oi : Ptr} {f_pos n k : ℕ}
    → n ≤ k
    → Touches m oi f_pos n m1
    → Touches m oi f_pos k m1
Touches-widen h t = record {
  inode = t.inode;
  spares = λ a out. t.spares a (λ off lo hi. out off lo (omega arith));
}

-- The `n` bytes from `f_pos` on lie in one block.
module _ (m : Mem) (oi : Ptr) (f_pos n : ℕ) (f : IsFlat m oi)
    (fits : f_pos + n ≤ load32 m (oi_size oi)) (some' : 0 < n) (in_block : f_pos % 1024 + n ≤ 1024)
    (here : ospfs_inode_blockno m oi f_pos ≢ 0) where
  abbrev pub base : Ptr
  base = ospfs_block (ospfs_inode_blockno m oi f_pos) + f_pos % 1024

  base_place : base ≡ 1024 * ospfs_inode_blockno m oi f_pos + f_pos % 1024
  base_place =
      ap (λ b. b + f_pos % 1024)
        (block_place (ospfs_inode_blockno m oi f_pos) (f.placed f_pos (omega arith) here).0)

  pub chunk_place :
      (i : ℕ)
      → i < n
      → (ospfs_inode_blockno m oi (f_pos + i) ≢ 0) × (ospfs_inode_data m oi (f_pos + i) ≡ base + i)
  chunk_place i h =
      let same =
        inode_blockno-same m oi (f_pos + i) f_pos (omega arith) (omega arith) (omega arith) in
      let there : ospfs_inode_blockno m oi (f_pos + i) ≢ 0 = rw same here in
      let part : (f_pos + i) % 1024 ≡ f_pos % 1024 + i = omega arith in
      let at = base_place in
      (there, data_place m oi (f_pos + i) f (omega arith) there ∙ rw (same, part, at) (omega arith))

  module _ (xs : List ℕ) (short : length xs ≤ n) where
    pub stored-Touches : Touches m oi f_pos n (store_bytes m base xs)
    stored-Touches =
        let at = base_place in
        let apart = (f.placed f_pos (omega arith) here).1 in
        record {
          inode = record { keeps = λ x lo hi. store_bytes_outside xs m base x (ground arith) };
          spares = λ a out. store_bytes_outside xs m base a (elim (dec_lt a base) [
            | yes low ↦ inl low
            | no high ↦ elim (dec_lt a (base + n)) [
              | yes within ↦
                  let (there, place) = chunk_place (a - base) (omega arith) in
                  absurd (out (f_pos + (a - base)) (omega arith) (omega arith) there (omega arith))
              | no above ↦ inr (omega arith)
            ]
          ]);
        }

    pub stored_at :
        (i : ℕ)
        → i < length xs
        → file_byte (store_bytes m base xs) oi (f_pos + i) ≡ get_or xs i 0 % 256
    stored_at i h =
        let (there, place) = chunk_place i (omega arith) in
        let same = data-Same stored-Touches.inode (f_pos + i) f.size in
        ap (load8 (store_bytes m base xs)) (same ∙ place) ∙ store_bytes-get_or xs m base i h

-- A write of `n` bytes that succeeded: the bytes of the file are the user's.
pub record IsWrite {User : Type 0} (peek : User → ℕ → ℕ) (m : Mem) (oi : Ptr) (u : User)
    (buffer n f_pos : ℕ) (m' : Mem) : Type 0 where
  pub touches : Touches m oi f_pos n m'
  pub content : (i : ℕ) → i < n → file_byte m' oi (f_pos + i) ≡ peek u (buffer + i) % 256
  pub present : (i : ℕ) → i < n → ospfs_inode_blockno m oi (f_pos + i) ≢ 0

-- A byte of the file outside the range is kept.
pub file_byte-Touches :
    {m m' : Mem} {oi : Ptr} {f_pos n : ℕ} (off : ℕ)
    → Touches m oi f_pos n m'
    → IsFlat m oi
    → f_pos + n ≤ load32 m (oi_size oi)
    → off < load32 m (oi_size oi)
    → ospfs_inode_blockno m oi off ≢ 0
    → (off < f_pos) ⊎ (f_pos + n ≤ off)
    → file_byte m' oi off ≡ file_byte m oi off
unfolding load8
file_byte-Touches {m} {m'} {oi} {f_pos} {n} off t f fits within here out =
    let same = data-Same t.inode off f.size in
    let kept = t.spares (ospfs_inode_data m oi off) (λ off' lo hi ne e.
      let clash = data-injective m oi off off' f within (omega arith) here e in
      absurd (omega arith)) in
    ap (load8 m') same ∙ ap (λ (v : ℕ). v % 256) kept

module _ {User : Type 0} (peek : User → ℕ → ℕ) (oi : Ptr) (u : User) where
  pub IsWrite-join :
      {m m1 m2 : Mem} {buffer n k f_pos : ℕ}
      → IsFlat m oi
      → f_pos + (n + k) ≤ load32 m (oi_size oi)
      → IsWrite peek m oi u buffer n f_pos m1
      → IsWrite peek m1 oi u (buffer + n) k (f_pos + n) m2
      → IsWrite peek m oi u buffer (n + k) f_pos m2
  IsWrite-join {m} {m1} {m2} {buffer} {n} {k} {f_pos} f fits p q = record {
    touches = Touches-join f.size p.touches q.touches;
    content = λ i h. elim (dec_lt i n) [
      | yes lo ↦
          let size' = size-Same p.touches.inode in
          let b = blockno-Same p.touches.inode (f_pos + i) f.size in
          file_byte-Touches (f_pos + i) q.touches (IsFlat-Same p.touches.inode f) (omega arith)
            (omega arith) (rw b (p.present i lo)) (inl (omega arith))
          ∙ p.content i lo
      | no hi ↦
          let b : buffer + n + (i - n) ≡ buffer + i = omega arith in
          let at : f_pos + n + (i - n) ≡ f_pos + i = omega arith in
          ap (file_byte m2 oi) (sym at)
          ∙ q.content (i - n) (omega arith)
          ∙ ap (λ a. peek u a % 256) b
    ];
    present = λ i h. elim (dec_lt i n) [
      | yes lo ↦ p.present i lo
      | no hi ↦
          let at : f_pos + n + (i - n) ≡ f_pos + i = omega arith in
          let b = blockno-Same p.touches.inode (f_pos + i) f.size in
          rw (← b) (rw (← at) (q.present (i - n) (omega arith)))
    ];
  }
