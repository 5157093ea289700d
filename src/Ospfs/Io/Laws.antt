-- ===== src/Ospfs/Io/Laws.antt =====
-- The bytes of a file, and what it is to read them.
use cs111winter.Base.{
  true, ◌==◌, ℕ, zero, suc, ◌+◌, ◌/◌, ◌%◌, ◌≤◌, ◌<◌, ◌≡◌, ◌⊎◌, refl, ap, ◌∙◌, false, List, arith,
  leb, length,
}
use cs111winter.Base.{get_or}
use cs111winter.Ospfs.Mem.{Mem, Ptr, load8, load32, load_bytes}
use cs111winter.Ospfs.Layout.{oi_size, ospfs_block, ospfs_inode_blockno, ospfs_inode_data}
use cs111winter.Ospfs.Io.{Uaccess, chunk}

pub length-load_bytes : (m : Mem) (a : Ptr) (n : ℕ) → length (load_bytes m a n) ≡ n
unfolding load_bytes
length-load_bytes m a zero = refl
length-load_bytes m a (suc n) = ap suc (length-load_bytes m (a + 1) n)

pub get_or-load_bytes :
    (m : Mem) (a : Ptr) (n i : ℕ) → i < n → get_or (load_bytes m a n) i 0 ≡ load8 m (a + i)
unfolding load_bytes
get_or-load_bytes m a zero i h = absurd (omega arith)
get_or-load_bytes m a (suc n) zero h = ap (load8 m) (omega arith)
get_or-load_bytes m a (suc n) (suc i) h =
    get_or-load_bytes m (a + 1) n i (omega arith) ∙ ap (load8 m) (omega arith)

-- The byte of the file at `oi` at offset `off`.
abbrev pub file_byte : Mem → Ptr → ℕ → ℕ
file_byte m oi off = load8 m (ospfs_inode_data m oi off)

-- Offsets in one block of the file are in one block of the disk.
pub inode_blockno-same :
    (m : Mem) (oi : Ptr) (off off' : ℕ)
    → off / 1024 ≡ off' / 1024
    → off < load32 m (oi_size oi)
    → off' < load32 m (oi_size oi)
    → ospfs_inode_blockno m oi off ≡ ospfs_inode_blockno m oi off'
unfolding ospfs_inode_blockno
inode_blockno-same m oi off off' e h h' =
    let t : leb (load32 m (oi_size oi)) off ≡ false = ground arith in
    let t' : leb (load32 m (oi_size oi)) off' ≡ false = ground arith in rw (e, t, t')

pub file_byte-same :
    (m : Mem) (oi : Ptr) (off i : ℕ)
    → off % 1024 + i < 1024
    → off + i < load32 m (oi_size oi)
    → file_byte m oi (off + i)
      ≡ load8 m (ospfs_block (ospfs_inode_blockno m oi off) + off % 1024 + i)
unfolding ospfs_inode_data
file_byte-same m oi off i h k =
    let e : (off + i) / 1024 ≡ off / 1024 = omega arith in
    let f : (off + i) % 1024 ≡ off % 1024 + i = omega arith in
    rw (inode_blockno-same m oi (off + i) off e k (omega arith), f) (ap (load8 m) (omega arith))

pub blockno_past_end :
    (m : Mem) (oi : Ptr) (off : ℕ)
    → load32 m (oi_size oi) ≤ off
    → (ospfs_inode_blockno m oi off == 0) ≡ true
unfolding ospfs_inode_blockno
blockno_past_end m oi off h = let t : leb (load32 m (oi_size oi)) off ≡ true = ground arith in rw t

pub chunk_bounds :
    (f_pos r : ℕ)
    → 0 < r
    → (0 < chunk f_pos r) × (chunk f_pos r ≤ r) × (f_pos % 1024 + chunk f_pos r ≤ 1024)
chunk_bounds f_pos r h = ground arith

module _ (uaccess : Uaccess) where
  open uaccess use {User, copy_to_user}

  -- What the kernel says of `copy_to_user`: if it copied all bytes, they are in place, and the rest
  -- of the user's memory is as it was.
  pub record IsCopy (peek : User → ℕ → ℕ) : Type 0 where
    pub lands :
        (u : User) (dst : ℕ) (xs : List ℕ) (i : ℕ)
        → (copy_to_user u dst xs).0 ≡ 0
        → i < length xs
        → peek (copy_to_user u dst xs).1 (dst + i) ≡ get_or xs i 0
    pub spares :
        (u : User) (dst : ℕ) (xs : List ℕ) (a : ℕ)
        → (copy_to_user u dst xs).0 ≡ 0
        → (a < dst) ⊎ (dst + length xs ≤ a)
        → peek (copy_to_user u dst xs).1 a ≡ peek u a

  -- A read of `n` bytes that succeeded: they are those of the file, and no other has changed.
  pub record IsRead (peek : User → ℕ → ℕ) (m : Mem) (oi : Ptr) (u : User) (buffer n f_pos : ℕ)
      (u' : User) : Type 0 where
    pub content : (i : ℕ) → i < n → peek u' (buffer + i) ≡ file_byte m oi (f_pos + i)
    pub rest : (a : ℕ) → (a < buffer) ⊎ (buffer + n ≤ a) → peek u' a ≡ peek u a
