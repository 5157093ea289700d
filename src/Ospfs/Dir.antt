-- ===== src/Ospfs/Dir.antt =====
-- lab3/ospfsmod.c, DIRECTORY OPERATIONS: entries, and the searches through a directory. A name is
-- the list of its bytes. The entries of a directory are 128 bytes apart, so a loop over its size
-- makes as many rounds as the size has parts of 128 bytes, the last one included.
use cs111winter.Base.{
  ℕ, zero, suc, ◌+◌, ◌-◌, ◌*◌, ◌/◌, Bool, true, not, ◌&&◌, List, [], ◌∷◌, Option, none, some, ◌==◌,
  if◌then◌else◌, length,
}
pub mod Laws
mod Tests
pub mod Handlers
pub mod Readdir
pub mod Lookup
use cs111winter.Ospfs.Mem.{Mem, Ptr, load8, load32, store8, store32, store_bytes}
use cs111winter.Ospfs.Layout.{oi_size, ospfs_inode_data}
use cs111winter.Ospfs.Resize.{Errno, Status, ok, err, add_block}

abbrev pub direntry_size : ℕ
direntry_size = 128

abbrev pub maxnamelen : ℕ
maxnamelen = direntry_size - 5

abbrev pub od_ino : Ptr → Ptr
od_ino od = od

abbrev pub od_name : Ptr → Ptr
od_name od = od + 4

-- `strlen(s) == len`: the first zero byte from `a` on is the one at `a + len`.
unfoldable pub strlen_is : Mem → Ptr → ℕ → Bool
strlen_is m a zero = load8 m a == 0
strlen_is m a (suc n) = not (load8 m a == 0) && strlen_is m (a + 1) n

-- `memcmp(s, name, len) == 0`
unfoldable pub same_bytes : Mem → Ptr → List ℕ → Bool
same_bytes m a [] = true
same_bytes m a (x ∷ xs) = (load8 m a == x) && same_bytes m (a + 1) xs

-- The test of an entry that `find_direntry`, `ospfs_dir_lookup` and `ospfs_unlink` make.
unfoldable pub entry_matches : Mem → Ptr → List ℕ → Bool
unfolding strlen_is same_bytes
entry_matches m od name =
    not (load32 m (od_ino od) == 0)
    && (strlen_is m (od_name od) (length name) && same_bytes m (od_name od) name)

abbrev pub rounds : ℕ → ℕ
rounds size = (size + 127) / direntry_size

-- The loop of `find_direntry` from offset `off` on, with `k` rounds left.
unfoldable pub find_from : ℕ → Mem → Ptr → List ℕ → ℕ → Option Ptr
find_from zero m dir_oi name off = none
find_from (suc k) m dir_oi name off =
    let rest = find_from k m dir_oi name (off + direntry_size) in
    let od = ospfs_inode_data m dir_oi off in if entry_matches m od name then some od else rest

-- `find_direntry`: `none` is the null pointer.
unfoldable pub find_direntry : Mem → Ptr → List ℕ → Option Ptr
unfolding find_from
find_direntry m dir_oi name = find_from (rounds (load32 m (oi_size dir_oi))) m dir_oi name 0

-- The first loop of `create_blank_direntry`.
unfoldable pub blank_from : ℕ → Mem → Ptr → ℕ → Option Ptr
blank_from zero m dir_oi off = none
blank_from (suc k) m dir_oi off =
    let rest = blank_from k m dir_oi (off + direntry_size) in
    let od = ospfs_inode_data m dir_oi off in if load32 m (od_ino od) == 0 then some od else rest

-- The second loop: it empties the entries from `off` on and returns the last of them.
unfoldable pub clear_entries : ℕ → Ptr → ℕ → Option Ptr → Mem → Option Ptr × Mem
clear_entries zero dir_oi off entry m = (entry, m)
clear_entries (suc k) dir_oi off entry m =
    let od = ospfs_inode_data m dir_oi off in
    clear_entries k dir_oi (off + direntry_size) (some od) (store32 m (od_ino od) 0)

-- An error pointer, or a pointer that may be null.
pub data ErrPtr : Type 0 where
  ptr : Option Ptr → ErrPtr
  err_ptr : Errno → ErrPtr

-- What follows a call of `add_block` for the directory, from offset `off` on.
unfoldable pub blank_after : Ptr → ℕ → Status × Mem → ErrPtr × Mem
unfolding clear_entries
blank_after dir_oi off (err e, m) = (err_ptr e, m)
blank_after dir_oi off (ok, m) =
    let (entry, m1) = clear_entries (rounds (load32 m (oi_size dir_oi) - off)) dir_oi off none m in
    (ptr entry, m1)

unfoldable pub create_blank_direntry : Ptr → Mem → ErrPtr × Mem
unfolding blank_from blank_after
create_blank_direntry dir_oi m =
    let k = rounds (load32 m (oi_size dir_oi)) in
    elim (blank_from k m dir_oi 0) [
      | some od ↦ (ptr (some od), m)
      | none ↦ blank_after dir_oi (k * direntry_size) (add_block dir_oi m)
    ]

-- The entry at `od` is made to name inode `ino`: the number, the bytes, and a zero behind them.
unfoldable pub put_entry : Ptr → ℕ → List ℕ → Mem → Mem
put_entry od ino name m =
    store8 (store_bytes (store32 m (od_ino od) ino) (od_name od) name) (od_name od + length name) 0
