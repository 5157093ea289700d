-- ===== src/Ospfs/Dir/Handlers.antt =====
-- lab3/ospfsmod.c: the operations that Linux calls on directories. A null pointer that is
-- dereferenced is the result `none`. Every handler takes the inode numbers that the dentries and
-- Linux inodes of its arguments hold, and the name of the dentry as the list of its bytes.
use cs111winter.Base.{
  ◌>>=◌, ℕ, zero, suc, ◌+◌, ◌-◌, ◌%◌, ◌^◌, Bool, true, false, List, Option, none, some, ◌==◌, ltb,
  if◌then◌else◌, length,
}
use cs111winter.Ospfs.Mem.{Mem, Ptr, load32, store32, store_bytes}
use cs111winter.Ospfs.Layout.{
  oi_size, oi_ftype, oi_nlink, oi_mode, oi_direct, oi_indirect, oi_indirect2, os_ninodes, ftype_reg,
  ftype_symlink, ospfs_inode,
}
use cs111winter.Ospfs.Resize.{Errno, enospc, eexist, enametoolong, enomem, Status, ok, err}
use cs111winter.Ospfs.Dir.{
  maxnamelen, find_direntry, ErrPtr, ptr, err_ptr, create_blank_direntry, put_entry,
}
use cs111winter.Ospfs.LinuxInode.{null, made, panic, LinuxInode, ospfs_mk_linux_inode}

-- `oi->oi_nlink++` and `oi->oi_nlink--`
abbrev pub add_link : Ptr → Mem → Mem
add_link oi m = store32 m (oi_nlink oi) ((load32 m (oi_nlink oi) + 1) % 2 ^ 32)

abbrev pub drop_link : Ptr → Mem → Mem
drop_link oi m = store32 m (oi_nlink oi) ((load32 m (oi_nlink oi) + 2 ^ 32 - 1) % 2 ^ 32)

-- A directory entry in hand, or the error that `create_blank_direntry` gave.
abbrev pub with_entry :
    {A : Type 0} → ErrPtr × Mem → (Errno → Mem → A) → (Ptr → Mem → Option A) → Option A
with_entry (err_ptr e, m) stop go = some (stop e m)
with_entry (ptr none, m) stop go = none
with_entry (ptr (some od), m) stop go = go od m

-- `find_direntry(...) != NULL`
abbrev pub is_taken : Mem → Ptr → List ℕ → Bool
is_taken m dir_oi name = elim (find_direntry m dir_oi name) [ some od ↦ true | none ↦ false ]

unfoldable pub ospfs_link : (src_ino dir_ino : ℕ) → List ℕ → Mem → Option (Status × Mem)
ospfs_link src_ino dir_ino name m =
    let go : Option (Status × Mem) = ospfs_inode m dir_ino >>= λ dir_oi.
    let enter =
      with_entry (create_blank_direntry dir_oi m) (λ e m1. (err e, m1))
        λ od m1. ospfs_inode m src_ino >>= λ src_oi.
          some (ok, add_link src_oi (put_entry od src_ino name m1)) in
    if is_taken m dir_oi name then some (err eexist, m) else enter in
    if ltb maxnamelen (length name) then some (err enametoolong, m) else go

-- The search for an inode with no link, from `ino` on, with `k` inodes left; 0 if there is none.
unfoldable pub empty_from : ℕ → Mem → ℕ → ℕ
empty_from zero m ino = 0
empty_from (suc k) m ino =
    let rest = empty_from k m (ino + 1) in
    elim (ospfs_inode m ino) [
      | none ↦ rest
      | some oi ↦ if load32 m (oi_nlink oi) == 0 then ino else rest
    ]

unfoldable pub empty_inode : Mem → ℕ
unfolding empty_from
empty_inode m = empty_from (os_ninodes m - 2) m 2

-- `for (j = 0; j != OSPFS_NDIRECT; j++) oi_direct[j] = 0`
unfoldable pub clear_direct : ℕ → ℕ → Ptr → Mem → Mem
clear_direct zero j oi m = m
clear_direct (suc k) j oi m = clear_direct k (j + 1) oi (store32 m (oi_direct oi j) 0)

unfoldable pub init_inode : Ptr → (mode : ℕ) → Mem → Mem
unfolding clear_direct
init_inode oi mode m =
    let m1 = store32 m (oi_size oi) 0 in
    let m2 = store32 m1 (oi_ftype oi) ftype_reg in
    let m3 = store32 m2 (oi_nlink oi) 1 in
    let m4 = store32 m3 (oi_mode oi) mode in
    let m5 = store32 m4 (oi_indirect oi) 0 in
    let m6 = store32 m5 (oi_indirect2 oi) 0 in clear_direct 10 0 oi m6

-- How `ospfs_create` and `ospfs_symlink` end: the Linux inode is attached to the dentry, or -ENOMEM.
pub record Attached : Type 0 where
  pub status : Status
  pub inode : Option LinuxInode
  pub mem : Mem

abbrev stopped : Errno → Mem → Attached
stopped e m = record { status = err e; inode = none; mem = m }

abbrev attach : (new_inode : Bool) → ℕ → Mem → Option Attached
attach new_inode ino m = elim (ospfs_mk_linux_inode new_inode m ino) [
  | null ↦ some (stopped enomem m)
  | made i ↦ some (record { status = ok; inode = some i; mem = m })
  | panic ↦ none
]

unfoldable pub ospfs_create :
    (new_inode : Bool) (dir_ino : ℕ) → List ℕ → (mode : ℕ) → Mem → Option Attached
unfolding init_inode empty_inode
ospfs_create new_inode dir_ino name mode m =
    let ino = empty_inode m in
    let go : Option Attached = ospfs_inode m dir_ino >>= λ dir_oi.
    let enter = ospfs_inode m ino >>= λ oi.
    with_entry (create_blank_direntry dir_oi m) stopped
      λ od m1. attach new_inode ino (init_inode oi mode (put_entry od ino name m1)) in
    if is_taken m dir_oi name
    then some (stopped eexist m)
    else if ino == 0
    then some (stopped enospc m)
    else enter in
    if ltb maxnamelen (length name) then some (stopped enametoolong m) else go

abbrev pub maxsymlinklen : ℕ
maxsymlinklen = 64 - 13

-- `oi_symlink` of `ospfs_symlink_inode_t`
abbrev pub oi_symlink : Ptr → Ptr
oi_symlink oi = oi + 12

-- The size, the type and the link count of the new inode.
unfoldable pub init_symlink : Ptr → List ℕ → Mem → Mem
init_symlink oi symname m =
    store32 (store32 (store32 m (oi_size oi) (length symname)) (oi_ftype oi) ftype_symlink)
      (oi_nlink oi) 1

-- The destination's bytes are copied without the zero behind them.
unfoldable pub ospfs_symlink :
    (new_inode : Bool) (dir_ino : ℕ) → List ℕ → (symname : List ℕ) → Mem → Option Attached
unfolding init_symlink empty_inode
ospfs_symlink new_inode dir_ino name symname m =
    let ino = empty_inode m in
    let go : Option Attached = ospfs_inode m dir_ino >>= λ dir_oi.
    let enter = ospfs_inode m ino >>= λ oi.
    with_entry (create_blank_direntry dir_oi m) stopped λ od m1.
      let m2 = store_bytes m1 (oi_symlink oi) symname in
      let m3 = init_symlink oi symname (put_entry od ino name m2) in
      attach new_inode ino (add_link dir_oi m3) in
    if is_taken m dir_oi name
    then some (stopped eexist m)
    else if ino == 0
    then some (stopped enospc m)
    else enter in
    if ltb maxnamelen (length name)
    then some (stopped enametoolong m)
    else if ltb maxsymlinklen (length symname)
    then some (stopped enametoolong m)
    else go
