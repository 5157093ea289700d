-- ===== src/Ospfs/Dir/Lookup.antt =====
-- lab3/ospfsmod.c: following and removing links, looking a name up, and changing attributes. A null
-- pointer that is dereferenced is the result `none`.
use cs111winter.Base.{
  ◌>>=◌, ℕ, zero, suc, ◌+◌, ◌%◌, ◌^◌, Bool, List, Option, none, some, ◌==◌, ltb, if◌then◌else◌,
  length,
}
use cs111winter.Ospfs.Mem.{Mem, Ptr, load32, store32}
use cs111winter.Ospfs.Layout.{oi_size, oi_ftype, oi_mode, ftype_dir, ospfs_inode, ospfs_inode_data}
use cs111winter.Ospfs.Resize.{Errno, eperm, enoent, enametoolong, einval, Status, ok, err}
use cs111winter.Ospfs.Dir.{direntry_size, maxnamelen, od_ino, entry_matches, rounds, find_direntry}
use cs111winter.Ospfs.Resize.Change.{change_size}
use cs111winter.Ospfs.LinuxInode.{null, made, panic, LinuxInode, ospfs_mk_linux_inode}
use cs111winter.Ospfs.Dir.Handlers.{drop_link, oi_symlink}

-- `ospfs_follow_link` hands `oi_symlink` to Linux, as a string: the address of its first byte.
unfoldable pub ospfs_follow_link : (ino : ℕ) → Mem → Option Ptr
ospfs_follow_link ino m = ospfs_inode m ino >>= λ oi. some (oi_symlink oi)

-- The loop of `ospfs_unlink`: where it stops, and the entry it looked at last.
unfoldable pub unlink_from : ℕ → Mem → Ptr → List ℕ → (off : ℕ) → Option Ptr → ℕ × Option Ptr
unlink_from zero m dir_oi name off od = (off, od)
unlink_from (suc k) m dir_oi name off od =
    let here = ospfs_inode_data m dir_oi off in
    let rest = unlink_from k m dir_oi name (off + direntry_size) (some here) in
    if entry_matches m here name then (off, some here) else rest

unfoldable pub ospfs_unlink : (ino parent_ino : ℕ) → List ℕ → Mem → Option (Status × Mem)
unfolding unlink_from
ospfs_unlink ino parent_ino name m = ospfs_inode m parent_ino >>= λ dir_oi.
    let size = load32 m (oi_size dir_oi) in
    let (off, entry) = unlink_from (rounds size) m dir_oi name 0 none in
    let go : Option (Status × Mem) = entry >>= λ od.
    ospfs_inode m ino >>= λ oi. some (ok, drop_link oi (store32 m (od_ino od) 0)) in
    if off == size then some (err enoent, m) else go

-- What `ospfs_dir_lookup` leaves: an error, or the dentry, with an inode if the name was found.
pub data Lookup : Type 0 where
  refused : Errno → Lookup
  dentry : Option LinuxInode → Lookup

-- The loop is that of `find_direntry`, written out in the source.
unfoldable pub ospfs_dir_lookup : (new_inode : Bool) (dir_ino : ℕ) → List ℕ → Mem → Option Lookup
ospfs_dir_lookup new_inode dir_ino name m =
    let go : Option Lookup = ospfs_inode m dir_ino >>= λ dir_oi.
    elim (find_direntry m dir_oi name) [
      | none ↦ some (dentry none)
      | some od ↦ elim (ospfs_mk_linux_inode new_inode m (load32 m (od_ino od))) [
        | null ↦ some (refused einval)
        | made i ↦ some (dentry (some i))
        | panic ↦ none
      ]
    ] in
    if ltb maxnamelen (length name) then some (refused enametoolong) else go

-- The parts of `struct iattr` that the module looks at, and the results of Linux's
-- `inode_change_ok` and `inode_setattr`.
pub record Iattr : Type 0 where
  pub ia_size : Option ℕ
  pub ia_mode : Option ℕ
  pub change_ok : Status
  pub setattr : Status

abbrev set_mode : Ptr → Option ℕ → Mem → Mem
set_mode oi none m = m
set_mode oi (some mode) m = store32 m (oi_mode oi) mode

-- The first error of the two, with `inode_setattr` called only after a success.
abbrev first_error : Status → Status → Status
first_error ok s = s
first_error (err e) s = err e

abbrev after_size : Iattr → Ptr → Option (Status × Mem) → Option (Status × Mem)
after_size attr oi none = none
after_size attr oi (some (err e, m)) = some (err e, m)
after_size attr oi (some (ok, m)) =
    some (first_error attr.change_ok attr.setattr, set_mode oi attr.ia_mode m)

abbrev resize : (fuel : ℕ) → Ptr → Option ℕ → Mem → Option (Status × Mem)
resize fuel oi none m = some (ok, m)
resize fuel oi (some size) m =
    if load32 m (oi_ftype oi) == ftype_dir
    then some (err eperm, m)
    else change_size fuel oi (size % 2 ^ 32) m

unfoldable pub ospfs_notify_change : (fuel ino : ℕ) → Iattr → Mem → Option (Status × Mem)
ospfs_notify_change fuel ino attr m =
    ospfs_inode m ino >>= λ oi. after_size attr oi (resize fuel oi attr.ia_size m)
