-- ===== src/Ospfs/LinuxInode.antt =====
-- lab3/ospfsmod.c: the Linux inode made for an inode of the image. Linux's `new_inode` is a
-- parameter: whether it returns an inode.
use cs111winter.Base.{ℕ, ◌+◌, ◌%◌, ◌^◌, Bool, Option, none, some, ◌==◌, if◌then◌else◌, bit_or}
use cs111winter.Ospfs.Mem.{Mem, Ptr, load32}
use cs111winter.Ospfs.Layout.{
  oi_size, oi_ftype, oi_nlink, oi_mode, ftype_reg, ftype_dir, ftype_symlink, ospfs_inode,
}
use cs111winter.Ospfs.Resize.{enomem, Status, ok, err}

-- Which tables of operations the inode gets.
pub data Ops : Type 0 where
  reg dir symlink : Ops

pub record LinuxInode : Type 0 where
  pub i_ino : ℕ
  pub i_size : ℕ
  pub i_mode : ℕ
  pub i_ops : Ops
  pub i_nlink : ℕ

-- What `ospfs_mk_linux_inode` does: it returns the null pointer or an inode, or it stops the kernel.
pub data Made : Type 0 where
  null : Made
  made : LinuxInode → Made
  panic : Made

-- The mode bits of <linux/stat.h>.
abbrev pub s_ifreg : ℕ
s_ifreg = 0o100000

abbrev pub s_ifdir : ℕ
s_ifdir = 0o040000

abbrev pub s_iflnk : ℕ
s_iflnk = 0o120000

unfoldable pub linux_inode_at : Mem → ℕ → Ptr → Made
linux_inode_at m ino oi =
    let ftype = load32 m (oi_ftype oi) in
    let size = load32 m (oi_size oi) in
    let nlink = load32 m (oi_nlink oi) in
    let mode = load32 m (oi_mode oi) in
    if ftype == ftype_reg
    then made (record {
      i_ino = ino;
      i_size = size;
      i_mode = bit_or mode s_ifreg;
      i_ops = reg;
      i_nlink = nlink;
    })
    else if ftype == ftype_dir
    then made (record {
      i_ino = ino;
      i_size = size;
      i_mode = bit_or mode s_ifdir;
      i_ops = dir;
      i_nlink = (nlink + 1) % 2 ^ 32;
    })
    else if ftype == ftype_symlink
    then made (record {
      i_ino = ino;
      i_size = size;
      i_mode = bit_or 0o777 s_iflnk;
      i_ops = symlink;
      i_nlink = nlink;
    })
    else panic

unfoldable pub ospfs_mk_linux_inode : (new_inode : Bool) → Mem → ℕ → Made
unfolding linux_inode_at
ospfs_mk_linux_inode new_inode m ino = elim (ospfs_inode m ino) [
  | none ↦ null
  | some oi ↦ if new_inode then linux_inode_at m ino oi else null
]

-- `ospfs_fill_super`: the root directory's inode, or -ENOMEM. `alloc_root` is whether Linux's
-- `d_alloc_root` returns a root; a panic has no result.
unfoldable pub ospfs_fill_super : (new_inode alloc_root : Bool) → Mem → Option Status
unfolding ospfs_mk_linux_inode
ospfs_fill_super new_inode alloc_root m = elim (ospfs_mk_linux_inode new_inode m 1) [
  | null ↦ some (err enomem)
  | made i ↦ some (if alloc_root then ok else err enomem)
  | panic ↦ none
]
