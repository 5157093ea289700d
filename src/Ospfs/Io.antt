-- ===== src/Ospfs/Io.antt =====
-- lab3/ospfsmod.c, `ospfs_read` and `ospfs_write`. The kernel's copies to and from user space are
-- a parameter. A file position is an `loff_t` that is not negative and small enough for its sums
-- not to overflow; `size_t` has 32 bits. Each loop runs on fuel, and `none` means that it ran out.
use cs111winter.Base.{
  ℕ, zero, suc, ◌+◌, ◌-◌, ◌%◌, ◌^◌, Bool, true, false, List, Option, none, some, ◌==◌, ltb,
  if◌then◌else◌,
}
pub mod Laws
pub mod Rounds
pub mod Reading
pub mod Placing
pub mod Touching
pub mod Writing
pub mod RoundTrip
mod Tests
use cs111winter.Ospfs.Mem.{Mem, Ptr, load32, load_bytes, store_bytes}
use cs111winter.Ospfs.Layout.{blksize, oi_size, ospfs_block, ospfs_inode_blockno}
use cs111winter.Ospfs.Resize.{Errno, eio, efault, Status, ok, err}
use cs111winter.Ospfs.Resize.Change.{change_size}

-- `copy_to_user` and `copy_from_user`: the number of bytes that were not copied comes first. The
-- second hands back what it put in place of the `n` bytes.
pub record Uaccess : Type 1 where
  pub User : Type 0
  pub copy_to_user : User → (dst : ℕ) → List ℕ → ℕ × User
  pub copy_from_user : User → (src n : ℕ) → ℕ × List ℕ

-- An `ssize_t`: a number of bytes, or an error.
pub data Count : Type 0 where
  bytes : ℕ → Count
  failed : Errno → Count

-- How many bytes of the current block the next round copies.
abbrev pub chunk : (f_pos remaining : ℕ) → ℕ
chunk f_pos remaining =
    let n = blksize - f_pos % blksize in if ltb remaining n then remaining else n

-- `count` never reaches past the end; the difference wraps if the position is behind it.
abbrev pub read_count : (size f_pos count : ℕ) → ℕ
read_count size f_pos count =
    if ltb size (f_pos + count) then (size + 2 ^ 64 - f_pos) % 2 ^ 32 else count

module _ (uaccess : Uaccess) where
  open uaccess use {User, copy_to_user, copy_from_user}

  -- What a read leaves: the result, the user's memory and `*f_pos`.
  pub record Read : Type 0 where
    pub result : Count
    pub user : User
    pub f_pos : ℕ

  pub read_loop : ℕ → Mem → Ptr → User → (buffer amount count f_pos : ℕ) → Option Read
  read_loop zero m oi u buffer amount count f_pos = none
  read_loop (suc k) m oi u buffer amount count f_pos = elim (ltb amount count) [
    | false ↦ some (record { result = bytes amount; user = u; f_pos = f_pos })
    | true ↦
        let blockno = ospfs_inode_blockno m oi (f_pos % 2 ^ 32) in
        elim (blockno == 0) [
          | true ↦ some (record { result = failed eio; user = u; f_pos = f_pos })
          | false ↦
              let n = chunk f_pos (count - amount) in
              let sent =
                copy_to_user u buffer (load_bytes m (ospfs_block blockno + f_pos % blksize) n) in
              elim (sent.0 == 0) [
                | false ↦ some (record { result = failed efault; user = sent.1; f_pos = f_pos })
                | true ↦ read_loop k m oi sent.1 (buffer + n) (amount + n) count (f_pos + n)
              ]
        ]
  ]

  -- Each round copies a byte at least: `count` and one more round are enough.
  unfoldable pub ospfs_read : Mem → Ptr → User → (buffer count f_pos : ℕ) → Option Read
  unfolding read_loop
  ospfs_read m oi u buffer count f_pos =
      let count' = read_count (load32 m (oi_size oi)) f_pos count in
      read_loop (suc count') m oi u buffer 0 count' f_pos

  -- What a write leaves: the result, the image and `*f_pos`.
  pub record Written : Type 0 where
    pub result : Count
    pub mem : Mem
    pub f_pos : ℕ

  pub write_loop : ℕ → Ptr → User → Mem → (buffer amount count f_pos : ℕ) → Option Written
  write_loop zero oi u m buffer amount count f_pos = none
  write_loop (suc k) oi u m buffer amount count f_pos = elim (ltb amount count) [
    | false ↦ some (record { result = bytes amount; mem = m; f_pos = f_pos })
    | true ↦
        let blockno = ospfs_inode_blockno m oi (f_pos % 2 ^ 32) in
        elim (blockno == 0) [
          | true ↦ some (record { result = failed eio; mem = m; f_pos = f_pos })
          | false ↦
              let n = chunk f_pos (count - amount) in
              let got = copy_from_user u buffer n in
              let m1 = store_bytes m (ospfs_block blockno + f_pos % blksize) got.1 in
              elim (got.0 == 0) [
                | false ↦ some (record { result = failed efault; mem = m1; f_pos = f_pos })
                | true ↦ write_loop k oi u m1 (buffer + n) (amount + n) count (f_pos + n)
              ]
        ]
  ]

  -- `append` is the `O_APPEND` bit of `filp->f_flags`; `fuel` is for `change_size`, whose size
  -- argument is cut to 32 bits.
  pub write_from : Ptr → User → (buffer count f_pos : ℕ) → Mem → Option Written
  unfolding write_loop
  write_from oi u buffer count f_pos m = write_loop (suc count) oi u m buffer 0 count f_pos

  pub written_after : (f_pos : ℕ) → Option (Status × Mem) → (Mem → Option Written) → Option Written
  written_after f_pos none k = none
  written_after f_pos (some (ok, m)) k = k m
  written_after f_pos (some (err e, m)) k =
      some (record { result = failed e; mem = m; f_pos = f_pos })

  unfoldable pub ospfs_write :
      (fuel : ℕ) → Ptr → User → (append : Bool) (buffer count f_pos : ℕ) → Mem → Option Written
  unfolding write_from written_after
  ospfs_write fuel oi u append buffer count f_pos m =
      let pos = if append then load32 m (oi_size oi) else f_pos in
      if ltb (load32 m (oi_size oi)) (pos + count)
      then written_after pos (change_size fuel oi ((pos + count) % 2 ^ 32) m)
          (write_from oi u buffer count pos)
      else write_from oi u buffer count pos m
