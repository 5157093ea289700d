-- ===== src/Ospfs/Dir/Readdir.antt =====
-- lab3/ospfsmod.c, `ospfs_dir_readdir`. Linux's `filldir` is a parameter: it says whether it returned
-- a number that is not negative. The loop runs on fuel, and `none` means that it ran out.
use cs111winter.Base.{
  ℕ, zero, suc, ◌+◌, ◌*◌, ◌%◌, ◌^◌, Bool, true, false, not, ◌&&◌, Option, none, some, ◌==◌, leb,
  if◌then◌else◌,
}
use cs111winter.Ospfs.Mem.{Mem, Ptr, load32}
use cs111winter.Ospfs.Layout.{
  oi_size, oi_ftype, ftype_reg, ftype_dir, ftype_symlink, ospfs_inode, ospfs_inode_data,
}
use cs111winter.Ospfs.Dir.{direntry_size, od_ino, od_name}
pub mod Ends

-- The string that `filldir` gets: ".", "..", or the name that stands in an entry.
pub data Name : Type 0 where
  dot : Name
  dot_dot : Name
  name_at : Ptr → Name

pub data DirType : Type 0 where
  dt_reg dt_dir dt_lnk : DirType

pub record Dirent : Type 0 where
  pub name : Name
  pub f_pos : ℕ
  pub ino : ℕ
  pub d_type : DirType

pub record Filldir : Type 1 where
  pub Sink : Type 0
  pub filldir : Sink → Dirent → Bool × Sink

-- The type to report, by `oi_ftype`; `none` is the default case of the `switch`.
abbrev pub dir_type : ℕ → Option DirType
dir_type ftype =
    if ftype == ftype_reg
    then some dt_reg
    else if ftype == ftype_dir
    then some dt_dir
    else if ftype == ftype_symlink
    then some dt_lnk
    else none

module _ (fd : Filldir) where
  open fd use {Sink, filldir}

  -- The locals of the function: `r` is whether it has been set to 1, `ok` whether `ok_so_far >= 0`.
  pub record Pass : Type 0 where
    pub r : Bool
    pub ok : Bool
    pub f_pos : ℕ
    pub sink : Sink

  -- The entry that stands for the directory itself or for its parent.
  unfoldable pub special : (at : ℕ) → Name → (ino : ℕ) → Pass → Pass
  special at name ino p =
      let sent =
        filldir p.sink (record { name = name; f_pos = p.f_pos; ino = ino; d_type = dt_dir }) in
      if p.ok && (p.f_pos == at)
      then record p {
        ok = sent.0;
        f_pos = (if sent.0 then p.f_pos + 1 else p.f_pos);
        sink = sent.1;
      }
      else p

  -- The inode of an entry that is not blank is reported by its type.
  unfoldable pub report : Mem → (parent_ino : ℕ) → (od oi : Ptr) → Pass → Pass
  report m parent_ino od oi p = elim (dir_type (load32 m (oi_ftype oi))) [
    | none ↦ record p { r = true }
    | some t ↦
        let sent =
          filldir p.sink (record {
            name = name_at (od_name od);
            f_pos = p.f_pos;
            ino = parent_ino;
            d_type = t;
          }) in
        record p { ok = sent.0; sink = sent.1 }
  ]

  -- One round: the entry at `f_pos`, then `f_pos++`.
  unfoldable pub round : Mem → (dir_oi : Ptr) (parent_ino : ℕ) → Pass → Pass
  unfolding report
  round m dir_oi parent_ino p =
      let od = ospfs_inode_data m dir_oi (p.f_pos * direntry_size % 2 ^ 32) in
      let p1 : Pass =
        if load32 m (od_ino od) == 0 then p else (elim (ospfs_inode m (load32 m (od_ino od))) [
          | none ↦ p
          | some oi ↦ report m parent_ino od oi p
        ]) in
      record p1 { f_pos = p1.f_pos + 1 }

  unfoldable pub entries : ℕ → Mem → (dir_oi : Ptr) (parent_ino : ℕ) → Pass → Option Pass
  entries zero m dir_oi parent_ino p = none
  entries (suc k) m dir_oi parent_ino p = elim (not p.r && (p.ok && leb 2 p.f_pos)) [
    | false ↦ some p
    | true ↦ elim (leb (load32 m (oi_size dir_oi)) p.f_pos) [
      | true ↦ some (record p { r = true })
      | false ↦ entries k m dir_oi parent_ino (round m dir_oi parent_ino p)
    ]
  ]

  -- `f_pos` is `filp->f_pos`; `dir_ino` and `parent_ino` are the numbers of the directory and of its
  -- parent. A round for each byte of the directory is more than enough.
  unfoldable pub ospfs_dir_readdir :
      Mem → (dir_oi : Ptr) (dir_ino parent_ino f_pos : ℕ) → Sink → Option Pass
  unfolding special entries
  ospfs_dir_readdir m dir_oi dir_ino parent_ino f_pos sink =
      let p0 : Pass = record { r = false; ok = true; f_pos = f_pos; sink = sink } in
      let p1 = special 0 dot dir_ino p0 in
      let p2 = special 1 dot_dot parent_ino p1 in
      entries (load32 m (oi_size dir_oi) + 2) m dir_oi parent_ino p2
