-- ===== src/Ospfs/Dir/Readdir/Ends.antt =====
-- What `ospfs_dir_readdir` reports, entry by entry, and where it ends.
use cs111winter.Base.{
  ℕ, ◌+◌, ◌*◌, ◌%◌, ◌^◌, ◌≤◌, ◌<◌, ◌≡◌, ◌≢◌, ◌⊎◌, Bool, true, false, Option, none, some,
}
use cs111winter.Ospfs.Mem.{Mem, Ptr, load32}
use cs111winter.Ospfs.Layout.{oi_size, oi_ftype, ospfs_inode, ospfs_inode_data}
use cs111winter.Ospfs.Dir.Readdir.{
  Filldir, DirType, dt_reg, dt_dir, dt_lnk, dot, dot_dot, name_at, Dirent, Pass, special, entries,
}

-- The type that is reported for an inode, by its oi_ftype.
pub data IsType : ℕ → DirType → Type 0 where
  a_file : IsType 0 dt_reg
  a_directory : IsType 1 dt_dir
  a_link : IsType 2 dt_lnk

abbrev pub TypeOf : ℕ → Option DirType → Type 0
TypeOf n (some t) = IsType n t
TypeOf n none = 3 ≤ n

module _ (fd : Filldir) (m : Mem) (dir_oi : Ptr) (dir_ino parent_ino : ℕ) where
  open fd use {Sink, filldir}

  abbrev size : ℕ
  size = load32 m (oi_size dir_oi)

  -- The entry at position `f`, its inode number, and what filldir gets for it.
  abbrev pub entry : ℕ → Ptr
  entry f = ospfs_inode_data m dir_oi (f * 128 % 2 ^ 32)

  abbrev pub entry_ino : ℕ → ℕ
  entry_ino f = load32 m (entry f)

  abbrev pub entry_dirent : ℕ → DirType → Dirent
  entry_dirent f t = record {
    name = name_at (entry f + 4);
    f_pos = f;
    ino = parent_ino;
    d_type = t;
  }

  abbrev pub dot_dirent : Dirent
  dot_dirent = record { name = dot; f_pos = 0; ino = dir_ino; d_type = dt_dir }

  abbrev pub dot_dot_dirent : Dirent
  dot_dot_dirent = record { name = dot_dot; f_pos = 1; ino = parent_ino; d_type = dt_dir }

  abbrev pub passed : (r ok : Bool) → ℕ → Sink → Pass fd
  passed r ok f s = record { r = r; ok = ok; f_pos = f; sink = s }

  -- From position `f` the entries are passed on in order up to the end of the directory, an entry
  -- that filldir refuses, or one of unknown type.
  pub data Lists (q : Pass fd) : ℕ → Sink → Type 0 where
    sent_dot : {s s' : Sink} → filldir s dot_dirent ≡ (true, s') → Lists q 1 s' → Lists q 0 s
    refused_dot :
        {s s' : Sink}
        → filldir s dot_dirent ≡ (false, s')
        → q ≡ passed false false 0 s'
        → Lists q 0 s
    sent_dot_dot :
        {s s' : Sink} → filldir s dot_dot_dirent ≡ (true, s') → Lists q 2 s' → Lists q 1 s
    refused_dot_dot :
        {s s' : Sink}
        → filldir s dot_dot_dirent ≡ (false, s')
        → q ≡ passed false false 1 s'
        → Lists q 1 s
    at_end : {f : ℕ} {s : Sink} → 2 ≤ f → size ≤ f → q ≡ passed true true f s → Lists q f s
    left_out :
        {f : ℕ} {s : Sink}
        → (2 ≤ f) × (f < size)
        → (entry_ino f ≡ 0) ⊎ (ospfs_inode m (entry_ino f) ≡ none)
        → Lists q (f + 1) s
        → Lists q f s
    sent_entry :
        {f : ℕ} {s s' : Sink} {oi : Ptr} {t : DirType}
        → (2 ≤ f) × (f < size)
        → entry_ino f ≢ 0
        → ospfs_inode m (entry_ino f) ≡ some oi
        → IsType (load32 m (oi_ftype oi)) t
        → filldir s (entry_dirent f t) ≡ (true, s')
        → Lists q (f + 1) s'
        → Lists q f s
    refused_entry :
        {f : ℕ} {s s' : Sink} {oi : Ptr} {t : DirType}
        → (2 ≤ f) × (f < size)
        → entry_ino f ≢ 0
        → ospfs_inode m (entry_ino f) ≡ some oi
        → IsType (load32 m (oi_ftype oi)) t
        → filldir s (entry_dirent f t) ≡ (false, s')
        → q ≡ passed false false (f + 1) s'
        → Lists q f s
    unknown_type :
        {f : ℕ} {s : Sink} {oi : Ptr}
        → (2 ≤ f) × (f < size)
        → entry_ino f ≢ 0
        → ospfs_inode m (entry_ino f) ≡ some oi
        → 3 ≤ load32 m (oi_ftype oi)
        → q ≡ passed true true (f + 1) s
        → Lists q f s

  -- The outcome of the loop and how it comes about.
  abbrev Listing : (f : ℕ) → Sink → Option (Pass fd) → Type 0
  Listing f s o = (q : Pass fd) × (o ≡ some q) × Lists q f s

  module _ (f : ℕ) (s : Sink) where
    abbrev here : Pass fd
    here = passed false true f s

  -- What follows the two special entries, and what follows the first.
  abbrev behind : Pass fd → Option (Pass fd)
  behind p = entries fd (size + 2) m dir_oi parent_ino p

  abbrev behind_dot : Pass fd → Option (Pass fd)
  behind_dot p = behind (special fd 1 dot_dot parent_ino p)

  abbrev from_start : Pass fd → Option (Pass fd)
  from_start p = behind_dot (special fd 0 dot dir_ino p)
