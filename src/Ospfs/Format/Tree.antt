-- ===== src/Ospfs/Format/Tree.antt =====
-- lab3/ospfsformat.c: writedirectory, on a tree of the host's files. The host's calls are its
-- arguments: each entry has its name and what lstat says of it.
use cs111winter.Base.{
  ℕ, ◌+◌, Bool, true, false, ◌&&◌, ◌||◌, List, [], ◌∷◌, Option, none, some, ◌==◌,
}
use cs111winter.Ospfs.Mem.{Ptr, load32}
use cs111winter.Ospfs.Layout.{ftype_dir, oi_size, oi_ftype, oi_nlink, oi_mode}
use cs111winter.Ospfs.Dir.{od_ino}
use cs111winter.Ospfs.Format.{Disk, put_word, allocinode}
use cs111winter.Ospfs.Format.Entries.{too_long, entry, allocdirentry}
use cs111winter.Ospfs.Format.Files.{Tool, writefile, writesymlink}

mutual
  -- A file of the host: its mode and, where it has several links, its inode number, else 0.
  pub data Node : Type 0 where
    regular : (host mode : ℕ) (bytes digest : List ℕ) → Node
    symlink : (host : ℕ) (target : List ℕ) → Node
    directory : (mode : ℕ) → Nodes → Node
    other : Node

  -- The entries of a directory, in the order of readdir.
  pub data Nodes : Type 0 where
    no_more : Nodes
    item : (name : List ℕ) → Node → Nodes → Nodes

-- ".", "..", "CVS", ".svn" and ".git"
abbrev pub is_skipped : List ℕ → Bool
is_skipped (a ∷ []) = a == 46
is_skipped (a ∷ b ∷ []) = (a == 46) && (b == 46)
is_skipped (a ∷ b ∷ c ∷ []) = (a == 67) && ((b == 86) && (c == 83))
is_skipped (a ∷ b ∷ c ∷ d ∷ []) =
    (a == 46)
    && (((b == 115) && ((c == 118) && (d == 110))) || ((b == 103) && ((c == 105) && (d == 116))))
is_skipped _ = false

module _ (nblocks ninodes : ℕ) (link_contents : Bool) where
  -- The entry and the inode of a directory below the root; `none` is also the crash of a name that
  -- is too long.
  unfoldable pub new_directory :
      (parent : Ptr) (name : List ℕ) (mode : ℕ) → Disk → Option (Ptr × Disk)
  new_directory parent name mode d = elim (allocdirentry nblocks ninodes parent name d) [
    | none ↦ none
    | some too_long ↦ none
    | some (entry od d1) ↦ elim (allocinode nblocks ninodes d1) [
      | none ↦ none
      | some (ino, (oi, d2)) ↦
          let named : Disk = put_word (od_ino od) ino d2 in
          let linked : Disk =
            put_word (oi_nlink parent) (load32 named.image (oi_nlink parent) + 1) named in
          some (
            oi,
            put_word (oi_mode oi) mode (
                put_word (oi_nlink oi) 1
                  (put_word (oi_size oi) 0 (put_word (oi_ftype oi) ftype_dir linked))),
          )
    ]
  ]

  mutual
    write_node : (dir : Ptr) (name : List ℕ) → Node → Tool → Option Tool
    write_node dir name (regular host mode bytes digest) t =
        writefile nblocks ninodes link_contents dir name host mode bytes digest t
    write_node dir name (symlink host target) t =
        writesymlink nblocks ninodes link_contents dir name target host t
    write_node dir name (directory mode nodes) t = elim (is_skipped name) [
      | true ↦ some t
      | false ↦ elim (new_directory dir name mode t.disk) [
        | none ↦ none
        | some (oi, d) ↦ writedirectory oi nodes (record t { disk = d })
      ]
    ]
    write_node dir name other t = some t

    -- The loop of `writedirectory`, with the inode of the directory.
    writedirectory : (dir : Ptr) → Nodes → Tool → Option Tool
    writedirectory dir no_more t = some t
    writedirectory dir (item name node rest) t = elim (write_node dir name node t) [
      | none ↦ none
      | some t' ↦ writedirectory dir rest t'
    ]
