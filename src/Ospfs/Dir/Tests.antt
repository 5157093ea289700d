-- ===== src/Ospfs/Dir/Tests.antt =====
-- Runs of the theorems about directories on a directory with one entry, "a" for inode 2.
use cs111winter.Base.{ℕ, none, ◌⊎◌, ◌<◌, ◌≡◌, List, [], ◌∷◌, true, some}
use cs111winter.Ospfs.Mem.{Mem, store32}
use cs111winter.Ospfs.Layout.{oi_size, oi_direct}
use cs111winter.Ospfs.Dir.{find_direntry, od_ino, od_name}
use cs111winter.Ospfs.Dir.Laws.{Begins, IsNamed, entry_at, find_direntry_lem}
use cs111winter.Ospfs.Dir.Readdir.{Filldir, Dirent}

-- The directory's inode is at 3072, its only block is block 5.
abbrev dir_image : Mem
dir_image =
    store32
      (store32 (store32 (store32 (λ a. 0) (oi_size 3072) 1024) (oi_direct 3072 0) 5) (od_ino 5120)
        2)
      (od_name 5120) 97

find_direntry_lem_example :
    ((i : ℕ) × Begins dir_image 3072 i
      × (find_direntry dir_image 3072 (97 ∷ []) ≡ some (entry_at dir_image 3072 0 i))
      × IsNamed dir_image (97 ∷ []) (entry_at dir_image 3072 0 i)
      × ((j : ℕ) → j < i → ¬ IsNamed dir_image (97 ∷ []) (entry_at dir_image 3072 0 j)))
    ⊎ ((find_direntry dir_image 3072 (97 ∷ []) ≡ none)
        × ((j : ℕ)
            → Begins dir_image 3072 j
            → ¬ IsNamed dir_image (97 ∷ []) (entry_at dir_image 3072 0 j)))
find_direntry_lem_example = find_direntry_lem dir_image 3072 (97 ∷ [])

-- A list of what was reported, which takes everything.
abbrev plain_filldir : Filldir
plain_filldir = record { Sink = List Dirent; filldir = λ sink d. (true, d ∷ sink) }
