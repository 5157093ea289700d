-- ===== src/Ospfs/Io/Tests.antt =====
-- Runs of the theorems about reading, with a user memory that takes every copy.
use cs111winter.Base.{
  ◌%◌, ◌/◌, leb, false, inr, ap, ◌∙◌, ap, ℕ, zero, suc, ◌+◌, ◌≤◌, ◌<◌, ◌≡◌, ◌⊎◌, refl, List, [],
  ◌∷◌, some, arith, ◌==◌, if◌then◌else◌, length, get_or,
}
use cs111winter.Ospfs.Mem.{Mem, load8, store8, load32, store32}
use cs111winter.Ospfs.Layout.{oi_size, oi_direct}
use cs111winter.Ospfs.Io.{bytes, Written, Read, Uaccess, failed, ospfs_read}
use cs111winter.Ospfs.Io.Writing as Writing
use cs111winter.Ospfs.Io.{ospfs_write}
use cs111winter.Ospfs.Layout.{oi_ftype, ospfs_inode_blockno}
use cs111winter.Ospfs.Io.RoundTrip.{ospfs_write-read}
use cs111winter.Ospfs.Resize.{efault}
use cs111winter.Ospfs.Mem.{store_bytes}
use cs111winter.Ospfs.Layout.{ospfs_block}
use cs111winter.Ospfs.Io.Placing.{IsFlat}
use cs111winter.Ospfs.Io.Touching.{IsFetch}
use cs111winter.Ospfs.Io.Laws.{IsCopy}
use cs111winter.Ospfs.Io.Reading.{Ends, readable, ospfs_read_lem}

unfoldable put_list : (ℕ → ℕ) → ℕ → List ℕ → ℕ → ℕ
put_list u dst [] a = u a
put_list u dst (x ∷ xs) a = if a == dst then x else put_list u (dst + 1) xs a

put_list-at :
    (u : ℕ → ℕ) (dst : ℕ) (xs : List ℕ) (i a : ℕ)
    → a ≡ dst + i
    → i < length xs
    → put_list u dst xs a ≡ get_or xs i 0
unfolding put_list
put_list-at u dst [] i a e h = absurd (omega arith)
put_list-at u dst (x ∷ xs) zero a e h = ground arith
put_list-at u dst (x ∷ xs) (suc i) a e h =
    ground (arith, put_list-at u (dst + 1) xs i a (omega arith) (omega arith))

put_list-off :
    (u : ℕ → ℕ) (dst : ℕ) (xs : List ℕ) (a : ℕ)
    → (a < dst) ⊎ (dst + length xs ≤ a)
    → put_list u dst xs a ≡ u a
unfolding put_list
put_list-off u dst [] a out = refl
put_list-off u dst (x ∷ xs) a out = ground (arith, put_list-off u (dst + 1) xs a (ground arith))

unfoldable get_list : (ℕ → ℕ) → (src n : ℕ) → List ℕ
get_list u src zero = []
get_list u src (suc n) = u src ∷ get_list u (src + 1) n

length-get_list : (u : ℕ → ℕ) (src n : ℕ) → length (get_list u src n) ≡ n
unfolding get_list
length-get_list u src zero = refl
length-get_list u src (suc n) = ap suc (length-get_list u (src + 1) n)

get_or-get_list : (u : ℕ → ℕ) (src n i : ℕ) → i < n → get_or (get_list u src n) i 0 ≡ u (src + i)
unfolding get_list
get_or-get_list u src zero i h = absurd (omega arith)
get_or-get_list u src (suc n) zero h = ap u (omega arith)
get_or-get_list u src (suc n) (suc i) h =
    get_or-get_list u (src + 1) n i (omega arith) ∙ ap u (omega arith)

-- User memory as a function of the address; no copy fails.
abbrev plain_user : Uaccess
plain_user = record {
  User = ℕ → ℕ;
  copy_to_user = λ u dst xs. (0, put_list u dst xs);
  copy_from_user = λ u src n. (0, get_list u src n);
}

plain_copy : IsCopy plain_user (λ u a. u a)
plain_copy = record {
  lands = λ u dst xs i done h. put_list-at u dst xs i (dst + i) refl h;
  spares = λ u dst xs a done out. put_list-off u dst xs a out;
}

-- A file of 1000 bytes in block 5, its inode at 3072.
abbrev file_image : Mem
file_image = store32 (store32 (λ a. a) (oi_size 3072) 1000) (oi_direct 3072 0) 5

file_size : load32 file_image (oi_size 3072) ≡ 1000
unfolding load32 load8 store32 store8
file_size = refl

ospfs_read_lem_example :
    Ends plain_user
      (λ u a. u a)
      plain_copy
      file_image
      3072
      (λ a. 0)
      64
      0
      (readable plain_user (λ u a. u a) plain_copy file_image 3072 600 500)
      500
      (ospfs_read plain_user file_image 3072 (λ a. 0) 64 600 500)
ospfs_read_lem_example =
    ospfs_read_lem plain_user (λ u a. u a) plain_copy file_image 3072 (λ a. 0) 64 600 500
      (omega (arith, file_size))

plain_fetch : IsFetch plain_user (λ u a. u a)
plain_fetch = record {
  short = λ u src n. omega (arith, length-get_list u src n);
  whole = λ u src n done. length-get_list u src n;
  fetched = λ u src n i done h. get_or-get_list u src n i h;
}

file_ftype : (load32 file_image (oi_ftype 3072) == 2) ≡ false
unfolding load32 load8 store32 store8
file_ftype = refl

file_slot : load32 file_image (oi_direct 3072 0) ≡ 5
unfolding load32 load8 store32 store8
file_slot = refl

file_blockno : (off : ℕ) → off < 1000 → ospfs_inode_blockno file_image 3072 off ≡ 5
unfolding ospfs_inode_blockno
file_blockno off h =
    let within : leb (load32 file_image (oi_size 3072)) off ≡ false = ground (arith, file_size) in
    let near : off / 1024 ≡ 0 = omega arith in rw (within, file_ftype, near, file_slot) refl

file_image-IsFlat : IsFlat file_image 3072
file_image-IsFlat = record {
  size = omega (arith, file_size);
  placed = λ off h ne.
      let b = file_blockno off (omega (arith, file_size)) in rw b (omega arith, inr (omega arith));
  distinct = λ off off' h h' ne e. omega (arith, file_size);
}

ospfs_write_lem_example :
    Writing.Ends plain_user
      (λ u a. u a)
      plain_fetch
      3072
      (λ a. 7)
      file_image
      64
      0
      100
      500
      (ospfs_write plain_user 11 3072 (λ a. 7) false 64 100 500 file_image)
ospfs_write_lem_example =
    Writing.ospfs_write_lem plain_user (λ u a. u a) plain_fetch 3072 (λ a. 7) 11 file_image 64 100
      500 file_image-IsFlat (omega (arith, file_size))

abbrev sevens : Written plain_user
sevens = record { result = bytes 2; mem = store_bytes file_image 5620 (7 ∷ 7 ∷ []); f_pos = 502 }

sevens_runs : ospfs_write plain_user 11 3072 (λ a. 7) false 64 2 500 file_image ≡ some sevens
unfolding ospfs_write load32 store32 ospfs_inode_blockno ospfs_block get_list
sevens_runs = refl

ospfs_write-read_example :
    (r : Read plain_user) × (ospfs_read plain_user sevens.mem 3072 (λ a. 0) 128 2 500 ≡ some r)
    × (((r.result ≡ bytes 2) × ((i : ℕ) → i < 2 → r.user (128 + i) ≡ 7 % 256))
        ⊎ (r.result ≡ failed efault))
ospfs_write-read_example =
    ospfs_write-read plain_user (λ u a. u a) plain_copy plain_fetch 3072 file_image
      file_image-IsFlat 11 (λ a. 7) (λ a. 0) 64 128 2 500 2 sevens (omega (arith, file_size))
      sevens_runs refl
