-- ===== src/Ospfs/Dir/Laws.antt =====
-- The searches of lab3/ospfsmod.c through the entries of a directory, blank ones and named ones.
use cs111winter.Base.{
  ℕ, zero, suc, ◌+◌, ◌-◌, ◌*◌, ◌<◌, ◌≡◌, ◌⊎◌, inl, inr, refl, sym, ap, ◌∙◌, Bool, true, false, List,
  [], ◌∷◌, ◌≢◌, length, Option, none, some, arith, ◌==◌, Bool-cases,
}
use native.Mathlib.Decide.{ℕ_discrete}
use cs111winter.Ospfs.Mem.{Mem, Ptr, load8, load32}
use cs111winter.Ospfs.Layout.{oi_size, ospfs_inode_data}
use cs111winter.Ospfs.Resize.{add_block}
use cs111winter.Ospfs.Dir.{
  ErrPtr, ptr, blank_after, create_blank_direntry, od_ino, entry_matches, strlen_is, same_bytes,
  rounds, find_from, find_direntry, blank_from,
}

-- Entry `i` of a directory, counted from the offset `off`.
abbrev pub entry_at : Mem → Ptr → (off i : ℕ) → Ptr
entry_at m dir_oi off i = ospfs_inode_data m dir_oi (off + i * 128)

-- Of the `k` entries from `off` on the first that passes the test is found, or none passes.
abbrev pub FirstEntry : (Ptr → Bool) → Mem → Ptr → (k off : ℕ) → Option Ptr → Type 0
FirstEntry test m dir_oi k off o =
    ((i : ℕ) × (i < k)
      × (o ≡ some (entry_at m dir_oi off i))
      × (test (entry_at m dir_oi off i) ≡ true)
      × ((j : ℕ) → j < i → test (entry_at m dir_oi off j) ≡ false))
    ⊎ ((o ≡ none) × ((j : ℕ) → j < k → test (entry_at m dir_oi off j) ≡ false))

module _ (test : Ptr → Bool) (m : Mem) (dir_oi : Ptr) (k off : ℕ) where
  next_entry : (i : ℕ) → entry_at m dir_oi (off + 128) i ≡ entry_at m dir_oi off (i + 1)
  next_entry i =
      let same : off + 128 + i * 128 ≡ off + (i + 1) * 128 = omega arith in
      ap (ospfs_inode_data m dir_oi) same

  first_entry : entry_at m dir_oi off 0 ≡ ospfs_inode_data m dir_oi off
  first_entry = let same : off + 0 * 128 ≡ off = omega arith in ap (ospfs_inode_data m dir_oi) same

  -- An entry that does not pass may be put in front.
  misses :
      (n : ℕ)
      → test (ospfs_inode_data m dir_oi off) ≡ false
      → ((j : ℕ) → j < n → test (entry_at m dir_oi (off + 128) j) ≡ false)
      → (j : ℕ) → j < n + 1
      → test (entry_at m dir_oi off j) ≡ false
  misses n miss all j h = elim (ℕ_discrete j 0) [
    | yes one ↦ rw (one, first_entry) miss
    | no more ↦
        let back : j - 1 + 1 ≡ j = omega arith in
        ap (λ x. test (entry_at m dir_oi off x)) (sym back)
        ∙ ap test (sym (next_entry (j - 1)))
        ∙ all (j - 1) (omega arith)
  ]

  FirstEntry-hit :
      test (ospfs_inode_data m dir_oi off) ≡ true
      → FirstEntry test m dir_oi (suc k) off (some (ospfs_inode_data m dir_oi off))
  FirstEntry-hit hit =
      inl
        (0, omega arith, ap some (sym first_entry), rw first_entry hit, λ j h. absurd (omega arith))

  FirstEntry-miss :
      (o : Option Ptr)
      → test (ospfs_inode_data m dir_oi off) ≡ false
      → FirstEntry test m dir_oi k (off + 128) o
      → FirstEntry test m dir_oi (suc k) off o
  FirstEntry-miss o miss (inl (i, h, e, hit, before)) = inl (
    i + 1,
    omega arith,
    e ∙ ap some (next_entry i),
    ap test (sym (next_entry i)) ∙ hit,
    misses i miss before,
  )
  FirstEntry-miss o miss (inr (e, all)) = inr (e, λ j h. misses k miss all j (omega arith))

find_from-FirstEntry :
    (k : ℕ) (m : Mem) (dir_oi : Ptr) (name : List ℕ) (off : ℕ)
    → FirstEntry (λ od. entry_matches m od name) m dir_oi k off (find_from k m dir_oi name off)
unfolding find_from
find_from-FirstEntry zero m dir_oi name off = inr (refl, λ j h. absurd (omega arith))
find_from-FirstEntry (suc k) m dir_oi name off =
    let test : Ptr → Bool = λ od. entry_matches m od name in
    elim (Bool-cases (test (ospfs_inode_data m dir_oi off))) [
      | inl hit ↦ rw hit (FirstEntry-hit test m dir_oi k off hit)
      | inr miss ↦ rw miss (
          FirstEntry-miss test m dir_oi k off _ miss
            (find_from-FirstEntry k m dir_oi name (off + 128)))
    ]

blank_from-FirstEntry :
    (k : ℕ) (m : Mem) (dir_oi : Ptr) (off : ℕ)
    → FirstEntry (λ od. load32 m (od_ino od) == 0) m dir_oi k off (blank_from k m dir_oi off)
unfolding blank_from
blank_from-FirstEntry zero m dir_oi off = inr (refl, λ j h. absurd (omega arith))
blank_from-FirstEntry (suc k) m dir_oi off =
    let test : Ptr → Bool = λ od. load32 m (od_ino od) == 0 in
    elim (Bool-cases (test (ospfs_inode_data m dir_oi off))) [
      | inl hit ↦ rw hit (FirstEntry-hit test m dir_oi k off hit)
      | inr miss ↦ rw miss (
          FirstEntry-miss test m dir_oi k off _ miss (blank_from-FirstEntry k m dir_oi (off + 128)))
    ]

-- The bytes from `a` on are those of the name, none of them zero, and a zero behind them.
unfoldable pub HasName : Mem → Ptr → List ℕ → Type 0
HasName m a [] = load8 m a ≡ 0
HasName m a (c ∷ cs) = (load8 m a ≡ c) × ((c ≢ 0) × HasName m (a + 1) cs)

-- The entry's inode number, in its first four bytes, is not 0, and its name stands behind it.
abbrev pub IsNamed : Mem → List ℕ → Ptr → Type 0
IsNamed m name od = (load32 m od ≢ 0) × HasName m (od + 4) name

name-HasName :
    (m : Mem) (a : Ptr) (name : List ℕ)
    → strlen_is m a (length name) ≡ true
    → same_bytes m a name ≡ true
    → HasName m a name
unfolding strlen_is same_bytes HasName
name-HasName m a [] len same = ground arith
name-HasName m a (c ∷ cs) len same =
    (ground arith, (ground arith, name-HasName m (a + 1) cs (ground arith) (ground arith)))

HasName-name :
    (m : Mem) (a : Ptr) (name : List ℕ)
    → HasName m a name
    → (strlen_is m a (length name) ≡ true) × (same_bytes m a name ≡ true)
unfolding strlen_is same_bytes HasName
HasName-name m a [] h = (ground arith, refl)
HasName-name m a (c ∷ cs) (e, (some_char, rest)) =
    let (len, same) = HasName-name m (a + 1) cs rest in (ground arith, ground arith)

entry_matches-IsNamed :
    (m : Mem) (name : List ℕ) (od : Ptr) → entry_matches m od name ≡ true → IsNamed m name od
unfolding entry_matches
entry_matches-IsNamed m name od e =
    (ground arith, name-HasName m (od + 4) name (ground arith) (ground arith))

IsNamed-entry_matches :
    (m : Mem) (name : List ℕ) (od : Ptr) → IsNamed m name od → entry_matches m od name ≡ true
unfolding entry_matches
IsNamed-entry_matches m name od (used, named) =
    let (len, same) = HasName-name m (od + 4) name named in ground arith

not-IsNamed :
    (m : Mem) (name : List ℕ) (od : Ptr) → entry_matches m od name ≡ false → ¬ IsNamed m name od
not-IsNamed m name od e = λ h. let hit = IsNamed-entry_matches m name od h in absurd (ground arith)

-- Entry `i` begins within the directory's size.
abbrev pub Begins : Mem → Ptr → ℕ → Type 0
Begins m dir_oi i = i * 128 < load32 m (oi_size dir_oi)

-- find_direntry returns the first of the entries that begin below the directory's size whose inode
-- number is not 0 and which hold the bytes of the name and a zero behind them, or the null pointer
-- if there is none.
pub find_direntry_lem :
    (m : Mem) (dir_oi : Ptr) (name : List ℕ)
    → ((i : ℕ) × Begins m dir_oi i
        × (find_direntry m dir_oi name ≡ some (entry_at m dir_oi 0 i))
        × IsNamed m name (entry_at m dir_oi 0 i)
        × ((j : ℕ) → j < i → ¬ IsNamed m name (entry_at m dir_oi 0 j)))
      ⊎ ((find_direntry m dir_oi name ≡ none)
          × ((j : ℕ) → Begins m dir_oi j → ¬ IsNamed m name (entry_at m dir_oi 0 j)))
unfolding find_direntry
find_direntry_lem m dir_oi name =
    elim (find_from-FirstEntry (rounds (load32 m (oi_size dir_oi))) m dir_oi name 0) [
      | inl (i, h, e, hit, before) ↦ inl (
        i,
        omega (arith, h),
        e,
        entry_matches-IsNamed m name _ hit,
        λ j l. not-IsNamed m name _ (before j l),
      )
      | inr (e, all) ↦ inr (e, λ j l. not-IsNamed m name _ (all j (omega (arith, l))))
    ]

abbrev pub is_blank : Mem → Ptr → Bool
is_blank m od = load32 m (od_ino od) == 0

-- The outcomes of `create_blank_direntry`, for a directory of `k` entries.
abbrev pub BlankOutcome : Mem → Ptr → ℕ → ErrPtr × Mem → Type 0
BlankOutcome m dir_oi k r =
    ((i : ℕ) × (i < k)
      × (r ≡ (ptr (some (entry_at m dir_oi 0 i)), m))
      × (is_blank m (entry_at m dir_oi 0 i) ≡ true)
      × ((j : ℕ) → j < i → is_blank m (entry_at m dir_oi 0 j) ≡ false))
    ⊎ ((r ≡ blank_after dir_oi (k * 128) (add_block dir_oi m))
        × ((j : ℕ) → j < k → is_blank m (entry_at m dir_oi 0 j) ≡ false))

-- If the directory has a blank entry, `create_blank_direntry` returns the first and changes nothing.
-- Only if all its entries are in use it adds a block, and what follows begins behind the last entry.
pub create_blank_direntry_lem :
    (m : Mem) (dir_oi : Ptr)
    → BlankOutcome m dir_oi (rounds (load32 m (oi_size dir_oi))) (create_blank_direntry dir_oi m)
unfolding create_blank_direntry
create_blank_direntry_lem m dir_oi =
    let k = rounds (load32 m (oi_size dir_oi)) in
    elim (blank_from-FirstEntry k m dir_oi 0) [
      | inl (i, h, e, hit, before) ↦ inl (i, h, rw (e, create_blank_direntry) refl, hit, before)
      | inr (e, all) ↦ inr (rw (e, create_blank_direntry) refl, all)
    ]
