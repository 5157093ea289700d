-- ===== src/Ospfs/Format/Cache/View.antt =====
-- The bytes of the disk that the cache stands for, and that getblk changes none of them.
use cs111winter.Base.{
  ℕ, zero, suc, ◌+◌, ◌/◌, ◌%◌, ◌≤◌, ◌<◌, ◌≡◌, ◌≢◌, refl, sym, ap, ◌∙◌, ◌&&◌, Option, none, some,
  ◌==◌, arith, Bool-cases, Option-cases, inl, inr,
}
use cs111winter.Ospfs.Format.Cache.{Block, Cached, put, find_block, least_used, is_less}

-- The byte at `a`: from the cache, if it has the block.
unfoldable pub view : Cached → ℕ → ℕ
view c a = elim (find_block 16 0 c.blocks (a / 1024)) [
  | some i ↦ (c.blocks i).bytes (a % 1024)
  | none ↦ c.file a
]

-- No block of the disk but block 0 is in the cache twice, and a block that has never been used
-- stands for block 0.
pub record Sound (c : Cached) : Type 0 where
  pub once :
      (i j : ℕ)
      → i < 16
      → j < 16
      → (c.blocks i).bno ≢ 0
      → (c.blocks i).bno ≡ (c.blocks j).bno
      → i ≡ j
  pub unused : (i : ℕ) → i < 16 → (c.blocks i).used ≡ 0 → (c.blocks i).bno ≡ 0

pub find_block-some :
    (k i : ℕ) (blocks : ℕ → Block) (b j : ℕ)
    → find_block k i blocks b ≡ some j
    → (i ≤ j) × (j < i + k) × ((blocks j).bno ≡ b)
unfolding find_block
find_block-some zero i blocks b j h = cc
find_block-some (suc k) i blocks b j h = elim (Bool-cases ((blocks i).bno == b)) [
  | inl e ↦ ground arith
  | inr e ↦ ground (arith, find_block-some k (i + 1) blocks b j)
]

pub find_block-none :
    (k i : ℕ) (blocks : ℕ → Block) (b j : ℕ)
    → find_block k i blocks b ≡ none
    → i ≤ j
    → j < i + k
    → (blocks j).bno ≢ b
unfolding find_block
find_block-none zero i blocks b j h lo hi = absurd (omega arith)
find_block-none (suc k) i blocks b j h lo hi = elim (Bool-cases (j == i)) [
  | inl e ↦ ground arith
  | inr e ↦ ground (arith, find_block-none k (i + 1) blocks b j)
]

pub least_used-lt :
    (k i : ℕ) (blocks : ℕ → Block) (l : Option ℕ) (n j : ℕ)
    → ((m : ℕ) → l ≡ some m → m < n)
    → i + k ≤ n
    → least_used k i blocks l ≡ some j
    → j < n
unfolding least_used
least_used-lt zero i blocks l n j known le h = known j h
least_used-lt (suc k) i blocks l n j known le h =
    least_used-lt k (i + 1) blocks _ n j
      (λ m e. elim (Bool-cases (((blocks i).busy == 0) && is_less blocks i l)) [
        | inl y ↦ ground arith
        | inr n' ↦ known m (rw n' at e)
      ])
      (omega arith) h

module _ (c : Cached) (s : Sound c) where
  -- A block other than 0 is found where it is.
  find_block-at :
      (i b : ℕ) → i < 16 → (c.blocks i).bno ≡ b → b ≢ 0 → find_block 16 0 c.blocks b ≡ some i
  find_block-at i b h e ne = elim (Option-cases (find_block 16 0 c.blocks b)) [
    | inl n ↦ absurd (find_block-none 16 0 c.blocks b i n (omega arith) (omega arith) e)
    | inr (j, f) ↦
        let found = find_block-some 16 0 c.blocks b j f in
        let same : i ≡ j =
          s.once i j h (omega (arith, found.1)) (λ z. ne (sym e ∙ z)) (e ∙ sym found.2) in
        f ∙ ap some (sym same)
  ]

  pub view-at :
      (i a : ℕ)
      → i < 16
      → (c.blocks i).bno ≡ a / 1024
      → a / 1024 ≢ 0
      → view c a ≡ (c.blocks i).bytes (a % 1024)
  unfolding view
  view-at i a h e ne = rw (find_block-at i (a / 1024) h e ne, view) refl

find_block-absent :
    (k i : ℕ) (blocks : ℕ → Block) (b : ℕ)
    → ((j : ℕ) → i ≤ j → j < i + k → (blocks j).bno ≢ b)
    → find_block k i blocks b ≡ none
find_block-absent k i blocks b h = elim (Option-cases (find_block k i blocks b)) [
  | inl n ↦ n
  | inr (j, f) ↦
      let found = find_block-some k i blocks b j f in absurd (h j found.0 found.1 found.2)
]

pub view-absent :
    (c : Cached) (a : ℕ) → ((j : ℕ) → j < 16 → (c.blocks j).bno ≢ a / 1024) → view c a ≡ c.file a
unfolding view
view-absent c a h =
    rw (find_block-absent 16 0 c.blocks (a / 1024) (λ j lo hi. h j (omega arith)), view) refl

-- A block of the cache that is replaced: `b` is the only one with its number afterwards.
module _ (c : Cached) (s : Sound c) (i : ℕ) (b : Block) (file : ℕ → ℕ) (t : ℕ) (inside : i < 16)
    (real : b.bno ≢ 0) (in_use : b.used ≢ 0)
    (alone : (j : ℕ) → j < 16 → j ≢ i → (c.blocks j).bno ≢ b.bno) where
  abbrev pub replaced : Cached
  replaced = record { blocks = put i b c.blocks; file = file; t = t }

  pub put-same : replaced.blocks i ≡ b
  put-same = ground arith

  put-other : (j : ℕ) → j ≢ i → replaced.blocks j ≡ c.blocks j
  put-other j h = ground arith

  pub replaced-Sound : Sound replaced
  replaced-Sound = record {
    once = λ j k hj hk ne e. elim (Bool-cases (j == i)) [
      | inl ji ↦ elim (Bool-cases (k == i)) [
        | inl ki ↦ ground arith
        | inr ki ↦ absurd (alone k hk (ground arith) (ground arith))
      ]
      | inr ji ↦ elim (Bool-cases (k == i)) [
        | inl ki ↦ absurd (alone j hj (ground arith) (ground arith))
        | inr ki ↦ s.once j k hj hk (ground arith) (ground arith)
      ]
    ];
    unused = λ j h e. elim (Bool-cases (j == i)) [
      | inl ji ↦ absurd (in_use (ground arith))
      | inr ji ↦ ground (arith, s.unused j h)
    ];
  }

  pub replaced-here : (a : ℕ) → a / 1024 ≡ b.bno → view replaced a ≡ b.bytes (a % 1024)
  replaced-here a e =
      view-at replaced replaced-Sound i a inside (ap (λ x. x.bno) put-same ∙ sym e)
        (λ z. real (sym e ∙ z))
      ∙ ap (λ x. x.bytes (a % 1024)) put-same

  -- Elsewhere the view is what it was, if the file has the bytes of the block that was replaced.
  pub replaced-elsewhere :
      (a : ℕ)
      → a / 1024 ≢ 0
      → a / 1024 ≢ b.bno
      → ((c.blocks i).bno ≡ a / 1024 → file a ≡ (c.blocks i).bytes (a % 1024))
      → ((c.blocks i).bno ≢ a / 1024 → file a ≡ c.file a)
      → view replaced a ≡ view c a
  replaced-elsewhere a nz other saved kept =
      elim (Option-cases (find_block 16 0 c.blocks (a / 1024))) [
        | inl n ↦
            let nowhere : (j : ℕ) → j < 16 → (c.blocks j).bno ≢ a / 1024 =
              λ j h. find_block-none 16 0 c.blocks (a / 1024) j n (omega arith) (omega arith) in
            view-absent replaced a (λ j h. elim (Bool-cases (j == i)) [
              | inl ji ↦ λ e. other (ground arith)
              | inr ji ↦ λ e. nowhere j h (ground arith)
            ])
            ∙ kept (nowhere i inside)
            ∙ sym (view-absent c a nowhere)
        | inr (j, f) ↦
            let found = find_block-some 16 0 c.blocks (a / 1024) j f in
            let low : j < 16 = omega (arith, found.1) in
            let before : view c a ≡ (c.blocks j).bytes (a % 1024) =
              view-at c s j a low found.2 nz in
            elim (Bool-cases (j == i)) [
              | inl ji ↦
                  let same : j ≡ i = ground arith in
                  view-absent replaced a (λ k h. elim (Bool-cases (k == i)) [
                    | inl ki ↦ λ e. other (ground arith)
                    | inr ki ↦ λ e.
                        let there : (c.blocks k).bno ≡ a / 1024 = ground arith in
                        absurd (
                          (λ (ne : k ≢ i). ne (
                              s.once k j h low (λ z. nz (sym there ∙ z)) (there ∙ sym found.2)
                              ∙ same))
                            (ground arith))
                  ])
                  ∙ saved (ap (λ k. (c.blocks k).bno) (sym same) ∙ found.2)
                  ∙ ap (λ k. (c.blocks k).bytes (a % 1024)) (sym same)
                  ∙ sym before
              | inr ji ↦
                  let ne : j ≢ i = ground arith in
                  view-at replaced replaced-Sound j a low
                    (ap (λ x. x.bno) (put-other j ne) ∙ found.2) nz
                  ∙ ap (λ x. x.bytes (a % 1024)) (put-other j ne)
                  ∙ sym before
            ]
      ]
