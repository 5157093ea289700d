-- ===== src/Ospfs/Format/Cache/Getblk.antt =====
-- getblk, whatever it has to throw out of the cache.
use cs111winter.Base.{
  zero, suc, ◌≤◌, ◌<◌, ℕ, ◌+◌, ◌*◌, ◌/◌, ◌%◌, ◌<◌, ◌≡◌, ◌≢◌, refl, sym, ap, ◌∙◌, Bool, true, false,
  ◌&&◌, ◌||◌, none, some, ◌==◌, leb, if◌then◌else◌, arith, Bool-cases, Option-cases, inl, inr,
}
use mathlib.Core.Path.{subst}
use cs111winter.Ospfs.Format.Swizzle.{BlockType}
use cs111winter.Ospfs.Format.Cache.{
  is_less, Block, Cached, put, find_block, least_used, flushb, hand_out, load_block, getblk,
  same_type,
}
use cs111winter.Ospfs.Format.Cache.View.{
  Sound, view, find_block-some, find_block-none, least_used-lt, view-at, view-absent,
  replaced-Sound, replaced-here, replaced-elsewhere, put-same,
}

-- What getblk(bno, clr, …) leaves: the block it hands out has the number and the bytes of the disk,
-- and of the disk's bytes, block 0 apart, only those of a block that is cleared change.
pub record Gives (bno : ℕ) (clr : Bool) (c : Cached) (i : ℕ) (c' : Cached) : Type 0 where
  pub sound : Sound c'
  pub number : (c'.blocks i).bno ≡ bno
  pub same_bytes : (a : ℕ) → a / 1024 ≡ bno → (c'.blocks i).bytes (a % 1024) ≡ view c' a
  pub unchanged :
      (a : ℕ) → a / 1024 ≢ 0 → view c' a ≡ (if clr && (a / 1024 == bno) then 0 else view c a)

-- Handing out `b` in the place of block `i`, with the file as it is then.
module _ (c : Cached) (s : Sound c) (i : ℕ) (b : Block) (clr : Bool) (type : BlockType)
    (file : ℕ → ℕ) (inside : i < 16) (real : b.bno ≢ 0)
    (alone : (j : ℕ) → j < 16 → j ≢ i → (c.blocks j).bno ≢ b.bno)
    (bytes : (a : ℕ) → a / 1024 ≡ b.bno → b.bytes (a % 1024) ≡ view c a)
    (saved : (a : ℕ)
      → a / 1024 ≢ b.bno
      → (c.blocks i).bno ≡ a / 1024
      → a / 1024 ≢ 0
      → file a ≡ (c.blocks i).bytes (a % 1024))
    (kept : (a : ℕ) → a / 1024 ≢ b.bno → (c.blocks i).bno ≢ a / 1024 → file a ≡ c.file a) where
  hand_out-Gives :
      (k : ℕ) (c' : Cached)
      → hand_out i b clr type (record c { file = file }) ≡ some (k, c')
      → Gives b.bno clr c k c'
  unfolding hand_out
  hand_out-Gives k c' h =
      let taken : Block = record b {
        type_of = type;
        busy = b.busy + 1;
        used = c.t + 1;
        bytes = if clr then (λ o. 0) else b.bytes;
      } in
      let in_use : taken.used ≢ 0 = λ e. omega (arith, e) in
      let new : Cached = record { blocks = put i taken c.blocks; file = file; t = c.t + 1 } in
      let same : (k ≡ i) × (new ≡ c') =
        elim (Bool-cases (same_type b.type_of type || (b.busy == 0))) [
          | inl y ↦ let e = rw y at h in (cc, cc)
          | inr n ↦ absurd (let e = rw n at h in cc)
        ] in
      let here = replaced-here c s i taken file (c.t + 1) inside real in_use alone in
      let place = put-same c s i taken file (c.t + 1) inside real in_use alone in
      let all : Gives b.bno clr c i new = record {
        sound = replaced-Sound c s i taken file (c.t + 1) inside real in_use alone;
        number = ap (λ x. x.bno) place;
        same_bytes = λ a e. ap (λ x. x.bytes (a % 1024)) place ∙ sym (here a e);
        unchanged = λ a nz. elim (Bool-cases (a / 1024 == b.bno)) [
          | inl y ↦
              let e : a / 1024 ≡ b.bno = ground arith in
              here a e ∙ rw y (cleared clr b (view c a) (a % 1024) (bytes a e))
          | inr n ↦
              let ne : a / 1024 ≢ b.bno = ground arith in
              replaced-elsewhere c s i taken file (c.t + 1) inside real in_use alone a nz ne
                (λ e. saved a ne e nz) (kept a ne)
              ∙ rw n (not_cleared clr (view c a))
        ];
      } in
      rw (same.0) (subst (λ x. Gives b.bno clr c i x) same.1 all)
    where
      cleared :
          (clr' : Bool) (b' : Block) (v o : ℕ)
          → b'.bytes o ≡ v
          → (if clr' then (λ p. 0) else b'.bytes) o ≡ (if clr' && true then 0 else v)
      cleared true b' v o e = refl
      cleared false b' v o e = e

      not_cleared : (clr' : Bool) (v : ℕ) → v ≡ (if clr' && false then 0 else v)
      not_cleared true v = refl
      not_cleared false v = refl

-- The file after block `old` has been flushed, if it was in use.
abbrev after_flush : Block → (ℕ → ℕ) → ℕ → ℕ
after_flush old file = if old.used == 0 then file else flushb old file

after_flush-other :
    (old : Block) (file : ℕ → ℕ) (a : ℕ) → old.bno ≢ a / 1024 → after_flush old file a ≡ file a
unfolding flushb
after_flush-other old file a ne = ground arith

after_flush-here :
    (old : Block) (file : ℕ → ℕ) (a : ℕ)
    → old.used ≢ 0
    → old.bno ≡ a / 1024
    → after_flush old file a ≡ old.bytes (a % 1024)
unfolding flushb
after_flush-here old file a used e = ground arith

module _ (c : Cached) (s : Sound c) (bno : ℕ) (nz : bno ≢ 0) (clr : Bool) (type : BlockType) (i : ℕ)
    (c' : Cached) where
  -- The block is in the cache.
  hit-Gives :
      (j : ℕ)
      → find_block 16 0 c.blocks bno ≡ some j
      → hand_out j (c.blocks j) clr type c ≡ some (i, c')
      → Gives bno clr c i c'
  hit-Gives j f e =
      let found = find_block-some 16 0 c.blocks bno j f in
      let low : j < 16 = omega (arith, found.1) in
      subst (λ x. Gives x clr c i c') found.2
        (hand_out-Gives c s j (c.blocks j) clr type c.file low (λ z. nz (sym found.2 ∙ z))
          (λ k h ne same. ne (s.once k j h low (λ z. nz (sym found.2 ∙ sym same ∙ z)) same))
          (λ a at'. sym (view-at c s j a low (sym at') (λ z. nz (sym found.2 ∙ sym at' ∙ z))))
          (λ a ne at' real. absurd (ne (sym at'))) (λ a ne out. refl) i c' e)

  -- It is not, and block `j` of the cache has to go.
  miss-Gives :
      (j : ℕ)
      → find_block 16 0 c.blocks bno ≡ none
      → j < 16
      → load_block j bno clr type c ≡ some (i, c')
      → Gives bno clr c i c'
  unfolding load_block
  miss-Gives j n low e =
      let old : Block = c.blocks j in
      let file : ℕ → ℕ = after_flush old c.file in
      let absent : (k : ℕ) → k < 16 → (c.blocks k).bno ≢ bno =
        λ k h. find_block-none 16 0 c.blocks bno k n (omega arith) (omega arith) in
      hand_out-Gives c s j
        (record old { bno = bno; type_of = type; busy = 0; bytes = λ o. file (1024 * bno + o) }) clr
        type file low nz (λ k h ne. absent k h)
        (λ a at'.
          let whole : 1024 * bno + a % 1024 ≡ a = omega (arith, at') in
          let other : old.bno ≢ a / 1024 = λ z. absent j low (z ∙ at') in
          ap file whole
          ∙ after_flush-other old c.file a other
          ∙ sym (view-absent c a (λ k h z. absent k h (z ∙ at'))))
        (λ a ne at' real.
          after_flush-here old c.file a (λ z. real (sym at' ∙ s.unused j low z)) at')
        (λ a ne out. after_flush-other old c.file a out) i c' e

getblk-Gives :
    (nblocks bno : ℕ) (clr : Bool) (type : BlockType) (c : Cached) (i : ℕ) (c' : Cached)
    → Sound c
    → bno ≢ 0
    → getblk nblocks bno clr type c ≡ some (i, c')
    → Gives bno clr c i c'
unfolding getblk
getblk-Gives nblocks bno clr type c i c' s nz h = elim (Bool-cases (leb nblocks bno)) [
  | inl past ↦ absurd (let e = rw (past, getblk) at h in cc)
  | inr on_disk ↦ elim (Option-cases (find_block 16 0 c.blocks bno)) [
    | inr (j, f) ↦ hit-Gives c s bno nz clr type i c' j f (rw (on_disk, f, getblk) at h)
    | inl n ↦ elim (Option-cases (least_used 16 0 c.blocks none)) [
      | inl full ↦ absurd (let e = rw (on_disk, n, full, getblk) at h in cc)
      | inr (j, l) ↦
          let low : j < 16 = least_used-lt 16 0 c.blocks none 16 j (λ m e. cc) (omega arith) l in
          miss-Gives c s bno nz clr type i c' j n low (rw (on_disk, n, l, getblk) at h)
    ]
  ]
]

least_used-started :
    (k i : ℕ) (blocks : ℕ → Block) (l : ℕ) → (r : ℕ) × (least_used k i blocks (some l) ≡ some r)
unfolding least_used
least_used-started zero i blocks l = (l, refl)
least_used-started (suc k) i blocks l =
    elim (Bool-cases (((blocks i).busy == 0) && is_less blocks i (some l))) [
      | inl y ↦ rw (y, least_used) (least_used-started k (i + 1) blocks i)
      | inr n ↦ rw (n, least_used) (least_used-started k (i + 1) blocks l)
    ]

-- Among blocks of which one is not busy one is found.
least_used-some :
    (k i : ℕ) (blocks : ℕ → Block) (j : ℕ)
    → i ≤ j
    → j < i + k
    → (blocks j).busy ≡ 0
    → (r : ℕ) × (least_used k i blocks none ≡ some r)
unfolding least_used
least_used-some zero i blocks j lo hi idle = absurd (omega arith)
least_used-some (suc k) i blocks j lo hi idle = elim (Bool-cases ((blocks i).busy == 0)) [
  | inl y ↦ rw (y, least_used) (least_used-started k (i + 1) blocks i)
  | inr n ↦
      rw (n, least_used) (least_used-some k (i + 1) blocks j (ground arith) (omega arith) idle)
]

hand_out_total :
    (i : ℕ) (b : Block) (clr : Bool) (type : BlockType) (c : Cached)
    → (same_type b.type_of type || (b.busy == 0)) ≡ true
    → (c' : Cached) × (hand_out i b clr type c ≡ some (i, c'))
unfolding hand_out
hand_out_total i b clr type c y = rw (y, hand_out) (_, refl)

or_true : (b : Bool) → (b || true) ≡ true
or_true true = refl
or_true false = refl

-- From a sound cache, of which some block is not busy, and in which the block that is asked for,
-- if it is there, is not busy or of the type that is asked for, getblk of a block of the disk
-- other than block 0 succeeds. The cache stays sound, the block that it returns has the number and
-- the bytes of that block of the disk, and of the bytes of the disk as seen through the cache,
-- block 0 apart, none changes but those of a block that is to be cleared, which become 0.
pub getblk_lem :
    (nblocks bno : ℕ) (clr : Bool) (type : BlockType) (c : Cached) (j : ℕ)
    → Sound c
    → (bno ≢ 0) × (bno < nblocks)
    → (j < 16) × ((c.blocks j).busy ≡ 0)
    → ((k : ℕ)
        → k < 16
        → (c.blocks k).bno ≡ bno
        → (same_type (c.blocks k).type_of type || ((c.blocks k).busy == 0)) ≡ true)
    → (i : ℕ) × (c' : Cached) × (getblk nblocks bno clr type c ≡ some (i, c'))
      × Gives bno clr c i c'
unfolding getblk load_block
getblk_lem nblocks bno clr type c j s real idle typed =
    let on_disk : leb nblocks bno ≡ false = ground arith in
    elim (Option-cases (find_block 16 0 c.blocks bno)) [
      | inr (k, f) ↦
          let found = find_block-some 16 0 c.blocks bno k f in
          let (c', e) =
            hand_out_total k (c.blocks k) clr type c (typed k (omega (arith, found.1)) found.2) in
          let runs : getblk nblocks bno clr type c ≡ some (k, c') = rw (on_disk, f, getblk) e in
          (k, c', runs, getblk-Gives nblocks bno clr type c k c' s real.0 runs)
      | inl n ↦
          let (l, least) =
            least_used-some 16 0 c.blocks j (omega arith) (omega (arith, idle.0)) idle.1 in
          let old : Block = c.blocks l in
          let file : ℕ → ℕ = after_flush old c.file in
          let (c', e) =
            hand_out_total l
              (record old {
                bno = bno;
                type_of = type;
                busy = 0;
                bytes = λ o. file (1024 * bno + o);
              })
              clr type (record c { file = file }) (or_true (same_type type type)) in
          let runs : getblk nblocks bno clr type c ≡ some (l, c') =
            rw (on_disk, n, least, getblk) e in
          (l, c', runs, getblk-Gives nblocks bno clr type c l c' s real.0 runs)
    ]
