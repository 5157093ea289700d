-- ===== src/Ospfs/Format/Marking.antt =====
-- The free map and the superblock that `finishfs` leaves, as the module reads them.
use cs111winter.Base.{
  ◌*◌, true, ◌<◌, ◌-◌, ℕ, zero, suc, ◌+◌, ◌/◌, ◌%◌, ◌≤◌, ◌≡◌, refl, ap, ◌∙◌, false, not, ◌&&◌, some,
  arith, ltb, leb,
}
use cs111winter.Ospfs.Layout.{ospfs_block}
use cs111winter.Ospfs.Alloc.Laws.{is_free-Same}
use cs111winter.Ospfs.Mem.{Same-trans, Same-store32, load32-store32, load32-store32_ne}
use cs111winter.Ospfs.Layout.{os_nblocks, os_ninodes, os_firstinob}
use cs111winter.Ospfs.Format.{
  Mem, mark_past_end, finishfs, fill_block, put_super, nbitblock, firstinob,
}
use cs111winter.Base.{◌^◌, Bool-cases, inl, inr, ◌==◌, ◌-◌}
use cs111winter.Ospfs.Bitvector.{word_at, bitvector_clear}
use cs111winter.Ospfs.Bitvector.Laws.{test-clear}
use cs111winter.Ospfs.Alloc.{bitmap, is_free}
use cs111winter.Ospfs.Format.{put_super, mark_rest, Disk, clear_bit, mark_blocks}

module _ (nblocks ninodes : ℕ) where
  -- Within the one block of the map, a bit is cleared as the module clears it.
  clear_bit_lem :
      (i : ℕ) (d : Disk)
      → (clear_bit nblocks ninodes 2 i d).image ≡ bitvector_clear d.image bitmap i
  unfolding bitvector_clear ospfs_block
  clear_bit_lem i d = refl

  mark_blocks-suc :
      (k i : ℕ) (d : Disk)
      → i < 8192
      → 3 ≤ nblocks
      → mark_blocks nblocks ninodes (suc k) i d
        ≡ mark_blocks nblocks ninodes k (i + 1) (clear_bit nblocks ninodes 2 i d)
  unfolding mark_blocks
  mark_blocks-suc k i d h some' =
      let first : i / 8192 ≡ 0 = omega arith in
      let bit : i % 8192 ≡ i = omega arith in
      let within : leb nblocks (2 + i / 8192) ≡ false = ground arith in
      rw (within, first, bit, mark_blocks) refl

  mark_blocks-is_free :
      (k i : ℕ) (d : Disk)
      → i + k ≤ 8192
      → 3 ≤ nblocks
      → (d' : Disk) × (mark_blocks nblocks ninodes k i d ≡ some d')
        × ((j : ℕ) → is_free d'.image j ≡ (not (leb i j && ltb j (i + k)) && is_free d.image j))
  unfolding mark_blocks
  mark_blocks-is_free zero i d h some' = (d, refl, λ j. ground arith)
  mark_blocks-is_free (suc k) i d h some' =
      let next : Disk = clear_bit nblocks ninodes 2 i d in
      let (d', ends, map) = mark_blocks-is_free k (i + 1) next (omega arith) some' in
      (
        d',
        mark_blocks-suc k i d (omega arith) some' ∙ ends,
        λ j.
            map j
            ∙ ap (λ b. not (leb (i + 1) j && ltb j (i + 1 + k)) && b)
                (ap (λ m. is_free m j) (clear_bit_lem i d) ∙ test-clear d.image bitmap i j)
            ∙ ground arith,
      )

  mark_rest-is_free :
      (k i : ℕ) (d : Disk) (j : ℕ)
      → (1 ≤ nblocks) × (nblocks ≤ 8192)
      → is_free (mark_rest nblocks ninodes k i d).image j
        ≡ (not (leb i j && ltb j (i + k)) && is_free d.image j)
  unfolding mark_rest
  mark_rest-is_free zero i d j size = ground arith
  mark_rest-is_free (suc k) i d j size =
      let one : (nblocks + 8192 - 1) / 8192 ≡ 1 = omega arith in
      let next : Disk = clear_bit nblocks ninodes 2 i d in
      let rest = mark_rest-is_free k (i + 1) next j size in
      rw (one, mark_rest)
        (rest
          ∙ ap (λ b. not (leb (i + 1) j && ltb j (i + 1 + k)) && b)
              (ap (λ m. is_free m j) (clear_bit_lem i d) ∙ test-clear d.image bitmap i j)
          ∙ ground arith)

  mark_past_end-is_free :
      (d : Disk)
      → (3 ≤ nblocks) × (nblocks ≤ 8192)
      → (d' : Disk) × (mark_past_end nblocks ninodes d ≡ some d')
        × ((j : ℕ) → j < 8192 → is_free d'.image j ≡ (ltb j nblocks && is_free d.image j))
  unfolding mark_past_end
  mark_past_end-is_free d size =
      let one : (nblocks + 8192 - 1) / 8192 ≡ 1 = omega arith in
      elim (Bool-cases (nblocks == nbitblock nblocks ninodes * 8192)) [
        | inl e ↦ let whole : nblocks ≡ 8192 = ground arith in (d, rw e refl, λ j h. ground arith)
        | inr e ↦
            let short : nblocks < 8192 = ground arith in
            let start : nblocks % 8192 ≡ nblocks = omega arith in
            let within : leb nblocks (2 + nbitblock nblocks ninodes - 1) ≡ false = ground arith in
            let d' : Disk = mark_rest nblocks ninodes (8192 - nblocks % 8192) (nblocks % 8192) d in
            (
              d',
              rw (e, within) refl,
              λ j h.
                  mark_rest-is_free (8192 - nblocks % 8192) (nblocks % 8192) d j (omega arith)
                  ∙ rw start (ground arith),
            )
      ]

  -- The superblock is written in front of the map.
  fill_super-is_free : (m : Mem) (j : ℕ) → is_free (fill_block 1 0 m) j ≡ is_free m j
  unfolding ospfs_block
  fill_super-is_free m j = is_free-Same j (record { keeps = λ x lo hi. ground arith })

  put_super-is_free :
      (d : Disk) (j : ℕ) → is_free (put_super nblocks ninodes d).image j ≡ is_free d.image j
  put_super-is_free d j = is_free-Same j (
      Same-trans (Same-store32 (word_at bitmap j) 4 d.image 1024 _ (inl (omega arith))) (
        Same-trans (Same-store32 (word_at bitmap j) 4 _ 1028 _ (inl (omega arith))) (
          Same-trans (Same-store32 (word_at bitmap j) 4 _ 1032 _ (inl (omega arith)))
            (Same-store32 (word_at bitmap j) 4 _ 1036 _ (inl (omega arith))))))

  super_fields :
      (d : Disk)
      → (nblocks < 2 ^ 32) × (ninodes < 2 ^ 32) × (firstinob nblocks ninodes < 2 ^ 32)
      → (os_nblocks (put_super nblocks ninodes d).image ≡ nblocks)
        × (os_ninodes (put_super nblocks ninodes d).image ≡ ninodes)
        × (os_firstinob (put_super nblocks ninodes d).image ≡ firstinob nblocks ninodes)
  super_fields d small = (
    load32-store32_ne _ 1036 _ 1028 (omega arith)
        ∙ load32-store32_ne _ 1032 _ 1028 (omega arith)
        ∙ load32-store32 _ 1028 nblocks
        ∙ omega arith,
    load32-store32_ne _ 1036 _ 1032 (omega arith) ∙ load32-store32 _ 1032 ninodes ∙ omega arith,
    load32-store32 _ 1036 (firstinob nblocks ninodes) ∙ omega arith,
  )

  -- On a disk of 3 to 8192 blocks, whose map is all ones as opendisk leaves it, and of which no
  -- more than all blocks have been used, finishfs succeeds. For the module the blocks behind those
  -- that have been used are free, and no others; and it finds the numbers of blocks and of inodes
  -- and the first block of inodes in the superblock.
  pub finishfs_lem :
      (d : Disk)
      → (3 ≤ nblocks) × (nblocks ≤ 8192)
      → ninodes < 2 ^ 32
      → d.nextb ≤ nblocks
      → ((j : ℕ) → j < 8192 → is_free d.image j ≡ true)
      → (d' : Disk) × (finishfs nblocks ninodes d ≡ some d')
        × ((j : ℕ) → j < 8192 → is_free d'.image j ≡ (leb d.nextb j && ltb j nblocks))
        × (os_nblocks d'.image ≡ nblocks)
        × (os_ninodes d'.image ≡ ninodes)
        × (os_firstinob d'.image ≡ firstinob nblocks ninodes)
  unfolding finishfs
  finishfs_lem d size inodes used all =
      let (d1, ends1, map1) = mark_blocks-is_free d.nextb 0 d (omega arith) size.0 in
      let (d2, ends2, map2) = mark_past_end-is_free d1 size in
      let within : leb nblocks 1 ≡ false = ground arith in
      let d3 : Disk = record d2 { image = fill_block 1 0 d2.image } in
      let (a, b, c) = super_fields d3 (omega arith, inodes, omega arith) in
      (
        put_super nblocks ninodes d3,
        rw (ends1, ends2, within, finishfs) refl,
        λ j h.
            put_super-is_free d3 j
            ∙ fill_super-is_free d2.image j
            ∙ map2 j h
            ∙ ap (λ b. ltb j nblocks && b)
                (map1 j ∙ ap (λ b. not (leb 0 j && ltb j (0 + d.nextb)) && b) (all j h))
            ∙ ground arith,
        a,
        b,
        c,
      )
