-- ===== src/Ospfs/Format/Files/Contents.antt =====
-- What the loop of writefile leaves on the disk, for a file of direct blocks.
use Prim.Native.Nat.{min}
use cs111winter.Base.{
  ℕ, zero, suc, ◌+◌, ◌-◌, ◌*◌, ◌/◌, ◌%◌, ◌≤◌, ◌<◌, ◌≡◌, inl, inr, refl, ap, ◌∙◌, sym, true, false,
  List, [], ◌∷◌, some, arith, ◌==◌, ltb, leb, length, take, drop, get_or, length-take, length-drop,
  Bool-cases, ◌⊎◌,
}
use cs111winter.Ospfs.Mem.{
  Mem, Ptr, Apart, Same, load8, load32, load8-Same, load32-Same, store32, store_bytes,
  store32_outside, load32-store32, load8-store32,
}
use cs111winter.Ospfs.Layout.{oi_direct, ospfs_block}
use cs111winter.Ospfs.Layout.Laws.{block_eq}
use cs111winter.Ospfs.Io.Placing.{store_bytes_outside, store_bytes-get_or}
use cs111winter.Ospfs.Format.{Disk, fill_block, storeblk}
use cs111winter.Ospfs.Format.Files.{put_block, write_blocks}

-- What one round leaves, for block `nblk` and the bytes `got`.
pub record Round (oi : Ptr) (nblk : ℕ) (got : List ℕ) (d d' : Disk) : Type 0 where
  pub next : d'.nextb ≡ d.nextb + 1
  pub named : load32 d'.image (oi_direct oi nblk) ≡ d.nextb
  pub holds : (i : ℕ) → i < length got → load8 d'.image (1024 * d.nextb + i) ≡ get_or got i 0 % 256
  pub spares :
      (x : Ptr) → x < 1024 * d.nextb → Apart (oi_direct oi nblk) 4 x 1 → d'.image x ≡ d.image x

module _ (nblocks ninodes : ℕ) (oi : Ptr) where
  -- The disk of a round: the next block is cleared, and then it gets the bytes.
  put_block-Round :
      (nblk : ℕ) (got : List ℕ) (d : Disk)
      → nblk < 10
      → length got ≤ 1024
      → d.nextb < 8192
      → oi + 64 ≤ 1024 * d.nextb
      → (d' : Disk) × (put_block nblocks ninodes oi nblk got
            (record d { image = fill_block d.nextb 0 d.image })
          ≡ some d')
        × Round oi nblk got d d'
  unfolding put_block storeblk
  put_block-Round nblk got d near fits low before =
      let direct : ltb nblk 10 ≡ true = ground arith in
      let place : ospfs_block d.nextb ≡ d.nextb * 1024 = block_eq d.nextb (omega arith) in
      let cleared : Mem = fill_block d.nextb 0 d.image in
      let filled : Mem = store_bytes cleared (ospfs_block d.nextb) got in
      let slot : Ptr = oi_direct oi nblk in
      (
        record d { image = store32 filled slot d.nextb; nextb = d.nextb + 1 },
        rw (direct, storeblk) refl,
        record {
          next = refl;
          named = load32-store32 filled slot d.nextb ∙ omega arith;
          holds = λ i h.
              load8-store32 filled slot d.nextb (1024 * d.nextb + i) (omega arith)
              ∙ ap (λ a. load8 filled (a + i)) (omega (arith, place))
              ∙ store_bytes-get_or got cleared (ospfs_block d.nextb) i h;
          spares = λ x h out.
              let kept : cleared x ≡ d.image x = ground arith in
              store32_outside filled slot d.nextb x out
              ∙ store_bytes_outside got cleared (ospfs_block d.nextb) x (inl (omega (arith, place)))
              ∙ kept;
        },
      )

-- What the loop leaves, from block `nblk` on.
pub record Written (oi : Ptr) (nblk : ℕ) (bytes : List ℕ) (d d' : Disk) : Type 0 where
  pub named :
      (i : ℕ)
      → i < length bytes
      → load32 d'.image (oi_direct oi (nblk + i / 1024)) ≡ d.nextb + i / 1024
  pub holds :
      (i : ℕ) → i < length bytes → load8 d'.image (1024 * d.nextb + i) ≡ get_or bytes i 0 % 256
  pub spares :
      (x : Ptr)
      → x < 1024 * d.nextb
      → (x < oi_direct oi nblk) ⊎ (oi + 56 ≤ x)
      → d'.image x ≡ d.image x

get_or-take : (n i : ℕ) (xs : List ℕ) → i < n → get_or (take n xs) i 0 ≡ get_or xs i 0
get_or-take zero i xs h = absurd (omega arith)
get_or-take (suc n) i [] h = refl
get_or-take (suc n) zero (x ∷ xs) h = refl
get_or-take (suc n) (suc i) (x ∷ xs) h = get_or-take n i xs (omega arith)

get_or-drop : (n i : ℕ) (xs : List ℕ) → get_or (drop n xs) i 0 ≡ get_or xs (n + i) 0
get_or-drop zero i xs = ap (λ j. get_or xs j 0) (omega arith)
get_or-drop (suc n) i [] = refl
get_or-drop (suc n) i (x ∷ xs) =
    let more : suc n + i ≡ suc (n + i) = omega arith in rw more (get_or-drop n i xs)

-- The tests of the loop as facts about numbers.
not_less : (a b : ℕ) → ltb a b ≡ false → b ≤ a
not_less a b h = ground arith

less : (a b : ℕ) → ltb a b ≡ true → a < b
less a b h = ground arith

is_none : (a : ℕ) → (a == 0) ≡ true → a ≡ 0
is_none a h = ground arith

is_some : (a : ℕ) → (a == 0) ≡ false → 0 < a
is_some a h = ground arith

-- A round and the rounds behind it; and a last round, which is not full.
module _ (oi : Ptr) (nblk : ℕ) (bytes : List ℕ) (d d1 : Disk) (before : oi + 64 ≤ 1024 * d.nextb)
    (near : nblk < 10) (round : Round oi nblk (take 1024 bytes) d d1) where
  Written-last : length bytes < 1024 → Written oi nblk bytes d d1
  Written-last short =
      let all : length (take 1024 bytes) ≡ length bytes = omega (arith, length-take 1024 bytes) in
      record {
        named = λ i h.
            let first : i / 1024 ≡ 0 = omega arith in
            let here : oi_direct oi (nblk + 0) ≡ oi_direct oi nblk = omega arith in
            rw (first, here) (round.named ∙ omega arith);
        holds = λ i h.
            round.holds i (omega (arith, all))
            ∙ ap (λ (v : ℕ). v % 256) (get_or-take 1024 i bytes (omega arith));
        spares = λ x h out. round.spares x h (ground arith);
      }

  Written-more :
      (d2 : Disk)
      → 1024 ≤ length bytes
      → Written oi (nblk + 1) (drop 1024 bytes) d1 d2
      → Written oi nblk bytes d d2
  Written-more d2 long rest =
      let all : length (take 1024 bytes) ≡ 1024 = omega (arith, length-take 1024 bytes) in
      let left : length (drop 1024 bytes) ≡ length bytes - 1024 = length-drop 1024 bytes in
      let slot : Same (oi_direct oi nblk) 4 d1.image d2.image = record {
        keeps = λ x lo hi. rest.spares x (omega (arith, round.next)) (inl (omega arith));
      } in
      record {
        named = λ i h. elim (Bool-cases (ltb i 1024)) [
          | inl first ↦
              let zero' : i / 1024 ≡ 0 = omega (arith, less i 1024 first) in
              let here : oi_direct oi (nblk + 0) ≡ oi_direct oi nblk = omega arith in
              rw (zero', here) (load32-Same (oi_direct oi nblk) slot ∙ round.named ∙ omega arith)
          | inr later ↦
              let k : ℕ = i - 1024 in
              let big = not_less i 1024 later in
              let split : (i / 1024 ≡ k / 1024 + 1) × (k < length bytes - 1024) =
                (omega (arith, big), omega (arith, big)) in
              let there : oi_direct oi (nblk + (k / 1024 + 1))
                  ≡ oi_direct oi (nblk + 1 + k / 1024) =
                omega arith in
              rw (split.0, there)
                (rest.named k (omega (arith, left, split.1)) ∙ omega (arith, round.next))
        ];
        holds = λ i h. elim (Bool-cases (ltb i 1024)) [
          | inl first ↦
              let small : i < 1024 = less i 1024 first in
              let byte : Same (1024 * d.nextb + i) 1 d1.image d2.image = record {
                keeps = λ x lo hi. rest.spares x (omega (arith, round.next)) (inr (omega arith));
              } in
              load8-Same (1024 * d.nextb + i) byte
              ∙ round.holds i (omega (arith, all))
              ∙ ap (λ (v : ℕ). v % 256) (get_or-take 1024 i bytes small)
          | inr later ↦
              let k : ℕ = i - 1024 in
              let big : i ≡ 1024 + k = omega (arith, not_less i 1024 later) in
              ap (λ a. load8 d2.image a) (omega (arith, big, round.next))
              ∙ rest.holds k (omega (arith, left, big))
              ∙ ap (λ (v : ℕ). v % 256)
                  (get_or-drop 1024 k bytes ∙ ap (λ j. get_or bytes j 0) (sym big))
        ];
        spares = λ x h out.
            rest.spares x (omega (arith, round.next)) (ground arith)
            ∙ round.spares x h (ground arith);
      }

module _ (nblocks ninodes : ℕ) (oi : Ptr) where
  pub write_blocks_lem :
      (fuel nblk : ℕ) (bytes : List ℕ) (d : Disk)
      → length bytes < 1024 * fuel
      → 1024 * nblk + length bytes ≤ 10240
      → (d.nextb + length bytes / 1024 < nblocks) × (nblocks ≤ 8192)
      → oi + 64 ≤ 1024 * d.nextb
      → (d' : Disk) × (write_blocks nblocks ninodes fuel oi nblk bytes d
          ≡ some (nblk * 1024 + length bytes, d'))
        × Written oi nblk bytes d d'
  unfolding write_blocks
  write_blocks_lem zero nblk bytes d enough fits room before = absurd (omega arith)
  write_blocks_lem (suc fuel) nblk bytes d enough fits room before =
      let got : List ℕ = take 1024 bytes in
      let cleared : Disk = record d { image = fill_block d.nextb 0 d.image } in
      let open' : leb nblocks d.nextb ≡ false = ground arith in
      let some_got : length got ≡ min 1024 (length bytes) = length-take 1024 bytes in
      elim (Bool-cases (length got == 0)) [
        | inl none_left ↦
            let empty : length bytes ≡ 0 =
              omega (arith, some_got, is_none (length got) none_left) in
            (
              cleared,
              rw (open', none_left, write_blocks)
                  (ap (λ n. some (n, cleared)) (omega (arith, empty))),
              record {
                named = λ i h. absurd (omega (arith, empty));
                holds = λ i h. absurd (omega (arith, empty));
                spares = λ x h out.
                    let kept : fill_block d.nextb 0 d.image x ≡ d.image x =
                      ground (arith, block_eq d.nextb) in
                    kept;
              },
            )
        | inr more ↦
            let near : nblk < 10 = omega (arith, some_got, is_some (length got) more) in
            let (d1, put, round) =
              put_block-Round nblocks ninodes oi nblk got d near (omega (arith, some_got))
                (omega arith) before in
            elim (Bool-cases (ltb (length got) 1024)) [
              | inl short ↦
                  let all : (length got ≡ length bytes) × (length bytes < 1024) = (
                    omega (arith, some_got, less (length got) 1024 short),
                    omega (arith, some_got, less (length got) 1024 short),
                  ) in
                  (
                    d1,
                    rw (open', more, put, short, write_blocks)
                        (ap (λ n. some (n, d1)) (omega (arith, all.0))),
                    Written-last oi nblk bytes d d1 before near round all.1,
                  )
              | inr full ↦
                  let long : 1024 ≤ length bytes =
                    omega (arith, some_got, not_less (length got) 1024 full) in
                  let left : length (drop 1024 bytes) ≡ length bytes - 1024 =
                    length-drop 1024 bytes in
                  let (d2, runs, written) =
                    write_blocks_lem fuel (nblk + 1) (drop 1024 bytes) d1
                      (omega (arith, left, long)) (omega (arith, left, long))
                      (omega (arith, left, long, round.next, room.0), room.1)
                      (omega (arith, round.next)) in
                  (
                    d2,
                    rw (open', more, put, full, write_blocks)
                        (runs ∙ ap (λ n. some (n, d2)) (omega (arith, left, long))),
                    Written-more oi nblk bytes d d1 before near round d2 long written,
                  )
            ]
      ]
