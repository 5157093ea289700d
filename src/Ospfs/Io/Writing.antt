-- ===== src/Ospfs/Io/Writing.antt =====
-- The ways out of the loop of `ospfs_write`, and what they leave.
use cs111winter.Base.{
  ℕ, zero, suc, ◌+◌, ◌-◌, ◌%◌, ◌^◌, ◌≤◌, ◌<◌, ◌≡◌, ◌≢◌, inl, inr, refl, sym, ap, ◌∙◌, true, false,
  List, arith, ◌==◌, ltb, length, Bool-cases, Option, some,
}
use mathlib.Core.Path.{subst}
use native.Mathlib.Decide.{dec_lt}
use cs111winter.Ospfs.Mem.{Mem, Ptr, load32, store_bytes, load32-lt}
use cs111winter.Ospfs.Layout.{oi_size, ospfs_block, ospfs_inode_blockno}
use cs111winter.Ospfs.Resize.{eio, efault}
use cs111winter.Ospfs.Io.{Uaccess, bytes, failed, chunk, Written, write_loop, ospfs_write}
use cs111winter.Ospfs.Io.Laws.{chunk_bounds}
use cs111winter.Ospfs.Io.Placing.{IsFlat, size-Same, blockno-Same, IsFlat-Same}
use cs111winter.Ospfs.Io.Touching.{
  IsFetch, Touches, Touches-none, Touches-join, Touches-widen, stored-Touches, stored_at, IsWrite,
  IsWrite-join, chunk_place,
}

module _ (ua : Uaccess) (peek : Uaccess.User ua → ℕ → ℕ) (fetch : IsFetch ua peek) (oi : Ptr)
    (u : Uaccess.User ua) where
  open ua use {User, copy_from_user}

  -- How a write of `n` bytes may end: all have arrived; a block of the file is missing; or a copy
  -- from the user failed.
  pub data Outcome (m : Mem) (buffer amount n f_pos : ℕ) (r : Written ua) : Type 0 where
    done :
        r.result ≡ bytes (amount + n)
        → r.f_pos ≡ f_pos + n
        → IsWrite peek m oi u buffer n f_pos r.mem
        → Outcome m buffer amount n f_pos r
    missing :
        (off : ℕ)
        → r.result ≡ failed eio
        → f_pos ≤ off
        → off < f_pos + n
        → ospfs_inode_blockno m oi off ≡ 0
        → Touches m oi f_pos n r.mem
        → Outcome m buffer amount n f_pos r
    refused :
        (src k : ℕ)
        → r.result ≡ failed efault
        → (copy_from_user u src k).0 ≢ 0
        → Touches m oi f_pos n r.mem
        → Outcome m buffer amount n f_pos r

  Outcome-join :
      {m m1 : Mem} {buffer amount n k f_pos : ℕ} {r : Written ua}
      → IsFlat m oi
      → f_pos + (n + k) ≤ load32 m (oi_size oi)
      → IsWrite peek m oi u buffer n f_pos m1
      → Outcome m1 (buffer + n) (amount + n) k (f_pos + n) r
      → Outcome m buffer amount (n + k) f_pos r
  Outcome-join f fits p (done result pos q) =
      done (result ∙ ap bytes (omega arith)) (omega arith) (IsWrite-join peek oi u f fits p q)
  Outcome-join f fits p (missing off result lo hi gone t) =
      missing off result (omega arith) (omega arith)
        (sym (blockno-Same p.touches.inode off f.size) ∙ gone) (Touches-join f.size p.touches t)
  Outcome-join f fits p (refused src k result ne t) =
      refused src k result ne (Touches-join f.size p.touches t)

  -- The ways through one round.
  module _ (k : ℕ) (m : Mem) (buffer amount count f_pos : ℕ) where
    round : Option (Written ua)
    round = write_loop ua (suc k) oi u m buffer amount count f_pos

    abbrev n_of : ℕ
    n_of = chunk f_pos (count - amount)

    abbrev got : ℕ × List ℕ
    got = copy_from_user u buffer n_of

    abbrev written : Mem
    written = store_bytes m (ospfs_block (ospfs_inode_blockno m oi f_pos) + f_pos % 1024) got.1

    round-stop :
        count ≤ amount → round ≡ some (record { result = bytes amount; mem = m; f_pos = f_pos })
    unfolding round write_loop
    round-stop h = let t : ltb amount count ≡ false = ground arith in rw (t, write_loop)

    module _ (more : amount < count) (small : f_pos < 2 ^ 32) where
      test : ltb amount count ≡ true
      test = ground arith

      cast : f_pos % 2 ^ 32 ≡ f_pos
      cast = omega arith

      round-missing :
          (ospfs_inode_blockno m oi f_pos == 0) ≡ true
          → round ≡ some (record { result = failed eio; mem = m; f_pos = f_pos })
      unfolding round write_loop
      round-missing e = rw (test, cast, e, write_loop)

      module _ (here : (ospfs_inode_blockno m oi f_pos == 0) ≡ false) where
        here_raw : (ospfs_inode_blockno m oi (f_pos % 2 ^ 32) == 0) ≡ false
        here_raw = rw cast here

        round-refused :
            (got.0 == 0) ≡ false
            → round ≡ some (record { result = failed efault; mem = written; f_pos = f_pos })
        unfolding round write_loop
        round-refused e = rw (test, here_raw, e, cast, write_loop)

        round-go :
            (got.0 == 0) ≡ true
            → round
              ≡ write_loop ua k oi u written (buffer + n_of) (amount + n_of) count (f_pos + n_of)
        unfolding round write_loop
        round-go e = rw (test, here_raw, e, cast, write_loop)

  -- A round that arrives is a write of one chunk.
  chunk-IsWrite :
      (m : Mem) (buffer f_pos r : ℕ)
      → IsFlat m oi
      → 0 < r
      → f_pos + r ≤ load32 m (oi_size oi)
      → ospfs_inode_blockno m oi f_pos ≢ 0
      → (copy_from_user u buffer (chunk f_pos r)).0 ≡ 0
      → IsWrite peek m oi u buffer (chunk f_pos r) f_pos (
          store_bytes m
            (ospfs_block (ospfs_inode_blockno m oi f_pos) + f_pos % 1024)
            (copy_from_user u buffer (chunk f_pos r)).1)
  chunk-IsWrite m buffer f_pos r f pos fits here all =
      let n : ℕ = chunk f_pos r in
      let bounds = chunk_bounds f_pos r pos in
      let xs : List ℕ = (copy_from_user u buffer n).1 in
      let short = fetch.short u buffer n in
      let len : length xs ≡ n = fetch.whole u buffer n all in
      let fits' : f_pos + n ≤ load32 m (oi_size oi) = omega arith in
      record {
        touches = stored-Touches m oi f_pos n f fits' bounds.0 bounds.2 here xs short;
        content = λ i h.
            stored_at m oi f_pos n f fits' bounds.0 bounds.2 here xs short i (omega arith)
            ∙ ap (λ (v : ℕ). v % 256) (fetch.fetched u buffer n i all h);
        present = λ i h. (chunk_place m oi f_pos n f fits' bounds.0 bounds.2 here i h).0;
      }

  abbrev pub Ends : Mem → (buffer amount n f_pos : ℕ) → Option (Written ua) → Type 0
  Ends m buffer amount n f_pos o =
      (r : Written ua) × (o ≡ some r) × Outcome m buffer amount n f_pos r

  write_loop-Ends :
      (k : ℕ) (m : Mem) (buffer amount count f_pos : ℕ)
      → IsFlat m oi
      → amount ≤ count
      → count < amount + k
      → f_pos + (count - amount) ≤ load32 m (oi_size oi)
      → Ends m buffer amount
          (count - amount)
          f_pos
          (write_loop ua k oi u m buffer amount count f_pos)
  unfolding round
  write_loop-Ends zero m buffer amount count f_pos f le fuel fits = absurd (omega arith)
  write_loop-Ends (suc k) m buffer amount count f_pos f le fuel fits = elim (dec_lt amount count) [
    | no stop ↦ (
      record { result = bytes amount; mem = m; f_pos = f_pos },
      round-stop k m buffer amount count f_pos (omega arith),
      done (ap bytes (omega arith)) (omega arith) (record {
        touches = Touches-none m oi f_pos (count - amount);
        content = λ i h. absurd (omega arith);
        present = λ i h. absurd (omega arith);
      }),
    )
    | yes more ↦
        let small : f_pos < 2 ^ 32 = omega (arith, load32-lt m (oi_size oi)) in
        let r : ℕ = count - amount in
        let n : ℕ = chunk f_pos r in
        let bounds = chunk_bounds f_pos r (omega arith) in
        let sent : ℕ × List ℕ = got k m buffer amount count f_pos in
        elim (Bool-cases (ospfs_inode_blockno m oi f_pos == 0)) [
          | inl gone ↦ (
            record { result = failed eio; mem = m; f_pos = f_pos },
            round-missing k m buffer amount count f_pos more small gone,
            missing f_pos refl (omega arith) (omega arith) (ground arith)
                (Touches-none m oi f_pos r),
          )
          | inr here ↦
              let here' : ospfs_inode_blockno m oi f_pos ≢ 0 = ground arith in
              let m1 : Mem = written k m buffer amount count f_pos in
              elim (Bool-cases (sent.0 == 0)) [
                | inr bad ↦ (
                  record { result = failed efault; mem = m1; f_pos = f_pos },
                  round-refused k m buffer amount count f_pos more small here bad,
                  refused buffer n refl (ground arith) (
                      Touches-widen bounds.1 (
                        stored-Touches m oi f_pos n f (omega arith) bounds.0 bounds.2 here' sent.1
                          (fetch.short u buffer n))),
                )
                | inl good ↦
                    let one =
                      chunk-IsWrite m buffer f_pos r f (omega arith) fits here' (ground arith) in
                    let size' = size-Same one.touches.inode in
                    let rest =
                      write_loop-Ends k m1 (buffer + n) (amount + n) count (f_pos + n)
                        (IsFlat-Same one.touches.inode f) (omega arith) (omega arith)
                        (omega arith) in
                    let e : n + (count - (amount + n)) ≡ count - amount = omega arith in
                    (
                      rest.0,
                      round-go k m buffer amount count f_pos more small here good ∙ rest.1,
                      subst (λ j. Outcome m buffer amount j f_pos rest.0) e
                          (Outcome-join f (omega arith) one rest.2),
                    )
              ]
        ]
  ]

  -- If copy_from_user does what the kernel says, a write into a flat file, not in append mode,
  -- that does not reach past the end of the file ends, with no other outcome than these: the bytes
  -- of the range are the user's and the position moves on by count; or -EIO, and a block is
  -- missing in this range; or -EFAULT, and a copy from the user failed. The inode is as it was,
  -- and nothing but bytes of the file in this range has changed.
  pub ospfs_write_lem :
      (fuel : ℕ) (m : Mem) (buffer count f_pos : ℕ)
      → IsFlat m oi
      → f_pos + count ≤ load32 m (oi_size oi)
      → Ends m buffer 0 count f_pos (ospfs_write ua fuel oi u false buffer count f_pos m)
  unfolding ospfs_write
  ospfs_write_lem fuel m buffer count f_pos f fits =
      let no_growth : ltb (load32 m (oi_size oi)) (f_pos + count) ≡ false = ground arith in
      let all : count - 0 ≡ count = omega arith in
      rw no_growth (
        subst (λ j. Ends m buffer 0 j f_pos (write_loop ua (suc count) oi u m buffer 0 count f_pos))
          all
          (write_loop-Ends (suc count) m buffer 0 count f_pos f (omega arith) (omega arith)
            (omega arith)))
