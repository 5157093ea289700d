-- ===== src/Ospfs/Io/Reading.antt =====
-- The ways out of the loop of `ospfs_read`, and what they leave.
use mathlib.Core.Path.{subst}
use Prim.Native.Nat.{min}
use cs111winter.Base.{
  refl, zero, suc, inr, inl, Bool-cases, ℕ, suc, ◌+◌, ◌-◌, ◌%◌, ◌^◌, ◌≤◌, ◌<◌, ◌≡◌, ◌≢◌, sym, ap,
  ◌∙◌, List, Option, some, arith, ◌==◌, length,
}
use cs111winter.Ospfs.Io.{read_count, ospfs_read, bytes, failed, read_loop}
use native.Mathlib.Decide.{dec_lt}
use cs111winter.Ospfs.Mem.{load32-lt, Mem, Ptr, load32}
use cs111winter.Ospfs.Layout.{oi_size, ospfs_block, ospfs_inode_blockno}
use cs111winter.Ospfs.Resize.{eio, efault}
use cs111winter.Ospfs.Io.{Uaccess, bytes, failed, chunk, Read, read_loop}
use cs111winter.Ospfs.Io.Rounds.{
  source, round, sent_by, round-stop, round-missing, round-refused, round-go,
}
use cs111winter.Ospfs.Io.Laws.{
  length-load_bytes, get_or-load_bytes, file_byte, file_byte-same, blockno_past_end, chunk_bounds,
  IsCopy, IsRead,
}

module _ (ua : Uaccess) (peek : Uaccess.User ua → ℕ → ℕ) (copy : IsCopy ua peek) (m : Mem)
    (oi : Ptr) where
  open ua use {User, copy_to_user}

  -- Two reads in a row are one.
  IsRead-join :
      {u u1 u2 : User} {buffer n k f_pos : ℕ}
      → IsRead ua peek m oi u buffer n f_pos u1
      → IsRead ua peek m oi u1 (buffer + n) k (f_pos + n) u2
      → IsRead ua peek m oi u buffer (n + k) f_pos u2
  IsRead-join {u} {u1} {u2} {buffer} {n} {k} {f_pos} p q = record {
    content = λ i h. elim (dec_lt i n) [
      | yes lo ↦ q.rest (buffer + i) (omega arith) ∙ p.content i lo
      | no hi ↦
          let back : n + (i - n) ≡ i = omega arith in
          let b : buffer + n + (i - n) ≡ buffer + i = omega arith in
          let f : f_pos + n + (i - n) ≡ f_pos + i = omega arith in
          ap (peek u2) (sym b) ∙ q.content (i - n) (omega arith) ∙ ap (file_byte m oi) f
    ];
    rest = λ a h. q.rest a (omega arith) ∙ p.rest a (omega arith);
  }

  -- How a read of `n` bytes may end: all are copied; a block of the file is missing; or a copy to
  -- the user failed.
  pub data Outcome (u : User) (buffer amount n f_pos : ℕ) (r : Read ua) : Type 0 where
    done :
        r.result ≡ bytes (amount + n)
        → r.f_pos ≡ f_pos + n
        → IsRead ua peek m oi u buffer n f_pos r.user
        → Outcome u buffer amount n f_pos r
    missing :
        (off : ℕ)
        → r.result ≡ failed eio
        → f_pos ≤ off
        → off < f_pos + n
        → ospfs_inode_blockno m oi off ≡ 0
        → Outcome u buffer amount n f_pos r
    refused :
        (u' : User) (dst : ℕ) (xs : List ℕ)
        → r.result ≡ failed efault
        → (copy_to_user u' dst xs).0 ≢ 0
        → Outcome u buffer amount n f_pos r

  -- A round that copies is a read of one chunk.
  chunk-IsRead :
      (u : User) (buffer f_pos r : ℕ)
      → 0 < r
      → f_pos + r ≤ load32 m (oi_size oi)
      → (copy_to_user u buffer (source m oi f_pos (chunk f_pos r))).0 ≡ 0
      → IsRead ua peek m oi u buffer
          (chunk f_pos r)
          f_pos
          (copy_to_user u buffer (source m oi f_pos (chunk f_pos r))).1
  chunk-IsRead u buffer f_pos r pos fits sent =
      let n : ℕ = chunk f_pos r in
      let bounds = chunk_bounds f_pos r pos in
      let from : ℕ = ospfs_block (ospfs_inode_blockno m oi f_pos) + f_pos % 1024 in
      let len : length (source m oi f_pos n) ≡ n = length-load_bytes m from n in
      record {
        content = λ i h.
            copy.lands u buffer (source m oi f_pos n) i sent (omega arith)
            ∙ get_or-load_bytes m from n i h
            ∙ sym (file_byte-same m oi f_pos i (omega arith) (omega arith));
        rest = λ a h. copy.spares u buffer (source m oi f_pos n) a sent (omega arith);
      }

  -- What a round adds in front of the outcome of the rest.
  Outcome-join :
      {u u1 : User} {buffer amount n k f_pos : ℕ} {r : Read ua}
      → IsRead ua peek m oi u buffer n f_pos u1
      → Outcome u1 (buffer + n) (amount + n) k (f_pos + n) r
      → Outcome u buffer amount (n + k) f_pos r
  Outcome-join p (done result pos q) =
      done (result ∙ ap bytes (omega arith)) (omega arith) (IsRead-join p q)
  Outcome-join p (missing off result lo hi gone) =
      missing off result (omega arith) (omega arith) gone
  Outcome-join p (refused u' dst xs result ne) = refused u' dst xs result ne

  abbrev pub Ends : User → (buffer amount n f_pos : ℕ) → Option (Read ua) → Type 0
  Ends u buffer amount n f_pos o = (r : Read ua) × (o ≡ some r) × Outcome u buffer amount n f_pos r

  read_loop-Ends :
      (k : ℕ) (u : User) (buffer amount count f_pos : ℕ)
      → amount ≤ count
      → count < amount + k
      → f_pos + (count - amount) ≤ load32 m (oi_size oi)
      → Ends u buffer amount
          (count - amount)
          f_pos
          (read_loop ua k m oi u buffer amount count f_pos)
  unfolding round
  read_loop-Ends zero u buffer amount count f_pos le fuel fits = absurd (omega arith)
  read_loop-Ends (suc k) u buffer amount count f_pos le fuel fits = elim (dec_lt amount count) [
    | no stop ↦ (
      record { result = bytes amount; user = u; f_pos = f_pos },
      round-stop ua m oi k u buffer amount count f_pos (omega arith),
      done (ap bytes (omega arith)) (omega arith)
          (record { content = λ i h. absurd (omega arith); rest = λ a h. refl }),
    )
    | yes more ↦
        let small : f_pos < 2 ^ 32 = omega (arith, load32-lt m (oi_size oi)) in
        let n : ℕ = chunk f_pos (count - amount) in
        let bounds = chunk_bounds f_pos (count - amount) (omega arith) in
        let sent : ℕ × User = sent_by ua m oi k u buffer amount count f_pos in
        elim (Bool-cases (ospfs_inode_blockno m oi f_pos == 0)) [
          | inl gone ↦ (
            record { result = failed eio; user = u; f_pos = f_pos },
            round-missing ua m oi k u buffer amount count f_pos more small gone,
            missing f_pos refl (omega arith) (omega arith) (ground arith),
          )
          | inr here ↦ elim (Bool-cases (sent.0 == 0)) [
            | inr bad ↦ (
              record { result = failed efault; user = sent.1; f_pos = f_pos },
              round-refused ua m oi k u buffer amount count f_pos more small here bad,
              refused u buffer (source m oi f_pos n) refl (ground arith),
            )
            | inl good ↦
                let one =
                  chunk-IsRead u buffer f_pos (count - amount) (omega arith) fits (ground arith) in
                let rest =
                  read_loop-Ends k sent.1 (buffer + n) (amount + n) count (f_pos + n) (omega arith)
                    (omega arith) (omega arith) in
                let e : n + (count - (amount + n)) ≡ count - amount = omega arith in
                (
                  rest.0,
                  round-go ua m oi k u buffer amount count f_pos more small here good ∙ rest.1,
                  subst (λ j. Outcome u buffer amount j f_pos rest.0) e (Outcome-join one rest.2),
                )
          ]
        ]
  ]

  -- The number of bytes that a read at `f_pos` may copy.
  abbrev pub readable : (count f_pos : ℕ) → ℕ
  readable count f_pos = min count (load32 m (oi_size oi) - f_pos)

  -- If copy_to_user does what the kernel says, a read from a position within the file ends, with
  -- no other outcome than these: the bytes up to the end of the file, or count of them, are
  -- copied, and the position moves on by as many; or -EIO, and a block is missing in this range;
  -- or -EFAULT, and a copy to the user failed.
  pub ospfs_read_lem :
      (u : User) (buffer count f_pos : ℕ)
      → f_pos ≤ load32 m (oi_size oi)
      → Ends u buffer 0 (readable count f_pos) f_pos (ospfs_read ua m oi u buffer count f_pos)
  unfolding ospfs_read
  ospfs_read_lem u buffer count f_pos within =
      let size = load32-lt m (oi_size oi) in
      let n : ℕ = readable count f_pos in
      let e : read_count (load32 m (oi_size oi)) f_pos count ≡ n = ground arith in
      let all : n - 0 ≡ n = omega arith in
      rw e (
        subst (λ j. Ends u buffer 0 j f_pos (read_loop ua (suc n) m oi u buffer 0 n f_pos)) all
          (read_loop-Ends (suc n) u buffer 0 n f_pos (omega arith) (omega arith) (omega arith)))

  -- At a position below 2^32 behind the end of the file the wrapped count makes the loop start, and it stops at once with
  -- -EIO: no byte is copied and the position stays.
  pub ospfs_read-past_end :
      (u : User) (buffer count f_pos : ℕ)
      → load32 m (oi_size oi) < f_pos
      → f_pos < 2 ^ 32
      → ospfs_read ua m oi u buffer count f_pos
        ≡ some (record { result = failed eio; user = u; f_pos = f_pos })
  unfolding ospfs_read round
  ospfs_read-past_end u buffer count f_pos past small =
      let size = load32-lt m (oi_size oi) in
      let c : ℕ = read_count (load32 m (oi_size oi)) f_pos count in
      let pos : 0 < c = ground arith in
      round-missing ua m oi c u buffer 0 c f_pos pos small
        (blockno_past_end m oi f_pos (omega arith))
