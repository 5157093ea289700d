-- ===== src/Ospfs/Io/RoundTrip.antt =====
-- Reading back what was written.
use cs111winter.Base.{
  ◌-◌, some, none, inl, inr, some, inl, ◌⊎◌, ◌%◌, ◌≤◌, ◌<◌, ◌+◌, ℕ, ◌≡◌, sym, ap, ◌∙◌, Bool, true,
  false, arith,
}
use mathlib.Core.Path.{subst}
use cs111winter.Ospfs.Mem.{Mem, Ptr}
use cs111winter.Ospfs.Resize.{Errno}
use cs111winter.Ospfs.Io.{
  ospfs_read, ospfs_write, efault, oi_size, load32, Read, Uaccess, Count, bytes, failed, Written,
}
use cs111winter.Ospfs.Io.Laws.{IsCopy}
use cs111winter.Ospfs.Io.Placing.{size-Same, blockno-Same, IsFlat}
use cs111winter.Ospfs.Io.Touching.{IsFetch, IsWrite}
use cs111winter.Ospfs.Io.Reading as Reading
use cs111winter.Ospfs.Io.Writing as Writing

is_bytes : Count → Bool
is_bytes (bytes n) = true
is_bytes (failed e) = false

bytes-failed : {n : ℕ} {e : Errno} → bytes n ≡ failed e → ⊥
unfolding is_bytes
bytes-failed same = let clash : true ≡ false = ap is_bytes same in ground arith

module _ (ua : Uaccess) (peek : Uaccess.User ua → ℕ → ℕ) (copy : IsCopy ua peek)
    (fetch : IsFetch ua peek) (oi : Ptr) (m : Mem) (f : IsFlat m oi) where
  open ua use {User}

  -- A write whose result is a number of bytes has put them there.
  succeeded :
      (u : User) (buffer n f_pos : ℕ) (w : Written ua) (k : ℕ)
      → w.result ≡ bytes k
      → Writing.Outcome ua peek fetch oi u m buffer 0 n f_pos w
      → IsWrite peek m oi u buffer n f_pos w.mem
  succeeded u buffer n f_pos w k r (Writing.done result pos write) = write
  succeeded u buffer n f_pos w k r (Writing.missing off result lo hi gone t) =
      absurd (bytes-failed (sym r ∙ result))
  succeeded u buffer n f_pos w k r (Writing.refused src j result ne t) =
      absurd (bytes-failed (sym r ∙ result))

  -- A read of the range that was written gives the user's bytes, unless a copy to the user fails.
  read_back :
      (u u' : User) (buffer dst n f_pos : ℕ) (m' : Mem) (r : Read ua)
      → IsWrite peek m oi u buffer n f_pos m'
      → Reading.Outcome ua peek copy m' oi u' dst 0 n f_pos r
      → ((r.result ≡ bytes n)
          × ((i : ℕ) → i < n → peek r.user (dst + i) ≡ peek u (buffer + i) % 256))
        ⊎ (r.result ≡ failed efault)
  read_back u u' buffer dst n f_pos m' r w (Reading.done result pos read) =
      inl (result ∙ ap bytes (omega arith), λ i h. read.content i h ∙ w.content i h)
  read_back u u' buffer dst n f_pos m' r w (Reading.missing off result lo hi gone) =
      let i : ℕ = off - f_pos in
      let at : f_pos + i ≡ off = omega arith in
      let was = blockno-Same w.touches.inode off f.size in
      absurd (w.present i (omega arith) (rw at (sym was ∙ gone)))
  read_back u u' buffer dst n f_pos m' r w (Reading.refused v to xs result ne) = inr result

  -- If the copies between kernel and user do what the kernel says, then after a write into a flat
  -- file, not in append mode and not past the end of the file, that has returned a number of bytes,
  -- a read at the same position with the same count ends. It returns the count and puts the bytes
  -- that were written into the user's memory, or it returns -EFAULT.
  pub ospfs_write-read :
      (fuel : ℕ) (u u' : User) (buffer dst count f_pos k : ℕ) (w : Written ua)
      → f_pos + count ≤ load32 m (oi_size oi)
      → ospfs_write ua fuel oi u false buffer count f_pos m ≡ some w
      → w.result ≡ bytes k
      → (r : Read ua) × (ospfs_read ua w.mem oi u' dst count f_pos ≡ some r)
        × (((r.result ≡ bytes count)
              × ((i : ℕ) → i < count → peek r.user (dst + i) ≡ peek u (buffer + i) % 256))
            ⊎ (r.result ≡ failed efault))
  ospfs_write-read fuel u u' buffer dst count f_pos k w fits runs result =
      let (w', ends, outcome) =
        Writing.ospfs_write_lem ua peek fetch oi u fuel m buffer count f_pos f fits in
      let same : w' ≡ w = ap (λ o. elim o [ none ↦ w | some x ↦ x ]) (sym ends ∙ runs) in
      let write =
        succeeded u buffer count f_pos w k result
          (subst (λ x. Writing.Outcome ua peek fetch oi u m buffer 0 count f_pos x) same outcome) in
      let size' = size-Same write.touches.inode in
      let all : Reading.readable ua peek copy w.mem oi count f_pos ≡ count = omega arith in
      let (r, reads, how) =
        Reading.ospfs_read_lem ua peek copy w.mem oi u' dst count f_pos (omega arith) in
      (
        r,
        reads,
        read_back u u' buffer dst count f_pos w.mem r write
            (subst (λ n. Reading.Outcome ua peek copy w.mem oi u' dst 0 n f_pos r) all how),
      )
