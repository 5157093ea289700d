-- ===== src/Ospfs/Io/Rounds.antt =====
-- The four ways through one round of the loop of `ospfs_read`.
use cs111winter.Base.{
  ℕ, suc, ◌+◌, ◌-◌, ◌%◌, ◌^◌, ◌≤◌, ◌<◌, ◌≡◌, ap, ◌∙◌, true, false, List, Option, some, arith, ◌==◌,
  ltb,
}
use cs111winter.Ospfs.Mem.{Mem, Ptr, load_bytes}
use cs111winter.Ospfs.Layout.{ospfs_block, ospfs_inode_blockno}
use cs111winter.Ospfs.Resize.{eio, efault}
use cs111winter.Ospfs.Io.{Uaccess, bytes, failed, chunk, Read, read_loop}

-- The bytes that the round at `f_pos` copies, `n` of them.
abbrev pub source : Mem → Ptr → (f_pos n : ℕ) → List ℕ
source m oi f_pos n = load_bytes m (ospfs_block (ospfs_inode_blockno m oi f_pos) + f_pos % 1024) n

module _ (ua : Uaccess) (m : Mem) (oi : Ptr) where
  open ua use {User, copy_to_user}

  module _ (k : ℕ) (u : User) (buffer amount count f_pos : ℕ) where
    unfoldable pub round : Option (Read ua)
    round = read_loop ua (suc k) m oi u buffer amount count f_pos

    abbrev pub sent_by : ℕ × User
    sent_by = copy_to_user u buffer (source m oi f_pos (chunk f_pos (count - amount)))

    pub round-stop :
        count ≤ amount → round ≡ some (record { result = bytes amount; user = u; f_pos = f_pos })
    unfolding round read_loop
    round-stop h = let t : ltb amount count ≡ false = ground arith in rw (t, read_loop)

    module _ (more : amount < count) (small : f_pos < 2 ^ 32) where
      test : ltb amount count ≡ true
      test = ground arith

      cast : f_pos % 2 ^ 32 ≡ f_pos
      cast = omega arith

      pub round-missing :
          (ospfs_inode_blockno m oi f_pos == 0) ≡ true
          → round ≡ some (record { result = failed eio; user = u; f_pos = f_pos })
      unfolding round read_loop
      round-missing e = rw (test, cast, e, read_loop)

      -- As the code writes it, with the cast of the position.
      abbrev sent_raw : ℕ × User
      sent_raw = copy_to_user u buffer (
          load_bytes m (ospfs_block (ospfs_inode_blockno m oi (f_pos % 2 ^ 32)) + f_pos % 1024)
            (chunk f_pos (count - amount)))

      sent_raw-sent_by : sent_raw ≡ sent_by
      sent_raw-sent_by =
          ap
            (λ (p : ℕ). copy_to_user u buffer (
              load_bytes m (ospfs_block (ospfs_inode_blockno m oi p) + f_pos % 1024)
                (chunk f_pos (count - amount))))
            cast

      module _ (here : (ospfs_inode_blockno m oi f_pos == 0) ≡ false) where
        here_raw : (ospfs_inode_blockno m oi (f_pos % 2 ^ 32) == 0) ≡ false
        here_raw = rw cast here

        pub round-refused :
            (sent_by.0 == 0) ≡ false
            → round ≡ some (record { result = failed efault; user = sent_by.1; f_pos = f_pos })
        unfolding round read_loop
        round-refused e =
            let raw : (sent_raw.0 == 0) ≡ false =
              ap (λ (s : ℕ × User). s.0 == 0) sent_raw-sent_by ∙ e in
            rw (test, here_raw, raw, read_loop)
              (ap
                (λ (s : ℕ × User).
                  some (record { result = failed efault; user = s.1; f_pos = f_pos }))
                sent_raw-sent_by)

        pub round-go :
            (sent_by.0 == 0) ≡ true
            → round ≡ (
                let n = chunk f_pos (count - amount) in
                read_loop ua k m oi sent_by.1 (buffer + n) (amount + n) count (f_pos + n))
        unfolding round read_loop
        round-go e =
            let raw : (sent_raw.0 == 0) ≡ true =
              ap (λ (s : ℕ × User). s.0 == 0) sent_raw-sent_by ∙ e in
            rw (test, here_raw, raw, read_loop)
              (ap
                (λ (s : ℕ × User).
                  read_loop ua k m oi s.1 (buffer + chunk f_pos (count - amount))
                    (amount + chunk f_pos (count - amount)) count
                    (f_pos + chunk f_pos (count - amount)))
                sent_raw-sent_by)
