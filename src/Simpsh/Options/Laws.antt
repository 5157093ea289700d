-- ===== src/Simpsh/Options/Laws.antt =====
-- What a few options do together: opens after a failed one, --abort after --ignore and --default,
-- --close twice, and the last loop of `main`.
use mathlib.Core.List.{append-nil, append_assoc}
use cs111winter.Base.{
  ℕ, zero, suc, ◌≤◌, ◌≡◌, refl, sym, ap, ◌∙◌, true, Option, none, some, List, [], ◌∷◌, ◌++◌, inl,
  inr, Option-cases, get_or, take, length, arith, bit_or,
}
use cs111winter.Simpsh.Args.{Str, find_args, new_args, atoi, all_digits}
use cs111winter.Simpsh.State.{
  Os, Shell, Access, open_file, abort, echo, say, Event, opened, closed, goes_on,
}
use cs111winter.Simpsh.Command.Release.{get_or-set}
use cs111winter.Simpsh.Table.{close_all}
use cs111winter.Simpsh.Options.{
  access_bits, open_case, close_case, ignore_case, default_case, abort_case,
}

module _ {W : Type 0} (os : Os W) where
  failed_open :
      (m : Access) (p : Str) (s : Shell W)
      → (os.sys_open s.world p (bit_or (access_bits m) s.oflag)).1 ≡ none
      → let t = open_case os m p s in
        (t.oflag ≡ bit_or (access_bits m) s.oflag) × (t.fd_array ≡ s.fd_array)
  unfolding open_case
  failed_open m p s h = rw (h, open_case) (refl, refl)

  open_case-opened :
      (m : Access) (p : Str) (s : Shell W)
      → (before : List Event) × ((open_case os m p s).trace
          ≡ opened p (bit_or (access_bits m) s.oflag) ∷ before)
  unfolding open_case
  open_case-opened m p s =
      let told : List Event =
        (say
          (echo s.oflag_str (open_file m)
            (some p ∷ (find_args s.argv s.optind 2 new_args).1.entries))
          s).trace in
      elim (Option-cases (os.sys_open s.world p (bit_or (access_bits m) s.oflag)).1) [
        | inl e ↦ (told, rw (e, open_case) refl)
        | inr (n, e) ↦ (told, rw (e, open_case) refl)
      ]

  -- When an open fails no descriptor is added, and the next open is called with the access mode
  -- and the flags of the failed one in addition to its own.
  pub open_case-open_case :
      (m n : Access) (p q : Str) (s : Shell W)
      → (os.sys_open s.world p (bit_or (access_bits m) s.oflag)).1 ≡ none
      → let t = open_case os m p s in
        (before : List Event) × ((open_case os n q t).trace
          ≡ opened q (bit_or (access_bits n) (bit_or (access_bits m) s.oflag)) ∷ before)
        × (t.fd_array ≡ s.fd_array)
  open_case-open_case m n p q s h =
      let (before, e) = open_case-opened n q (open_case os m p s) in
      let kept = failed_open m p s h in
      (before, e ∙ ap (λ f. opened q (bit_or (access_bits n) f) ∷ before) kept.0, kept.1)

  ignored_abort :
      (s : Shell W) → s.ignore_abort ≡ true → abort_case os s ≡ goes_on (say (echo [] abort []) s)
  unfolding abort_case
  ignored_abort s h = ground arith

  ignore_default :
      (arg : Str) (s : Shell W)
      → all_digits arg ≡ true
      → atoi (some arg) ≡ 11
      → (default_case os arg (ignore_case os arg s)).ignore_abort ≡ true
  unfolding default_case ignore_case
  ignore_default arg s d n = ground arith

  pub ignore_default-abort :
      (arg : Str) (s : Shell W)
      → all_digits arg ≡ true
      → atoi (some arg) ≡ 11
      → (t : Shell W) × (abort_case os (default_case os arg (ignore_case os arg s)) ≡ goes_on t)
  ignore_default-abort arg s d n =
      (_, ignored_abort (default_case os arg (ignore_case os arg s)) (ignore_default arg s d n))

  pub close_case-close_case :
      (arg : Str) (s : Shell W)
      → let t = close_case os arg s in
        let u = close_case os arg t in
        (u.world ≡ t.world) × (u.fd_array ≡ t.fd_array) × (1 ≤ u.exit_status)
  unfolding close_case
  close_case-close_case arg s =
      ground (arith, get_or-set s.fd_array (atoi (some arg)) (atoi (some arg)))

-- The closes of the open entries; the last entry is closed first.
unfoldable pub closes_of : List (Option ℕ) → List Event
closes_of [] = []
closes_of (none ∷ fds) = closes_of fds
closes_of (some fd ∷ fds) = closed (some fd) ∷ closes_of fds

abbrev last_close : Option ℕ → List Event
last_close none = []
last_close (some fd) = closed (some fd) ∷ []

closes_of-take :
    (n : ℕ) (fds : List (Option ℕ))
    → closes_of (take (suc n) fds) ≡ closes_of (take n fds) ++ last_close (get_or fds n none)
unfolding closes_of
closes_of-take zero [] = refl
closes_of-take zero (none ∷ fds) = refl
closes_of-take zero (some fd ∷ fds) = refl
closes_of-take (suc n) [] = refl
closes_of-take (suc n) (none ∷ fds) = closes_of-take n fds
closes_of-take (suc n) (some fd ∷ fds) = ap (λ l. closed (some fd) ∷ l) (closes_of-take n fds)

take-length : (xs : List (Option ℕ)) → take (length xs) xs ≡ xs
take-length [] = refl
take-length (x ∷ xs) = ap (λ l. x ∷ l) (take-length xs)

module _ {W : Type 0} (os : Os W) where
  close_all_from :
      (n : ℕ) (s : Shell W) → (close_all os n s).trace ≡ closes_of (take n s.fd_array) ++ s.trace
  unfolding close_all closes_of
  close_all_from zero s = refl
  close_all_from (suc n) s = elim (Option-cases (get_or s.fd_array n none)) [
    | inl e ↦
        rw (e, close_all)
          (close_all_from n s
            ∙ ap (λ l. l ++ s.trace)
                (sym (
                  closes_of-take n s.fd_array
                  ∙ ap (λ l. closes_of (take n s.fd_array) ++ last_close l) e
                  ∙ append-nil _)))
    | inr (fd, e) ↦
        let next : Shell W = record s {
          world = os.sys_close s.world (some fd);
          trace = closed (some fd) ∷ s.trace;
        } in
        let first : List Event = closes_of (take n s.fd_array) in
        rw (e, close_all)
          (close_all_from n next
            ∙ sym (append_assoc first (closed (some fd) ∷ []) s.trace)
            ∙ ap (λ l. l ++ s.trace)
                (sym (closes_of-take n s.fd_array ∙ ap (λ l. first ++ last_close l) e)))
  ]

  pub close_all_lem :
      (s : Shell W) → (close_all os (length s.fd_array) s).trace ≡ closes_of s.fd_array ++ s.trace
  close_all_lem s =
      close_all_from (length s.fd_array) s
      ∙ ap (λ l. closes_of l ++ s.trace) (take-length s.fd_array)
