-- ===== src/Simpsh/Main/Status.antt =====
-- The exit status: how it relates to the statuses of the children that --wait has reported.
use Prim.Native.Nat.{max}
use cs111winter.Base.{
  ℕ, zero, suc, ◌+◌, ◌≤◌, ◌≡◌, refl, ◌&&◌, Option, none, some, List, [], ◌∷◌, inl, inr,
  Option-cases, Bool-cases, get_elem?, get_or, length, arith,
}
use cs111winter.Simpsh.Args.{Str, Args, atoi, find_args, put_arg, new_args, grow_args}
use cs111winter.Simpsh.State.{
  Os, Shell, Opt, command, wait, pipe, close, abort, catch, ignore, default, pause, open_file, echo,
  echo_command, goes_on, exits, say, Event, reported, spawned, Access,
}
use cs111winter.Simpsh.Table.{close_all, close_fd, is_open, valid_fd}
use cs111winter.Simpsh.Main.Turn.{Reachable, starts, turns, on_goes_on-some}
use cs111winter.Simpsh.Command.{child, release, launch, run_command, command_case}
use cs111winter.Simpsh.Options.{
  wait_loop, wait_case, report, open_case, pipe_case, close_case, catch_case, ignore_case,
  default_case, abort_case, pause_case,
}
use cs111winter.Simpsh.Main.{option_case, scanned, finish}

-- The largest status that was reported.
unfoldable pub worst : List Event → ℕ
worst [] = 0
worst (reported status words ∷ evs) = max status (worst evs)
worst (_ ∷ evs) = worst evs

-- The exit status is the largest one reported, or 1 if that is 0 and something failed.
abbrev pub IsFair : {W : Type 0} → Shell W → Type 0
IsFair s = (worst s.trace ≤ s.exit_status) × (s.exit_status ≤ max 1 (worst s.trace))

module _ {W : Type 0} (os : Os W) where
  open_case-IsFair :
      (m : Access) (path : Str) (s : Shell W) → IsFair s → IsFair (open_case os m path s)
  unfolding open_case worst
  open_case-IsFair m path s h = ground arith

  pipe_case-IsFair : (s : Shell W) → IsFair s → IsFair (pipe_case os s)
  unfolding pipe_case worst
  pipe_case-IsFair s h = ground arith

  close_case-IsFair : (arg : Str) (s : Shell W) → IsFair s → IsFair (close_case os arg s)
  unfolding close_case worst
  close_case-IsFair arg s h = ground arith

  catch_case-IsFair : (arg : Str) (s : Shell W) → IsFair s → IsFair (catch_case os arg s)
  unfolding catch_case worst
  catch_case-IsFair arg s h = ground arith

  ignore_case-IsFair : (arg : Str) (s : Shell W) → IsFair s → IsFair (ignore_case os arg s)
  unfolding ignore_case worst
  ignore_case-IsFair arg s h = ground arith

  default_case-IsFair : (arg : Str) (s : Shell W) → IsFair s → IsFair (default_case os arg s)
  unfolding default_case worst
  default_case-IsFair arg s h = ground arith

  abort_case-IsFair : (s t : Shell W) → abort_case os s ≡ goes_on t → IsFair s → IsFair t
  unfolding abort_case worst
  abort_case-IsFair s t e h = ground arith

  pause_case-IsFair : (s t : Shell W) → pause_case os s ≡ goes_on t → IsFair s → IsFair t
  unfolding pause_case worst
  pause_case-IsFair s t e h = ground arith

  release-IsFair : (i o e : ℕ) (s : Shell W) → IsFair s → IsFair (release os i o e s)
  unfolding release worst
  release-IsFair i o e s h = ground arith

  launch-IsFair :
      (i o e begin end : ℕ) (words : List (Option Str)) (s : Shell W)
      → IsFair s
      → IsFair (launch os i o e begin end words s)
  unfolding launch worst
  launch-IsFair i o e begin end words s h =
      let forked : Shell W = record s {
        world = (os.fork s.world).0;
        trace = spawned (os.fork s.world).1 (child s.fd_array s.fd_is_pipe i o e words) ∷ s.trace;
      } in
      release-IsFair i o e forked h

  run_command-IsFair :
      (i o e : ℕ) (name : Str) (s : Shell W) → IsFair s → IsFair (run_command os i o e name s)
  unfolding run_command worst
  run_command-IsFair i o e name s h =
      let (end, found) = find_args s.argv (s.optind + 1) 2 (put_arg (some name) new_args) in
      let terminated : Args = put_arg none (grow_args 2 found) in
      let again : Args = put_arg none terminated in
      let said : Shell W =
        record (say (echo_command i o e found.entries)
          (record s { optind = end; overruns = s.overruns + terminated.overruns })) {
            overruns = s.overruns + again.overruns;
          } in
      elim (Bool-cases (valid_fd i s.fd_array && valid_fd o s.fd_array && valid_fd e s.fd_array)) [
        | inl v ↦
            rw (v, run_command)
              (launch-IsFair i o e s.optind end terminated.entries said (ground arith))
        | inr v ↦ rw (v, run_command) (ground arith)
      ]

  command_case-IsFair : (arg : Str) (s : Shell W) → IsFair s → IsFair (command_case os arg s)
  unfolding command_case
  command_case-IsFair arg s h = elim (Option-cases (get_elem? s.argv (s.optind + 2))) [
    | inl e ↦ ground arith
    | inr (name, e) ↦ ground (
      arith,
      run_command-IsFair (atoi (some arg)) (atoi (get_elem? s.argv s.optind))
          (atoi (get_elem? s.argv (s.optind + 1))) name (record s { optind = s.optind + 2 }) h,
    )
  ]

  wait_loop-IsFair : (fuel : ℕ) (s t : Shell W) → wait_loop fuel os s ≡ some t → IsFair s → IsFair t
  unfolding wait_loop report worst
  wait_loop-IsFair zero s t e h = cc
  wait_loop-IsFair (suc fuel) s t e h = elim (Option-cases (os.waitpid s.world).1) [
    | inl n ↦ ground arith
    | inr (c, n) ↦
        wait_loop-IsFair fuel (report c.0 c.1 (record s { world = (os.waitpid s.world).0 })) t
          (rw (n, wait_loop) at e) (ground arith)
  ]

  option_case-IsFair :
      (waits : ℕ) (opt : Opt) (arg : Str) (s t : Shell W)
      → option_case waits os opt arg s ≡ some (goes_on t)
      → IsFair s
      → IsFair t
  unfolding option_case wait_case worst
  option_case-IsFair waits command arg s t e h = ground (arith, command_case-IsFair arg s h)
  option_case-IsFair waits wait arg s t e h =
      wait_loop-IsFair waits (say (echo [] wait []) s) t (on_goes_on-some _ e) (ground arith)
  option_case-IsFair waits pipe arg s t e h = ground (arith, pipe_case-IsFair s h)
  option_case-IsFair waits close arg s t e h = ground (arith, close_case-IsFair arg s h)
  option_case-IsFair waits abort arg s t e h = abort_case-IsFair s t (cc) h
  option_case-IsFair waits catch arg s t e h = ground (arith, catch_case-IsFair arg s h)
  option_case-IsFair waits ignore arg s t e h = ground (arith, ignore_case-IsFair arg s h)
  option_case-IsFair waits default arg s t e h = ground (arith, default_case-IsFair arg s h)
  option_case-IsFair waits pause arg s t e h = pause_case-IsFair s t (cc) h
  option_case-IsFair waits (open_file m) arg s t e h = ground (arith, open_case-IsFair m arg s h)
  option_case-IsFair waits _ arg s t e h = ground arith

  pub Reachable-IsFair :
      (waits : ℕ) (w : W) (args : List Str) {s : Shell W} → Reachable os waits w args s → IsFair s
  unfolding worst
  Reachable-IsFair waits w args starts = ground arith
  Reachable-IsFair waits w args (turns {s = s} {t = t} o r found went) =
      option_case-IsFair waits o.0 o.1 (scanned os s) t went (Reachable-IsFair waits w args r)

  close_all-worst : (n : ℕ) (s : Shell W) → worst (close_all os n s).trace ≡ worst s.trace
  unfolding close_all worst
  close_all-worst zero s = refl
  close_all-worst (suc n) s = elim (Bool-cases (is_open (get_or s.fd_array n none))) [
    | inl e ↦ rw (e, close_all) (close_all-worst n (close_fd os n s))
    | inr e ↦ rw (e, close_all) (close_all-worst n s)
  ]

  -- The status with which main ends after the last option is at least every status that --wait has
  -- reported, and at most the largest of these or 1.
  pub finish-worst :
      (waits : ℕ) (w : W) (args : List Str) {s : Shell W} (t : Shell W) (status : ℕ)
      → Reachable os waits w args s
      → finish os (scanned os s) ≡ exits t status
      → (worst t.trace ≤ status) × (status ≤ max 1 (worst t.trace))
  unfolding finish
  finish-worst waits w args {s} t status r e =
      ground
        (arith, Reachable-IsFair waits w args r, close_all-worst (length s.fd_array) (scanned os s))
