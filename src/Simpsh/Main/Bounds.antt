-- ===== src/Simpsh/Main/Bounds.antt =====
-- The stores into the tables of descriptors and commands, and into the array of the words of a
-- command, against what was allocated.
use Prim.Native.Nat.{max}
use cs111winter.Base.{
  ℕ, zero, suc, ◌+◌, ◌^◌, ◌≤◌, ◌<◌, ◌≡◌, ◌∙◌, Bool, true, false, ◌&&◌, Option, none, some, List, [],
  ◌∷◌, inl, inr, Option-cases, Bool-cases, get_elem?, length, arith, length-set, bit_or,
  length-append,
}
use cs111winter.Simpsh.Args.{Str, Args, atoi, find_args, put_arg, new_args, grow_args}
use cs111winter.Simpsh.Args.Laws.{find_args-Took, new_args-Roomy}
use cs111winter.Simpsh.State.{
  Os, Shell, pipe, echo, echo_command, goes_on, say, WaitInfo, spawned, Access,
}
use cs111winter.Simpsh.Table.{put_fd, grow_fds, put_wait_info, valid_fd}
use cs111winter.Simpsh.Command.{child, release_end, release, launch, run_command, command_case}
use cs111winter.Simpsh.Options.{
  wait_loop, report, open_case, pipe_case, close_case, access_bits, catch_case, ignore_case,
  default_case, abort_case, pause_case,
}

-- The entries of the tables lie in what was allocated, and both tables of descriptors are as long.
pub record HasRoom {W : Type 0} (s : Shell W) : Type 0 where
  pub some_fds : 2 ≤ s.fd_array_size
  pub fds_fit : length s.fd_array ≤ s.fd_array_size
  pub as_long : length s.fd_is_pipe ≡ length s.fd_array
  pub some_info : 2 ≤ s.wait_info_size
  pub info_fits : length s.wait_info ≤ s.wait_info_size

-- From one shell to another: room is kept, and every store is in its array.
abbrev pub InBounds : {W : Type 0} → Shell W → Shell W → Type 0
InBounds s t = HasRoom s → HasRoom t × (t.overruns ≡ s.overruns)

module _ {W : Type 0} where
  put_fd-HasRoom :
      (fd : Option ℕ) (p : Bool) (s : Shell W)
      → HasRoom s
      → length s.fd_array < s.fd_array_size
      → HasRoom (put_fd fd p s)
        × ((put_fd fd p s).overruns ≡ s.overruns)
        × (length (put_fd fd p s).fd_array ≡ length s.fd_array + 1)
  put_fd-HasRoom fd p s h r =
      ground (arith, length-append s.fd_array (fd ∷ []), length-append s.fd_is_pipe (p ∷ []))

  put_wait_info-HasRoom : (x : WaitInfo) (s : Shell W) → InBounds s (put_wait_info x s)
  put_wait_info-HasRoom x s h = ground (arith, length-append s.wait_info (x ∷ []))

module _ {W : Type 0} (os : Os W) where
  grow_fds-HasRoom :
      (n : ℕ) (s : Shell W)
      → n < 2
      → HasRoom s
      → HasRoom (grow_fds n s) × (length s.fd_array + n < (grow_fds n s).fd_array_size)
  grow_fds-HasRoom n s k h = ground arith

  pub open_case-HasRoom :
      (m : Access) (path : Str) (s : Shell W) → InBounds s (open_case os m path s)
  unfolding open_case
  open_case-HasRoom m path s h =
      let flags : ℕ = bit_or (access_bits m) s.oflag in
      let taken = (find_args-Took s.argv s.optind 2 new_args new_args-Roomy).in_room in
      elim (Option-cases (os.sys_open s.world path flags).1) [
        | inl e ↦ ground (arith, taken)
        | inr (n, e) ↦ ground (
          arith,
          taken,
          length-append s.fd_array (some n ∷ []),
          length-append s.fd_is_pipe (false ∷ []),
        )
      ]

  pub pipe_case-HasRoom : (s : Shell W) → InBounds s (pipe_case os s)
  unfolding pipe_case
  pipe_case-HasRoom s h =
      let taken = find_args-Took s.argv s.optind 2 new_args new_args-Roomy in
      let called : Shell W =
        grow_fds 1
          (record (say (echo [] pipe (find_args s.argv s.optind 2 new_args).1.entries) (record s {
            optind = (find_args s.argv s.optind 2 new_args).0;
            overruns = s.overruns + (find_args s.argv s.optind 2 new_args).1.overruns;
          })) { world = (os.sys_pipe s.world).0 }) in
      let grown : HasRoom called × (length s.fd_array + 1 < called.fd_array_size) = ground arith in
      let two : (a b : Option ℕ)
          → HasRoom (put_fd b true (put_fd a true called))
            × ((put_fd b true (put_fd a true called)).overruns ≡ s.overruns) =
        λ a b.
          let one = put_fd-HasRoom a true called grown.0 (omega (arith, grown.1)) in
          let next =
            put_fd-HasRoom b true (put_fd a true called) one.0 (omega (arith, grown.1, one.2)) in
          (next.0, omega (arith, next.1, one.1, taken.in_room)) in
      elim (Option-cases (os.sys_pipe s.world).1) [
        | inl e ↦
            rw (e, pipe_case)
              (two (os.pipefd (os.sys_pipe s.world).0).0 (os.pipefd (os.sys_pipe s.world).0).1)
        | inr (p, e) ↦ rw (e, pipe_case) (two (some p.0) (some p.1))
      ]

  pub valid-within :
      (i o e : ℕ) (fds : List (Option ℕ))
      → (valid_fd i fds && valid_fd o fds && valid_fd e fds) ≡ true
      → i < length fds
  valid-within i o e fds v = ground arith

  pub close_case-HasRoom :
      (arg : Str) (s : Shell W)
      → HasRoom s
      → HasRoom (close_case os arg s)
        × (atoi (some arg) < 2 ^ 31 → (close_case os arg s).overruns ≡ s.overruns)
  unfolding close_case
  close_case-HasRoom arg s h =
      let n : ℕ = atoi (some arg) in
      let kept = length-set s.fd_array n none in (ground (arith, kept), λ low. ground (arith, kept))

  pub catch_case-HasRoom : (arg : Str) (s : Shell W) → InBounds s (catch_case os arg s)
  unfolding catch_case
  catch_case-HasRoom arg s h = ground arith

  pub ignore_case-HasRoom : (arg : Str) (s : Shell W) → InBounds s (ignore_case os arg s)
  unfolding ignore_case
  ignore_case-HasRoom arg s h = ground arith

  pub default_case-HasRoom : (arg : Str) (s : Shell W) → InBounds s (default_case os arg s)
  unfolding default_case
  default_case-HasRoom arg s h = ground arith

  pub abort_case-HasRoom : (s t : Shell W) → abort_case os s ≡ goes_on t → InBounds s t
  unfolding abort_case
  abort_case-HasRoom s t e h = ground arith

  pub pause_case-HasRoom : (s t : Shell W) → pause_case os s ≡ goes_on t → InBounds s t
  unfolding pause_case
  pause_case-HasRoom s t e h = ground arith

  release_end-HasRoom :
      (k i : ℕ) (s : Shell W) → i < s.fd_array_size → InBounds s (release_end os k i s)
  release_end-HasRoom k i s within h = ground (arith, length-set s.fd_array i none)

  release_end-size :
      (k i : ℕ) (s : Shell W) → (release_end os k i s).fd_array_size ≡ s.fd_array_size
  release_end-size k i s = ground arith

  InBounds-trans : (s t u : Shell W) → InBounds s t → InBounds t u → InBounds s u
  InBounds-trans s t u p q h = let a = p h in let b = q a.0 in (b.0, b.1 ∙ a.1)

  pub launch-HasRoom :
      (i o e begin end : ℕ) (words : List (Option Str)) (s : Shell W)
      → i < length s.fd_array
      → InBounds s (launch os i o e begin end words s)
  unfolding launch release
  launch-HasRoom i o e begin end words s within h =
      let forked : Shell W = record s {
        world = (os.fork s.world).0;
        trace = spawned (os.fork s.world).1 (child s.fd_array s.fd_is_pipe i o e words) ∷ s.trace;
      } in
      let first = release_end os i i forked in
      let second = release_end os o i first in
      let third = release_end os e i second in
      let info : WaitInfo = record { child_pid = (os.fork s.world).1; begin = begin; end = end } in
      let fits = h.fds_fit in
      let size_1 = release_end-size i i forked in
      let size_2 = release_end-size o i first in
      InBounds-trans forked first _ (release_end-HasRoom i i forked (omega (arith, within)))
        (InBounds-trans first second _ (release_end-HasRoom o i first (omega (arith, within))) (
          InBounds-trans second third _ (release_end-HasRoom e i second (omega (arith, within)))
            (put_wait_info-HasRoom info third)))
        (ground arith)

  run_command-HasRoom :
      (i o e : ℕ) (name : Str) (s : Shell W) → HasRoom s → HasRoom (run_command os i o e name s)
  unfolding run_command
  run_command-HasRoom i o e name s h =
      let (end, found) = find_args s.argv (s.optind + 1) 2 (put_arg (some name) new_args) in
      let terminated : Args = put_arg none (grow_args 2 found) in
      let again : Args = put_arg none terminated in
      let said : Shell W =
        record (say (echo_command i o e found.entries)
          (record s { optind = end; overruns = s.overruns + terminated.overruns })) {
            overruns = s.overruns + again.overruns;
          } in
      let room : HasRoom said = ground arith in
      elim (Bool-cases (valid_fd i s.fd_array && valid_fd o s.fd_array && valid_fd e s.fd_array)) [
        | inl v ↦
            rw (v, run_command)
              (launch-HasRoom i o e s.optind end terminated.entries said
                (valid-within i o e s.fd_array v) room).0
        | inr v ↦ rw (v, run_command) (ground arith)
      ]

  pub command_case-HasRoom : (arg : Str) (s : Shell W) → HasRoom s → HasRoom (command_case os arg s)
  unfolding command_case
  command_case-HasRoom arg s h =
      let same : (n : ℕ) → HasRoom (record s { optind = n }) = λ n. ground arith in
      let failed : HasRoom (record s { optind = s.optind + 2; exit_status = max 1 s.exit_status }) =
        ground arith in
      elim (Option-cases (get_elem? s.argv (s.optind + 2))) [
        | inl e ↦ ground (arith, h, same (s.optind + 1), failed)
        | inr (name, e) ↦ ground (
          arith,
          h,
          same (s.optind + 1),
          run_command-HasRoom (atoi (some arg)) (atoi (get_elem? s.argv s.optind))
              (atoi (get_elem? s.argv (s.optind + 1))) name (record s { optind = s.optind + 2 })
              (same (s.optind + 2)),
        )
      ]

  pub wait_loop-HasRoom : (fuel : ℕ) (s t : Shell W) → wait_loop fuel os s ≡ some t → InBounds s t
  unfolding wait_loop report
  wait_loop-HasRoom zero s t e h = cc
  wait_loop-HasRoom (suc fuel) s t e h = elim (Option-cases (os.waitpid s.world).1) [
    | inl n ↦ ground arith
    | inr (c, n) ↦
        wait_loop-HasRoom fuel (report c.0 c.1 (record s { world = (os.waitpid s.world).0 })) t
          (rw (n, wait_loop) at e) (ground arith)
  ]
