-- ===== src/Simpsh/Command.antt =====
-- lab1-sunnieKim/main.c: `case 'c'`, --command i o e cmd args. The child's redirections, the ends
-- of pipes that the parent closes, and the record that --wait will look up.
pub mod Child
pub mod Release
use Prim.Native.Nat.{max}
use cs111winter.Base.{
  ℕ, ◌+◌, ◌-◌, Bool, false, ◌&&◌, Option, none, some, List, [], ◌∷◌, ◌++◌, ◌==◌, if◌then◌else◌,
  length, get_elem?, get_or,
}
use cs111winter.Simpsh.Args.{Str, pass_checks, atoi, Args, new_args, put_arg, grow_args, find_args}
use cs111winter.Simpsh.State.{
  Os, Shell, echo_command, spawned, ChildCall, dup2, close_entry, close_outside, execvp, say,
}
use cs111winter.Simpsh.Table.{valid_fd, close_fd, forget_fd, put_wait_info, refuse_fd}

-- `close(fd_array[k])` where k may lie outside the entries.
abbrev pub child_close : List (Option ℕ) → Option ℕ → ChildCall
child_close fds none = close_outside
child_close fds (some k) = elim (get_elem? fds k) [
  | some fd ↦ close_entry fd
  | none ↦ close_outside
]

-- `k - 1`, as an index
abbrev pub before : ℕ → Option ℕ
before k = if k == 0 then none else some (k - 1)

abbrev pub when : Bool → ChildCall → List ChildCall
when b c = if b then c ∷ [] else []

-- The branch of the child, in the order of its calls.
unfoldable pub child :
    List (Option ℕ) → List Bool → (i o e : ℕ) → List (Option Str) → List ChildCall
child fds pipes i o e words =
    dup2 (get_or fds i none) 0
      ∷ dup2 (get_or fds o none) 1
      ∷ dup2 (get_or fds e none) 2
      ∷ when (get_or pipes i false) (child_close fds (some (i + 1)))
    ++ when (get_or pipes o false) (child_close fds (before o))
    ++ when (get_or pipes e false) (child_close fds (before e))
    ++ close_entry (get_or fds i none)
      ∷ close_entry (get_or fds o none)
      ∷ close_entry (get_or fds e none)
      ∷ execvp words
      ∷ []

module _ {W : Type 0} where
  -- `if (fd_isPipe[k] != 0) { close(fd_array[k]); fd_array[i] = -1; }`, for k = i, o and e
  abbrev pub release_end : Os W → (k i : ℕ) → Shell W → Shell W
  release_end os k i s = if get_or s.fd_is_pipe k false then forget_fd i (close_fd os k s) else s

  unfoldable pub release : Os W → (i o e : ℕ) → Shell W → Shell W
  release os i o e s = release_end os e i (release_end os o i (release_end os i i s))

  -- From `fork` to the record for --wait.
  unfoldable pub launch : Os W → (i o e begin end : ℕ) → List (Option Str) → Shell W → Shell W
  unfolding child release
  launch os i o e begin end words s =
      let (w, pid) = os.fork s.world in
      let forked : Shell W = record s {
        world = w;
        trace = spawned pid (child s.fd_array s.fd_is_pipe i o e words) ∷ s.trace;
      } in
      put_wait_info (record { child_pid = pid; begin = begin; end = end }) (release os i o e forked)

  -- The words of the command are put together; the second NULL is stored once the descriptors are
  -- known to be valid.
  unfoldable pub run_command : Os W → (i o e : ℕ) → Str → Shell W → Shell W
  unfolding launch find_args
  run_command os i o e name s =
      let begin : ℕ = s.optind in
      let (end, found) = find_args s.argv (begin + 1) 2 (put_arg (some name) new_args) in
      let terminated : Args = put_arg none (grow_args 2 found) in
      let said : Shell W =
        say (echo_command i o e found.entries)
          (record s { optind = end; overruns = s.overruns + terminated.overruns }) in
      let valid : Bool = valid_fd i s.fd_array && valid_fd o s.fd_array && valid_fd e s.fd_array in
      let refused : ℕ =
        if valid_fd i s.fd_array then (if valid_fd o s.fd_array then e else o) else i in
      let again : Args = put_arg none terminated in
      if valid
      then launch os i o e begin end terminated.entries
          (record said { overruns = s.overruns + again.overruns })
      else record (refuse_fd refused said) { exit_status = max s.exit_status 1 }

  -- The checks of the three numbers: a failed one ends the option with a message only.
  unfoldable pub command_case : Os W → Str → Shell W → Shell W
  unfolding run_command
  command_case os optarg s =
      let argc : ℕ = length s.argv in
      let o_word : Option Str = get_elem? s.argv s.optind in
      let e_word : Option Str = get_elem? s.argv (s.optind + 1) in
      if pass_checks (some optarg) s.optind argc
      then (if pass_checks o_word s.optind argc
          then (if pass_checks e_word (s.optind + 1) argc
              then (elim (get_elem? s.argv (s.optind + 2)) [
                | none ↦ record s { optind = s.optind + 2; exit_status = max 1 s.exit_status }
                | some name ↦
                    run_command os (atoi (some optarg)) (atoi o_word) (atoi e_word) name
                      (record s { optind = s.optind + 2 })
              ])
              else record s { optind = s.optind + 1 })
          else s)
      else s
