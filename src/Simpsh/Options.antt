-- ===== src/Simpsh/Options.antt =====
-- lab1-sunnieKim/main.c: the other cases of the switch in `main`.
pub mod Laws
use Prim.Native.Nat.{max}
use cs111winter.Base.{
  ◌-◌, ℕ, zero, suc, ◌+◌, true, false, not, Option, none, some, List, [], ◌∷◌, ◌++◌, bit_or, ◌==◌,
  ltb, if◌then◌else◌, get_or, take, drop,
}
use cs111winter.Simpsh.Args.{Str, str_is_num, atoi, new_args, find_args}
use cs111winter.Simpsh.State.{
  Os, Shell, Flag, append, cloexec, creat, directory, dsync, excl, nofollow, nonblock, rsync, sync,
  trunc, Access, rdonly, wronly, rdwr, wait, pipe, close, abort, catch, ignore, default, pause,
  open_file, Disposition, catch_handler, sig_ign, sig_dfl, Signalled, resumes, killed, caught, echo,
  opened, reported, WaitInfo, Outcome, goes_on, exits, dies, log, say,
}
use cs111winter.Simpsh.Table.{valid_fd, grow_fds, put_fd, close_fd, forget_fd, refuse_fd}

-- <fcntl.h> on Linux
abbrev pub flag_bits : Flag → ℕ
flag_bits append = 1024
flag_bits cloexec = 524288
flag_bits creat = 64
flag_bits directory = 65536
flag_bits dsync = 4096
flag_bits excl = 128
flag_bits nofollow = 131072
flag_bits nonblock = 2048
flag_bits rsync = 1052672
flag_bits sync = 1052672
flag_bits trunc = 512

-- How many characters the flag adds to oflag_str, the space behind it included.
abbrev pub flag_length : Flag → ℕ
flag_length append = 9
flag_length cloexec = 10
flag_length creat = 8
flag_length directory = 12
flag_length dsync = 8
flag_length excl = 7
flag_length nofollow = 11
flag_length nonblock = 11
flag_length rsync = 8
flag_length sync = 7
flag_length trunc = 8

unfoldable pub text_length : List Flag → ℕ
text_length [] = 0
text_length (f ∷ fs) = flag_length f + text_length fs

abbrev pub access_bits : Access → ℕ
access_bits rdonly = 0
access_bits wronly = 1
access_bits rdwr = 2

-- The search for the pid in wait_info; the result is wait_info_cur if none has it.
unfoldable pub find_info : ℕ → List WaitInfo → ℕ
find_info pid [] = 0
find_info pid (x ∷ xs) =
    let rest = suc (find_info pid xs) in
    elim x.child_pid [ none ↦ rest | some p ↦ if p == pid then 0 else rest ]

-- argv[begin], ..., argv[end - 1]
abbrev pub words_of : List Str → (begin end : ℕ) → List Str
words_of argv begin end = take (end - begin) (drop begin argv)

module _ {W : Type 0} where
  -- exit_status = MAX(exit_status, 1)
  abbrev pub fail : Shell W → Shell W
  fail s = record s { exit_status = max s.exit_status 1 }

  -- cases 6 to 16: strcat onto char oflag_str[1000], with the NUL behind the text.
  abbrev pub flag_case : Flag → Shell W → Shell W
  flag_case f s = record s {
    oflag = bit_or s.oflag (flag_bits f);
    oflag_str = s.oflag_str ++ f ∷ [];
    overruns =
        if ltb (text_length (s.oflag_str ++ f ∷ [])) 1000 then s.overruns else s.overruns + 1;
  }

  -- cases 17, 18 and 19
  unfoldable pub open_case : Os W → Access → Str → Shell W → Shell W
  unfolding find_args
  open_case os m path s =
      let flags : ℕ = bit_or (access_bits m) s.oflag in
      let (next, found) = find_args s.argv s.optind 2 new_args in
      let said : Shell W =
        say (echo s.oflag_str (open_file m) (some path ∷ found.entries)) (record s {
          optind = next;
          oflag = flags;
          oflag_str = if s.is_verbose then [] else s.oflag_str;
          overruns = s.overruns + found.overruns;
        }) in
      let (w, fd) = os.sys_open s.world path flags in
      let called : Shell W = log (opened path flags) (record said { world = w }) in
      elim fd [
        | none ↦ fail called
        | some n ↦ record (put_fd (some n) false (grow_fds 0 called)) { oflag = 0 }
      ]

  -- case 20
  unfoldable pub pipe_case : Os W → Shell W → Shell W
  unfolding find_args
  pipe_case os s =
      let (next, found) = find_args s.argv s.optind 2 new_args in
      let said : Shell W =
        say (echo [] pipe found.entries)
          (record s { optind = next; overruns = s.overruns + found.overruns }) in
      let (w, ends) = os.sys_pipe s.world in
      let called : Shell W = grow_fds 1 (record said { world = w }) in
      elim ends [
        | none ↦ let stray = os.pipefd w in put_fd stray.1 true (put_fd stray.0 true called)
        | some p ↦ put_fd (some p.1) true (put_fd (some p.0) true called)
      ]

  -- case 28
  unfoldable pub close_case : Os W → Str → Shell W → Shell W
  close_case os optarg s =
      let said : Shell W = say (echo [] close (some optarg ∷ [])) s in
      let n : ℕ = atoi (some optarg) in
      if not (str_is_num (some optarg))
      then fail said
      else (if not (valid_fd n s.fd_array)
          then fail (refuse_fd n said)
          else forget_fd n (close_fd os n said))

  -- The common part of cases 24, 25 and 26.
  abbrev pub install : Os W → ℕ → Disposition → Shell W → Shell W
  install os n d s =
      let (w, is_done) = os.sigaction s.world n d in
      let called : Shell W = record s { world = w } in if is_done then called else fail called

  -- case 24
  unfoldable pub catch_case : Os W → Str → Shell W → Shell W
  catch_case os optarg s =
      let said : Shell W = say (echo [] catch (some optarg ∷ [])) s in
      if not (str_is_num (some optarg))
      then fail said
      else install os (atoi (some optarg)) catch_handler said

  -- case 25
  unfoldable pub ignore_case : Os W → Str → Shell W → Shell W
  ignore_case os optarg s =
      let said : Shell W = say (echo [] ignore (some optarg ∷ [])) s in
      let n : ℕ = atoi (some optarg) in
      if not (str_is_num (some optarg))
      then fail said
      else install os n sig_ign
          (record said { ignore_abort = if n == 11 then true else s.ignore_abort })

  -- case 26
  unfoldable pub default_case : Os W → Str → Shell W → Shell W
  default_case os optarg s =
      let said : Shell W = say (echo [] default (some optarg ∷ [])) s in
      if not (str_is_num (some optarg))
      then fail said
      else install os (atoi (some optarg)) sig_dfl said

  -- A signal is ignored or handled by catch_handler, which exits with its number, or it kills.
  abbrev pub after_signal : Signalled → Shell W → Outcome W
  after_signal resumes s = goes_on s
  after_signal killed s = dies s
  after_signal (caught sig) s = exits s sig

  -- case 23
  unfoldable pub abort_case : Os W → Shell W → Outcome W
  abort_case os s =
      let said : Shell W = say (echo [] abort []) s in
      let (w, r) = os.raise s.world 11 in
      if s.ignore_abort then goes_on said else after_signal r (record said { world = w })

  -- case 27
  unfoldable pub pause_case : Os W → Shell W → Outcome W
  pause_case os s =
      let said : Shell W = say (echo [] pause []) s in
      let (w, r) = os.sys_pause s.world in after_signal r (record said { world = w })

  -- What the loop of --wait does with a child that has ended.
  unfoldable pub report : ℕ → ℕ → Shell W → Shell W
  report pid status s =
      let here =
        get_or s.wait_info (find_info pid s.wait_info)
          (record { child_pid = none; begin = 0; end = 0 }) in
      record s {
        exit_status = max s.exit_status status;
        trace = reported status (words_of s.argv here.begin here.end) ∷ s.trace;
      }

  -- `while ((returnedPid = waitpid(0, &status, 0)) != -1)` with fuel.
  unfoldable pub wait_loop : ℕ → Os W → Shell W → Option (Shell W)
  wait_loop zero os s = none
  wait_loop (suc fuel) os s =
      let (w, r) = os.waitpid s.world in
      elim r [
        | none ↦ some (record s { world = w })
        | some c ↦ wait_loop fuel os (report c.0 c.1 (record s { world = w }))
      ]

  -- case 'z'
  unfoldable pub wait_case : ℕ → Os W → Shell W → Option (Shell W)
  wait_case fuel os s = wait_loop fuel os (say (echo [] wait []) s)
