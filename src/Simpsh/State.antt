-- ===== src/Simpsh/State.antt =====
-- lab1-sunnieKim/main.c: the options, the variables of `main`, and the calls it makes.
-- `Os` stands for getopt_long and the system calls, which act on a world `W` that they choose:
-- a failure (-1) is `none`.
use cs111winter.Base.{ℕ, Bool, true, false, Option, List, [], ◌∷◌}
use cs111winter.Simpsh.Args.{Str}

pub data Flag : Type 0 where
  append cloexec creat directory dsync excl nofollow nonblock rsync sync trunc : Flag

pub data Access : Type 0 where
  rdonly wronly rdwr : Access

-- The entries of long_options, and the '?' of getopt_long.
pub data Opt : Type 0 where
  command wait pipe close verbose profile abort catch ignore default pause unknown : Opt
  file_flag : Flag → Opt
  open_file : Access → Opt

-- What sigaction installs for a signal.
pub data Disposition : Type 0 where
  catch_handler sig_ign sig_dfl : Disposition

-- What becomes of a process that raises a signal or waits for one.
pub data Signalled : Type 0 where
  resumes killed : Signalled
  caught : ℕ → Signalled

-- What the child does between fork and execvp; `close_outside` closes what it reads outside the
-- entries of fd_array.
pub data ChildCall : Type 0 where
  dup2 : Option ℕ → ℕ → ChildCall
  close_entry : Option ℕ → ChildCall
  close_outside : ChildCall
  execvp : List (Option Str) → ChildCall

-- What the shell does that is seen from outside.
pub data Event : Type 0 where
  echo : List Flag → Opt → List (Option Str) → Event
  echo_command : ℕ → ℕ → ℕ → List (Option Str) → Event
  opened : Str → ℕ → Event
  closed : Option ℕ → Event
  spawned : Option ℕ → List ChildCall → Event
  reported : ℕ → List Str → Event

pub record WaitInfo : Type 0 where
  pub child_pid : Option ℕ
  pub begin : ℕ
  pub end : ℕ

-- What getopt_long leaves: argv, which it may permute, optind, and the option with its optarg.
pub record Scan : Type 0 where
  pub scan_argv : List Str
  pub scan_optind : ℕ
  pub found : Option (Opt × Str)

pub record Os (W : Type 0) : Type 0 where
  pub getopt_long : W → List Str → ℕ → W × Scan
  pub sys_open : W → Str → ℕ → W × Option ℕ
  pub sys_close : W → Option ℕ → W
  pub sys_pipe : W → W × Option (ℕ × ℕ)
  -- what an uninitialised `int pipefd[2]` holds
  pub pipefd : W → Option ℕ × Option ℕ
  pub fork : W → W × Option ℕ
  -- the pid and WEXITSTATUS of a child that has ended
  pub waitpid : W → W × Option (ℕ × ℕ)
  pub sigaction : W → ℕ → Disposition → W × Bool
  pub raise : W → ℕ → W × Signalled
  pub sys_pause : W → W × Signalled

-- The variables of `main`. The arrays hold the entries written so far: fd_array_cur is the length
-- of fd_array, wait_info_cur that of wait_info. An entry -1 is `none`.
pub record Shell (W : Type 0) : Type 0 where
  pub world : W
  pub argv : List Str
  pub optind : ℕ
  pub fd_array : List (Option ℕ)
  pub fd_is_pipe : List Bool
  pub fd_array_size : ℕ
  pub oflag : ℕ
  pub oflag_str : List Flag
  pub is_verbose : Bool
  pub is_profile : Bool
  pub ignore_abort : Bool
  pub exit_status : ℕ
  pub wait_info : List WaitInfo
  pub wait_info_size : ℕ
  -- accesses outside an array: stores past its end (oflag_str has room for 1000 characters), and
  -- the reads of fd_array at a negative number
  pub overruns : ℕ
  -- the calls made, the latest first
  pub trace : List Event

-- The declarations at the head of `main`; getopt_long starts with optind = 1.
abbrev pub start : {W : Type 0} → W → List Str → Shell W
start w args = record {
  world = w;
  argv = args;
  optind = 1;
  fd_array = [];
  fd_is_pipe = [];
  fd_array_size = 2;
  oflag = 0;
  oflag_str = [];
  is_verbose = false;
  is_profile = false;
  ignore_abort = false;
  exit_status = 0;
  wait_info = [];
  wait_info_size = 2;
  overruns = 0;
  trace = [];
}

-- How an option ends: the loop goes on, or the process ends in it.
pub data Outcome (W : Type 0) : Type 0 where
  goes_on : Shell W → Outcome W
  exits : Shell W → ℕ → Outcome W
  dies : Shell W → Outcome W

module _ {W : Type 0} where
  abbrev pub log : Event → Shell W → Shell W
  log ev s = record s { trace = ev ∷ s.trace }

  -- `if (verbose) printf(...)`
  abbrev pub say : Event → Shell W → Shell W
  say ev s = record s { trace = elim s.is_verbose [ true ↦ ev ∷ s.trace | false ↦ s.trace ] }
