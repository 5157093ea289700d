-- ===== src/Simpsh/Main.antt =====
-- lab1-sunnieKim/main.c: the loop of `main`, one option after the other, and its end.
pub mod Laws
mod Quiet
pub mod Advances
pub mod Overrun
pub mod Turn
pub mod Bounds
pub mod Status
use cs111winter.Base.{ℕ, zero, suc, Bool, true, Option, none, some, List, [], ◌∷◌, length}
use cs111winter.Simpsh.Args.{Str}
use cs111winter.Simpsh.State.{
  Os, Shell, Opt, command, wait, pipe, close, verbose, profile, abort, catch, ignore, default,
  pause, unknown, file_flag, open_file, echo, Outcome, goes_on, exits, dies, say, start, Scan,
}
use cs111winter.Simpsh.Table.{close_all}
use cs111winter.Simpsh.Command.{command_case}
use cs111winter.Simpsh.Options.{
  flag_case, open_case, pipe_case, close_case, catch_case, ignore_case, default_case, abort_case,
  pause_case, wait_case,
}

module _ {W : Type 0} where
  abbrev pub on_goes_on : Option (Shell W) → Option (Outcome W)
  on_goes_on none = none
  on_goes_on (some s) = some (goes_on s)

  -- The switch; `fuel` bounds the loop of --wait.
  unfoldable pub option_case : ℕ → Os W → Opt → Str → Shell W → Option (Outcome W)
  option_case fuel os command arg s = some (goes_on (command_case os arg s))
  option_case fuel os wait arg s = on_goes_on (wait_case fuel os s)
  option_case fuel os pipe arg s = some (goes_on (pipe_case os s))
  option_case fuel os close arg s = some (goes_on (close_case os arg s))
  option_case fuel os verbose arg s = some (goes_on (record s { is_verbose = true }))
  option_case fuel os profile arg s =
      some (goes_on (record (say (echo [] profile []) s) { is_profile = true }))
  option_case fuel os abort arg s = some (abort_case os s)
  option_case fuel os catch arg s = some (goes_on (catch_case os arg s))
  option_case fuel os ignore arg s = some (goes_on (ignore_case os arg s))
  option_case fuel os default arg s = some (goes_on (default_case os arg s))
  option_case fuel os pause arg s = some (pause_case os s)
  option_case fuel os unknown arg s = some (goes_on s)
  option_case fuel os (file_flag f) arg s = some (goes_on (flag_case f s))
  option_case fuel os (open_file m) arg s = some (goes_on (open_case os m arg s))

  -- What getopt_long leaves behind.
  abbrev pub scanned : Os W → Shell W → Shell W
  scanned os s =
      let (w, scan) = os.getopt_long s.world s.argv s.optind in
      record s { world = w; argv = scan.scan_argv; optind = scan.scan_optind }

  abbrev pub next_option : Os W → Shell W → Option (Opt × Str)
  next_option os s = (os.getopt_long s.world s.argv s.optind).1.found

  -- After the last option: close all descriptors, exit(exit_status).
  unfoldable pub finish : Os W → Shell W → Outcome W
  finish os s = exits (close_all os (length s.fd_array) s) s.exit_status

  -- `while (1)`, with fuel for the options and for the loops of --wait.
  unfoldable pub main_loop : ℕ → ℕ → Os W → Shell W → Option (Outcome W)
  main_loop zero waits os s = none
  main_loop (suc fuel) waits os s = elim (next_option os s) [
    | none ↦ some (finish os (scanned os s))
    | some o ↦ elim (option_case waits os o.0 o.1 (scanned os s)) [
      | none ↦ none
      | some (goes_on t) ↦ main_loop fuel waits os t
      | some (exits t status) ↦ some (exits t status)
      | some (dies t) ↦ some (dies t)
    ]
  ]

  -- `main`
  unfoldable pub shell_main : ℕ → ℕ → Os W → W → List Str → Option (Outcome W)
  shell_main fuel waits os w args = main_loop fuel waits os (start w args)
