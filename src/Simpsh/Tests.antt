-- ===== src/Simpsh/Tests.antt =====
-- Runs of simpsh on a small system, and the properties at them. The world of that system is the
-- number of the children: the last one that was forked ends first.
use Prim.Native.Nat.{max}
use native.Mathlib.Nat.{le_refl}
use cs111winter.Base.{
  ℕ, zero, suc, ◌+◌, ◌-◌, ◌≤◌, ◌<◌, ◌≡◌, refl, ◌⊎◌, Bool, true, false, Option, none, some, List, [],
  ◌∷◌, ◌==◌, if◌then◌else◌, length, get_elem?, get_or, arith,
}
use cs111winter.Simpsh.Args.{Str}
use cs111winter.Simpsh.State.{
  opened, wronly, echo, Event, say, rdwr, closed, Os, Shell, Scan, Opt, command, wait, pipe,
  unknown, open_file, rdonly, resumes, Outcome, start, exits,
}
use cs111winter.Simpsh.Args.{find_args, find_args_from, atoi, atoi_from}
use cs111winter.Simpsh.Table.{close_all}
use cs111winter.Simpsh.Command.{command_case, run_command, launch, child, release}
use cs111winter.Simpsh.Options.{open_case, pipe_case, wait_case, wait_loop, report, find_info}
use cs111winter.Simpsh.Main.{finish, main_loop, shell_main, option_case, scanned}
use cs111winter.Simpsh.Main.Laws.{View, Keeps, Lawful}
use cs111winter.Simpsh.Args.Laws.{words_before}
use cs111winter.Simpsh.Command.Child.{AboveStandard, run_calls, child_lem}
use cs111winter.Simpsh.Command.Release.{release_lem}
use cs111winter.Simpsh.Options.Laws.{open_case-open_case}
use cs111winter.Simpsh.Main.Status.{worst, finish-worst}
use cs111winter.Simpsh.Main.Bounds.{HasRoom}
use cs111winter.Simpsh.Main.Overrun.{Reachable-InBounds, run_command-overruns}
use cs111winter.Simpsh.Main.Advances.{IsFirst}
use cs111winter.Simpsh.Main.Turn.{shell_main_total, Reachable, starts, turns, Reachable-Recorded}

-- "--r path", "--p", "--c i", "--w" for --rdonly, --pipe, --command and --wait
abbrev scan_word : List Str → ℕ → Option Str → Scan
scan_word args i none = record { scan_argv = args; scan_optind = i; found = none }
scan_word args i (some word) =
    let letter : ℕ = get_or word 2 0 in
    let arg : Str = get_or args (i + 1) [] in
    if letter == 114
    then record { scan_argv = args; scan_optind = i + 2; found = some (open_file rdonly, arg) }
    else (if letter == 99
        then record { scan_argv = args; scan_optind = i + 2; found = some (command, arg) }
        else (if letter == 112
            then record { scan_argv = args; scan_optind = i + 1; found = some (pipe, []) }
            else (if letter == 119
                then record { scan_argv = args; scan_optind = i + 1; found = some (wait, []) }
                else record { scan_argv = args; scan_optind = i + 1; found = some (unknown, []) })))

abbrev toy_getopt : ℕ → List Str → ℕ → ℕ × Scan
toy_getopt w args i = (w, scan_word args i (get_elem? args i))

abbrev toy : Os ℕ
toy = record {
  getopt_long = toy_getopt;
  sys_open = λ w path flags. (w, if length path == 0 then none else some (length path + 2));
  sys_close = λ w fd. w;
  sys_pipe = λ w. (w, some (8, 9));
  pipefd = λ w. (none, none);
  fork = λ w. (suc w, some (suc w));
  waitpid = λ w. elim w [ zero ↦ (zero, none) | suc k ↦ (k, some (suc k, 7)) ];
  sigaction = λ w n d. (w, true);
  raise = λ w n. (w, resumes);
  sys_pause = λ w. (w, resumes);
}

abbrev toy_view : View ℕ
toy_view = record {
  unscanned = λ w args i. length args - i;
  children = λ w. w;
  Alive = λ w pid. (1 ≤ pid) × (pid ≤ w);
}

abbrev keeps : (w : ℕ) → Keeps toy_view w w
keeps w = record {
  same_unscanned = λ args i. refl;
  fewer_children = le_refl _;
  still_alive = λ pid a. a;
}

in_range : (args : List Str) (i : ℕ) {x : Str} → get_elem? args i ≡ some x → i < length args
in_range [] i h = cc
in_range (x ∷ xs) zero h = omega arith
in_range (x ∷ xs) (suc i) h = omega (arith, in_range xs i h)

scan_word-forward :
    (args : List Str) (i : ℕ) (word : Option Str) (o : Opt × Str)
    → (scan_word args i word).found ≡ some o
    → get_elem? args i ≡ word
    → length (scan_word args i word).scan_argv - (scan_word args i word).scan_optind
      < length args - i
scan_word-forward args i none o h e = cc
scan_word-forward args i (some word) o h e = ground (arith, in_range args i e)

waited : (w : ℕ) → Keeps toy_view w (toy.waitpid w).0
waited zero = keeps 0
waited (suc k) = record {
  same_unscanned = λ args i. refl;
  fewer_children = omega arith;
  still_alive = λ pid a. (a.0, omega (arith, a.1));
}

waited_child :
    (w pid status : ℕ)
    → (toy.waitpid w).1 ≡ some (pid, status)
    → toy_view.Alive w pid × (toy_view.children (toy.waitpid w).0 < toy_view.children w)
waited_child zero pid status h = cc
waited_child (suc k) pid status h = ground arith

forked_child :
    (w pid : ℕ)
    → toy_view.Alive (toy.fork w).0 pid
    → ((toy.fork w).1 ≡ some pid) ⊎ toy_view.Alive w pid
forked_child w pid h = ground arith

toy-Lawful : Lawful toy_view toy
toy-Lawful = record {
  unscanned-skip = λ w args i j h. omega arith;
  getopt_long-unscanned = λ w args i o h. scan_word-forward args i (get_elem? args i) o h refl;
  getopt_long-children = λ w args i. le_refl _;
  getopt_long-Alive = λ w args i pid h. h;
  sys_open-Keeps = λ w path n. keeps w;
  sys_close-Keeps = λ w fd. keeps w;
  sys_pipe-Keeps = keeps;
  sigaction-Keeps = λ w n d. keeps w;
  raise-Keeps = λ w n. keeps w;
  sys_pause-Keeps = keeps;
  fork-unscanned = λ w args i. refl;
  fork-children = λ w. le_refl _;
  fork-Alive = forked_child;
  waitpid-Keeps = waited;
  waitpid-child = waited_child;
}

abbrev opt : ℕ → Str
opt c = 45 ∷ 45 ∷ c ∷ []

abbrev num : ℕ → Str
num n = (n + 48) ∷ []

-- simpsh --rdonly f --pipe --command 0 2 0 x --wait
abbrev words : List Str
words = num 0 ∷ opt 114 ∷ num 1 ∷ opt 112 ∷ opt 99 ∷ num 0 ∷ num 2 ∷ num 0 ∷ num 9 ∷ opt 119 ∷ []

ends_with : ℕ → Option (Outcome ℕ) → Bool
ends_with n (some (exits s k)) = k == n
ends_with n _ = false

wait_status : ends_with 7 (shell_main 11 11 toy 0 words) ≡ true
unfolding ends_with shell_main main_loop option_case finish close_all open_case pipe_case
    command_case run_command launch child release wait_case wait_loop report find_info find_args
    find_args_from atoi atoi_from
wait_status = refl

shell_main_total_example : (r : Outcome ℕ) × (shell_main 11 11 toy 0 words ≡ some r)
shell_main_total_example = shell_main_total toy-Lawful 11 11 0 words (omega arith) (omega arith)

-- After --rdonly, --pipe and --command.
abbrev opened_file : Shell ℕ
opened_file = open_case toy rdonly (num 1) (scanned toy (start 0 words))

abbrev piped : Shell ℕ
piped = pipe_case toy (scanned toy opened_file)

abbrev launched : Shell ℕ
launched = command_case toy (num 0) (scanned toy piped)

opened_file-Reachable : Reachable toy 11 0 words opened_file
unfolding option_case
opened_file-Reachable = turns (open_file rdonly, num 1) starts refl refl

launched-Reachable : Reachable toy 11 0 words launched
unfolding option_case open_case pipe_case command_case find_args find_args_from
launched-Reachable =
    turns {s = piped} (command, num 0)
      (turns {s = opened_file} (pipe, []) opened_file-Reachable refl refl) refl refl

Reachable-Recorded_example : IsFirst 1 launched.wait_info (find_info 1 launched.wait_info)
unfolding open_case pipe_case command_case run_command launch release find_args find_args_from atoi
    atoi_from
Reachable-Recorded_example =
    Reachable-Recorded toy-Lawful 11 0 words 1 (λ pid a. absurd (omega (arith, a.0, a.1)))
      launched-Reachable (omega arith, omega arith)

-- After --wait too.
abbrev waited_for : Shell ℕ
waited_for =
    let said : Shell ℕ = say (echo [] wait []) (scanned toy launched) in
    record (report 1 7 (record said { world = 0 })) { world = 0 }

waited_for-Reachable : Reachable toy 11 0 words waited_for
unfolding option_case open_case pipe_case command_case run_command launch release find_args
    find_args_from atoi atoi_from wait_case wait_loop report
waited_for-Reachable = turns {s = launched} (wait, []) launched-Reachable refl refl

finish-worst_example :
    let t = close_all toy 3 (scanned toy waited_for) in
    (worst t.trace ≤ 7) × (7 ≤ max 1 (worst t.trace))
unfolding finish open_case pipe_case command_case run_command launch release find_args
    find_args_from atoi atoi_from report
finish-worst_example =
    finish-worst toy 11 0 words (close_all toy 3 (scanned toy waited_for)) 7 waited_for-Reachable
      refl

Reachable-InBounds_example : HasRoom piped × (piped.overruns ≡ opened_file.overruns)
unfolding option_case
Reachable-InBounds_example =
    Reachable-InBounds toy 11 0 words piped pipe [] opened_file-Reachable (λ e. cc) (λ f e. cc)
      (λ e. cc) refl

-- A shell with a file and a pipe, at a command of four words.
abbrev four_words : List Str
four_words = num 9 ∷ num 1 ∷ num 2 ∷ num 3 ∷ []

abbrev fds : List (Option ℕ)
fds = some 3 ∷ some 8 ∷ some 9 ∷ []

abbrev pipes : List Bool
pipes = false ∷ true ∷ true ∷ []

abbrev ready : Shell ℕ
ready = record (start 0 four_words) {
  optind = 0;
  fd_array = fds;
  fd_is_pipe = pipes;
  fd_array_size = 4;
}

run_command-overruns_example : (run_command toy 0 2 0 (num 9) ready).overruns ≡ 2
unfolding words_before
run_command-overruns_example =
    run_command-overruns toy 0 0 2 0 (num 9) ready (ground arith) refl refl

above : AboveStandard fds
above zero n h = ground arith
above (suc zero) n h = ground arith
above (suc (suc zero)) n h = ground arith
above (suc (suc (suc k))) n h = cc

child_lem_example :
    let f = run_calls (child fds pipes 1 2 0 []) (λ d. some d) in
    (f 0 ≡ some 8) × (f 1 ≡ some 9) × (f 2 ≡ some 3) × (f 8 ≡ none) × (f 9 ≡ none) × (f 3 ≡ none)
child_lem_example =
    child_lem fds pipes 1 2 0 8 9 3 [] above refl refl refl (λ e. omega arith) (λ e. omega arith)
      (λ e. cc) (λ d. some d)

release_lem_example :
    let t = release toy 0 2 2 ready in
    (t.trace ≡ closed (some 9) ∷ closed (some 9) ∷ [])
    × ((j : ℕ) → get_or t.fd_array j none ≡ (if j == 0 then none else get_or fds j none))
release_lem_example = release_lem toy 0 2 2 ready (λ e. cc) (λ e. cc)

open_case-open_case_example :
    let t = open_case toy rdwr [] ready in
    (before : List Event) × ((open_case toy wronly (num 1) t).trace ≡ opened (num 1) 3 ∷ before)
    × (t.fd_array ≡ fds)
open_case-open_case_example = open_case-open_case toy rdwr wronly [] (num 1) ready refl

abbrev one_command : Shell ℕ
one_command = record ready { wait_info = record { child_pid = some 1; begin = 0; end = 1 } ∷ [] }
