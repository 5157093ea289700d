-- ===== src/Simpsh/Main/Turn.antt =====
-- The turns of the loop of `main`: the shells they reach, the record of the children, and the fuel
-- that is enough.
use mathlib.Core.Path.{subst}
use cs111winter.Base.{
  ℕ, zero, suc, ◌+◌, ◌<◌, ◌≡◌, refl, ap, ◌∙◌, Option, none, some, List, [], inl, inr, Option-cases,
  arith,
}
use cs111winter.Simpsh.Args.{Str}
use cs111winter.Simpsh.State.{
  Os, Shell, Opt, command, wait, pipe, close, verbose, profile, abort, catch, ignore, default,
  pause, unknown, file_flag, open_file, echo, Outcome, goes_on, exits, dies, say, start,
}
use cs111winter.Simpsh.Options.{find_info, wait_loop, wait_case, report}
use cs111winter.Simpsh.Main.{on_goes_on, option_case, scanned, next_option, main_loop, shell_main}
use cs111winter.Simpsh.Main.Laws.{View, Lawful}
use cs111winter.Simpsh.Main.Quiet.{
  Quiet-trans, still, open_case-Quiet, pipe_case-Quiet, close_case-Quiet, catch_case-Quiet,
  ignore_case-Quiet, default_case-Quiet, abort_case-Quiet, pause_case-Quiet, wait_loop-Quiet,
}
use cs111winter.Simpsh.Main.Advances.{
  Advances, Recorded, IsFirst, find_info-IsFirst, Quiet-Advances, command_case-Advances,
}

-- The shells that `main` is in when it asks for the next option.
pub data Reachable {W : Type 0} (os : Os W) (waits : ℕ) (w : W) (args : List Str)
    : Shell W → Type 0 where
  starts : Reachable os waits w args (start w args)
  turns :
      {s t : Shell W} (o : Opt × Str)
      → Reachable os waits w args s
      → next_option os s ≡ some o
      → option_case waits os o.0 o.1 (scanned os s) ≡ some (goes_on t)
      → Reachable os waits w args t

module _ {W : Type 0} {s t : Shell W} where
  went_on : some (goes_on s) ≡ some (goes_on t) → s ≡ t
  went_on h = cc

module _ {W : Type 0} {t : Shell W} where
  pub on_goes_on-some : (r : Option (Shell W)) → on_goes_on r ≡ some (goes_on t) → r ≡ some t
  on_goes_on-some none h = cc
  on_goes_on-some (some u) h = cc

module _ {W : Type 0} {view : View W} {os : Os W} (law : Lawful view os) where
  -- An option that goes on moves to a shell that has advanced.
  option_case-Advances :
      (waits : ℕ) (opt : Opt) (arg : Str) (s t : Shell W)
      → option_case waits os opt arg s ≡ some (goes_on t)
      → Advances view s t
  unfolding option_case wait_case
  option_case-Advances waits command arg s t h =
      subst (λ v. Advances view s v) (went_on h) (command_case-Advances law arg s)
  option_case-Advances waits wait arg s t h = Quiet-Advances s t (
      Quiet-trans s _ t (still law s _ refl refl refl refl)
        (wait_loop-Quiet law waits _ t (on_goes_on-some _ h)))
  option_case-Advances waits pipe arg s t h =
      subst (λ v. Advances view s v) (went_on h) (Quiet-Advances s _ (pipe_case-Quiet law s))
  option_case-Advances waits close arg s t h =
      subst (λ v. Advances view s v) (went_on h) (Quiet-Advances s _ (close_case-Quiet law arg s))
  option_case-Advances waits verbose arg s t h =
      subst (λ v. Advances view s v) (went_on h)
        (Quiet-Advances s _ (still law s _ refl refl refl refl))
  option_case-Advances waits profile arg s t h =
      subst (λ v. Advances view s v) (went_on h)
        (Quiet-Advances s _ (still law s _ refl refl refl refl))
  option_case-Advances waits abort arg s t h = Quiet-Advances s t (abort_case-Quiet law s t cc)
  option_case-Advances waits catch arg s t h =
      subst (λ v. Advances view s v) (went_on h) (Quiet-Advances s _ (catch_case-Quiet law arg s))
  option_case-Advances waits ignore arg s t h =
      subst (λ v. Advances view s v) (went_on h) (Quiet-Advances s _ (ignore_case-Quiet law arg s))
  option_case-Advances waits default arg s t h =
      subst (λ v. Advances view s v) (went_on h) (Quiet-Advances s _ (default_case-Quiet law arg s))
  option_case-Advances waits pause arg s t h = Quiet-Advances s t (pause_case-Quiet law s t cc)
  option_case-Advances waits unknown arg s t h =
      subst (λ v. Advances view s v) (went_on h)
        (Quiet-Advances s _ (still law s _ refl refl refl refl))
  option_case-Advances waits (file_flag f) arg s t h =
      subst (λ v. Advances view s v) (went_on h)
        (Quiet-Advances s _ (still law s _ refl refl refl refl))
  option_case-Advances waits (open_file m) arg s t h =
      subst (λ v. Advances view s v) (went_on h) (Quiet-Advances s _ (open_case-Quiet law m arg s))

  scanned-Recorded : (s : Shell W) → Recorded view s → Recorded view (scanned os s)
  scanned-Recorded s h pid a = h pid (law.getopt_long-Alive s.world s.argv s.optind pid a)

  Reachable-all :
      (waits : ℕ) (w : W) (args : List Str) {s : Shell W}
      → ((pid : ℕ) → ¬ view.Alive w pid)
      → Reachable os waits w args s
      → Recorded view s
  Reachable-all waits w args none_yet starts = λ pid a. absurd (none_yet pid a)
  Reachable-all waits w args none_yet (turns {s = s} {t = t} o r found went) =
      (option_case-Advances waits o.0 o.1 (scanned os s) t went).all_recorded
        (scanned-Recorded s (Reachable-all waits w args none_yet r))

  -- If the process has no children at the start, then whenever main asks for the next option for
  -- every child that can still be waited for the search of --wait ends, within wait_info, at the
  -- first entry that has the child's pid.
  pub Reachable-Recorded :
      (waits : ℕ) (w : W) (args : List Str) {s : Shell W} (pid : ℕ)
      → ((p : ℕ) → ¬ view.Alive w p)
      → Reachable os waits w args s
      → view.Alive s.world pid
      → IsFirst pid s.wait_info (find_info pid s.wait_info)
  Reachable-Recorded waits w args {s} pid none_yet r a =
      find_info-IsFirst pid s.wait_info (Reachable-all waits w args none_yet r pid a)

  -- The loop of --wait ends once the children are used up.
  wait_loop_total :
      (fuel : ℕ) (s : Shell W)
      → view.children s.world < fuel
      → (t : Shell W) × (wait_loop fuel os s ≡ some t)
  unfolding wait_loop report
  wait_loop_total zero s h = absurd (omega arith)
  wait_loop_total (suc fuel) s h = elim (Option-cases (os.waitpid s.world).1) [
    | inl e ↦ rw (e, wait_loop) (_, refl)
    | inr (c, e) ↦
        rw (e, wait_loop)
          (wait_loop_total fuel _ (omega (arith, h, (law.waitpid-child s.world c.0 c.1 e).1)))
  ]

  option_case_total :
      (waits : ℕ) (opt : Opt) (arg : Str) (s : Shell W)
      → view.children s.world < waits
      → (r : Outcome W) × (option_case waits os opt arg s ≡ some r)
  unfolding option_case wait_case
  option_case_total waits wait arg s h =
      let (t, e) = wait_loop_total waits (say (echo [] wait []) s) h in (goes_on t, rw e refl)
  option_case_total waits _ arg s h = (_, refl)

  -- One turn of the loop, given that the rest of the loop ends.
  turn_total :
      (fuel waits : ℕ) (s : Shell W) (o : Opt × Str) (r : Outcome W)
      → next_option os s ≡ some o
      → option_case waits os o.0 o.1 (scanned os s) ≡ some r
      → ((t : Shell W) → r ≡ goes_on t → (x : Outcome W) × (main_loop fuel waits os t ≡ some x))
      → (x : Outcome W) × (main_loop (suc fuel) waits os s ≡ some x)
  unfolding main_loop
  turn_total fuel waits s o (goes_on t) e h rest = rw (e, h, main_loop) (rest t refl)
  turn_total fuel waits s o (exits t status) e h rest = rw (e, h, main_loop) (_, refl)
  turn_total fuel waits s o (dies t) e h rest = rw (e, h, main_loop) (_, refl)

  -- Every turn scans an option, so at most as many children are made as there is left to scan.
  main_loop_total :
      (fuel waits : ℕ) (s : Shell W)
      → view.unscanned s.world s.argv s.optind < fuel
      → view.unscanned s.world s.argv s.optind + view.children s.world < waits
      → (r : Outcome W) × (main_loop fuel waits os s ≡ some r)
  unfolding main_loop
  main_loop_total zero waits s h k = absurd (omega arith)
  main_loop_total (suc fuel) waits s h k = elim (Option-cases (next_option os s)) [
    | inl e ↦ rw (e, main_loop) (_, refl)
    | inr (o, e) ↦
        let less = law.getopt_long-unscanned s.world s.argv s.optind o e in
        let kids = law.getopt_long-children s.world s.argv s.optind in
        let (r, er) = option_case_total waits o.0 o.1 (scanned os s) (omega (arith, k, kids)) in
        turn_total fuel waits s o r e er (λ t went.
          let a : Advances view (scanned os s) t =
            option_case-Advances waits o.0 o.1 (scanned os s) t (er ∙ ap some went) in
          main_loop_total fuel waits t (omega (arith, h, less, a.less_to_scan))
            (omega (arith, k, less, kids, a.less_to_scan, a.one_child)))
  ]

  -- If getopt_long scans forward and waitpid removes a child, main ends for all arguments: with
  -- fuel for more options than there is to scan, and fuel for each --wait of more than what there
  -- is to scan and the children there are at the start together.
  pub shell_main_total :
      (fuel waits : ℕ) (w : W) (args : List Str)
      → view.unscanned w args 1 < fuel
      → view.unscanned w args 1 + view.children w < waits
      → (r : Outcome W) × (shell_main fuel waits os w args ≡ some r)
  unfolding shell_main
  shell_main_total fuel waits w args h k = main_loop_total fuel waits (start w args) h k
