-- ===== src/Simpsh/Main/Quiet.antt =====
-- What each option does to the children, to the record of them, and to what is left to scan.
use mathlib.Core.Path.{subst}
use native.Mathlib.Nat.{le_refl}
use cs111winter.Base.{
  ℕ, zero, suc, ◌+◌, ◌*◌, ◌≤◌, ◌≡◌, refl, ◌∙◌, Bool, true, false, not, none, some, List, [], ◌∷◌,
  ◌==◌, if◌then◌else◌, length, get_or, drop, Bool-cases, Option-cases, inl, inr, arith, bit_or,
}
use cs111winter.Simpsh.Args.{
  Str, find_args, find_args_from, Args, new_args, put_arg, grow_args, str_is_num, atoi,
}
use cs111winter.Simpsh.State.{
  resumes, killed, caught, goes_on, goes_on, sig_ign, sig_dfl, catch_handler, Os, Shell, Access,
  Signalled, Disposition,
}
use cs111winter.Simpsh.Table.{valid_fd}
use cs111winter.Simpsh.Command.{release_end, release}
use cs111winter.Simpsh.Options.{
  after_signal, abort_case, pause_case, wait_loop, report, report, wait_loop, access_bits,
  abort_case, open_case, pipe_case, close_case, install, catch_case, ignore_case, default_case,
}
use cs111winter.Simpsh.Main.Laws.{View, Keeps, Lawful}

-- The index only moves forward.
find_args_from-le :
    (ws : List Str) (index size : ℕ) (a : Args) → index ≤ (find_args_from ws index size a).0
unfolding find_args_from
find_args_from-le [] index size a = omega arith
find_args_from-le (w ∷ ws) index size a =
    let next : ℕ = if length a.entries == size then size * 2 else size in
    ground (arith, find_args_from-le ws (index + 1) next (put_arg (some w) (grow_args size a)))

pub find_args-le :
    (args : List Str) (index size : ℕ) (a : Args) → index ≤ (find_args args index size a).0
unfolding find_args
find_args-le args index size a = find_args_from-le (drop index args) index size a

some-inj {ℓ} : {A : Type ℓ} {a b : A} → some a ≡ some b → a ≡ b
some-inj h = cc

-- Nothing is scanned again, no child is made, and the record of the children stays.
pub record Quiet {W : Type 0} (view : View W) (s t : Shell W) : Type 0 where
  pub less_to_scan : view.unscanned t.world t.argv t.optind ≤ view.unscanned s.world s.argv s.optind
  pub no_new_child : view.children t.world ≤ view.children s.world
  pub alive_before : (pid : ℕ) → view.Alive t.world pid → view.Alive s.world pid
  pub same_info : t.wait_info ≡ s.wait_info

module _ {W : Type 0} {view : View W} where
  pub Quiet-trans : (s t u : Shell W) → Quiet view s t → Quiet view t u → Quiet view s u
  Quiet-trans s t u p q = record {
    less_to_scan = omega (arith, p.less_to_scan, q.less_to_scan);
    no_new_child = omega (arith, p.no_new_child, q.no_new_child);
    alive_before = λ pid a. p.alive_before pid (q.alive_before pid a);
    same_info = q.same_info ∙ p.same_info;
  }

module _ {W : Type 0} {view : View W} {os : Os W} (law : Lawful view os) where
  -- A call that keeps the view, with a move forward in argv.
  pub Keeps-Quiet :
      (s t : Shell W)
      → Keeps view s.world t.world
      → t.argv ≡ s.argv
      → s.optind ≤ t.optind
      → t.wait_info ≡ s.wait_info
      → Quiet view s t
  Keeps-Quiet s t k a i w = record {
    less_to_scan =
        rw (a, k.same_unscanned s.argv t.optind)
          (law.unscanned-skip s.world s.argv s.optind t.optind i);
    no_new_child = k.fewer_children;
    alive_before = k.still_alive;
    same_info = w;
  }

  -- The same where the world does not change.
  pub same_world-Quiet :
      (s t : Shell W)
      → t.world ≡ s.world
      → t.argv ≡ s.argv
      → s.optind ≤ t.optind
      → t.wait_info ≡ s.wait_info
      → Quiet view s t
  same_world-Quiet s t e a i w = record {
    less_to_scan = rw (e, a) (law.unscanned-skip s.world s.argv s.optind t.optind i);
    no_new_child = rw e (le_refl _);
    alive_before = λ pid h. subst (λ v. view.Alive v pid) e h;
    same_info = w;
  }

  if-Quiet :
      (s t u : Shell W) (b : Bool)
      → Quiet view s t
      → Quiet view s u
      → Quiet view s (if b then t else u)
  if-Quiet s t u true p q = p
  if-Quiet s t u false p q = q

  pub open_case-Quiet :
      (m : Access) (path : Str) (s : Shell W) → Quiet view s (open_case os m path s)
  unfolding open_case
  open_case-Quiet m path s =
      let flags : ℕ = bit_or (access_bits m) s.oflag in
      let kept = law.sys_open-Keeps s.world path flags in
      let moved = find_args-le s.argv s.optind 2 new_args in
      elim (Option-cases (os.sys_open s.world path flags).1) [
        | inl e ↦ rw (e, open_case) (Keeps-Quiet s _ kept refl moved refl)
        | inr (n, e) ↦ rw (e, open_case) (Keeps-Quiet s _ kept refl moved refl)
      ]

  pub pipe_case-Quiet : (s : Shell W) → Quiet view s (pipe_case os s)
  unfolding pipe_case
  pipe_case-Quiet s =
      let kept = law.sys_pipe-Keeps s.world in
      let moved = find_args-le s.argv s.optind 2 new_args in
      elim (Option-cases (os.sys_pipe s.world).1) [
        | inl e ↦ rw (e, pipe_case) (Keeps-Quiet s _ kept refl moved refl)
        | inr (n, e) ↦ rw (e, pipe_case) (Keeps-Quiet s _ kept refl moved refl)
      ]

  pub still :
      (s t : Shell W)
      → t.world ≡ s.world
      → t.argv ≡ s.argv
      → t.optind ≡ s.optind
      → t.wait_info ≡ s.wait_info
      → Quiet view s t
  still s t w a i e = same_world-Quiet s t w a (rw i (le_refl _)) e

  pub close_case-Quiet : (arg : Str) (s : Shell W) → Quiet view s (close_case os arg s)
  unfolding close_case
  close_case-Quiet arg s =
      let n : ℕ = atoi (some arg) in
      let kept = law.sys_close-Keeps s.world (get_or s.fd_array n none) in
      if-Quiet s _ _ (not (str_is_num (some arg))) (still s _ refl refl refl refl) (
        if-Quiet s _ _ (not (valid_fd n s.fd_array)) (still s _ refl refl refl refl)
          (Keeps-Quiet s _ kept refl (le_refl _) refl))

  install-Quiet :
      (n : ℕ) (d : Disposition) (s t : Shell W) → Quiet view s t → Quiet view s (install os n d t)
  install-Quiet n d s t q =
      let kept = law.sigaction-Keeps t.world n d in
      Quiet-trans s t _ q (
        if-Quiet t _ _ (os.sigaction t.world n d).1 (Keeps-Quiet t _ kept refl (le_refl _) refl)
          (Keeps-Quiet t _ kept refl (le_refl _) refl))

  pub catch_case-Quiet : (arg : Str) (s : Shell W) → Quiet view s (catch_case os arg s)
  unfolding catch_case
  catch_case-Quiet arg s =
      if-Quiet s _ _ (not (str_is_num (some arg))) (still s _ refl refl refl refl)
        (install-Quiet (atoi (some arg)) catch_handler s _ (still s _ refl refl refl refl))

  pub ignore_case-Quiet : (arg : Str) (s : Shell W) → Quiet view s (ignore_case os arg s)
  unfolding ignore_case
  ignore_case-Quiet arg s =
      if-Quiet s _ _ (not (str_is_num (some arg))) (still s _ refl refl refl refl)
        (install-Quiet (atoi (some arg)) sig_ign s _ (still s _ refl refl refl refl))

  pub default_case-Quiet : (arg : Str) (s : Shell W) → Quiet view s (default_case os arg s)
  unfolding default_case
  default_case-Quiet arg s =
      if-Quiet s _ _ (not (str_is_num (some arg))) (still s _ refl refl refl refl)
        (install-Quiet (atoi (some arg)) sig_dfl s _ (still s _ refl refl refl refl))

  -- A process that goes on after a signal goes on as it was.
  after_signal-Quiet :
      (r : Signalled) (s t u : Shell W)
      → Quiet view s t
      → after_signal r t ≡ goes_on u
      → Quiet view s u
  after_signal-Quiet resumes s t u q h = let same : t ≡ u = cc in subst (λ v. Quiet view s v) same q
  after_signal-Quiet killed s t u q h = cc
  after_signal-Quiet (caught sig) s t u q h = cc

  pub abort_case-Quiet : (s t : Shell W) → abort_case os s ≡ goes_on t → Quiet view s t
  unfolding abort_case
  abort_case-Quiet s t h = elim (Bool-cases s.ignore_abort) [
    | inl e ↦ after_signal-Quiet resumes s _ t (still s _ refl refl refl refl) (rw e at h)
    | inr e ↦
        after_signal-Quiet (os.raise s.world 11).1 s _ t
          (Keeps-Quiet s _ (law.raise-Keeps s.world 11) refl (le_refl _) refl) (rw e at h)
  ]

  pub pause_case-Quiet : (s t : Shell W) → pause_case os s ≡ goes_on t → Quiet view s t
  unfolding pause_case
  pause_case-Quiet s t h =
      after_signal-Quiet (os.sys_pause s.world).1 s _ t
        (Keeps-Quiet s _ (law.sys_pause-Keeps s.world) refl (le_refl _) refl) h

  -- A wait forgets children, and only those.
  pub wait_loop-Quiet : (fuel : ℕ) (s t : Shell W) → wait_loop fuel os s ≡ some t → Quiet view s t
  unfolding wait_loop report
  wait_loop-Quiet zero s t h = cc
  wait_loop-Quiet (suc fuel) s t h =
      let kept = law.waitpid-Keeps s.world in
      elim (Option-cases (os.waitpid s.world).1) [
        | inl e ↦
            subst (λ v. Quiet view s v) (some-inj (rw (e, wait_loop) at h))
              (Keeps-Quiet s _ kept refl (le_refl _) refl)
        | inr (c, e) ↦
            Quiet-trans s _ t (Keeps-Quiet s _ kept refl (le_refl _) refl)
              (wait_loop-Quiet fuel _ t (rw (e, wait_loop) at h))
      ]

  release_end-Quiet :
      (k i : ℕ) (s t : Shell W) → Quiet view s t → Quiet view s (release_end os k i t)
  release_end-Quiet k i s t q = Quiet-trans s t _ q (
      if-Quiet t _ _ (get_or t.fd_is_pipe k false)
        (Keeps-Quiet t _ (law.sys_close-Keeps t.world (get_or t.fd_array k none)) refl (le_refl _)
          refl)
        (still t _ refl refl refl refl))

  pub release-Quiet : (i o e : ℕ) (s : Shell W) → Quiet view s (release os i o e s)
  unfolding release
  release-Quiet i o e s =
      release_end-Quiet e i s _
        (release_end-Quiet o i s _ (release_end-Quiet i i s _ (still s _ refl refl refl refl)))
