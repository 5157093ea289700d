-- ===== src/Simpsh/Main/Advances.antt =====
-- Every option, --command included: at most one child more, and every child is recorded.
use native.Mathlib.Nat.{le_refl}
use native.Mathlib.Decide.{ℕ_discrete}
use mathlib.Core.Path.{subst}
use cs111winter.Base.{
  ℕ, zero, suc, sym, ap, ◌∙◌, ◌⊎◌, ◌+◌, ◌≤◌, ◌<◌, ◌≡◌, refl, inl, inr, Bool, true, false, ◌&&◌,
  Option, none, some, List, [], ◌∷◌, ◌++◌, if◌then◌else◌, length, get_elem?, Option-cases,
  Bool-cases, ◌==◌, ◌≢◌, arith,
}
use cs111winter.Simpsh.Args.{Str, find_args, Args, new_args, put_arg, grow_args, pass_checks, atoi}
use cs111winter.Simpsh.State.{Os, Shell, WaitInfo, spawned}
use cs111winter.Simpsh.Table.{valid_fd}
use cs111winter.Simpsh.Command.{child, release, launch, run_command, command_case}
use cs111winter.Simpsh.Options.{find_info}
use cs111winter.Simpsh.Main.Laws.{View, Lawful}
use cs111winter.Simpsh.Main.Quiet.{Quiet, find_args-le, same_world-Quiet, release-Quiet}

-- Every child that can still be waited for has its pid in wait_info.
abbrev pub Recorded : {W : Type 0} → View W → Shell W → Type 0
Recorded view s =
    (pid : ℕ) → view.Alive s.world pid → find_info pid s.wait_info < length s.wait_info

find_info-append :
    (pid : ℕ) (xs : List WaitInfo) (x : WaitInfo)
    → find_info pid xs < length xs
    → find_info pid (xs ++ x ∷ []) < length (xs ++ x ∷ [])
unfolding find_info
find_info-append pid [] x h = absurd (omega arith)
find_info-append pid (y ∷ ys) x h = ground (arith, find_info-append pid ys x)

find_info-last :
    (pid : ℕ) (xs : List WaitInfo) (x : WaitInfo)
    → x.child_pid ≡ some pid
    → find_info pid (xs ++ x ∷ []) < length (xs ++ x ∷ [])
unfolding find_info
find_info-last pid [] x h = rw h (ground arith)
find_info-last pid (y ∷ ys) x h = ground (arith, find_info-last pid ys x h)

-- The entry at `i` has the pid, and no entry before it.
pub record IsFirst (pid : ℕ) (infos : List WaitInfo) (i : ℕ) : Type 0 where
  pub info : WaitInfo
  pub entry : get_elem? infos i ≡ some info
  pub has_pid : info.child_pid ≡ some pid
  pub earlier :
      (j : ℕ) (other : WaitInfo)
      → j < i
      → get_elem? infos j ≡ some other
      → other.child_pid ≢ some pid

IsFirst-here :
    (pid : ℕ) (x : WaitInfo) (xs : List WaitInfo) → x.child_pid ≡ some pid → IsFirst pid (x ∷ xs) 0
IsFirst-here pid x xs h = record {
  info = x;
  entry = refl;
  has_pid = h;
  earlier = λ j other less at. absurd (omega arith);
}

IsFirst-there :
    (pid : ℕ) (x : WaitInfo) (xs : List WaitInfo) (i : ℕ)
    → x.child_pid ≢ some pid
    → IsFirst pid xs i
    → IsFirst pid (x ∷ xs) (suc i)
IsFirst-there pid x xs i miss f = record {
  info = f.info;
  entry = f.entry;
  has_pid = f.has_pid;
  earlier = there;
}
  where
    there :
        (j : ℕ) (other : WaitInfo)
        → j < suc i
        → get_elem? (x ∷ xs) j ≡ some other
        → other.child_pid ≢ some pid
    there zero other less at = λ e. miss (cc)
    there (suc j) other less at = f.earlier j other (omega arith) at

module _ (pid : ℕ) (x : WaitInfo) (xs : List WaitInfo) where
  find_info-hit : x.child_pid ≡ some pid → find_info pid (x ∷ xs) ≡ 0
  unfolding find_info
  find_info-hit e = rw e (ground arith)

  find_info-miss : x.child_pid ≢ some pid → find_info pid (x ∷ xs) ≡ suc (find_info pid xs)
  unfolding find_info
  find_info-miss n = elim (Option-cases x.child_pid) [
    | inl e ↦ rw e refl
    | inr (p, e) ↦ let other : (p == pid) ≡ false = not_equal p e in rw (e, other) refl
  ]
    where
      not_equal : (p : ℕ) → x.child_pid ≡ some p → (p == pid) ≡ false
      not_equal p e = elim (Bool-cases (p == pid)) [
        | inl same ↦ let q : p ≡ pid = ground arith in absurd (n (e ∙ ap some q))
        | inr other ↦ other
      ]

  has_it : (x.child_pid ≡ some pid) ⊎ (x.child_pid ≢ some pid)
  has_it = elim (Option-cases x.child_pid) [
    | inl e ↦ inr (λ f. cc)
    | inr (p, e) ↦ elim (ℕ_discrete p pid) [
      | yes same ↦ inl (e ∙ ap some same)
      | no other ↦ inr (λ f. other (some-same (sym e ∙ f)))
    ]
  ]
    where
      some-same : {p q : ℕ} → some p ≡ some q → p ≡ q
      some-same h = cc

pub find_info-IsFirst :
    (pid : ℕ) (xs : List WaitInfo)
    → find_info pid xs < length xs
    → IsFirst pid xs (find_info pid xs)
find_info-IsFirst pid [] less = absurd (omega arith)
find_info-IsFirst pid (x ∷ xs) less = elim (has_it pid x xs) [
  | inl hit ↦
      subst (IsFirst pid (x ∷ xs)) (sym (find_info-hit pid x xs hit)) (IsFirst-here pid x xs hit)
  | inr miss ↦
      let next = find_info-miss pid x xs miss in
      subst (IsFirst pid (x ∷ xs)) (sym next)
        (IsFirst-there pid x xs _ miss (find_info-IsFirst pid xs (omega (arith, next))))
]

pub record Advances {W : Type 0} (view : View W) (s t : Shell W) : Type 0 where
  pub less_to_scan : view.unscanned t.world t.argv t.optind ≤ view.unscanned s.world s.argv s.optind
  pub one_child : view.children t.world ≤ suc (view.children s.world)
  pub all_recorded : Recorded view s → Recorded view t

module _ {W : Type 0} {view : View W} where
  pub Quiet-Advances : (s t : Shell W) → Quiet view s t → Advances view s t
  Quiet-Advances s t q = record {
    less_to_scan = q.less_to_scan;
    one_child = omega (arith, q.no_new_child);
    all_recorded = λ h pid a. rw (q.same_info) (h pid (q.alive_before pid a));
  }

  Quiet-Advances-trans : (s t u : Shell W) → Quiet view s t → Advances view t u → Advances view s u
  Quiet-Advances-trans s t u q a = record {
    less_to_scan = omega (arith, q.less_to_scan, a.less_to_scan);
    one_child = omega (arith, q.no_new_child, a.one_child);
    all_recorded = λ h. a.all_recorded (λ pid b. rw (q.same_info) (h pid (q.alive_before pid b)));
  }

  if-Advances :
      (s t u : Shell W) (b : Bool)
      → Advances view s t
      → Advances view s u
      → Advances view s (if b then t else u)
  if-Advances s t u true p q = p
  if-Advances s t u false p q = q

module _ {W : Type 0} {view : View W} {os : Os W} (law : Lawful view os) where
  launch-Advances :
      (i o e begin end : ℕ) (words : List (Option Str)) (s : Shell W)
      → Advances view s (launch os i o e begin end words s)
  unfolding launch
  launch-Advances i o e begin end words s =
      let pid : Option ℕ = (os.fork s.world).1 in
      let forked : Shell W = record s {
        world = (os.fork s.world).0;
        trace = spawned pid (child s.fd_array s.fd_is_pipe i o e words) ∷ s.trace;
      } in
      let q : Quiet view forked (release os i o e forked) = release-Quiet law i o e forked in
      let info : WaitInfo = record { child_pid = pid; begin = begin; end = end } in
      record {
        less_to_scan = omega (arith, q.less_to_scan, law.fork-unscanned s.world s.argv s.optind);
        one_child = omega (arith, q.no_new_child, law.fork-children s.world);
        all_recorded = λ h p a.
            rw (q.same_info) (elim (law.fork-Alive s.world p (q.alive_before p a)) [
              | inl e ↦ find_info-last p s.wait_info info e
              | inr b ↦ find_info-append p s.wait_info info (h p b)
            ]);
      }

  run_command-Advances :
      (i o e : ℕ) (name : Str) (s : Shell W) → Advances view s (run_command os i o e name s)
  unfolding run_command
  run_command-Advances i o e name s =
      let begin : ℕ = s.optind in
      let first : Args = put_arg (some name) new_args in
      let end : ℕ = (find_args s.argv (begin + 1) 2 first).0 in
      let moved : begin ≤ end = omega (arith, find_args-le s.argv (begin + 1) 2 first) in
      let words : List (Option Str) =
        (put_arg none (grow_args 2 (find_args s.argv (begin + 1) 2 first).1)).entries in
      if-Advances s _ _ (valid_fd i s.fd_array && valid_fd o s.fd_array && valid_fd e s.fd_array)
        (Quiet-Advances-trans s _ _ (same_world-Quiet law s _ refl refl moved refl)
          (launch-Advances i o e begin end words _))
        (Quiet-Advances s _ (same_world-Quiet law s _ refl refl moved refl))

  pub command_case-Advances : (arg : Str) (s : Shell W) → Advances view s (command_case os arg s)
  unfolding command_case
  command_case-Advances arg s =
      let argc : ℕ = length s.argv in
      let forward : (n : ℕ) → s.optind ≤ s.optind + n = λ n. omega arith in
      if-Advances s _ _ (pass_checks (some arg) s.optind argc)
        (if-Advances s _ _ (pass_checks (get_elem? s.argv s.optind) s.optind argc)
          (if-Advances s _ _ (pass_checks (get_elem? s.argv (s.optind + 1)) (s.optind + 1) argc)
            (elim (Option-cases (get_elem? s.argv (s.optind + 2))) [
              | inl e ↦
                  rw e (Quiet-Advances s _ (same_world-Quiet law s _ refl refl (forward 2) refl))
              | inr (name, e) ↦ rw e (
                  Quiet-Advances-trans s _ _ (same_world-Quiet law s _ refl refl (forward 2) refl) (
                    run_command-Advances (atoi (some arg)) (atoi (get_elem? s.argv s.optind))
                      (atoi (get_elem? s.argv (s.optind + 1))) name _))
            ])
            (Quiet-Advances s _ (same_world-Quiet law s _ refl refl (forward 1) refl)))
          (Quiet-Advances s _ (same_world-Quiet law s _ refl refl (le_refl _) refl)))
        (Quiet-Advances s _ (same_world-Quiet law s _ refl refl (le_refl _) refl))
