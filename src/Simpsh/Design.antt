-- ===== src/Simpsh/Design.antt =====
-- lab1-SunnieSo_designProblem/main.c: its --wait, which takes `all` or the index of a command.
use cs111winter.Base.{
  ℕ, List, ap, ◌+◌, ◌*◌, ◌-◌, ◌≡◌, refl, Bool, true, false, ◌&&◌, ◌||◌, not, Option, none, some, [],
  ◌∷◌, leb, ◌==◌, if◌then◌else◌, get_elem?,
}
use cs111winter.Simpsh.Args.{Str, is_digit, str_is_num}
use cs111winter.Simpsh.State.{Os, Shell, wait, echo, Event, reported, WaitInfo, say}
use cs111winter.Simpsh.Options.{wait_loop, words_of, fail}

-- `atoi`: white space, a sign, and digits up to another character. A negative value is `none`.
leading : ℕ → Str → ℕ
leading n [] = n
leading n (c ∷ cs) = let rest = leading (n * 10 + (c - 48)) cs in if is_digit c then rest else n

negated : ℕ → Option ℕ
negated n = if n == 0 then some 0 else none

unfoldable pub atoi : Str → Option ℕ
unfolding leading negated
atoi [] = some 0
atoi (c ∷ cs) =
    let rest = atoi cs in
    if c == 32 || (leb 9 c && leb c 13)
    then rest
    else (if c == 45
        then negated (leading 0 cs)
        else (if c == 43 then some (leading 0 cs) else some (leading 0 (c ∷ cs))))

-- "all"
abbrev pub is_all : Str → Bool
is_all (a ∷ b ∷ c ∷ []) = (a == 97) && (b == 108) && (c == 108)
is_all _ = false

-- `waitpid(pid, &status, 0)`: the WEXITSTATUS of the status, which a failure leaves as it was.
abbrev pub WaitFor : Type 0 → Type 0
WaitFor W = W → Option ℕ → W × Option ℕ

-- What `status` holds: the status that was reported last, or what was there at the start.
unfoldable pub last_status : ℕ → List Event → ℕ
last_status initial [] = initial
last_status initial (reported status words ∷ evs) = status
last_status initial (_ ∷ evs) = last_status initial evs

abbrev pub status_after : ℕ → Option ℕ → ℕ
status_after old none = old
status_after old (some new) = new

module _ {W : Type 0} where
  -- The command is waited for and reported.
  unfoldable pub wait_one : WaitFor W → (initial : ℕ) → WaitInfo → Shell W → Shell W
  unfolding last_status
  wait_one wait_for initial info s =
      let (w, r) = wait_for s.world info.child_pid in
      let status : ℕ = status_after (last_status initial s.trace) r in
      record s {
        world = w;
        trace = reported status (words_of s.argv info.begin info.end) ∷ s.trace;
      }

  -- case 'z' with a number. A negative index reads outside wait_info, which has no result.
  unfoldable pub wait_number : WaitFor W → (initial : ℕ) → Str → Shell W → Option (Shell W)
  unfolding wait_one
  wait_number wait_for initial optarg s =
      let checked : Shell W = if not (str_is_num (some optarg)) then fail s else s in
      elim (atoi optarg) [
        | none ↦ none
        | some cmdd ↦ elim (get_elem? s.wait_info cmdd) [
          | none ↦ some (fail checked)
          | some info ↦ some (wait_one wait_for initial info checked)
        ]
      ]

  -- case 'z'; with `all`, the loop of the first version.
  unfoldable pub wait_case : ℕ → Os W → WaitFor W → (initial : ℕ) → Str → Shell W → Option (Shell W)
  unfolding wait_number
  wait_case fuel os wait_for initial optarg s =
      let said : Shell W = say (echo [] wait (some optarg ∷ [])) s in
      if is_all optarg then wait_loop fuel os said else wait_number wait_for initial optarg said

  -- When --wait N names a command, and waitpid returns a status for it, that status is reported
  -- but the exit status stays as it was.
  pub wait_case-exit_status :
      (fuel : ℕ) (os : Os W) (wait_for : WaitFor W) (initial cmdd status : ℕ) (optarg : Str)
      (s : Shell W) (info : WaitInfo)
      → is_all optarg ≡ false
      → str_is_num (some optarg) ≡ true
      → atoi optarg ≡ some cmdd
      → get_elem? s.wait_info cmdd ≡ some info
      → (wait_for s.world info.child_pid).1 ≡ some status
      → (t : Shell W) × (wait_case fuel os wait_for initial optarg s ≡ some t)
        × (last_status initial t.trace ≡ status)
        × (t.exit_status ≡ s.exit_status)
  unfolding wait_case last_status wait_one
  wait_case-exit_status fuel os wait_for initial cmdd status optarg s info a n v i r =
      rw (a, v, i, n, wait_number, wait_case)
        (
          _,
          refl,
          ap (status_after (last_status initial (say (echo [] wait (some optarg ∷ [])) s).trace)) r,
          refl,
        )
