-- ===== src/Mpos/Schedule.antt =====
-- The scheduler of MiniprocOS: its search for the next process.
use cs111winter.Base.{
  ℕ, zero, suc, ◌+◌, ◌-◌, ◌%◌, ◌≤◌, ◌<◌, ◌≡◌, ◌⊎◌, inl, inr, refl, Bool, true, false, Option, none,
  some, arith, Bool-cases,
}
use native.Mathlib.Decide.{ℕ_discrete}
use cs111winter.Mpos.{Process, Kernel, is_runnable, Next, run, spin, schedule, pick_from}

abbrev ready : (ℕ → Process) → ℕ → Bool
ready procs i = is_runnable (procs i).state

-- Process `next` is the first runnable one behind `pid` in the circle: `d` steps on.
pub record Chosen (procs : ℕ → Process) (pid k d next : ℕ) : Type 0 where
  pub near : (1 ≤ d) × (d ≤ k)
  pub place : next ≡ (pid + d) % 16
  pub is_ready : is_runnable (procs next).state ≡ true
  pub passed_over : (e : ℕ) → 1 ≤ e → e < d → is_runnable (procs ((pid + e) % 16)).state ≡ false

abbrev Picked : (ℕ → Process) → ℕ → ℕ → Option ℕ → Type 0
Picked procs pid k o =
    ((d : ℕ) × (next : ℕ) × (o ≡ some next) × Chosen procs pid k d next)
    ⊎ ((o ≡ none) × ((e : ℕ) → 1 ≤ e → e ≤ k → ready procs ((pid + e) % 16) ≡ false))

step_on : (pid e : ℕ) → 1 ≤ e → ((pid + 1) % 16 + (e - 1)) % 16 ≡ (pid + e) % 16
step_on pid e h = omega arith

module _ (procs : ℕ → Process) where
  -- A process that is not runnable may be put in front of the search.
  Picked-skip :
      (pid k : ℕ) (o : Option ℕ)
      → ready procs ((pid + 1) % 16) ≡ false
      → Picked procs ((pid + 1) % 16) k o
      → Picked procs pid (suc k) o
  Picked-skip pid k o idle (inl (d, next, e, c)) =
      let near = c.near in
      inl (
        d + 1,
        next,
        e,
        record {
          near = omega arith;
          place = omega (arith, c.place);
          is_ready = c.is_ready;
          passed_over = λ i lo hi. elim (ℕ_discrete i 1) [
            | yes one ↦ rw one idle
            | no more ↦ rw (← step_on pid i lo) (c.passed_over (i - 1) (omega arith) (omega arith))
          ];
        },
      )
  Picked-skip pid k o idle (inr (e, all)) = inr (
    e,
    λ i lo hi. elim (ℕ_discrete i 1) [
      | yes one ↦ rw one idle
      | no more ↦ rw (← step_on pid i lo) (all (i - 1) (omega arith) (omega arith))
    ],
  )

  pick_from-Picked : (k pid : ℕ) → Picked procs pid k (pick_from k procs pid)
  unfolding pick_from
  pick_from-Picked zero pid = inr (refl, λ e lo hi. absurd (omega arith))
  pick_from-Picked (suc k) pid = elim (Bool-cases (ready procs ((pid + 1) % 16))) [
    | inl yes' ↦ rw yes' (
        inl (
          1,
          (pid + 1) % 16,
          refl,
          record {
            near = omega arith;
            place = refl;
            is_ready = yes';
            passed_over = λ e lo hi. absurd (omega arith);
          },
        ))
    | inr idle ↦ rw idle (Picked-skip pid k _ idle (pick_from-Picked k ((pid + 1) % 16)))
  ]

-- The two outcomes of `schedule`.
abbrev pub Scheduled : Kernel → Next → Type 0
Scheduled k next =
    ((d : ℕ) × (pid : ℕ) × (next ≡ run (record k { current = pid }))
      × Chosen k.procs (k.procs k.current).pid 16 d pid)
    ⊎ ((next ≡ spin) × ((i : ℕ) → i < 16 → is_runnable (k.procs i).state ≡ false))

-- schedule runs the first runnable process behind the current one, and changes nothing else; the
-- current process comes last. It spins exactly when no process of the table is runnable.
pub schedule_lem : (k : Kernel) → Scheduled k (schedule k)
unfolding schedule
schedule_lem k =
    let pid : ℕ = (k.procs k.current).pid in
    elim (pick_from-Picked k.procs 16 pid) [
      | inl (d, next, e, c) ↦ rw (e, schedule) (inl (d, next, refl, c))
      | inr (e, all) ↦
          rw (e, schedule)
            (inr (
              refl,
              λ i h.
                  let turn : ℕ = (i + 15 - pid % 16) % 16 + 1 in
                  let there : (pid + turn) % 16 ≡ i = omega arith in
                  rw (← there) (all turn (omega arith) (omega arith)),
            ))
    ]
