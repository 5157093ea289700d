-- ===== src/Adder/Tests.antt =====
-- Runs of two threads with one iteration each.
use cs111winter.Base.{
  ℕ, zero, suc, ◌-◌, ◌^◌, ◌<◌, ◌≡◌, refl, true, List, [], ◌∷◌, arith, Bool, ltb, ◌&&◌,
}
use cs111winter.Adder.{
  Mode, spin_mode, atomic_mode, regular_mode, System, created, thread_step, run_schedule, Reachable,
  starts, goes_on,
}
use cs111winter.Adder.Locked.{by_spin}
use cs111winter.Adder.Mutual.{IsOver, locked_counter}
use cs111winter.Adder.Progress.{Leads, can_finish}
use cs111winter.Adder.Atomic.{atomic_counter}

abbrev are_below : ℕ → List ℕ → Bool
are_below n [] = true
are_below n (i ∷ is) = ltb i n && are_below n is

-- Every schedule of the threads leads to a reachable state.
run-Reachable :
    (mode : Mode) (n iterations : ℕ) (is : List ℕ) (s : System)
    → are_below n is ≡ true
    → Reachable mode n iterations s
    → Reachable mode n iterations (run_schedule mode is s)
unfolding run_schedule
run-Reachable mode n iterations [] s ok r = r
run-Reachable mode n iterations (i ∷ is) s ok r =
    run-Reachable mode n iterations is (thread_step mode i s) (ground arith)
      (goes_on i (ground arith) r)

-- The second thread waits for the lock in each round.
abbrev turns : List ℕ
turns = 0 ∷ 1 ∷ 0 ∷ 0 ∷ 0 ∷ 1 ∷ 0 ∷ 1 ∷ 1 ∷ 1 ∷ 0 ∷ 0 ∷ 1 ∷ 0 ∷ 0 ∷ 1 ∷ 1 ∷ 1 ∷ 1 ∷ []

abbrev locked_end : System
locked_end = run_schedule spin_mode turns (created 1)

locked-IsOver : (i : ℕ) → i < 2 → IsOver (locked_end.threads i)
unfolding run_schedule
locked-IsOver zero h = record { finished = refl; place = refl }
locked-IsOver (suc zero) h = record { finished = refl; place = refl }
locked-IsOver (suc (suc i)) h = absurd (omega arith)

locked_counter_example : locked_end.counter ≡ 0
locked_counter_example =
    locked_counter spin_mode 2 1 locked_end by_spin (omega arith)
      (run-Reachable spin_mode 2 1 turns (created 1) refl starts) locked-IsOver

-- The second thread's first swap fails.
abbrev swaps : List ℕ
swaps = 0 ∷ 1 ∷ 0 ∷ 1 ∷ 1 ∷ 1 ∷ 0 ∷ 0 ∷ 1 ∷ 1 ∷ []

abbrev atomic_end : System
atomic_end = run_schedule atomic_mode swaps (created 1)

atomic-IsOver : (i : ℕ) → i < 2 → IsOver (atomic_end.threads i)
unfolding run_schedule
atomic-IsOver zero h = record { finished = refl; place = refl }
atomic-IsOver (suc zero) h = record { finished = refl; place = refl }
atomic-IsOver (suc (suc i)) h = absurd (omega arith)

atomic_counter_example : atomic_end.counter ≡ 0
atomic_counter_example =
    atomic_counter 2 1 atomic_end (omega arith)
      (run-Reachable atomic_mode 2 1 swaps (created 1) refl starts) atomic-IsOver

-- Without a lock an update is lost: both threads read 0, and the counter ends at -1.
lost_update :
    (run_schedule regular_mode (0 ∷ 1 ∷ 0 ∷ 1 ∷ 0 ∷ 0 ∷ 1 ∷ 1 ∷ []) (created 1)).counter
    ≡ 2 ^ 64 - 1
unfolding run_schedule
lost_update = refl

can_finish_example :
    (s' : System) × Leads 2 (run_schedule atomic_mode (0 ∷ 1 ∷ 0 ∷ []) (created 1)) s'
    × ((i : ℕ) → i < 2 → IsOver (s'.threads i))
can_finish_example =
    can_finish 2 1 (omega arith) (run_schedule atomic_mode (0 ∷ 1 ∷ 0 ∷ []) (created 1))
      (run-Reachable atomic_mode 2 1 (0 ∷ 1 ∷ 0 ∷ []) (created 1) refl starts)
