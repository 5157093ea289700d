-- ===== src/Adder/Mutual.antt =====
-- Under a lock the counter comes back to 0, and one thread at a time is in `addm` or `adds`.
use cs111winter.Base.{
  sum_to, ℕ, zero, suc, ◌*◌, ◌^◌, ◌≤◌, ◌<◌, ◌≡◌, ◌≢◌, refl, sym, true, false, arith, ◌==◌,
  Bool-cases, inl, inr,
}
use cs111winter.Adder.{
  Mode, mutex_mode, spin_mode, Thread, Place, between, locked, stored, loaded, compared, System,
  enter, store, step_at, thread_step, is_finished, created, Reachable, starts, goes_on,
}
use cs111winter.Adder.Sums.{share_at, share, total, share_at-bound, total-bound}
use cs111winter.Adder.Locked.{
  IsLocking, by_mutex, by_spin, is_inside, Knows, Inv, step_between, step_locked, step_loaded,
  step_stored, Knows-place,
}

module _ (n iterations : ℕ) (s : System) (i : ℕ) (h : i < n) where
  enter-Inv :
      (mode : Mode)
      → IsLocking mode
      → Inv mode n iterations s
      → is_finished (s.threads i) ≡ false
      → (s.threads i).place ≡ between
      → Inv mode n iterations (enter mode i s)
  unfolding enter
  enter-Inv _ by_mutex inv more at = elim (Bool-cases (s.mutex == 0)) [
    | inl free ↦ rw free (
        step_between mutex_mode n iterations s _ i inv h
          (record { threads' = refl; counter' = refl; lock' = refl }) (ground arith) more at)
    | inr taken ↦ rw taken inv
  ]
  enter-Inv _ by_spin inv more at = elim (Bool-cases (s.spinlock == 0)) [
    | inl free ↦ rw free (
        step_between spin_mode n iterations s _ i inv h
          (record { threads' = refl; counter' = refl; lock' = refl }) (ground arith) more at)
    | inr taken ↦ rw taken inv
  ]

  store-Inv :
      (mode : Mode) (sum : ℕ)
      → IsLocking mode
      → Inv mode n iterations s
      → s.counter < 2 ^ 63
      → (s.threads i).place ≡ loaded sum
      → Inv mode n iterations (store mode i sum s)
  unfolding store
  store-Inv _ sum by_mutex inv small at =
      step_loaded mutex_mode n iterations s _ i inv h sum
        (record { threads' = refl; counter' = refl; lock' = refl }) small at
  store-Inv _ sum by_spin inv small at =
      step_loaded spin_mode n iterations s _ i inv h sum
        (record { threads' = refl; counter' = refl; lock' = refl }) small at

  step_at-Inv :
      (mode : Mode) (p : Place)
      → IsLocking mode
      → Inv mode n iterations s
      → s.counter < 2 ^ 63
      → (s.threads i).place ≡ p
      → Inv mode n iterations (step_at mode i p s)
  unfolding step_at Knows
  step_at-Inv mode between l inv small at = elim (Bool-cases (is_finished (s.threads i))) [
    | inl e ↦ rw e inv
    | inr e ↦ rw e (enter-Inv mode l inv e at)
  ]
  step_at-Inv _ locked by_mutex inv small at =
      step_locked mutex_mode n iterations s _ i inv h
        (record { threads' = refl; counter' = refl; lock' = refl }) at
  step_at-Inv _ locked by_spin inv small at =
      step_locked spin_mode n iterations s _ i inv h
        (record { threads' = refl; counter' = refl; lock' = refl }) at
  step_at-Inv mode (loaded sum) l inv small at = store-Inv mode sum l inv small at
  step_at-Inv _ stored by_mutex inv small at =
      step_stored mutex_mode n iterations s _ i inv h
        (record { threads' = refl; counter' = refl; lock' = refl }) at
  step_at-Inv _ stored by_spin inv small at =
      step_stored spin_mode n iterations s _ i inv h
        (record { threads' = refl; counter' = refl; lock' = refl }) at
  step_at-Inv mode (compared orig) l inv small at =
      absurd (Knows-place iterations s.counter (s.threads i) (compared orig) (inv.fine i h) at)

counter-bound :
    (mode : Mode) (n iterations : ℕ) (s : System)
    → Inv mode n iterations s
    → s.counter ≤ n * iterations
counter-bound mode n iterations s inv =
    let was = inv.sum in
    let bound =
      total-bound n iterations s.threads
        (λ i h. share_at-bound iterations _ (s.threads i) (inv.fine i h).order) in
    omega arith

pub created-total : (n iterations : ℕ) → total n (created iterations).threads ≡ 0
unfolding sum_to share_at
created-total zero iterations = refl
created-total (suc n) iterations = omega (arith, created-total n iterations)

created-Inv : (mode : Mode) (n iterations : ℕ) → Inv mode n iterations (created iterations)
unfolding Knows
created-Inv mode n iterations = record {
  fine = λ i h. record { order = omega arith; knows = tt };
  alone = λ i h inside. absurd (ground arith);
  sum = sym (created-total n iterations);
}

Reachable-Inv :
    (mode : Mode) (n iterations : ℕ) (s : System)
    → IsLocking mode
    → n * iterations < 2 ^ 63
    → Reachable mode n iterations s
    → Inv mode n iterations s
unfolding thread_step
Reachable-Inv mode n iterations _ l small starts = created-Inv mode n iterations
Reachable-Inv mode n iterations _ l small (goes_on {s} i h r) =
    let inv = Reachable-Inv mode n iterations s l small r in
    let bound = counter-bound mode n iterations s inv in
    step_at-Inv n iterations s i h mode (s.threads i).place l inv (omega arith) refl

-- Whatever the schedule, with MUTEX or SPIN two different threads are never both between their
-- lock and their unlock, where all rounds together are fewer than 2^63.
pub mutual_exclusion :
    (mode : Mode) (n iterations : ℕ) (s : System) (i j : ℕ)
    → IsLocking mode
    → n * iterations < 2 ^ 63
    → Reachable mode n iterations s
    → (i < n) × (j < n)
    → j ≢ i
    → is_inside (s.threads i).place ≡ true
    → is_inside (s.threads j).place ≡ false
mutual_exclusion mode n iterations s i j l small r (hi, hj) other inside =
    ((Reachable-Inv mode n iterations s l small r).alone i hi inside).1 j hj other

-- All rounds of a thread are over.
pub record IsOver (t : Thread) : Type 0 where
  pub finished : is_finished t ≡ true
  pub place : t.place ≡ between

pub share-over : (t : Thread) → IsOver t → share t ≤ 0
unfolding share_at
share-over t o = let e = o.finished in rw o.place (ground arith)

-- Whatever the schedule, with MUTEX or SPIN the counter is 0 when every thread has finished, where
-- all rounds together are fewer than 2^63.
pub locked_counter :
    (mode : Mode) (n iterations : ℕ) (s : System)
    → IsLocking mode
    → n * iterations < 2 ^ 63
    → Reachable mode n iterations s
    → ((i : ℕ) → i < n → IsOver (s.threads i))
    → s.counter ≡ 0
locked_counter mode n iterations s l small r over =
    let was = (Reachable-Inv mode n iterations s l small r).sum in
    let none' = total-bound n 0 s.threads (λ i h. share-over (s.threads i) (over i h)) in
    omega arith
