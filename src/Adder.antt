-- ===== src/Adder.antt =====
-- lab4/addtest.c: threads that add 1 to a counter and then take it away again, so many times each.
-- A step is one access to memory that the threads share. An access is atomic and is seen by all at
-- once, so that a call of `pthread_yield` between two steps allows no run that is not one without
-- it. The counter is the pattern of a `long long`, an `int` is its pattern of 32 bits.
use cs111winter.Base.{
  ℕ, zero, suc, ◌+◌, ◌-◌, ◌*◌, ◌%◌, ◌^◌, ◌≡◌, ◌<◌, Bool, true, false, ◌&&◌, List, [], ◌∷◌, ◌==◌,
  ltb, if◌then◌else◌,
}
pub mod Sums
pub mod Locked
pub mod Mutual
pub mod Atomic
pub mod Progress
mod Tests

-- Which of its loops `threadfunc` runs, by the flags `MUTEX`, `SPIN` and `ATOMIC`.
pub data Mode : Type 0 where
  mutex_mode spin_mode atomic_mode regular_mode : Mode

abbrev pub mode_of : (mutex spin atomic : Bool) → Mode
mode_of mutex spin atomic =
    if mutex
    then mutex_mode
    else if spin
    then spin_mode
    else if atomic
    then atomic_mode
    else regular_mode

-- Where a thread is: between two rounds; behind the lock; behind the load in `add`, `addm` and
-- `adds`, with `sum`; behind the store, with the lock; behind the load of the loop with
-- compare-and-swap, with `orig`.
pub data Place : Type 0 where
  between locked stored : Place
  loaded : (sum : ℕ) → Place
  compared : (orig : ℕ) → Place

-- How many rounds of its first and of its second loop are left.
pub record Thread : Type 0 where
  pub ups : ℕ
  pub downs : ℕ
  pub place : Place

pub record System : Type 0 where
  pub counter : ℕ
  pub mutex : ℕ
  pub spinlock : ℕ
  pub threads : ℕ → Thread

abbrev pub put : ℕ → Thread → (ℕ → Thread) → ℕ → Thread
put i t threads j = if j == i then t else threads j

-- What the round adds, as a `long long` and as an `int`.
abbrev pub delta : Thread → ℕ
delta t = if ltb 0 t.ups then 1 else 2 ^ 64 - 1

abbrev pub delta32 : Thread → ℕ
delta32 t = if ltb 0 t.ups then 1 else 2 ^ 32 - 1

abbrev pub next_round : Thread → Thread
next_round t = record {
  ups = if ltb 0 t.ups then t.ups - 1 else t.ups;
  downs = if ltb 0 t.ups then t.downs else t.downs - 1;
  place = between;
}

abbrev pub is_finished : Thread → Bool
is_finished t = (t.ups == 0) && (t.downs == 0)

abbrev pub lock_of : Mode → System → ℕ
lock_of mutex_mode s = s.mutex
lock_of spin_mode s = s.spinlock
lock_of atomic_mode s = 0
lock_of regular_mode s = 0

abbrev pub set_lock : Mode → ℕ → System → System
set_lock mutex_mode v s = record s { mutex = v }
set_lock spin_mode v s = record s { spinlock = v }
set_lock atomic_mode v s = s
set_lock regular_mode v s = s

abbrev pub with_place : ℕ → Place → System → System
with_place i p s = record s { threads = put i (record (s.threads i) { place = p }) s.threads }

abbrev pub with_round : ℕ → System → System
with_round i s = record s { threads = put i (next_round (s.threads i)) s.threads }

-- `long long sum = *pointer + value`
abbrev pub load : ℕ → System → System
load i s = with_place i (loaded ((s.counter + delta (s.threads i)) % 2 ^ 64)) s

-- `pthread_mutex_lock`, and a round of the loop on `__sync_lock_test_and_set`: a thread that finds
-- the lock taken stays where it is.
abbrev pub acquire : Mode → ℕ → System → System
acquire mode i s = if lock_of mode s == 0 then with_place i locked (set_lock mode 1 s) else s

-- The `int` is made a `long long` again.
abbrev pub extend : ℕ → ℕ
extend orig = if ltb orig (2 ^ 31) then orig else orig + (2 ^ 64 - 2 ^ 32)

-- `__sync_val_compare_and_swap(pointer, orig, sum)`, and the test of what it returns.
abbrev pub swap : ℕ → (orig : ℕ) → System → System
swap i orig s =
    if s.counter == extend orig
    then with_round i (record s { counter = extend ((orig + delta32 (s.threads i)) % 2 ^ 32) })
    else with_place i between s

unfoldable pub enter : Mode → ℕ → System → System
enter mutex_mode i s = acquire mutex_mode i s
enter spin_mode i s = acquire spin_mode i s
enter atomic_mode i s = with_place i (compared (s.counter % 2 ^ 32)) s
enter regular_mode i s = load i s

-- The store in `add` ends the round; in `addm` and `adds` the lock is held still.
unfoldable pub store : Mode → ℕ → (sum : ℕ) → System → System
store mutex_mode i sum s = with_place i stored (record s { counter = sum })
store spin_mode i sum s = with_place i stored (record s { counter = sum })
store atomic_mode i sum s = with_round i (record s { counter = sum })
store regular_mode i sum s = with_round i (record s { counter = sum })

unfoldable pub step_at : Mode → ℕ → Place → System → System
unfolding enter store
step_at mode i between s = if is_finished (s.threads i) then s else enter mode i s
step_at mode i locked s = load i s
step_at mode i (loaded sum) s = store mode i sum s
step_at mode i stored s = with_round i (set_lock mode 0 s)
step_at mode i (compared orig) s = swap i orig s

-- The next step of thread `i` in `threadfunc`.
unfoldable pub thread_step : Mode → ℕ → System → System
unfolding step_at
thread_step mode i s = step_at mode i (s.threads i).place s

-- The threads as `main` creates them, each for all its iterations.
abbrev pub created : (iterations : ℕ) → System
created iterations = record {
  counter = 0;
  mutex = 0;
  spinlock = 0;
  threads = λ i. record { ups = iterations; downs = iterations; place = between };
}

-- The states that `n` threads can come to.
pub data Reachable (mode : Mode) (n iterations : ℕ) : System → Type 0 where
  starts : Reachable mode n iterations (created iterations)
  goes_on :
      {s : System} (i : ℕ)
      → i < n
      → Reachable mode n iterations s
      → Reachable mode n iterations (thread_step mode i s)

-- A schedule names the thread of each step.
unfoldable pub run_schedule : Mode → List ℕ → System → System
unfolding thread_step
run_schedule mode [] s = s
run_schedule mode (i ∷ is) s = run_schedule mode is (thread_step mode i s)
