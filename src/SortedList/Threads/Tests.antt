-- ===== src/SortedList/Threads/Tests.antt =====
-- Runs of two threads of sltest.c with one element each.
use cs111winter.Base.{
  sum_to, ℕ, zero, suc, ◌+◌, ◌<◌, ◌≡◌, refl, true, false, List, [], ◌∷◌, some, arith, length, ltb,
  ◌&&◌, Bool,
}
use cs111winter.SortedList.{hash, place_from, link_before, lookup, length as list_length}
use cs111winter.SortedList.Ring.{IsRing}
use cs111winter.SortedList.Threads.{System, thread_step, run_schedule, Reachable, starts, goes_on}
use cs111winter.Base.{sum_to}
use cs111winter.SortedList.Threads.Inv.{shares}
use cs111winter.SortedList.Threads.Start.{IsAllocated, begun}
use cs111winter.SortedList.Threads.Finish.{is_over}
use cs111winter.SortedList.Threads.Progress.{threads-finish}
use cs111winter.SortedList.Threads.Reach.{threads-IsRing, threads-length}

abbrev head_at : ℕ → ℕ
head_at j = 1

abbrev element_at : ℕ → ℕ
element_at a = a + 2

-- The first thread's key is above the second's.
abbrev key_at : ℕ → List ℕ
key_at zero = 67 ∷ []
key_at (suc a) = 66 ∷ []

places-IsAllocated : IsAllocated head_at element_at
places-IsAllocated = record {
  list_proper = omega arith;
  proper = λ a. omega arith;
  not_list = λ a. omega arith;
  different = λ a b e. omega (arith, e);
}

abbrev two : System
two = begun 1 2 1 head_at element_at key_at (λ a. record { prev = 0; next = 0; key = [] })

abbrev are_below : ℕ → List ℕ → Bool
are_below n [] = true
are_below n (i ∷ is) = ltb i n && are_below n is

-- Every schedule of the threads leads to a reachable state.
run-Reachable :
    (is : List ℕ) (s : System)
    → are_below 2 is ≡ true
    → Reachable 3 1 head_at true 2 two s
    → Reachable 3 1 head_at true 2 two (run_schedule 3 1 head_at true is s)
unfolding run_schedule
run-Reachable [] s ok r = r
run-Reachable (i ∷ is) s ok r =
    run-Reachable is (thread_step 3 1 head_at true i s) (ground arith) (goes_on i (ground arith) r)

abbrev in_turns : ℕ → List ℕ
in_turns zero = []
in_turns (suc k) = 0 ∷ 1 ∷ in_turns k

-- The second thread waits for the lock, and has then inserted its element.
abbrev midway : System
midway = run_schedule 3 1 head_at true (in_turns 7) two

threads-IsRing_example :
    (xs : List ℕ) × IsRing midway.heap 1 xs
    × (length xs ≡ sum_to 2 (shares midway.threads))
    × (midway.missed ≡ 0)
threads-IsRing_example =
    threads-IsRing 3 2 1 head_at element_at key_at (λ a. record { prev = 0; next = 0; key = [] })
      places-IsAllocated (omega arith) midway (run-Reachable (in_turns 7) two refl starts)

abbrev over : System
over = run_schedule 3 1 head_at true (in_turns 25) two

over-finished : (i : ℕ) → i < 2 → (over.threads i).to_delete ≡ []
unfolding run_schedule begun hash place_from link_before list_length lookup
over-finished zero l = refl
over-finished (suc zero) l = refl
over-finished (suc (suc i)) l = absurd (omega arith)

threads-length_example : list_length 3 (1 ∷ []) over.heap ≡ some 0
threads-length_example =
    threads-length 3 2 1 head_at element_at key_at (λ a. record { prev = 0; next = 0; key = [] })
      places-IsAllocated (omega arith) over (run-Reachable (in_turns 25) two refl starts)
      over-finished

threads-finish_example :
    (s' : System) × Reachable 3 1 head_at true 2 midway s'
    × ((i : ℕ) → i < 2 → is_over (s'.threads i) ≡ true)
    × (list_length 3 (1 ∷ []) s'.heap ≡ some 0)
threads-finish_example =
    threads-finish 3 2 1 head_at element_at key_at (λ a. record { prev = 0; next = 0; key = [] })
      places-IsAllocated (omega arith) midway (run-Reachable (in_turns 7) two refl starts)

midway-both : sum_to 2 (shares midway.threads) ≡ 2
unfolding run_schedule begun sum_to hash place_from link_before
midway-both = refl

-- With no lock both walks end before either thread has written, and the list is out of order.
abbrev raced : System
raced = run_schedule 3 1 head_at false (0 ∷ 1 ∷ 0 ∷ 1 ∷ 0 ∷ 1 ∷ []) two

raced-order : ((raced.heap 1).next ≡ 2) × ((raced.heap 2).next ≡ 3)
unfolding run_schedule begun place_from link_before
raced-order = (refl, refl)
