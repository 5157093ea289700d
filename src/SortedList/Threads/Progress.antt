-- ===== src/SortedList/Threads/Progress.antt =====
-- The threads do not block each other for ever: from every state some schedule ends them all.
use cs111winter.Base.{
  ℕ, zero, suc, ◌*◌, ◌<◌, ◌≡◌, inl, inr, refl, ap, true, Bool, List, [], ◌∷◌, Option, none, some,
  arith,
}
use cs111winter.SortedList.{Heap, length as list_length}
use cs111winter.SortedList.Threads.{System, thread_step, Reachable, starts, goes_on}
use cs111winter.Base.{sum_to, sum_to-moves}
use cs111winter.SortedList.Threads.Inv.{Inv}
use cs111winter.SortedList.Threads.Turn.{step_at-Turn}
use cs111winter.SortedList.Threads.Rank.{rank, is_through, step_at-Falls}
use cs111winter.SortedList.Threads.Finish.{is_over, Locks, Turn-Locks, some-Ready}
use cs111winter.SortedList.Threads.Start.{begun, IsAllocated}
use cs111winter.SortedList.Threads.Reach.{step_at-Inv, begun-Inv, threads-length}

Reachable-trans :
    (fuel n_lists : ℕ) (list : ℕ → ℕ) (guarded : Bool) (n : ℕ) (s0 s s' : System)
    → Reachable fuel n_lists list guarded n s0 s
    → Reachable fuel n_lists list guarded n s s'
    → Reachable fuel n_lists list guarded n s0 s'
Reachable-trans fuel n_lists list guarded n s0 s _ r starts = r
Reachable-trans fuel n_lists list guarded n s0 s _ r (goes_on i less r') =
    goes_on i less (Reachable-trans fuel n_lists list guarded n s0 s _ r r')

module _ (fuel : ℕ) (list : ℕ → ℕ) (rounds n : ℕ) (enough : n * rounds < fuel) where
  Sound : System → Type 0
  Sound s = ((xs : List ℕ) × Inv fuel (list 0) rounds n xs s) × Locks n s

  step-Sound : (s : System) (i : ℕ) → i < n → Sound s → Sound (thread_step fuel 1 list true i s)
  unfolding Sound thread_step
  step-Sound s i less ((xs, inv), locks) =
      let knows = (inv.fine i less).knows in
      let turn = step_at-Turn fuel list s i (s.threads i).place refl knows in
      (
        step_at-Inv fuel list rounds n xs s i (s.threads i).place inv less enough refl knows,
        Turn-Locks n i less s _ turn locks,
      )

  finish :
      (k : ℕ) (s : System)
      → Sound s
      → sum_to n (λ i. rank (s.threads i)) < k
      → (s' : System) × Reachable fuel 1 list true n s s'
        × ((i : ℕ) → i < n → is_over (s'.threads i) ≡ true)
  unfolding Sound thread_step
  finish zero s sound small = absurd (omega arith)
  finish (suc k) s ((xs, inv), locks) small =
      elim (some-Ready fuel list rounds n xs s inv enough locks) [
        | inr over ↦ (s, starts, over)
        | inl (i, less, ready) ↦
            let s1 = thread_step fuel 1 list true i s in
            let knows = (inv.fine i less).knows in
            let falls = step_at-Falls fuel list s i (s.threads i).place refl knows ready in
            let turn = step_at-Turn fuel list s i (s.threads i).place refl knows in
            let change =
              sum_to-moves n i (λ j. rank (s.threads j)) (λ j. rank (s1.threads j)) less
                (λ j other. ap rank (turn.others j other)) in
            let (s', r, over) =
              finish k s1 (step-Sound s i less ((xs, inv), locks)) (omega arith) in
            (s', Reachable-trans fuel 1 list true n s s1 s' (goes_on i less starts) r, over)
      ]

module _ (fuel n iterations : ℕ) (list element : ℕ → ℕ) (keys : ℕ → List ℕ) (h : Heap)
    (al : IsAllocated list element) (enough : n * iterations < fuel) where
  Reachable-Sound :
      (s : System)
      → Reachable fuel 1 list true n (begun 1 n iterations list element keys h) s
      → Sound fuel list iterations n enough s
  unfolding Sound begun
  Reachable-Sound _ starts = (
    ([], begun-Inv fuel n iterations list element keys h al),
    record { list_free = λ out. refl; len_free = λ out. refl },
  )
  Reachable-Sound _ (goes_on {s} i less r) =
      step-Sound fuel list iterations n enough s i less (Reachable-Sound s r)

  -- With MUTEX or SPIN, one list, different places for its head and the elements, and fuel for
  -- more steps than all threads together have elements, from every state that the threads reach
  -- some schedule leads to one in which every thread is through with both loops and the length;
  -- there SortedList_length ends and is 0.
  pub threads-finish :
      (s : System)
      → Reachable fuel 1 list true n (begun 1 n iterations list element keys h) s
      → (s' : System) × Reachable fuel 1 list true n s s'
        × ((i : ℕ) → i < n → is_over (s'.threads i) ≡ true)
        × (list_length fuel (list 0 ∷ []) s'.heap ≡ some 0)
  threads-finish s r =
      let (s', r', over) =
        finish fuel list iterations n enough (suc (sum_to n (λ i. rank (s.threads i)))) s
          (Reachable-Sound s r) (omega arith) in
      (
        s',
        r',
        over,
        threads-length fuel n iterations list element keys h al enough s'
            (Reachable-trans fuel 1 list true n _ s s' r r')
            (λ i less. nothing_left _ _ _ (over i less)),
      )
    where
      nothing_left : (todo undo : List ℕ) (m : Option ℕ) → is_through todo undo m ≡ true → undo ≡ []
      nothing_left (e ∷ es) undo m o = absurd (ground arith)
      nothing_left [] undo none o = absurd (ground arith)
      nothing_left [] [] (some l) o = refl
      nothing_left [] (e ∷ es) (some l) o = absurd (ground arith)
