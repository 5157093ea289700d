-- ===== src/Adder/Progress.antt =====
-- With compare-and-swap every thread can finish from every state.
use cs111winter.Base.{
  ℕ, zero, suc, ◌+◌, ◌-◌, ◌*◌, ◌%◌, ◌^◌, ◌≤◌, ◌<◌, ◌≡◌, ◌≢◌, refl, ap, ◌∙◌, true, false, arith,
  ◌==◌, Bool-cases, inl, inr,
}
use native.Mathlib.Nat.{le_refl}
use native.Mathlib.Decide.{ℕ_discrete}
use cs111winter.Adder.{
  atomic_mode, Thread, Place, between, locked, stored, loaded, compared, System, next_round, put,
  extend, with_place, swap, enter, step_at, thread_step, is_finished, Reachable, goes_on,
}
use cs111winter.Adder.Mutual.{IsOver}
use cs111winter.Adder.Atomic.{CanBe, can_be, Reachable-Inv, counter-bound}

-- The thread's steps, by where it is.
step_lem :
    (i : ℕ) (s : System) (p : Place)
    → (s.threads i).place ≡ p
    → thread_step atomic_mode i s ≡ step_at atomic_mode i p s
unfolding thread_step
step_lem i s p at = ap (λ q. step_at atomic_mode i q s) at

put_self : (i : ℕ) (t : Thread) (threads : ℕ → Thread) → put i t threads i ≡ t
put_self i t threads = ground arith

-- From `s` thread `i` moves to `t` in `s'`, and the others stay where they are.
record Becomes (i : ℕ) (s : System) (t : Thread) (s' : System) : Type 0 where
  own : s'.threads i ≡ t
  others : (j : ℕ) → j ≢ i → s'.threads j ≡ s.threads j

-- A load, and a swap with nothing between them.
round_lem :
    (i : ℕ) (s : System)
    → s.counter < 2 ^ 31
    → (s.threads i).place ≡ between
    → is_finished (s.threads i) ≡ false
    → Becomes i s
        (next_round (s.threads i))
        (thread_step atomic_mode i (thread_step atomic_mode i s))
unfolding step_at enter
round_lem i s small at more =
    let orig : ℕ = s.counter % 2 ^ 32 in
    let s1 : System = with_place i (compared orig) s in
    let first : thread_step atomic_mode i s ≡ s1 = step_lem i s between at ∙ rw more refl in
    let own1 : s1.threads i ≡ record (s.threads i) { place = compared orig } = ground arith in
    let second : thread_step atomic_mode i s1 ≡ swap i orig s1 =
      step_lem i s1 (compared orig) (ap (λ t. t.place) own1) in
    let hit : (s.counter == extend orig) ≡ true = ground arith in
    rw (first, second, hit)
      (record {
        own = put_self i (next_round (s1.threads i)) s1.threads ∙ ap next_round own1;
        others = λ j other. ground arith;
      })

-- A swap ends between two rounds, whether it succeeds or not.
swap_lem :
    (i orig : ℕ) (s : System) → (t : Thread) × (t.place ≡ between) × Becomes i s t (swap i orig s)
swap_lem i orig s = elim (Bool-cases (s.counter == extend orig)) [
  | inl e ↦ (
    next_round (s.threads i),
    refl,
    rw e (record {
      own = put_self i (next_round (s.threads i)) s.threads;
      others = λ j other. ground arith;
    }),
  )
  | inr e ↦ (
    record (s.threads i) { place = between },
    refl,
    rw e (record {
      own = put_self i (record (s.threads i) { place = between }) s.threads;
      others = λ j other. ground arith;
    }),
  )
]

-- Some schedule of the `n` threads leads from `s` to the state.
pub data Leads (n : ℕ) (s : System) : System → Type 0 where
  rests : Leads n s s
  moves : {s' : System} (i : ℕ) → i < n → Leads n s s' → Leads n s (thread_step atomic_mode i s')

Leads-trans : {n : ℕ} {s s' s'' : System} → Leads n s s' → Leads n s' s'' → Leads n s s''
Leads-trans a rests = a
Leads-trans a (moves i h b) = moves i h (Leads-trans a b)

Leads-Reachable :
    {n iterations : ℕ} {s s' : System}
    → Leads n s s'
    → Reachable atomic_mode n iterations s
    → Reachable atomic_mode n iterations s'
Leads-Reachable rests r = r
Leads-Reachable (moves i h l) r = goes_on i h (Leads-Reachable l r)

-- Thread `i` comes to its end, and the others stay where they are.
record Ends (n i : ℕ) (s s' : System) : Type 0 where
  leads : Leads n s s'
  over : IsOver (s'.threads i)
  others : (j : ℕ) → j ≢ i → s'.threads j ≡ s.threads j

module _ (n iterations : ℕ) (limit : n * iterations < 2 ^ 31 - 1) (i : ℕ) (h : i < n) where
  finish_rounds :
      (k : ℕ) (s : System)
      → Reachable atomic_mode n iterations s
      → (s.threads i).place ≡ between
      → (s.threads i).ups + (s.threads i).downs ≤ k
      → (s' : System) × Ends n i s s'
  finish_rounds zero s r at few = (
    s,
    record {
      leads = rests;
      over = record { finished = ground arith; place = at };
      others = λ j other. refl;
    },
  )
  finish_rounds (suc k) s r at few = elim (Bool-cases (is_finished (s.threads i))) [
    | inl done ↦ (
      s,
      record {
        leads = rests;
        over = record { finished = done; place = at };
        others = λ j other. refl;
      },
    )
    | inr more ↦
        let s2 : System = thread_step atomic_mode i (thread_step atomic_mode i s) in
        let bound = counter-bound n iterations s (Reachable-Inv n iterations s limit r) in
        let order = ((Reachable-Inv n iterations s limit r).sane i h).order in
        let b = round_lem i s (omega arith) at more in
        let less : (s2.threads i).ups + (s2.threads i).downs ≤ k = rw b.own (ground arith) in
        let (s', ends) =
          finish_rounds k s2 (goes_on i h (goes_on i h r)) (ap (λ t. t.place) b.own) less in
        (
          s',
          record {
            leads = Leads-trans (moves i h (moves i h rests)) ends.leads;
            over = ends.over;
            others = λ j other. ends.others j other ∙ b.others j other;
          },
        )
  ]

  finish_at :
      (s : System) (p : Place)
      → Reachable atomic_mode n iterations s
      → (s.threads i).place ≡ p
      → (s' : System) × Ends n i s s'
  unfolding CanBe step_at
  finish_at s between r at =
      finish_rounds ((s.threads i).ups + (s.threads i).downs) s r at (le_refl _)
  finish_at s (compared orig) r at =
      let (t, rest, b) = swap_lem i orig s in
      let step : thread_step atomic_mode i s ≡ swap i orig s = step_lem i s (compared orig) at in
      let s1 : System = thread_step atomic_mode i s in
      let own : s1.threads i ≡ t = ap (λ x. x.threads i) step ∙ b.own in
      let (s', ends) =
        finish_rounds ((s1.threads i).ups + (s1.threads i).downs) s1 (goes_on i h r)
          (ap (λ x. x.place) own ∙ rest) (le_refl _) in
      (
        s',
        record {
          leads = Leads-trans (moves i h rests) ends.leads;
          over = ends.over;
          others = λ j other. ends.others j other ∙ ap (λ x. x.threads j) step ∙ b.others j other;
        },
      )
  finish_at s locked r at =
      absurd (
        can_be iterations (s.threads i) locked ((Reachable-Inv n iterations s limit r).sane i h) at)
  finish_at s (loaded sum) r at = absurd (
      can_be iterations (s.threads i) (loaded sum) ((Reachable-Inv n iterations s limit r).sane i h)
        at)
  finish_at s stored r at =
      absurd (
        can_be iterations (s.threads i) stored ((Reachable-Inv n iterations s limit r).sane i h) at)

module _ (n iterations : ℕ) (limit : n * iterations < 2 ^ 31 - 1) (s : System)
    (r : Reachable atomic_mode n iterations s) where
  finish_below :
      (m : ℕ) → m ≤ n → (s' : System) × Leads n s s' × ((i : ℕ) → i < m → IsOver (s'.threads i))
  finish_below zero h = (s, rests, λ i less. absurd (omega arith))
  finish_below (suc m) h =
      let (s1, leads, over) = finish_below m (omega arith) in
      let (s2, ends) =
        finish_at n iterations limit m (omega arith) s1 (s1.threads m).place
          (Leads-Reachable leads r) refl in
      (
        s2,
        Leads-trans leads ends.leads,
        λ i less. elim (ℕ_discrete i m) [
          | yes last ↦ rw last ends.over
          | no other ↦ rw (ends.others i other) (over i (omega arith))
        ],
      )

  -- With ATOMIC, where all rounds together are fewer than an int can count, from every state that
  -- the threads reach some schedule leads to one in which every thread has finished.
  pub can_finish : (s' : System) × Leads n s s' × ((i : ℕ) → i < n → IsOver (s'.threads i))
  can_finish = finish_below n (omega arith)
