-- ===== src/Adder/Atomic.antt =====
-- The threads with compare-and-swap: `ATOMIC`.
use cs111winter.Base.{
  ℕ, ◌+◌, ◌-◌, ◌*◌, ◌%◌, ◌^◌, ◌≤◌, ◌<◌, ◌≡◌, refl, ap, sym, ◌∙◌, false, arith, ◌==◌, Bool-cases,
  inl, inr,
}
use mathlib.Core.Path.{subst}
use native.Mathlib.Decide.{ℕ_discrete}
use cs111winter.Adder.{
  atomic_mode, Thread, Place, between, locked, stored, loaded, compared, System, next_round, put,
  delta32, extend, swap, enter, step_at, thread_step, is_finished, Reachable, starts, goes_on,
}
use cs111winter.Adder.Sums.{
  share_at, share, total, total-put, share-total, total-bound, share_at-bound,
}
use cs111winter.Adder.Mutual.{IsOver, share-over, created-total}

-- A thread behind its load has a round to go.
unfoldable pub CanBe : Place → Thread → Type 0
CanBe between t = Unit {0}
CanBe (compared orig) t = (0 < t.downs) × (orig < 2 ^ 32)
CanBe locked t = ⊥
CanBe (loaded sum) t = ⊥
CanBe stored t = ⊥

pub record IsSane (iterations : ℕ) (t : Thread) : Type 0 where
  pub order : (t.ups ≤ t.downs) × (t.downs ≤ iterations)
  pub place : CanBe t.place t

pub record Inv (n iterations : ℕ) (s : System) : Type 0 where
  pub sane : (i : ℕ) → i < n → IsSane iterations (s.threads i)
  pub sum : s.counter ≡ total n s.threads

pub can_be :
    (iterations : ℕ) (t : Thread) (p : Place) → IsSane iterations t → t.place ≡ p → CanBe p t
can_be iterations t p f e = subst (λ q. CanBe q t) e f.place

moved :
    (n iterations : ℕ) (s s' : System) (i : ℕ) (t : Thread)
    → Inv n iterations s
    → i < n
    → s'.threads ≡ put i t s.threads
    → IsSane iterations t
    → s'.counter + share (s.threads i) ≡ s.counter + share t
    → Inv n iterations s'
moved n iterations s s' i t inv h same new balance = record {
  sane = λ j less. rw same (elim (ℕ_discrete j i) [
    | yes this ↦ let here : put i t s.threads j ≡ t = ground arith in rw here new
    | no other ↦
        let there : put i t s.threads j ≡ s.threads j = ground arith in rw there (inv.sane j less)
  ]);
  sum =
      let moves = ap (total n) same in
      let put' = total-put n i t s.threads h in let was = inv.sum in omega arith;
}

-- A swap that succeeds has read the counter, and stores what the round makes of it.
swap_sum :
    (counter orig : ℕ) (t : Thread)
    → t.ups ≤ t.downs
    → 0 < t.downs
    → t.downs - t.ups ≤ counter
    → counter < 2 ^ 31 - 1
    → orig < 2 ^ 32
    → counter ≡ extend orig
    → extend ((orig + delta32 t) % 2 ^ 32) + (t.downs - t.ups)
      ≡ counter + ((next_round t).downs - (next_round t).ups)
swap_sum counter orig t order more within small word same = ground arith

module _ (n iterations : ℕ) (s : System) (i : ℕ) (inv : Inv n iterations s) (h : i < n) where
  enter-Inv :
      is_finished (s.threads i) ≡ false
      → (s.threads i).place ≡ between
      → Inv n iterations (enter atomic_mode i s)
  unfolding enter CanBe share_at
  enter-Inv more at =
      let order = (inv.sane i h).order in
      moved n iterations s _ i _ inv h refl
        (record { order = order; place = (ground arith, omega arith) }) (rw at refl)

  swap-Inv :
      (orig : ℕ)
      → s.counter < 2 ^ 31 - 1
      → (s.threads i).place ≡ compared orig
      → Inv n iterations (swap i orig s)
  unfolding CanBe share_at
  swap-Inv orig small at =
      let t = s.threads i in
      let order = (inv.sane i h).order in
      let (left, word) = can_be iterations t (compared orig) (inv.sane i h) at in
      let share_i : share t ≡ t.downs - t.ups = rw at refl in
      elim (Bool-cases (s.counter == extend orig)) [
        | inl e ↦
            let read : s.counter ≡ extend orig = ground arith in
            let was = inv.sum in
            let part = share-total n i s.threads h in
            rw e (
              moved n iterations s _ i (next_round t) inv h refl
                (record { order = ground arith; place = tt })
                (ap (λ x. extend ((orig + delta32 t) % 2 ^ 32) + x) share_i
                  ∙ swap_sum s.counter orig t order.0 left (omega arith) small word read))
        | inr e ↦ rw e (
            moved n iterations s _ i (record t { place = between }) inv h refl
              (record { order = order; place = tt }) (rw at refl))
      ]

  step_at-Inv :
      (p : Place)
      → s.counter < 2 ^ 31 - 1
      → (s.threads i).place ≡ p
      → Inv n iterations (step_at atomic_mode i p s)
  unfolding step_at CanBe
  step_at-Inv between small at = elim (Bool-cases (is_finished (s.threads i))) [
    | inl e ↦ rw e inv
    | inr e ↦ rw e (enter-Inv e at)
  ]
  step_at-Inv (compared orig) small at = swap-Inv orig small at
  step_at-Inv locked small at = absurd (can_be iterations (s.threads i) locked (inv.sane i h) at)
  step_at-Inv (loaded sum) small at =
      absurd (can_be iterations (s.threads i) (loaded sum) (inv.sane i h) at)
  step_at-Inv stored small at = absurd (can_be iterations (s.threads i) stored (inv.sane i h) at)

pub counter-bound :
    (n iterations : ℕ) (s : System) → Inv n iterations s → s.counter ≤ n * iterations
counter-bound n iterations s inv =
    let was = inv.sum in
    let bound =
      total-bound n iterations s.threads
        (λ i h. share_at-bound iterations _ (s.threads i) (inv.sane i h).order) in
    omega arith

pub Reachable-Inv :
    (n iterations : ℕ) (s : System)
    → n * iterations < 2 ^ 31 - 1
    → Reachable atomic_mode n iterations s
    → Inv n iterations s
unfolding thread_step CanBe
Reachable-Inv n iterations _ small starts = record {
  sane = λ i h. record { order = omega arith; place = tt };
  sum = sym (created-total n iterations);
}
Reachable-Inv n iterations _ small (goes_on {s} i h r) =
    let inv = Reachable-Inv n iterations s small r in
    let bound = counter-bound n iterations s inv in
    step_at-Inv n iterations s i inv h (s.threads i).place (omega arith) refl

-- Whatever the schedule, with ATOMIC the counter is 0 when every thread has finished, where all
-- rounds together are fewer than an int can count.
pub atomic_counter :
    (n iterations : ℕ) (s : System)
    → n * iterations < 2 ^ 31 - 1
    → Reachable atomic_mode n iterations s
    → ((i : ℕ) → i < n → IsOver (s.threads i))
    → s.counter ≡ 0
atomic_counter n iterations s small r over =
    let was = (Reachable-Inv n iterations s small r).sum in
    let none' = total-bound n 0 s.threads (λ i h. share-over (s.threads i) (over i h)) in
    omega arith
