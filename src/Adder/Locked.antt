-- ===== src/Adder/Locked.antt =====
-- The threads under a lock: `MUTEX` and `SPIN`.
use cs111winter.Base.{
  ℕ, ◌+◌, ◌-◌, ◌%◌, ◌^◌, ◌≤◌, ◌<◌, ◌≡◌, ◌≢◌, inl, inr, refl, ap, ◌∙◌, Bool, true, false, arith,
  Bool-cases,
}
use mathlib.Core.Path.{subst}
use native.Mathlib.Decide.{ℕ_discrete}
use cs111winter.Adder.{
  Mode, mutex_mode, spin_mode, Thread, Place, between, locked, stored, loaded, compared, System,
  next_round, put, delta, lock_of, is_finished,
}
use cs111winter.Adder.Sums.{share_at, share, total, total-put, share-total}

pub data IsLocking : Mode → Type 0 where
  by_mutex : IsLocking mutex_mode
  by_spin : IsLocking spin_mode

-- Whether a thread is between the lock and the unlock.
abbrev pub is_inside : Place → Bool
is_inside between = false
is_inside locked = true
is_inside (loaded sum) = true
is_inside stored = true
is_inside (compared orig) = false

-- A thread in a round has one to go, and one that is about to store has read the counter.
unfoldable pub Knows : (counter : ℕ) → Place → Thread → Type 0
Knows counter between t = Unit {0}
Knows counter locked t = 0 < t.downs
Knows counter (loaded sum) t = (0 < t.downs) × (sum ≡ (counter + delta t) % 2 ^ 64)
Knows counter stored t = 0 < t.downs
Knows counter (compared orig) t = ⊥

pub record IsFine (iterations counter : ℕ) (t : Thread) : Type 0 where
  pub order : (t.ups ≤ t.downs) × (t.downs ≤ iterations)
  pub knows : Knows counter t.place t

pub record Inv (mode : Mode) (n iterations : ℕ) (s : System) : Type 0 where
  pub fine : (i : ℕ) → i < n → IsFine iterations s.counter (s.threads i)
  pub alone :
      (i : ℕ)
      → i < n
      → is_inside (s.threads i).place ≡ true
      → (lock_of mode s ≡ 1) × ((j : ℕ) → j < n → j ≢ i → is_inside (s.threads j).place ≡ false)
  pub sum : s.counter ≡ total n s.threads

pub Knows-place :
    (iterations counter : ℕ) (t : Thread) (p : Place)
    → IsFine iterations counter t
    → t.place ≡ p
    → Knows counter p t
Knows-place iterations counter t p f e = subst (λ q. Knows counter q t) e f.knows

outside-Knows :
    (counter counter' : ℕ) (p : Place) (t : Thread)
    → is_inside p ≡ false
    → Knows counter p t
    → Knows counter' p t
unfolding Knows
outside-Knows counter counter' between t out k = tt
outside-Knows counter counter' locked t out k = k
outside-Knows counter counter' (loaded sum) t out k = absurd (ground arith)
outside-Knows counter counter' stored t out k = k
outside-Knows counter counter' (compared orig) t out k = k

module _ (mode : Mode) (n iterations : ℕ) where
  -- One thread moves, while no other is inside.
  moved :
      (s s' : System) (i : ℕ) (t : Thread)
      → Inv mode n iterations s
      → i < n
      → s'.threads ≡ put i t s.threads
      → ((j : ℕ) → j < n → j ≢ i → is_inside (s.threads j).place ≡ false)
      → IsFine iterations s'.counter t
      → (is_inside t.place ≡ true → lock_of mode s' ≡ 1)
      → s'.counter + share (s.threads i) ≡ s.counter + share t
      → Inv mode n iterations s'
  moved s s' i t inv h same others new keeps balance =
      let at_i : s'.threads i ≡ t = ap (λ f. f i) same ∙ ground arith in
      let at_j : (j : ℕ) → j ≢ i → s'.threads j ≡ s.threads j =
        λ j other. ap (λ f. f j) same ∙ ground arith in
      record {
        fine = λ j less. elim (ℕ_discrete j i) [
          | yes this ↦ rw (this, at_i) new
          | no other ↦
              let f = inv.fine j less in
              rw (at_j j other) (record {
                order = f.order;
                knows = outside-Knows s.counter s'.counter _ _ (others j less other) f.knows;
              })
        ];
        alone = λ j less inside. elim (ℕ_discrete j i) [
          | yes this ↦ (
            keeps (rw (← at_i) (rw (← this) inside)),
            λ k less' other. rw (at_j k (rw (← this) other)) (others k less' (rw (← this) other)),
          )
          | no other ↦
              let clash = others j less other in
              let inside' : is_inside (s.threads j).place ≡ true = rw (← at_j j other) inside in
              absurd (ground arith)
        ];
        sum =
            let moves = ap (total n) same in
            let put' = total-put n i t s.threads h in let was = inv.sum in omega arith;
      }

-- With the lock free, nobody is inside.
nobody :
    (mode : Mode) (n iterations : ℕ) (s : System)
    → Inv mode n iterations s
    → lock_of mode s ≡ 0
    → (j : ℕ) → j < n
    → is_inside (s.threads j).place ≡ false
nobody mode n iterations s inv free j h = elim (Bool-cases (is_inside (s.threads j).place)) [
  | inl e ↦ let taken = (inv.alone j h e).0 in absurd (omega arith)
  | inr e ↦ e
]

-- A round that is stored counts as over.
round_sum :
    (counter : ℕ) (t : Thread)
    → t.ups ≤ t.downs
    → 0 < t.downs
    → t.downs - t.ups ≤ counter
    → counter < 2 ^ 63
    → (counter + delta t) % 2 ^ 64 + (t.downs - t.ups) ≡ counter + share_at stored t
unfolding share_at
round_sum counter t order more within small = ground arith

-- Thread `i` of `s` becomes `t`, with this counter and this lock.
pub record Moves (mode : Mode) (s s' : System) (i : ℕ) (t : Thread) (counter lock : ℕ)
    : Type 0 where
  pub threads' : s'.threads ≡ put i t s.threads
  pub counter' : s'.counter ≡ counter
  pub lock' : lock_of mode s' ≡ lock

module _ (mode : Mode) (n iterations : ℕ) (s s' : System) (i : ℕ) (inv : Inv mode n iterations s)
    (h : i < n) where
  pub step_between :
      Moves mode s s' i (record (s.threads i) { place = locked }) s.counter 1
      → lock_of mode s ≡ 0
      → is_finished (s.threads i) ≡ false
      → (s.threads i).place ≡ between
      → Inv mode n iterations s'
  unfolding Knows share_at
  step_between m free more at =
      let f = inv.fine i h in
      let order = f.order in
      let left : 0 < (s.threads i).downs = ground arith in
      moved mode n iterations s s' i _ inv h m.threads'
        (λ j less other. nobody mode n iterations s inv free j less)
        (record { order = order; knows = left }) (λ e. m.lock') (rw (m.counter', at) refl)

  pub step_locked :
      Moves mode s s' i
        (record (s.threads i) { place = loaded ((s.counter + delta (s.threads i)) % 2 ^ 64) })
        s.counter
        (lock_of mode s)
      → (s.threads i).place ≡ locked
      → Inv mode n iterations s'
  unfolding Knows share_at
  step_locked m at =
      let f = inv.fine i h in
      let (taken, others) = inv.alone i h (rw at refl) in
      let left : 0 < (s.threads i).downs =
        Knows-place iterations s.counter (s.threads i) locked f at in
      moved mode n iterations s s' i _ inv h m.threads' others
        (record { order = f.order; knows = (left, rw m.counter' refl) }) (λ e. m.lock' ∙ taken)
        (rw (m.counter', at) refl)

  pub step_loaded :
      (sum : ℕ)
      → Moves mode s s' i (record (s.threads i) { place = stored }) sum (lock_of mode s)
      → s.counter < 2 ^ 63
      → (s.threads i).place ≡ loaded sum
      → Inv mode n iterations s'
  unfolding Knows share_at
  step_loaded sum m small at =
      let t = s.threads i in
      let f = inv.fine i h in
      let order = f.order in
      let (taken, others) = inv.alone i h (rw at refl) in
      let (left, reads) = Knows-place iterations s.counter t (loaded sum) f at in
      let was = inv.sum in
      let part = share-total n i s.threads h in
      let share_i : share t ≡ t.downs - t.ups = rw at refl in
      moved mode n iterations s s' i _ inv h m.threads' others
        (record { order = order; knows = left }) (λ e. m.lock' ∙ taken)
        (ap (λ c. c + share t) (m.counter' ∙ reads)
          ∙ ap (λ x. (s.counter + delta t) % 2 ^ 64 + x) share_i
          ∙ round_sum s.counter t order.0 left (omega arith) small)

  pub step_stored :
      Moves mode s s' i (next_round (s.threads i)) s.counter 0
      → (s.threads i).place ≡ stored
      → Inv mode n iterations s'
  unfolding Knows share_at
  step_stored m at =
      let f = inv.fine i h in
      let order = f.order in
      let (taken, others) = inv.alone i h (rw at refl) in
      let left = Knows-place iterations s.counter (s.threads i) stored f at in
      moved mode n iterations s s' i _ inv h m.threads' others
        (record { order = ground arith; knows = tt }) (λ e. absurd (ground arith))
        (rw (m.counter', at) refl)
