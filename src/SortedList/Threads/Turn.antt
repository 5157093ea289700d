-- ===== src/SortedList/Threads/Turn.antt =====
-- What a step does to the locks, and how much a thread has still to go.
use cs111winter.Base.{
  ℕ, ◌≡◌, ◌≢◌, ◌⊎◌, inl, inr, refl, ap, sym, ◌∙◌, true, false, Bool, List, [], ◌∷◌, Option, none,
  some, arith, Bool-cases, ◌==◌, ◌&&◌,
}
use mathlib.Core.Path.{subst}
use native.Mathlib.Decide.{ℕ_discrete}
use cs111winter.SortedList.{lookup}
use cs111winter.SortedList.Threadfunc.{list_of}
use cs111winter.SortedList.Threadfunc.Alone.{hash-one}
use cs111winter.SortedList.Threads.{
  Place, between, inserting, placed, deleting, chosen, checked, leaving, collecting, scattering,
  Thread, System, put_thread, lock_list, next_round, walked, counted, looked_up, checks, step_at,
}
use cs111winter.SortedList.Threads.Inv.{holds, Knows}
use cs111winter.SortedList.Threads.Moves.{put-here, put-other}

-- Whether a thread holds len_lock.
abbrev pub keeps : Place → Bool
keeps between = false
keeps (inserting e) = false
keeps (placed e n) = false
keeps (deleting e) = false
keeps (chosen j target) = false
keeps (checked j target p n) = false
keeps (leaving j) = false
keeps (collecting j) = true
keeps (scattering j) = true

-- A thread without the lock has given it back, or it had none and has left the lock alone.
abbrev pub Returns : (had has' : Bool) (lock lock' : ℕ) → Type 0
Returns had has' lock lock' = (has' ≡ true) ⊎ ((lock' ≡ 0) ⊎ ((lock' ≡ lock) × (had ≡ false)))

pub record Turn (s s' : System) (i : ℕ) : Type 0 where
  pub others : (j : ℕ) → j ≢ i → s'.threads j ≡ s.threads j
  pub lock' :
      Returns (holds (s.threads i).place) (holds (s'.threads i).place) (s.lock 0) (s'.lock 0)
  pub len_lock' :
      Returns (keeps (s.threads i).place) (keeps (s'.threads i).place) s.len_lock s'.len_lock

Returns-same : (had : Bool) (lock : ℕ) → Returns had had lock lock
Returns-same true lock = inl refl
Returns-same false lock = inr (inr (refl, refl))

module _ (s : System) (i : ℕ) where
  same-Turn : Turn s s i
  same-Turn = record {
    others = λ j other. refl;
    lock' = Returns-same _ _;
    len_lock' = Returns-same _ _;
  }

  become-Turn :
      (s' : System) (t : Thread)
      → s'.threads ≡ put_thread i t s.threads
      → Returns (holds (s.threads i).place) (holds t.place) (s.lock 0) (s'.lock 0)
      → Returns (keeps (s.threads i).place) (keeps t.place) s.len_lock s'.len_lock
      → Turn s s' i
  become-Turn s' t e a b =
      let at_i : t ≡ s'.threads i = sym (ap (λ f. f i) e ∙ put-here i i t s.threads refl) in
      record {
        others = λ j other. ap (λ f. f j) e ∙ put-other i j t s.threads other;
        lock' =
            subst (λ u. Returns (holds (s.threads i).place) (holds u.place) (s.lock 0) (s'.lock 0))
              at_i a;
        len_lock' =
            subst (λ u. Returns (keeps (s.threads i).place) (keeps u.place) s.len_lock s'.len_lock)
              at_i b;
      }

module _ (fuel : ℕ) (list : ℕ → ℕ) (s : System) (i : ℕ) where
  lock_list-Turn :
      (p : Place)
      → holds p ≡ true
      → keeps p ≡ keeps (s.threads i).place
      → Turn s (lock_list fuel 1 list true i 0 p s) i
  lock_list-Turn p inside same = elim (Bool-cases (s.lock 0 == 0)) [
    | inl free ↦ rw free (
        become-Turn s i _ _ refl (inl inside) (
          subst (λ b. Returns (keeps (s.threads i).place) b s.len_lock s.len_lock) (sym same)
            (Returns-same _ _)))
    | inr taken ↦ rw taken (same-Turn s i)
  ]

  next_round-Turn :
      (todo undo : List ℕ) (m : Option ℕ)
      → (s.threads i).place ≡ between
      → Turn s (next_round fuel 1 list true i todo undo m s) i
  unfolding next_round
  next_round-Turn (e ∷ es) undo m at =
      rw (hash-one (s.heap e).key) (lock_list-Turn (inserting e) refl (rw at refl))
  next_round-Turn [] undo none at = elim (Bool-cases (s.len_lock == 0)) [
    | inl free ↦ rw free (become-Turn s i _ _ refl (inr (inr (refl, rw at refl))) (inl refl))
    | inr taken ↦ rw taken (same-Turn s i)
  ]
  next_round-Turn [] [] (some l) at = same-Turn s i
  next_round-Turn [] (e ∷ es) (some l) at =
      rw (hash-one (s.heap e).key) (lock_list-Turn (deleting e) refl (rw at refl))

  -- A step of a thread that has the lock of the list and keeps it.
  within-Turn :
      (s' : System) (t : Thread)
      → s'.threads ≡ put_thread i t s.threads
      → holds t.place ≡ true
      → keeps t.place ≡ keeps (s.threads i).place
      → s'.len_lock ≡ s.len_lock
      → Turn s s' i
  within-Turn s' t e inside same len =
      become-Turn s i s' t e (inl inside)
        (rw (same, len) (Returns-same (keeps (s.threads i).place) s.len_lock))

  walked-Turn :
      (e : ℕ) (o : Option ℕ)
      → (s.threads i).place ≡ inserting e
      → Turn s (walked fuel 1 list true i e o s) i
  unfolding walked
  walked-Turn e none at = same-Turn s i
  walked-Turn e (some m) at = within-Turn _ _ refl refl (rw at refl) refl

  counted-Turn :
      (o : Option ℕ)
      → (s.threads i).place ≡ collecting 1
      → Turn s (counted fuel 1 list true i o s) i
  unfolding counted
  counted-Turn none at = same-Turn s i
  counted-Turn (some l) at = within-Turn _ _ refl refl (rw at refl) refl

  looked_up-Turn :
      (e : ℕ) → (s.threads i).place ≡ deleting e → Turn s (looked_up fuel 1 list true i e s) i
  looked_up-Turn e at =
      elim (Bool-cases (lookup (list_of 1 list e s.heap) (s.heap e).key s.heap == 0)) [
        | inl none' ↦ rw none' (within-Turn _ _ refl refl (rw at refl) refl)
        | inr found ↦ rw found (within-Turn _ _ refl refl (rw at refl) refl)
      ]

  checks-Turn :
      (j target : ℕ)
      → (s.threads i).place ≡ chosen j target
      → Turn s (checks fuel 1 list true i j target s) i
  checks-Turn j target at =
      elim (Bool-cases (
        ((s.heap (s.heap target).next).prev == target)
        && ((s.heap (s.heap target).prev).next == target))) [
          | inl pass ↦ rw pass (within-Turn _ _ refl refl (rw at refl) refl)
          | inr fail ↦ rw fail (within-Turn _ _ refl refl (rw at refl) refl)
        ]

  pub step_at-Turn :
      (p : Place)
      → (s.threads i).place ≡ p
      → Knows fuel (list 0) s.heap p (s.threads i).to_insert (s.threads i).to_delete
      → Turn s (step_at fuel 1 list true i p s) i
  unfolding step_at Knows walked counted
  step_at-Turn between at k = next_round-Turn _ _ _ at
  step_at-Turn (inserting e) at k = walked-Turn e _ at
  step_at-Turn (placed e m) at k = within-Turn _ _ refl refl (rw at refl) refl
  step_at-Turn (deleting e) at k = looked_up-Turn e at
  step_at-Turn (chosen j target) at k = checks-Turn j target at
  step_at-Turn (checked j target p m) at k = within-Turn _ _ refl refl (rw at refl) refl
  step_at-Turn (leaving j) at k =
      become-Turn s i _ _ refl (rw k (inr (inl refl))) (inr (inr (refl, rw at refl)))
  step_at-Turn (collecting j) at k = elim (ℕ_discrete j 0) [
    | yes z ↦ rw z (lock_list-Turn (collecting 1) refl (rw at refl))
    | no other ↦ let one : j ≡ 1 = omega (arith, k) in rw one (counted-Turn _ (rw (at, one) refl))
  ]
  step_at-Turn (scattering j) at k = elim (ℕ_discrete j 0) [
    | yes z ↦ rw z (become-Turn s i _ _ refl (inr (inl refl)) (inl refl))
    | no other ↦
        let one : j ≡ 1 = omega (arith, k) in
        rw one (become-Turn s i _ _ refl (inr (inr (refl, rw (at, one) refl))) (inr (inl refl)))
  ]
