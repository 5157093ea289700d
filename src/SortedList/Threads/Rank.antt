-- ===== src/SortedList/Threads/Rank.antt =====
-- Each step of a thread that need not wait brings it nearer to its end.
use cs111winter.Base.{
  ℕ, ◌+◌, ◌-◌, ◌*◌, ◌≤◌, ◌<◌, ◌≡◌, inl, inr, refl, ap, sym, ◌∙◌, true, false, Bool, List, [], ◌∷◌,
  Option, none, some, arith, length, Bool-cases, ◌==◌, ◌&&◌,
}
use mathlib.Core.Path.{subst}
use native.Mathlib.Decide.{ℕ_discrete}
use cs111winter.SortedList.{lookup, place_from, length as list_length}
use cs111winter.SortedList.Threadfunc.{list_of}
use cs111winter.SortedList.Threadfunc.Alone.{hash-one}
use cs111winter.SortedList.Threads.{
  Place, between, inserting, placed, deleting, chosen, checked, leaving, collecting, scattering,
  Thread, System, put_thread, rest, next_round, walked, counted, looked_up, checks, step_at,
}
use cs111winter.SortedList.Threads.Inv.{Knows}
use cs111winter.SortedList.Threads.Moves.{put-here}

abbrev pub unmeasured : Option ℕ → ℕ
unmeasured none = 10
unmeasured (some l) = 0

abbrev pub stage : Option ℕ → Place → ℕ
stage m between = unmeasured m + 9
stage m (inserting e) = unmeasured m + 8
stage m (placed e n) = unmeasured m + 7
stage m (deleting e) = unmeasured m + 8
stage m (chosen j target) = unmeasured m + 7
stage m (checked j target p n) = unmeasured m + 6
stage m (leaving j) = unmeasured m + 10
stage m (collecting j) = 18 - j
stage m (scattering j) = unmeasured m + (11 - j)

-- More steps than the thread has before it.
abbrev pub rank : Thread → ℕ
rank t = 10 * length t.to_insert + 10 * length t.to_delete + stage t.measured t.place

-- A thread that is through with both loops and the length.
abbrev pub is_through : (todo undo : List ℕ) → Option ℕ → Bool
is_through (e ∷ es) undo m = false
is_through [] undo none = false
is_through [] [] (some l) = true
is_through [] (e ∷ es) (some l) = false

-- The thread waits for no lock, and a walk that it is at comes to its end.
unfoldable pub Ready : (fuel head : ℕ) → System → Thread → Place → Type 0
Ready fuel head s t between =
    (s.lock 0 ≡ 0) × (s.len_lock ≡ 0) × (is_through t.to_insert t.to_delete t.measured ≡ false)
Ready fuel head s t (inserting e) =
    (n : ℕ) × (place_from fuel s.heap head (s.heap e).key (s.heap head).next ≡ some n)
Ready fuel head s t (placed e n) = Unit {0}
Ready fuel head s t (deleting e) = Unit {0}
Ready fuel head s t (chosen j target) = Unit {0}
Ready fuel head s t (checked j target p n) = Unit {0}
Ready fuel head s t (leaving j) = Unit {0}
Ready fuel head s t (collecting j) =
    (j ≡ 0 → s.lock 0 ≡ 0) × ((n : ℕ) × (list_length fuel (head ∷ []) s.heap ≡ some n))
Ready fuel head s t (scattering j) = Unit {0}

module _ (fuel : ℕ) (list : ℕ → ℕ) (s : System) (i : ℕ) where
  -- The thread has come nearer to its end.
  abbrev pub Falls : System → Type 0
  Falls s' = rank (s'.threads i) < rank (s.threads i)

  become-Falls :
      (t : Thread)
      → rank t < rank (s.threads i)
      → rank (put_thread i t s.threads i) < rank (s.threads i)
  become-Falls t less =
      subst (λ u. rank u < rank (s.threads i)) (sym (put-here i i t s.threads refl)) less

  place-Falls :
      (p : Place)
      → stage (s.threads i).measured p < stage (s.threads i).measured (s.threads i).place
      → rank (put_thread i (record (s.threads i) { place = p }) s.threads i) < rank (s.threads i)
  place-Falls p less = become-Falls _ (omega (arith, less))

  -- A round of the last loop ends.
  deleted-Falls :
      (e : ℕ) (es : List ℕ) (j : ℕ)
      → (s.threads i).to_delete ≡ e ∷ es
      → unmeasured (s.threads i).measured + 6 ≤ stage (s.threads i).measured (s.threads i).place
      → rank (
          put_thread i
            (record (s.threads i) { to_delete = rest (s.threads i).to_delete; place = leaving j })
            s.threads
            i)
        < rank (s.threads i)
  deleted-Falls e es j g late =
      let undo = ap length g in
      let after = ap (λ a. length (rest a)) g in become-Falls _ (omega (arith, late))

  next_round-Falls :
      (todo undo : List ℕ) (m : Option ℕ)
      → (s.threads i).place ≡ between
      → (s.threads i).measured ≡ m
      → s.lock 0 ≡ 0
      → s.len_lock ≡ 0
      → is_through todo undo m ≡ false
      → Falls (next_round fuel 1 list true i todo undo m s)
  unfolding next_round
  next_round-Falls (e ∷ es) undo m at is_m free len more =
      rw (hash-one (s.heap e).key, free) (place-Falls (inserting e) (rw at (omega arith)))
  next_round-Falls [] undo none at is_m free len more =
      rw len (place-Falls (collecting 0) (rw (at, is_m) (omega arith)))
  next_round-Falls [] [] (some l) at is_m free len more = absurd (ground arith)
  next_round-Falls [] (e ∷ es) (some l) at is_m free len more =
      rw (hash-one (s.heap e).key, free) (place-Falls (deleting e) (rw at (omega arith)))

  looked_up-Falls :
      (e e' : ℕ) (es : List ℕ)
      → (s.threads i).place ≡ deleting e
      → (s.threads i).to_delete ≡ e' ∷ es
      → Falls (looked_up fuel 1 list true i e s)
  looked_up-Falls e e' es at g =
      elim (Bool-cases (lookup (list_of 1 list e s.heap) (s.heap e).key s.heap == 0)) [
        | inl none' ↦ rw none' (deleted-Falls e' es _ g (rw at (omega arith)))
        | inr found ↦ rw found (place-Falls _ (rw at (omega arith)))
      ]

  checks-Falls :
      (j target e : ℕ) (es : List ℕ)
      → (s.threads i).place ≡ chosen j target
      → (s.threads i).to_delete ≡ e ∷ es
      → Falls (checks fuel 1 list true i j target s)
  checks-Falls j target e es at g =
      elim (Bool-cases (
        ((s.heap (s.heap target).next).prev == target)
        && ((s.heap (s.heap target).prev).next == target))) [
          | inl pass ↦ rw pass (place-Falls _ (rw at (omega arith)))
          | inr fail ↦ rw fail (deleted-Falls e es j g (rw at (omega arith)))
        ]

  pub step_at-Falls :
      (p : Place)
      → (s.threads i).place ≡ p
      → Knows fuel (list 0) s.heap p (s.threads i).to_insert (s.threads i).to_delete
      → Ready fuel (list 0) s (s.threads i) p
      → Falls (step_at fuel 1 list true i p s)
  unfolding step_at Knows Ready walked counted
  step_at-Falls between at k (free, len, more) = next_round-Falls _ _ _ at refl free len more
  step_at-Falls (inserting e) at k (n, found) =
      rw (hash-one (s.heap e).key, found) (place-Falls (placed e n) (rw at (omega arith)))
  step_at-Falls (placed e m) at (es, f, found) r =
      let todo = ap length f in
      let after = ap (λ a. length (rest a)) f in
      let st = ap (stage (s.threads i).measured) at in become-Falls _ (omega arith)
  step_at-Falls (deleting e) at (es, f, g) r = looked_up-Falls e e es at g
  step_at-Falls (chosen j target) at (z, (e, es, f, g, first)) r = checks-Falls j target e es at g
  step_at-Falls (checked j target p m) at (z, (e, es, f, g, first, runs)) r =
      deleted-Falls e es j g (rw at (omega arith))
  step_at-Falls (leaving j) at k r = place-Falls between (rw at (omega arith))
  step_at-Falls (collecting j) at k (free, (n, count)) = elim (ℕ_discrete j 0) [
    | yes z ↦ rw (z, free z) (place-Falls (collecting 1) (rw (at, z) (omega arith)))
    | no other ↦
        let one : j ≡ 1 = omega (arith, k) in
        let st = ap (stage (s.threads i).measured) (at ∙ ap collecting one) in
        rw (one, count) (become-Falls _ (omega arith))
  ]
  step_at-Falls (scattering j) at k r = elim (ℕ_discrete j 0) [
    | yes z ↦ rw z (place-Falls (scattering 1) (rw (at, z) (omega arith)))
    | no other ↦
        let one : j ≡ 1 = omega (arith, k) in
        rw one (place-Falls between (rw (at, one) (omega arith)))
  ]
