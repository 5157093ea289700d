-- ===== src/SortedList/Threads/Reach.antt =====
-- What holds of the threads whatever their schedule.
use cs111winter.Base.{ℕ, ◌*◌, ◌<◌, ◌≡◌, refl, ap, ◌∙◌, true, List, [], ◌∷◌, arith, some, length}
use native.Mathlib.Decide.{ℕ_discrete}
use cs111winter.SortedList.{Heap, length as list_length}
use cs111winter.SortedList.Ring.{Distinct, Chain, IsRing}
use cs111winter.SortedList.Refine.{Chain-Follows}
use cs111winter.SortedList.Length.{list_length_lem}
use cs111winter.SortedList.Threadfunc.Alone.{hash-one}
use cs111winter.SortedList.Threads.{
  Place, between, inserting, placed, deleting, chosen, checked, leaving, collecting, scattering,
  System, step_at, thread_step, Reachable, starts, goes_on,
}
use cs111winter.SortedList.Threads.Start.{
  begun, IsAllocated, begun-IsRing, length-elements_from, elements_from-Distinct, elements_from-new,
  elements_from-apart,
}
use cs111winter.Base.{sum_to, sum_to-bound}
use cs111winter.SortedList.Threads.Inv.{Knows, shares, Inv}
use cs111winter.SortedList.Threads.Steps.{
  next_round-Inv, walked-Inv, counted-Inv, collecting-Inv, leaving-Inv, scattered-Inv,
}
use cs111winter.SortedList.Threads.Lookups.{looked_up-Inv, checks-Inv}
use cs111winter.SortedList.Threads.Linking.{linked-Inv, unlinked-Inv}

pub begun-Inv :
    (fuel n iterations : ℕ) (list element : ℕ → ℕ) (keys : ℕ → List ℕ) (h : Heap)
    → IsAllocated list element
    → Inv fuel (list 0) iterations n [] (begun 1 n iterations list element keys h)
unfolding Knows begun
begun-Inv fuel n iterations list element keys h al =
    let s = begun 1 n iterations list element keys h in
    record {
      ring = begun-IsRing list element al (n * iterations) keys h;
      proper = let proper = al.list_proper in ground arith;
      missed = refl;
      sum = let bound = sum_to-bound n 0 (shares s.threads) (λ j l. omega arith) in omega arith;
      fine = λ i l.
          let long = length-elements_from list element al iterations (i * iterations) in
          record {
            order = (omega arith, omega (arith, long));
            once = elements_from-Distinct list element al iterations (i * iterations);
            knows = tt;
          };
      new = λ i e l in_i. elements_from-new list element al iterations (i * iterations) e in_i;
      apart = λ i j e l other in_i. elements_from-apart list element al iterations i j e other in_i;
      alone = λ i l inside. absurd (ground arith);
    }

pub step_at-Inv :
    (fuel : ℕ) (list : ℕ → ℕ) (rounds n : ℕ) (xs : List ℕ) (s : System) (i : ℕ) (p : Place)
    → Inv fuel (list 0) rounds n xs s
    → i < n
    → n * rounds < fuel
    → (s.threads i).place ≡ p
    → Knows fuel (list 0) s.heap p (s.threads i).to_insert (s.threads i).to_delete
    → (xs' : List ℕ) × Inv fuel (list 0) rounds n xs' (step_at fuel 1 list true i p s)
unfolding step_at Knows
step_at-Inv fuel list rounds n xs s i between inv less enough at k =
    (xs, next_round-Inv fuel list rounds n xs s i inv less _ _ _ at refl refl)
step_at-Inv fuel list rounds n xs s i (inserting e) inv less enough at k =
    (xs, rw (hash-one (s.heap e).key) (walked-Inv fuel list rounds n xs s i inv less e _ at k refl))
step_at-Inv fuel list rounds n xs s i (placed e m) inv less enough at (es, f, found) =
    linked-Inv fuel list rounds n xs s i inv less (rw at refl) e m es enough f found
step_at-Inv fuel list rounds n xs s i (deleting e) inv less enough at (es, f, g) =
    (xs, looked_up-Inv fuel list rounds n xs s i inv less (rw at refl) e es f g)
step_at-Inv fuel list rounds n xs s i (chosen j target) inv less enough at
      (z, (e, es, f, g, first)) =
    (xs, rw z (checks-Inv fuel list rounds n xs s i inv less (rw at refl) e target es f g first))
step_at-Inv fuel list rounds n xs s i (checked j target p m) inv less enough at
      (z, (e, es, f, g, first, runs)) =
    rw z
      (unlinked-Inv fuel list rounds n xs s i inv less (rw at refl) e target p m es f g first runs)
step_at-Inv fuel list rounds n xs s i (leaving j) inv less enough at k =
    (xs, rw k (leaving-Inv fuel list rounds n xs s i inv less between (rw at refl) refl tt))
step_at-Inv fuel list rounds n xs s i (collecting j) inv less enough at k = elim (ℕ_discrete j 0) [
  | yes z ↦ (xs, rw z (collecting-Inv fuel list rounds n xs s i inv less))
  | no other ↦
      let one : j ≡ 1 = omega (arith, k) in
      (xs, rw one (counted-Inv fuel list rounds n xs s i inv less _ (rw (at, one) refl)))
]
step_at-Inv fuel list rounds n xs s i (scattering j) inv less enough at k = elim (ℕ_discrete j 0) [
  | yes z ↦ (
    xs,
    rw z (
        leaving-Inv fuel list rounds n xs s i inv less (scattering 1) (rw (at, z) refl) refl
          (omega arith)),
  )
  | no other ↦
      let one : j ≡ 1 = omega (arith, k) in
      (xs, rw one (scattered-Inv fuel list rounds n xs s i inv less))
]

module _ (fuel n iterations : ℕ) (list element : ℕ → ℕ) (keys : ℕ → List ℕ) (h : Heap)
    (al : IsAllocated list element) (enough : n * iterations < fuel) where
  pub Reachable-Inv :
      (s : System)
      → Reachable fuel 1 list true n (begun 1 n iterations list element keys h) s
      → (xs : List ℕ) × Inv fuel (list 0) iterations n xs s
  unfolding thread_step
  Reachable-Inv _ starts = ([], begun-Inv fuel n iterations list element keys h al)
  Reachable-Inv _ (goes_on {s} i less r) =
      let (xs, inv) = Reachable-Inv s r in
      step_at-Inv fuel list iterations n xs s i (s.threads i).place inv less enough refl
        (inv.fine i less).knows

  -- Whatever the schedule, with MUTEX or SPIN, one list, different places for its head and the
  -- elements, and fuel for more steps than all threads together have elements, the list is a ring
  -- in every state that the threads reach; it has as many elements as all threads together have
  -- still to delete more than they have to insert; and no lookup has come back with the null
  -- pointer.
  pub threads-IsRing :
      (s : System)
      → Reachable fuel 1 list true n (begun 1 n iterations list element keys h) s
      → (xs : List ℕ) × IsRing s.heap (list 0) xs
        × (length xs ≡ sum_to n (shares s.threads))
        × (s.missed ≡ 0)
  threads-IsRing s r = let (xs, inv) = Reachable-Inv s r in (xs, inv.ring, inv.sum, inv.missed)

  -- Whatever the schedule, with MUTEX or SPIN, one list, and different places for its head and the
  -- elements, SortedList_length ends when every thread has deleted as often as it is to, and is 0,
  -- as main checks: with fuel for more steps than all threads together have elements.
  pub threads-length :
      (s : System)
      → Reachable fuel 1 list true n (begun 1 n iterations list element keys h) s
      → ((i : ℕ) → i < n → (s.threads i).to_delete ≡ [])
      → list_length fuel (list 0 ∷ []) s.heap ≡ some 0
  unfolding Distinct Chain
  threads-length s r over =
      let (xs, inv) = Reachable-Inv s r in
      let bound =
        sum_to-bound n 0 (shares s.threads)
          (λ i l. let all = ap length (over i l) in omega arith) in
      let was = inv.sum in
      let none_left : length xs ≡ 0 = omega arith in
      let ring = inv.ring in
      list_length_lem fuel s.heap (list 0) xs
        (Chain-Follows s.heap (list 0) xs (list 0) ring.chain ring.distinct.0) (omega arith)
      ∙ ap some none_left
