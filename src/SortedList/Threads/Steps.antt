-- ===== src/SortedList/Threads/Steps.antt =====
-- The steps of a thread that leave the list as it is.
use cs111winter.Base.{
  ℕ, ◌<◌, ◌≡◌, inl, inr, refl, true, false, List, [], ◌∷◌, Option, none, some, arith, Bool-cases,
  ◌==◌,
}
use cs111winter.SortedList.{place_from}
use cs111winter.SortedList.Laws.{delete-gone}
use cs111winter.SortedList.Threadfunc.Alone.{hash-one}
use cs111winter.SortedList.Threads.{
  Place, between, inserting, placed, deleting, chosen, checked, collecting, System, lock_list,
  unlock_list, lock_length, next_round, walked, counted, go_to,
}
use cs111winter.SortedList.Threads.Inv.{holds, Knows, Inv}
use cs111winter.SortedList.Threads.Moves.{
  Stays, stays_outside, stays_taking, stays_inside, stays_leaving,
}

module _ (fuel : ℕ) (list : ℕ → ℕ) (rounds n : ℕ) (xs : List ℕ) (s : System) (i : ℕ)
    (inv : Inv fuel (list 0) rounds n xs s) (less : i < n) where
  -- A step that changes a thread's place, and perhaps a lock.
  going :
      (s' : System) (p : Place)
      → s'.threads ≡ (go_to i p s).threads
      → s'.heap ≡ s.heap
      → s'.missed ≡ s.missed
      → Knows fuel (list 0) s.heap p (s.threads i).to_insert (s.threads i).to_delete
      → Stays fuel (list 0) s s' i (record (s.threads i) { place = p })
  going s' p e f g k = record {
    threads' = e;
    heap' = f;
    missed' = g;
    to_insert' = refl;
    to_delete' = refl;
    knows' = k;
  }

  lock_list-Inv :
      (p : Place)
      → Knows fuel (list 0) s.heap p (s.threads i).to_insert (s.threads i).to_delete
      → Inv fuel (list 0) rounds n xs (lock_list fuel 1 list true i 0 p s)
  lock_list-Inv p k = elim (Bool-cases (s.lock 0 == 0)) [
    | inl free ↦ rw free (
        stays_taking fuel (list 0) rounds n xs s _ i _ inv less (going _ p refl refl refl k)
          (ground arith) (ground arith))
    | inr taken ↦ rw taken inv
  ]

  lock_length-Inv :
      (s.threads i).place ≡ between
      → Inv fuel (list 0) rounds n xs (lock_length fuel 1 list true i s)
  unfolding Knows
  lock_length-Inv at = elim (Bool-cases (s.len_lock == 0)) [
    | inl free ↦ rw free (
        stays_outside fuel (list 0) rounds n xs s _ i _ inv less
          (going _ (collecting 0) refl refl refl (omega arith)) refl refl)
    | inr taken ↦ rw taken inv
  ]

  pub next_round-Inv :
      (todo undo : List ℕ) (m : Option ℕ)
      → (s.threads i).place ≡ between
      → (s.threads i).to_insert ≡ todo
      → (s.threads i).to_delete ≡ undo
      → Inv fuel (list 0) rounds n xs (next_round fuel 1 list true i todo undo m s)
  unfolding next_round Knows
  next_round-Inv (e ∷ es) undo m at f g =
      rw (hash-one (s.heap e).key) (lock_list-Inv (inserting e) (es, f))
  next_round-Inv [] undo none at f g = lock_length-Inv at
  next_round-Inv [] [] (some l) at f g = inv
  next_round-Inv [] (e ∷ es) (some l) at f g =
      rw (hash-one (s.heap e).key) (lock_list-Inv (deleting e) (es, f, g))

  pub walked-Inv :
      (e : ℕ) (o : Option ℕ)
      → (s.threads i).place ≡ inserting e
      → ((es : List ℕ) × ((s.threads i).to_insert ≡ e ∷ es))
      → place_from fuel s.heap (list 0) (s.heap e).key (s.heap (list 0)).next ≡ o
      → Inv fuel (list 0) rounds n xs (walked fuel 1 list true i e o s)
  unfolding walked Knows
  walked-Inv e none at k found = inv
  walked-Inv e (some m) at (es, k) found =
      stays_inside fuel (list 0) rounds n xs s _ i _ inv less
        (going _ (placed e m) refl refl refl (es, k, found)) (rw at refl) refl

  pub counted-Inv :
      (o : Option ℕ)
      → (s.threads i).place ≡ collecting 1
      → Inv fuel (list 0) rounds n xs (counted fuel 1 list true i o s)
  unfolding counted Knows
  counted-Inv none at = inv
  counted-Inv (some l) at =
      stays_inside fuel (list 0) rounds n xs s _ i _ inv less
        (record {
          threads' = refl;
          heap' = refl;
          missed' = refl;
          to_insert' = refl;
          to_delete' = refl;
          knows' = omega arith;
        })
        (rw at refl) refl

  pub collecting-Inv :
      Inv fuel (list 0) rounds n xs (lock_list fuel 1 list true i 0 (collecting 1) s)
  unfolding Knows
  collecting-Inv = lock_list-Inv (collecting 1) (omega arith)

  pub leaving-Inv :
      (p : Place)
      → holds (s.threads i).place ≡ true
      → holds p ≡ false
      → Knows fuel (list 0) s.heap p (s.threads i).to_insert (s.threads i).to_delete
      → Inv fuel (list 0) rounds n xs (unlock_list fuel 1 list true i 0 p s)
  leaving-Inv p inside left k =
      stays_leaving fuel (list 0) rounds n xs s _ i _ inv less (going _ p refl refl refl k) inside
        left

  pub scattered-Inv : Inv fuel (list 0) rounds n xs (go_to i between (record s { len_lock = 0 }))
  unfolding Knows
  scattered-Inv =
      stays_outside fuel (list 0) rounds n xs s _ i _ inv less (going _ between refl refl refl tt)
        refl refl

  -- SortedList_lookup has found the first element of the list.
  pub chosen-Inv :
      (e : ℕ) (es : List ℕ)
      → holds (s.threads i).place ≡ true
      → (s.threads i).to_insert ≡ []
      → (s.threads i).to_delete ≡ e ∷ es
      → Inv fuel (list 0) rounds n xs (go_to i (chosen 0 (s.heap (list 0)).next) s)
  unfolding Knows
  chosen-Inv e es inside f g =
      stays_inside fuel (list 0) rounds n xs s _ i _ inv less
        (going _ (chosen 0 (s.heap (list 0)).next) refl refl refl (refl, (e, es, f, g, refl)))
        inside refl

  pub checked-Inv :
      (e target : ℕ) (es : List ℕ)
      → holds (s.threads i).place ≡ true
      → (s.threads i).to_insert ≡ []
      → (s.threads i).to_delete ≡ e ∷ es
      → target ≡ (s.heap (list 0)).next
      → (s.heap (s.heap target).next).prev ≡ target
      → (s.heap (s.heap target).prev).next ≡ target
      → Inv fuel
          (list 0)
          rounds
          n
          xs
          (go_to i (checked 0 target (s.heap target).prev (s.heap target).next) s)
  unfolding Knows
  checked-Inv e target es inside f g first back forth =
      stays_inside fuel (list 0) rounds n xs s _ i _ inv less
        (going _ (checked 0 target (s.heap target).prev (s.heap target).next) refl refl refl
          (refl, (e, es, f, g, first, delete-gone target s.heap back forth)))
        inside refl
