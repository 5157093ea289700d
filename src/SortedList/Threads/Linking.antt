-- ===== src/SortedList/Threads/Linking.antt =====
-- The steps of a thread that link an element into the list and take one out.
use cs111winter.Base.{
  ℕ, ◌*◌, ◌<◌, ◌≡◌, refl, ap, ◌∙◌, true, List, [], ◌∷◌, ◌++◌, some, arith, length, length-append,
}
use mathlib.Core.Path.{subst}
use native.Mathlib.Decide.{ℕ_discrete}
use cs111winter.SortedList.{place_from, delete, gone}
use cs111winter.SortedList.Ring.{has, has-ne, ◌∉◌, Distinct}
use cs111winter.SortedList.Threadfunc.Alone.{hash-one, ∉-placed}
use cs111winter.SortedList.Threads.{Thread, System, rest, linked, deleted, unlink, put_thread}
use cs111winter.SortedList.Threads.Inv.{holds, Knows, Inv}
use cs111winter.SortedList.Threads.Moves.{moved_alone, put-here, put-other}
use cs111winter.SortedList.Threads.Changes.{Inv-first, link-ring, unlink-ring}

-- A thread that moves on has no more elements to insert than before.
rest-has : (e : ℕ) (es : List ℕ) → has e (rest es) ≡ true → has e es ≡ true
rest-has e [] i = i
rest-has e (x ∷ es) i = ground arith

module _ (fuel : ℕ) (list : ℕ → ℕ) (rounds n : ℕ) (xs : List ℕ) (s : System) (i : ℕ)
    (inv : Inv fuel (list 0) rounds n xs s) (less : i < n)
    (inside : holds (s.threads i).place ≡ true) where
  -- An element of another thread, or a later one of the same, is not the one that is linked in.
  others-new :
      (e : ℕ) (es ys zs : List ℕ)
      → (s.threads i).to_insert ≡ e ∷ es
      → ys ++ zs ≡ xs
      → (j a : ℕ) → j < n
      → has a (s.threads j).to_insert ≡ true
      → (j ≡ i → a ∉ (e ∷ []))
      → a ∉ (0 ∷ list 0 ∷ ys ++ e ∷ zs)
  others-new e es ys zs f parts j a l in_j later = elim (ℕ_discrete j i) [
    | yes at ↦ out (later at)
    | no other ↦
        let apart = inv.apart i j e (less, l) other (rw f (ground arith)) in
        let ne = has-ne a e (s.threads j).to_insert in_j apart in out (ground arith)
  ]
    where
      out : a ∉ (e ∷ []) → a ∉ (0 ∷ list 0 ∷ ys ++ e ∷ zs)
      out ne =
          let new : a ∉ (0 ∷ list 0 ∷ ys ++ zs) = rw parts (inv.new j a l in_j) in
          let placed = ∉-placed a e (list 0) ys zs (ground arith) (ground arith) in ground arith

  new-linked :
      (e : ℕ) (es ys zs : List ℕ)
      → (s.threads i).to_insert ≡ e ∷ es
      → ys ++ zs ≡ xs
      → e ∉ es
      → (t : Thread) → t.to_insert ≡ rest (s.threads i).to_insert
      → (j a : ℕ) → j < n
      → has a (put_thread i t s.threads j).to_insert ≡ true
      → a ∉ (0 ∷ list 0 ∷ ys ++ e ∷ zs)
  new-linked e es ys zs f parts once t after j a l i' = elim (ℕ_discrete j i) [
    | yes at ↦
        let t_has : has a t.to_insert ≡ true =
          subst (λ u. has a u.to_insert ≡ true) (put-here i j t s.threads at) i' in
        let in_es : has a es ≡ true = subst (λ u. has a u ≡ true) (after ∙ ap rest f) t_has in
        let ne = has-ne a e es in_es once in
        others-new e es ys zs f parts j a l (rw (at, f) (ground arith)) (λ _. ground arith)
    | no other ↦
        others-new e es ys zs f parts j a l
          (subst (λ u. has a u.to_insert ≡ true) (put-other i j t s.threads other) i')
          (λ e. absurd (other e))
  ]

  pub linked-Inv :
      (e m : ℕ) (es : List ℕ)
      → n * rounds < fuel
      → (s.threads i).to_insert ≡ e ∷ es
      → place_from fuel s.heap (list 0) (s.heap e).key (s.heap (list 0)).next ≡ some m
      → (xs' : List ℕ) × Inv fuel (list 0) rounds n xs' (linked fuel 1 list true i e m s)
  unfolding Knows Distinct
  linked-Inv e m es enough f found =
      let (ys, zs, parts, ring) =
        link-ring fuel (list 0) rounds n xs s inv i e m es less enough f found in
      let fine = inv.fine i less in
      let new : e ∉ (0 ∷ list 0 ∷ xs) = inv.new i e less (rw f (ground arith)) in
      let (once, distinct) = subst Distinct f fine.once in
      (
        ys ++ e ∷ zs,
        moved_alone fuel (list 0) rounds n xs (ys ++ e ∷ zs) s _ i _ inv less
            (record {
              threads' = refl;
              missed' = inv.missed;
              ring' = ring;
              proper' =
                  let zero : 0 ∉ (list 0 ∷ ys ++ zs) = rw parts inv.proper in
                  ∉-placed 0 e (list 0) ys zs zero (ground arith);
              balance =
                  let order = fine.order in
                  let todo = ap length f in
                  let after = ap (λ a. length (rest a)) f in
                  omega (arith, length-append ys (e ∷ zs), length-append ys zs, ap length parts);
              fewer = λ a i'. rest-has a (s.threads i).to_insert i';
              new' = new-linked e es ys zs f parts once _ refl;
            })
            (record {
              order =
                  let order = fine.order in
                  let todo = ap length f in
                  let after = ap (λ a. length (rest a)) f in (omega arith, order.1);
              once = rw f distinct;
              knows = hash-one (s.heap e).key;
            })
            (inv.alone i less inside).1 (λ i'. (inv.alone i less inside).0),
      )

  new-unlinked :
      (x : ℕ) (xs' : List ℕ)
      → xs ≡ x ∷ xs'
      → (t : Thread) → t.to_insert ≡ (s.threads i).to_insert
      → (j a : ℕ) → j < n
      → has a (put_thread i t s.threads j).to_insert ≡ true
      → a ∉ (0 ∷ list 0 ∷ xs')
  new-unlinked x xs' parts t same j a l i' =
      let old : has a (s.threads j).to_insert ≡ true = elim (ℕ_discrete j i) [
        | yes at ↦
            let t_has : has a t.to_insert ≡ true =
              subst (λ u. has a u.to_insert ≡ true) (put-here i j t s.threads at) i' in
            rw at (subst (λ u. has a u ≡ true) same t_has)
        | no other ↦ subst (λ u. has a u.to_insert ≡ true) (put-other i j t s.threads other) i'
      ] in
      let out : a ∉ (0 ∷ list 0 ∷ x ∷ xs') =
        subst (λ ys. a ∉ (0 ∷ list 0 ∷ ys)) parts (inv.new j a l old) in
      ground arith

  pub unlinked-Inv :
      (e target p m : ℕ) (es : List ℕ)
      → (s.threads i).to_insert ≡ []
      → (s.threads i).to_delete ≡ e ∷ es
      → target ≡ (s.heap (list 0)).next
      → delete target s.heap ≡ gone (unlink p m target s.heap)
      → (xs' : List ℕ) × Inv fuel
          (list 0)
          rounds
          n
          xs'
          (deleted fuel 1 list true i 0 (unlink p m target s.heap) s.missed s)
  unfolding Knows
  unlinked-Inv e target p m es f g first runs =
      let (x, xs', parts) = Inv-first fuel (list 0) rounds n xs s inv i e es less f g in
      let ring = unlink-ring fuel (list 0) rounds n xs s inv x target p m xs' parts first runs in
      let fine = inv.fine i less in
      (
        xs',
        moved_alone fuel (list 0) rounds n xs xs' s _ i _ inv less
            (record {
              threads' = refl;
              missed' = inv.missed;
              ring' = ring;
              proper' =
                  let zero : 0 ∉ (list 0 ∷ x ∷ xs') =
                    subst (λ ys. 0 ∉ (list 0 ∷ ys)) parts inv.proper in
                  ground arith;
              balance =
                  let all = ap length parts in
                  let todo = ap length f in
                  let undo = ap length g in let after = ap (λ a. length (rest a)) g in omega arith;
              fewer = λ a i'. i';
              new' = new-unlinked x xs' parts _ refl;
            })
            (record {
              order =
                  let order = fine.order in
                  let todo = ap length f in
                  let undo = ap length g in
                  let after = ap (λ a. length (rest a)) g in (omega arith, omega arith);
              once = fine.once;
              knows = refl;
            })
            (inv.alone i less inside).1 (λ i'. (inv.alone i less inside).0),
      )
