-- ===== src/SortedList/Threads/Changes.antt =====
-- The ring that linking an element in and taking one out leave.
use cs111winter.Base.{
  ℕ, ◌*◌, ◌≤◌, ◌<◌, ◌≡◌, refl, ap, sym, ◌∙◌, List, [], ◌∷◌, ◌++◌, none, some, arith, length,
}
use mathlib.Core.Path.{subst}
use cs111winter.SortedList.{place_from, link_before, insert, delete, gone}
use cs111winter.SortedList.Ring.{◌∉◌, Chain, IsRing}
use cs111winter.SortedList.Refine.{keys_of, insert_lem}
use cs111winter.SortedList.Remove.{delete_lem}
use cs111winter.SortedList.Threadfunc.{after_delete}
use cs111winter.SortedList.Threads.{System, unlink}
use cs111winter.Base.{sum_to-at, sum_to-bound}
use cs111winter.SortedList.Threads.Inv.{holds, shares, Inv}

some-injective : {A : Type 0} {x y : A} → some x ≡ some y → x ≡ y
some-injective {x = x} e = ap (λ o. elim o [ none ↦ x | some z ↦ z ]) e

module _ (fuel head rounds n : ℕ) (xs : List ℕ) (s : System)
    (inv : Inv fuel head rounds n xs s) where
  pub Inv-length : length xs ≤ n * rounds
  Inv-length =
      let bound =
        sum_to-bound n rounds (shares s.threads)
          (λ j l. let order = (inv.fine j l).order in omega arith) in
      let was = inv.sum in omega arith

  -- While a thread has still to delete, the list is not empty.
  pub Inv-first :
      (i e : ℕ) (es : List ℕ)
      → i < n
      → (s.threads i).to_insert ≡ []
      → (s.threads i).to_delete ≡ e ∷ es
      → (x : ℕ) × (xs' : List ℕ) × (xs ≡ x ∷ xs')
  Inv-first i e es less f g =
      let part = sum_to-at n i (shares s.threads) less in
      let was = inv.sum in let a = ap length f in let b = ap length g in nonempty xs (omega arith)
    where
      nonempty : (xs : List ℕ) → 0 < length xs → (x : ℕ) × (xs' : List ℕ) × (xs ≡ x ∷ xs')
      nonempty [] l = absurd (omega arith)
      nonempty (x ∷ xs') l = (x, xs', refl)

  -- Where the walk has stopped, the writes complete the insertion.
  placed-insert :
      (e m : ℕ)
      → place_from fuel s.heap head (s.heap e).key (s.heap head).next ≡ some m
      → insert fuel head e s.heap ≡ some (link_before m e s.heap)
  unfolding insert
  placed-insert e m found = rw found refl

  pub link-ring :
      (i e m : ℕ) (es : List ℕ)
      → i < n
      → n * rounds < fuel
      → (s.threads i).to_insert ≡ e ∷ es
      → place_from fuel s.heap head (s.heap e).key (s.heap head).next ≡ some m
      → (ys : List ℕ) × (zs : List ℕ) × (ys ++ zs ≡ xs)
        × IsRing (link_before m e s.heap) head (ys ++ e ∷ zs)
  link-ring i e m es less enough f found =
      let new : e ∉ (0 ∷ head ∷ xs) = inv.new i e less (rw f (ground arith)) in
      let bound = Inv-length in
      let (h', ys, zs, runs, parts, holds) =
        insert_lem fuel s.heap head xs (keys_of s.heap xs) e
          (record { ring = inv.ring; keys = refl }) (ground arith) (omega arith) in
      let same = some-injective (sym runs ∙ placed-insert e m found) in
      (ys, zs, parts, subst (λ h. IsRing h head (ys ++ e ∷ zs)) same holds.ring)

  pub unlink-ring :
      (x target p m : ℕ) (xs' : List ℕ)
      → xs ≡ x ∷ xs'
      → target ≡ (s.heap head).next
      → delete target s.heap ≡ gone (unlink p m target s.heap)
      → IsRing (unlink p m target s.heap) head xs'
  unfolding Chain
  unlink-ring x target p m xs' f first runs =
      let r : IsRing s.heap head (x ∷ xs') = subst (IsRing s.heap head) f inv.ring in
      let (h', runs', holds) = delete_lem s.heap head [] x xs' r in
      let is_x : target ≡ x = first ∙ r.chain.0 in
      let same : h' ≡ unlink p m target s.heap =
        ap (after_delete s.heap) (sym runs' ∙ ap (λ a. delete a s.heap) (sym is_x) ∙ runs) in
      subst (λ h. IsRing h head xs') same holds.ring
