-- ===== src/SortedList/Threads/Lookups.antt =====
-- The steps of SortedList_lookup and of the tests of SortedList_delete.
use cs111winter.Base.{ℕ, ◌<◌, ◌≡◌, ap, sym, ◌∙◌, true, false, List, [], ◌∷◌, arith, ◌==◌, ◌&&◌}
use mathlib.Core.Path.{subst}
use cs111winter.SortedList.{Heap, lookup}
use cs111winter.SortedList.Ring.{◌∉◌, Distinct, Chain, IsRing}
use cs111winter.SortedList.Remove.{Chain-at}
use cs111winter.SortedList.Threadfunc.Alone.{hash-one}
use cs111winter.SortedList.Threads.{System, looked_up, checks}
use cs111winter.SortedList.Threads.Inv.{holds, Inv}
use cs111winter.SortedList.Threads.Steps.{chosen-Inv, checked-Inv}
use cs111winter.SortedList.Threads.Changes.{Inv-first}

-- In a ring that is not empty the lookup finds the first element, whatever the key.
lookup-first :
    (h : Heap) (head x : ℕ) (xs key : List ℕ)
    → IsRing h head (x ∷ xs)
    → lookup head key h ≡ (h head).next
unfolding lookup Chain Distinct
lookup-first h head x xs key r = let first = r.chain.0 in let out = r.distinct.0 in ground arith

module _ (fuel : ℕ) (list : ℕ → ℕ) (rounds n : ℕ) (xs : List ℕ) (s : System) (i : ℕ)
    (inv : Inv fuel (list 0) rounds n xs s) (less : i < n)
    (inside : holds (s.threads i).place ≡ true) where
  pub looked_up-Inv :
      (e : ℕ) (es : List ℕ)
      → (s.threads i).to_insert ≡ []
      → (s.threads i).to_delete ≡ e ∷ es
      → Inv fuel (list 0) rounds n xs (looked_up fuel 1 list true i e s)
  unfolding Chain
  looked_up-Inv e es f g =
      let (x, xs', parts) = Inv-first fuel (list 0) rounds n xs s inv i e es less f g in
      let r : IsRing s.heap (list 0) (x ∷ xs') = subst (IsRing s.heap (list 0)) parts inv.ring in
      let out : 0 ∉ (list 0 ∷ x ∷ xs') = subst (λ ys. 0 ∉ (list 0 ∷ ys)) parts inv.proper in
      let found : ((s.heap (list 0)).next == 0) ≡ false = let first = r.chain.0 in ground arith in
      rw (hash-one (s.heap e).key, lookup-first s.heap (list 0) x xs' (s.heap e).key r, found)
        (chosen-Inv fuel list rounds n xs s i inv less e es inside f g)

  pub checks-Inv :
      (e target : ℕ) (es : List ℕ)
      → (s.threads i).to_insert ≡ []
      → (s.threads i).to_delete ≡ e ∷ es
      → target ≡ (s.heap (list 0)).next
      → Inv fuel (list 0) rounds n xs (checks fuel 1 list true i 0 target s)
  unfolding Chain
  checks-Inv e target es f g first =
      let (x, xs', parts) = Inv-first fuel (list 0) rounds n xs s inv i e es less f g in
      let r : IsRing s.heap (list 0) (x ∷ xs') = subst (IsRing s.heap (list 0)) parts inv.ring in
      let is_x : target ≡ x = first ∙ r.chain.0 in
      let (after, back) = Chain-at s.heap (list 0) [] x xs' (list 0) r.chain in
      let before : (s.heap x).prev ≡ list 0 = r.chain.1.0 in
      let back' : (s.heap (s.heap target).next).prev ≡ target =
        subst (λ a. (s.heap (s.heap a).next).prev ≡ a) (sym is_x)
          (ap (λ a. (s.heap a).prev) after ∙ back) in
      let forth' : (s.heap (s.heap target).prev).next ≡ target =
        subst (λ a. (s.heap (s.heap a).prev).next ≡ a) (sym is_x)
          (ap (λ a. (s.heap a).next) before ∙ r.chain.0) in
      let passes : (((s.heap (s.heap target).next).prev == target)
            && ((s.heap (s.heap target).prev).next == target))
          ≡ true =
        ground arith in
      rw passes
        (checked-Inv fuel list rounds n xs s i inv less e target es inside f g first back' forth')
