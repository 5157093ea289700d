-- ===== src/SortedList/Remove.antt =====
-- Taking an element out of a ring.
use cs111winter.Base.{ℕ, ◌≡◌, ◌≢◌, inl, inr, refl, ◌∙◌, List, [], ◌∷◌, ◌++◌, arith}
use cs111winter.SortedList.{Heap, set_prev, set_next, gone, delete}
use cs111winter.SortedList.Laws.{first_or, delete-gone}
use cs111winter.SortedList.Ring.{
  ◌∉◌, has-ne, has-append, ∉-append, Distinct, Chain, IsRing, last_or, Chain-frame, Chain-prev,
  Chain-next, last_or-ne, first_or-ne, TakenOut,
}
use cs111winter.SortedList.Refine.{keys_of, Holds}

-- The links of an element in a chain.
pub Chain-at :
    (h : Heap) (a : ℕ) (ys : List ℕ) (e : ℕ) (zs : List ℕ) (b : ℕ)
    → Chain h a (ys ++ e ∷ zs) b
    → ((h e).next ≡ first_or zs b) × ((h (first_or zs b)).prev ≡ e)
unfolding Chain first_or
Chain-at h a [] e [] b (p, (q, rest)) = rest
Chain-at h a [] e (z ∷ zs) b (p, (q, (r, (s, rest)))) = (r, s)
Chain-at h a (y ∷ ys) e zs b (p, (q, rest)) = Chain-at h y ys e zs b rest

∉-drop : (x : ℕ) (ys : List ℕ) (e : ℕ) (zs : List ℕ) → x ∉ (ys ++ e ∷ zs) → x ∉ (ys ++ zs)
∉-drop x ys e zs out =
    let (out_ys, out_rest) = ∉-append x ys (e ∷ zs) out in ground (arith, has-append x ys zs)

Distinct-drop : (ys : List ℕ) (e : ℕ) (zs : List ℕ) → Distinct (ys ++ e ∷ zs) → Distinct (ys ++ zs)
unfolding Distinct
Distinct-drop [] e zs d = d.1
Distinct-drop (y ∷ ys) e zs (once, d) = (∉-drop y ys e zs once, Distinct-drop ys e zs d)

-- The element does not stand beside its place.
element-out : (ys : List ℕ) (e : ℕ) (zs : List ℕ) → Distinct (ys ++ e ∷ zs) → (e ∉ ys) × (e ∉ zs)
unfolding Distinct
element-out [] e zs (out, d) = (refl, out)
element-out (y ∷ ys) e zs (once, d) =
    let (a, b) = element-out ys e zs d in
    let (y_ys, y_rest) = ∉-append y ys (e ∷ zs) once in (ground arith, b)

module _ (h h' : Heap) (e b : ℕ) where
  -- The links behind the place of the element.
  Chain-past :
      (a : ℕ) (zs : List ℕ)
      → Chain h e zs b
      → Distinct (a ∷ e ∷ zs)
      → b ∉ (e ∷ zs)
      → TakenOut h h' a (first_or zs b) e
      → Chain h' a zs b
  unfolding Chain first_or Distinct
  Chain-past a [] c d out t = (t.next_p, t.prev_n)
  Chain-past a (z ∷ zs) (p, (q, rest)) (once, (once_e, (once_z, others))) out t = (
    t.next_p,
    (
      t.prev_n,
      Chain-frame h h' z zs b rest
          (λ x i.
            t.next_others x (has-ne x a (z ∷ zs) i (ground arith)) (has-ne x e (z ∷ zs) i once_e))
          (λ x i. elim i [
            | inl at_b ↦ t.prev_others x (rw at_b (ground arith)) (rw at_b (ground arith))
            | inr i' ↦ t.prev_others x (has-ne x z zs i' once_z) (has-ne x e zs i' (ground arith))
          ]),
    ),
  )

  pub Chain-taken :
      (a : ℕ) (ys zs : List ℕ)
      → Chain h a (ys ++ e ∷ zs) b
      → Distinct (a ∷ ys ++ e ∷ zs)
      → b ∉ (ys ++ e ∷ zs)
      → TakenOut h h' (last_or ys a) (first_or zs b) e
      → Chain h' a (ys ++ zs) b
  unfolding Chain last_or Distinct
  Chain-taken a [] zs (p, (q, rest)) d out t = Chain-past a zs rest d out t
  Chain-taken a (y ∷ ys) zs (p, (q, rest)) (once, (once_y, others)) out t =
      let (a_ys, a_rest) = ∉-append a (y ∷ ys) (e ∷ zs) once in
      let (y_ys, y_rest) = ∉-append y ys (e ∷ zs) once_y in
      let y_b : y ≢ b = ground arith in
      (
        t.next_others a (last_or-ne a y ys (ground arith) (ground arith)) (ground arith) ∙ p,
        (
          t.prev_others y (first_or-ne y b zs y_b (ground arith)) (ground arith) ∙ q,
          Chain-taken y ys zs rest (once_y, others) (ground arith) t,
        ),
      )

-- The heap that a deletion leaves.
abbrev removed : (p n e : ℕ) → Heap → Heap
removed p n e h = set_prev e 0 (set_next e 0 (set_next p n (set_prev n p h)))

module _ (p n e : ℕ) (h : Heap) where
  removed-key : (a : ℕ) → (removed p n e h a).key ≡ (h a).key
  removed-key a = ground arith

  removed-keys : (xs : List ℕ) → keys_of (removed p n e h) xs ≡ keys_of h xs
  unfolding keys_of
  removed-keys [] = refl
  removed-keys (x ∷ xs) = λ i. removed-key x i ∷ removed-keys xs i

  removed-TakenOut : e ≢ p → e ≢ n → TakenOut h (removed p n e h) p n e
  removed-TakenOut not_p not_n = record {
    next_p = ground arith;
    prev_n = ground arith;
    next_others = λ x a b. ground arith;
    prev_others = λ x a b. ground arith;
  }

-- On a ring of elements behind its head SortedList_delete of any of them succeeds, and leaves a
-- ring of the other elements in the same order and with the same keys.
pub delete_lem :
    (h : Heap) (head : ℕ) (ys : List ℕ) (e : ℕ) (zs : List ℕ)
    → IsRing h head (ys ++ e ∷ zs)
    → (h' : Heap) × (delete e h ≡ gone h') × Holds h' head (ys ++ zs) (keys_of h (ys ++ zs))
unfolding Distinct first_or
delete_lem h head ys e zs r =
    let p = last_or ys head in
    let n = first_or zs head in
    let (next_e, prev_n) = Chain-at h head ys e zs head r.chain in
    let prev_e : (h e).prev ≡ p = Chain-prev h head ys (e ∷ zs) head r.chain in
    let next_p : (h p).next ≡ e = Chain-next h head ys (e ∷ zs) head r.chain in
    let (e_ys, e_zs) = element-out ys e zs r.distinct.1 in
    let (head_ys, head_rest) = ∉-append head ys (e ∷ zs) r.distinct.0 in
    let not_head : e ≢ head = ground arith in
    let taken =
      removed-TakenOut p n e h (last_or-ne e head ys not_head e_ys)
        (first_or-ne e head zs not_head e_zs) in
    (
      removed p n e h,
      delete-gone e h (rw next_e prev_n) (rw prev_e next_p)
          ∙ (λ i. gone (removed (prev_e i) (next_e i) e h)),
      record {
        ring = record {
          chain =
              Chain-taken h (removed p n e h) e head head ys zs r.chain r.distinct r.distinct.0
                taken;
          distinct = Distinct-drop (head ∷ ys) e zs r.distinct;
        };
        keys = removed-keys p n e h (ys ++ zs);
      },
    )
