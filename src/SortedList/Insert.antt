-- ===== src/SortedList/Insert.antt =====
-- Linking an element into a ring.
use cs111winter.Base.{ℕ, ◌≢◌, inl, inr, sym, ◌∙◌, List, [], ◌∷◌, ◌++◌, arith}
use cs111winter.SortedList.{Heap}
use cs111winter.SortedList.Laws.{first_or}
use cs111winter.SortedList.Ring.{
  ∉-append, has-ne, ◌∉◌, Distinct, Chain, last_or, Chain-frame, last_or-ne, first_or-ne, LinkedIn,
}

-- The elements behind `a`, from `ys` and `zs` together, are distinct and are not `b` or `element`.
pub record Apart (a : ℕ) (ys zs : List ℕ) (b element : ℕ) : Type 0 where
  pub distinct : Distinct (a ∷ ys ++ zs)
  pub not_b : b ∉ (ys ++ zs)
  pub new : (element ∉ (a ∷ ys ++ zs)) × (element ≢ b)

Apart-tail :
    {a y : ℕ} {ys zs : List ℕ} {b element : ℕ}
    → Apart a (y ∷ ys) zs b element
    → Apart y ys zs b element
unfolding Distinct
Apart-tail r =
    let new = r.new in
    record { distinct = r.distinct.1; not_b = ground (arith, r.not_b); new = ground arith }

module _ (h h' : Heap) (element b : ℕ) where
  -- The links behind the new element.
  Chain-behind :
      (a : ℕ) (zs : List ℕ)
      → Chain h a zs b
      → Apart a [] zs b element
      → LinkedIn h h' a (first_or zs b) element
      → Chain h' element zs b
  unfolding Chain first_or Distinct
  Chain-behind a [] c r l = (l.next_element, l.prev_n)
  Chain-behind a (z ∷ zs) (e, (f, rest)) r l =
      let (once, (once_z, others)) = r.distinct in
      let (out, not_b) = r.new in
      let out_z : element ∉ (z ∷ zs) = ground arith in
      let b_z : b ∉ (z ∷ zs) = r.not_b in
      (
        l.next_element,
        (
          l.prev_n,
          Chain-frame h h' z zs b rest
              (λ x i.
                l.next_others x (has-ne x a (z ∷ zs) i once) (has-ne x element (z ∷ zs) i out_z))
              (λ x i. elim i [
                | inl at_b ↦
                    l.prev_others x (rw at_b (ground arith)) (rw at_b (λ e'. not_b (sym e')))
                | inr i' ↦
                    l.prev_others x (has-ne x z zs i' once_z)
                      (has-ne x element zs i' (ground arith))
              ]),
        ),
      )

  -- The links as a whole.
  pub Chain-linked :
      (a : ℕ) (ys zs : List ℕ)
      → Chain h a (ys ++ zs) b
      → Apart a ys zs b element
      → LinkedIn h h' (last_or ys a) (first_or zs b) element
      → Chain h' a (ys ++ element ∷ zs) b
  unfolding Chain last_or Distinct
  Chain-linked a [] zs c r l = (l.next_p, (l.prev_element, Chain-behind a zs c r l))
  Chain-linked a (y ∷ ys) zs (e, (f, rest)) r l =
      let (once, (once_y, others)) = r.distinct in
      let (out, not_b) = r.new in
      let (a_ys, a_zs) = ∉-append a (y ∷ ys) zs once in
      let (y_ys, y_zs) = ∉-append y ys zs once_y in
      let y_b : y ≢ b = ground arith in
      (
        l.next_others a (last_or-ne a y ys (ground arith) (ground arith)) (ground arith) ∙ e,
        (
          l.prev_others y (first_or-ne y b zs y_b y_zs) (ground arith) ∙ f,
          Chain-linked y ys zs rest (Apart-tail r) l,
        ),
      )
