-- ===== src/SortedList/Laws.antt =====
-- The walk of an insertion into the sorted list, and linking and unlinking one element.
use cs111winter.Base.{
  ℕ, zero, suc, ◌<◌, ◌≡◌, ◌≢◌, inl, inr, refl, ap, ◌∙◌, true, false, List, [], ◌∷◌, ◌++◌, Option,
  some, arith, Bool-cases,
}
use cs111winter.Base.{length}
use cs111winter.SortedList.{
  Cell, Heap, key_leb, set_prev, set_next, place_from, link_before, gone, delete,
}

set_prev-other : (p v : ℕ) (h : Heap) (a : ℕ) → a ≢ p → set_prev p v h a ≡ h a
set_prev-other p v h a other = ground arith

set_prev-here : (p v : ℕ) (h : Heap) → set_prev p v h p ≡ record (h p) { prev = v }
set_prev-here p v h = ground arith

set_next-other : (p v : ℕ) (h : Heap) (a : ℕ) → a ≢ p → set_next p v h a ≡ h a
set_next-other p v h a other = ground arith

set_next-here : (p v : ℕ) (h : Heap) → set_next p v h p ≡ record (h p) { next = v }
set_next-here p v h = ground arith

-- The elements `xs` follow each other behind `a`, and `b` follows them, by the next pointers.
unfoldable pub Follows : Heap → (a : ℕ) → List ℕ → (b : ℕ) → Type 0
Follows h a [] b = (h a).next ≡ b
Follows h a (x ∷ xs) b = ((h a).next ≡ x) × ((x ≢ b) × Follows h x xs b)

-- The first of the elements, or the end of the list.
unfoldable pub first_or : List ℕ → ℕ → ℕ
first_or [] b = b
first_or (x ∷ xs) b = x

-- All keys of the elements are below the key.
unfoldable pub Below : Heap → List ℕ → List ℕ → Type 0
Below h key [] = Unit {0}
Below h key (x ∷ xs) = (key_leb key (h x).key ≡ false) × Below h key xs

-- The elements from here on start with a key that is not below, if there are any.
unfoldable pub Stops : Heap → List ℕ → List ℕ → Type 0
Stops h key [] = Unit {0}
Stops h key (x ∷ xs) = key_leb key (h x).key ≡ true

-- Where the walk stops.
pub record Place (h : Heap) (list : ℕ) (key xs : List ℕ) (o : Option ℕ) : Type 0 where
  pub before : List ℕ
  pub after : List ℕ
  pub parts : before ++ after ≡ xs
  pub found : o ≡ some (first_or after list)
  pub smaller : Below h key before
  pub stops : Stops h key after

module _ (fuel : ℕ) (h : Heap) (list : ℕ) (key : List ℕ) where
  place_end : place_from (suc fuel) h list key list ≡ some list
  unfolding place_from
  place_end = ground arith

  place_hit :
      (x : ℕ)
      → x ≢ list
      → key_leb key (h x).key ≡ true
      → place_from (suc fuel) h list key x ≡ some x
  unfolding place_from
  place_hit x other hit = ground arith

  place_miss :
      (x : ℕ)
      → x ≢ list
      → key_leb key (h x).key ≡ false
      → place_from (suc fuel) h list key x ≡ place_from fuel h list key (h x).next
  unfolding place_from
  place_miss x other miss = ground arith

-- In a list of `xs` behind its head the walk of the insertion ends with fuel for one step more than
-- there are elements. It stops at the first element whose key is not below the new key, or at the
-- head if there is none.
pub place_from_lem :
    (fuel : ℕ) (h : Heap) (list : ℕ) (key : List ℕ) (a : ℕ) (xs : List ℕ)
    → Follows h a xs list
    → length xs < fuel
    → Place h list key xs (place_from fuel h list key (h a).next)
unfolding Follows first_or Below Stops
place_from_lem zero h list key a xs chain enough = absurd (omega arith)
place_from_lem (suc fuel) h list key a [] chain enough = record {
  before = [];
  after = [];
  parts = refl;
  found = rw chain (place_end fuel h list key);
  smaller = tt;
  stops = tt;
}
place_from_lem (suc fuel) h list key a (x ∷ xs) (e, (other, chain)) enough =
    elim (Bool-cases (key_leb key (h x).key)) [
      | inl hit ↦ record {
        before = [];
        after = x ∷ xs;
        parts = refl;
        found = rw e (place_hit fuel h list key x other hit);
        smaller = tt;
        stops = hit;
      }
      | inr miss ↦
          let rest = place_from_lem fuel h list key x xs chain (omega arith) in
          record {
            before = x ∷ rest.before;
            after = rest.after;
            parts = ap (λ ys. x ∷ ys) rest.parts;
            found = rw e (place_miss fuel h list key x other miss ∙ rest.found);
            smaller = (miss, rest.smaller);
            stops = rest.stops;
          }
    ]

-- What `delete` does to an element whose neighbours point to it.
pub delete-gone :
    (element : ℕ) (h : Heap)
    → (h (h element).next).prev ≡ element
    → (h (h element).prev).next ≡ element
    → delete element h
      ≡ gone (
          set_prev element 0 (
            set_next element 0 (
              set_next
                (h element).prev
                (h element).next
                (set_prev (h element).next (h element).prev h))))
unfolding delete
delete-gone element h e f = ground arith

Cell-eq : {c d : Cell} → c.prev ≡ d.prev → c.next ≡ d.next → c.key ≡ d.key → c ≡ d
Cell-eq e f g = λ i. record { prev = e i; next = f i; key = g i }

module _ (n element : ℕ) (h : Heap) (free_n : element ≢ n) (free_p : element ≢ (h n).prev)
    (linked : (h (h n).prev).next ≡ n) where
  abbrev p : ℕ
  p = (h n).prev

  linked_element :
      ((link_before n element h element).next ≡ n) × ((link_before n element h element).prev ≡ p)
  unfolding link_before
  linked_element = (ground arith, ground arith)

  linked_n : (link_before n element h n).prev ≡ element
  unfolding link_before
  linked_n = ground arith

  linked_p : (link_before n element h p).next ≡ element
  unfolding link_before
  linked_p = ground arith

  -- The heap after a deletion of the element that was linked in.
  abbrev unlinked : Heap
  unlinked =
      set_prev element 0
        (set_next element 0 (set_next p n (set_prev n p (link_before n element h))))

  unlinked-next : (a : ℕ) → a ≢ element → (unlinked a).next ≡ (h a).next
  unfolding link_before
  unlinked-next a other = ground arith

  unlinked-prev : (a : ℕ) → a ≢ element → (unlinked a).prev ≡ (h a).prev
  unfolding link_before
  unlinked-prev a other = ground arith

  unlinked-key : (a : ℕ) → a ≢ element → (unlinked a).key ≡ (h a).key
  unfolding link_before
  unlinked-key a other = ground arith

  -- When an element is linked in before `n`, of a list in which the element before `n` points to
  -- `n`, and neither of the two is the new element, then its deletion succeeds, and every other
  -- element is as it was before the two operations.
  pub delete-link_before :
      (h' : Heap) × (delete element (link_before n element h) ≡ gone h')
      × ((a : ℕ) → a ≢ element → h' a ≡ h a)
  delete-link_before =
      let (e, f) = linked_element in
      let h1 : Heap = link_before n element h in
      (
        unlinked,
        delete-gone element h1 (rw e linked_n) (rw f linked_p) ∙ (λ i. gone (
            set_prev element 0
              (set_next element 0 (set_next (f i) (e i) (set_prev (e i) (f i) h1))))),
        λ a other. Cell-eq (unlinked-prev a other) (unlinked-next a other) (unlinked-key a other),
      )
