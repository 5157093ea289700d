-- ===== src/SortedList/Refine.antt =====
-- The operations on the ring against sequences of keys.
use cs111winter.Base.{ℕ, ◌<◌, ◌≡◌, ◌≢◌, refl, ap, ◌∙◌, List, [], ◌∷◌, ◌++◌, some, arith, length}
use cs111winter.SortedList.{Heap, link_before, insert}
use cs111winter.SortedList.Laws.{first_or, Follows, Below, Stops, place_from_lem}
use cs111winter.SortedList.Ring.{
  last_or-ne, first_or-ne, ◌∉◌, Distinct, Chain, IsRing, last_or, Chain-prev, ∉-append, has-append,
  LinkedIn,
}
use cs111winter.SortedList.Insert.{Apart, Chain-linked}
use cs111winter.SortedList.Spec.{insert_key, IsSorted, insert_key-IsSorted}

unfoldable pub keys_of : Heap → List ℕ → List (List ℕ)
keys_of h [] = []
keys_of h (x ∷ xs) = (h x).key ∷ keys_of h xs

-- The list with this head consists of the elements `xs`, whose keys are `ks`.
pub record Holds (h : Heap) (head : ℕ) (xs : List ℕ) (ks : List (List ℕ)) : Type 0 where
  pub ring : IsRing h head xs
  pub keys : keys_of h xs ≡ ks

pub Chain-Follows :
    (h : Heap) (a : ℕ) (xs : List ℕ) (b : ℕ) → Chain h a xs b → b ∉ xs → Follows h a xs b
unfolding Chain Follows
Chain-Follows h a [] b (e, f) out = e
Chain-Follows h a (x ∷ xs) b (e, (f, rest)) out =
    (e, (ground arith, Chain-Follows h x xs b rest (ground arith)))

Distinct-insert :
    (e : ℕ) (ys zs : List ℕ) → Distinct (ys ++ zs) → e ∉ (ys ++ zs) → Distinct (ys ++ e ∷ zs)
unfolding Distinct
Distinct-insert e [] zs d out = (out, d)
Distinct-insert e (y ∷ ys) zs (once, d) out = (
  ground (arith, has-append y ys zs, has-append y ys (e ∷ zs)),
  Distinct-insert e ys zs d (ground arith),
)

keys-place :
    (h : Heap) (k : List ℕ) (e : ℕ) (ys zs : List ℕ)
    → (h e).key ≡ k
    → Below h k ys
    → Stops h k zs
    → keys_of h (ys ++ e ∷ zs) ≡ insert_key k (keys_of h (ys ++ zs))
unfolding keys_of insert_key Below Stops
keys-place h k e [] [] key b s = rw key refl
keys-place h k e [] (z ∷ zs) key b s = rw (key, s) refl
keys-place h k e (y ∷ ys) zs key (miss, b) s =
    rw miss (ap (λ ks. (h y).key ∷ ks) (keys-place h k e ys zs key b s))

module _ (n element : ℕ) (h : Heap) where
  linked-key : (a : ℕ) → (link_before n element h a).key ≡ (h a).key
  unfolding link_before
  linked-key a = ground arith

  linked-keys : (xs : List ℕ) → keys_of (link_before n element h) xs ≡ keys_of h xs
  unfolding keys_of
  linked-keys [] = refl
  linked-keys (x ∷ xs) = λ i. linked-key x i ∷ linked-keys xs i

  link_before-LinkedIn :
      element ≢ n → element ≢ (h n).prev → LinkedIn h (link_before n element h) (h n).prev n element
  unfolding link_before
  link_before-LinkedIn free_n free_p = record {
    next_p = ground arith;
    next_element = ground arith;
    prev_element = ground arith;
    prev_n = ground arith;
    next_others = λ x a b. ground arith;
    prev_others = λ x a b. ground arith;
  }

-- Linking in before the elements `zs`.
linked-IsRing :
    (h : Heap) (head : ℕ) (ys zs : List ℕ) (element : ℕ)
    → IsRing h head (ys ++ zs)
    → element ∉ (head ∷ ys ++ zs)
    → IsRing (link_before (first_or zs head) element h) head (ys ++ element ∷ zs)
unfolding Distinct
linked-IsRing h head ys zs element r out =
    let n = first_or zs head in
    let before : (h n).prev ≡ last_or ys head = Chain-prev h head ys zs head r.chain in
    let (at_head, behind) = ∉-append element (head ∷ []) (ys ++ zs) out in
    let (out_ys, out_zs) = ∉-append element ys zs behind in
    let not_head : element ≢ head = ground arith in
    let linked =
      link_before-LinkedIn n element h (first_or-ne element head zs not_head out_zs)
        (rw before (last_or-ne element head ys not_head out_ys)) in
    let apart : Apart head ys zs head element = record {
      distinct = r.distinct;
      not_b = r.distinct.0;
      new = (out, not_head);
    } in
    record {
      chain =
          Chain-linked h (link_before n element h) element head head ys zs r.chain apart
            (rw (← before) linked);
      distinct = Distinct-insert element (head ∷ ys) zs r.distinct out;
    }

-- On a ring of elements behind its head, whose keys are ks, and a new element SortedList_insert
-- ends with fuel for one step more than there are elements. It leaves a ring of the same elements
-- in the same order and the new one, whose keys are ks with the new key inserted in front of the
-- first that is not below it.
pub insert_lem :
    (fuel : ℕ) (h : Heap) (head : ℕ) (xs : List ℕ) (ks : List (List ℕ)) (element : ℕ)
    → Holds h head xs ks
    → element ∉ (head ∷ xs)
    → length xs < fuel
    → (h' : Heap) × (ys : List ℕ) × (zs : List ℕ) × (insert fuel head element h ≡ some h')
      × (ys ++ zs ≡ xs)
      × Holds h' head (ys ++ element ∷ zs) (insert_key (h element).key ks)
unfolding insert Distinct
insert_lem fuel h head xs ks element holds out enough =
    let ring = holds.ring in
    let place =
      place_from_lem fuel h head (h element).key head xs
        (Chain-Follows h head xs head ring.chain ring.distinct.0) enough in
    let n = first_or place.after head in
    let h' = link_before n element h in
    (
      h',
      place.before,
      place.after,
      rw place.found refl,
      place.parts,
      record {
        ring =
            linked-IsRing h head place.before place.after element (rw place.parts ring)
              (rw place.parts out);
        keys =
            linked-keys n element h (place.before ++ element ∷ place.after)
            ∙ keys-place h (h element).key element place.before place.after refl place.smaller
                place.stops
            ∙ ap (insert_key (h element).key) (ap (keys_of h) place.parts ∙ holds.keys);
      },
    )

-- On a ring whose keys are sorted `SortedList_insert` ends, with fuel for one step more than there
-- are elements, and leaves a ring whose keys are sorted.
pub insert-IsSorted :
    (fuel : ℕ) (h : Heap) (head : ℕ) (xs : List ℕ) (element : ℕ)
    → IsRing h head xs
    → IsSorted (keys_of h xs)
    → element ∉ (head ∷ xs)
    → length xs < fuel
    → (h' : Heap) × (xs' : List ℕ) × (insert fuel head element h ≡ some h')
      × IsRing h' head xs'
      × IsSorted (keys_of h' xs')
insert-IsSorted fuel h head xs element ring sorted out enough =
    let (h', ys, zs, ends, _, holds) =
      insert_lem fuel h head xs (keys_of h xs) element (record { ring = ring; keys = refl }) out
        enough in
    (
      h',
      ys ++ element ∷ zs,
      ends,
      holds.ring,
      rw holds.keys (insert_key-IsSorted (h element).key (keys_of h xs) sorted),
    )
