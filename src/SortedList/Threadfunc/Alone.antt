-- ===== src/SortedList/Threadfunc/Alone.antt =====
-- lab4/sltest.c: threadfunc when one thread runs it alone on one list, round by round of its loops.
use cs111winter.Base.{
  ℕ, suc, ◌+◌, ◌<◌, ◌≡◌, ◌≢◌, refl, ap, ◌∙◌, List, [], ◌∷◌, ◌++◌, some, false, ◌==◌, arith, length,
  length-append,
}
use cs111winter.SortedList.{Heap, lookup, hash, length as list_length}
use cs111winter.SortedList.Ring.{◌∉◌, has-append, Distinct, Chain, IsRing}
use cs111winter.SortedList.Refine.{keys_of, insert_lem, Chain-Follows}
use cs111winter.SortedList.Remove.{delete_lem}
use cs111winter.SortedList.Length.{list_length_lem}
use cs111winter.SortedList.Threadfunc.{insert_all, delete_key, delete_all, threadfunc}

-- All keys belong to the only list.
pub hash-one : (key : List ℕ) → hash 1 key ≡ 0
unfolding hash
hash-one key = omega arith

-- No element is in the ring yet, and each is inserted once.
abbrev pub Fresh : (head : ℕ) (xs es : List ℕ) → Type 0
Fresh head xs [] = Unit {0}
Fresh head xs (e ∷ es) = (e ∉ (head ∷ xs)) × ((e ∉ es) × Fresh head xs es)

pub ∉-placed :
    (a e : ℕ) (head : ℕ) (ys zs : List ℕ)
    → a ∉ (head ∷ ys ++ zs)
    → (a == e) ≡ false
    → a ∉ (head ∷ ys ++ e ∷ zs)
∉-placed a e head ys zs out ne = ground (arith, has-append a ys zs, has-append a ys (e ∷ zs))

pub ∉-ne : (e a : ℕ) (es : List ℕ) → e ∉ (a ∷ es) → ((a == e) ≡ false) × (e ∉ es)
∉-ne e a es out = ground arith

Fresh-placed :
    (head e : ℕ) (ys zs es : List ℕ)
    → Fresh head (ys ++ zs) es
    → e ∉ es
    → Fresh head (ys ++ e ∷ zs) es
Fresh-placed head e ys zs [] f out = tt
Fresh-placed head e ys zs (a ∷ es) (here, (once, rest)) out =
    let (ne, out') = ∉-ne e a es out in
    (∉-placed a e head ys zs here ne, (once, Fresh-placed head e ys zs es rest out'))

pub ∉-tail : (x : ℕ) (xs : List ℕ) → 0 ∉ (x ∷ xs) → (x ≢ 0) × (0 ∉ xs)
∉-tail x xs out = ground arith

module _ (list : ℕ → ℕ) where
  insert_all_lem :
      (fuel : ℕ) (es xs : List ℕ) (h : Heap)
      → IsRing h (list 0) xs
      → Fresh (list 0) xs es
      → length xs + length es < fuel
      → (h' : Heap) × (ys : List ℕ) × (insert_all 1 list fuel es h ≡ some h')
        × IsRing h' (list 0) ys
        × (length ys ≡ length xs + length es)
        × ((a : ℕ) → a ∉ (list 0 ∷ xs) → a ∉ es → a ∉ (list 0 ∷ ys))
  unfolding insert_all
  insert_all_lem fuel [] xs h r f enough = (h, xs, refl, r, omega arith, λ a out out'. out)
  insert_all_lem fuel (e ∷ es) xs h r (here, (once, rest)) enough =
      let (h1, ys, zs, runs, parts, holds) =
        insert_lem fuel h (list 0) xs (keys_of h xs) e (record { ring = r; keys = refl }) here
          (omega arith) in
      let long : length (ys ++ e ∷ zs) ≡ suc (length xs) =
        omega (arith, length-append ys (e ∷ zs), length-append ys zs, ap length parts) in
      let fresh : Fresh (list 0) (ys ++ e ∷ zs) es =
        Fresh-placed (list 0) e ys zs es (rw parts rest) once in
      let (h2, ws, more, ring, len, outside) =
        insert_all_lem fuel es (ys ++ e ∷ zs) h1 holds.ring fresh (omega (arith, long)) in
      (
        h2,
        ws,
        rw (hash-one (h e).key, runs, insert_all) more,
        ring,
        omega (arith, long, len),
        λ a out out'.
            let (ne, out'') = ∉-ne a e es out' in
            let apart : (a == e) ≡ false = ground arith in
            outside a (∉-placed a e (list 0) ys zs (rw parts out) apart) out'',
      )

  -- Each round deletes the first element of the list, whatever the key.
  delete_key_lem :
      (e x : ℕ) (xs : List ℕ) (h : Heap)
      → IsRing h (list 0) (x ∷ xs)
      → x ≢ 0
      → IsRing (delete_key 1 list e h) (list 0) xs
  unfolding delete_key lookup Chain Distinct
  delete_key_lem e x xs h r nz =
      let (h', runs, holds) = delete_lem h (list 0) [] x xs r in
      let first : (h (list 0)).next ≡ x = r.chain.0 in
      let other : (list 0 == x) ≡ false = ground (arith, r.distinct.0) in
      let found : (x == 0) ≡ false = ground arith in
      rw (hash-one (h e).key, first, other, found, runs, delete_key) holds.ring

  -- As many rounds as the list has elements empty it.
  delete_all_lem :
      (es xs : List ℕ) (h : Heap)
      → IsRing h (list 0) xs
      → 0 ∉ xs
      → length xs ≡ length es
      → IsRing (delete_all 1 list es h) (list 0) []
  unfolding delete_all
  delete_all_lem [] [] h r out same = r
  delete_all_lem [] (x ∷ xs) h r out same = absurd (omega (arith, same))
  delete_all_lem (e ∷ es) [] h r out same = absurd (omega (arith, same))
  delete_all_lem (e ∷ es) (x ∷ xs) h r out same =
      let (nz, out') = ∉-tail x xs out in
      delete_all_lem es xs (delete_key 1 list e h) (delete_key_lem e x xs h r nz) out'
        (omega (arith, same))

  -- On one list that is empty, threadfunc as one thread runs it alone ends with fuel for one step
  -- more than there are elements: the length it takes is the number of its elements, and at the
  -- end the list is empty again. Each element is given once, none is the head, and neither they
  -- nor the head are the null pointer.
  pub threadfunc_lem :
      (fuel : ℕ) (elements : List ℕ) (h : Heap)
      → IsRing h (list 0) []
      → Fresh (list 0) [] elements
      → 0 ∉ (list 0 ∷ [])
      → 0 ∉ elements
      → length elements < fuel
      → (h' : Heap) × (threadfunc 1 list fuel elements h ≡ some (length elements, h'))
        × IsRing h' (list 0) []
  unfolding threadfunc Distinct
  threadfunc_lem fuel elements h r f head out enough =
      let (h1, ys, runs, ring, len, outside) =
        insert_all_lem fuel elements [] h r f (omega arith) in
      let follows = Chain-Follows h1 (list 0) ys (list 0) ring.chain ring.distinct.0 in
      let n : list_length fuel (list 0 ∷ []) h1 ≡ some (length elements) =
        list_length_lem fuel h1 (list 0) ys follows (omega (arith, len))
        ∙ ap some (omega (arith, len)) in
      let (_, none_zero) = ∉-tail (list 0) ys (outside 0 head out) in
      (
        delete_all 1 list elements h1,
        rw (runs, n, threadfunc) refl,
        delete_all_lem elements ys h1 ring none_zero (omega (arith, len)),
      )
