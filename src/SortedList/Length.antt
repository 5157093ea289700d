-- ===== src/SortedList/Length.antt =====
-- The count of `SortedList_length`.
use cs111winter.Base.{ℕ, zero, suc, ◌+◌, ◌<◌, ◌≡◌, ◌≢◌, ap, ◌∙◌, List, [], ◌∷◌, some, arith, length}
use cs111winter.SortedList.{Heap, count_from, length as list_length}
use cs111winter.SortedList.Laws.{Follows}

module _ (fuel : ℕ) (h : Heap) (head at : ℕ) (n : ℕ) where
  count_end : (h at).next ≡ head → count_from (suc fuel) h head at n ≡ some n
  unfolding count_from
  count_end e = ground arith

  count_more :
      (x : ℕ)
      → (h at).next ≡ x
      → x ≢ head
      → count_from (suc fuel) h head at n ≡ count_from fuel h head x (n + 1)
  unfolding count_from
  count_more x e other = rw e (ground arith)

count_from_lem :
    (fuel : ℕ) (h : Heap) (head at : ℕ) (xs : List ℕ) (n : ℕ)
    → Follows h at xs head
    → length xs < fuel
    → count_from fuel h head at n ≡ some (n + length xs)
unfolding Follows
count_from_lem zero h head at xs n chain enough = absurd (omega arith)
count_from_lem (suc fuel) h head at [] n chain enough =
    let same : n ≡ n + 0 = omega arith in count_end fuel h head at n chain ∙ ap some same
count_from_lem (suc fuel) h head at (x ∷ xs) n (e, (other, chain)) enough =
    let same : n + 1 + length xs ≡ n + suc (length xs) = omega arith in
    count_more fuel h head at n x e other
    ∙ count_from_lem fuel h head x xs (n + 1) chain (omega arith)
    ∙ ap some same

-- For one list with its head, `SortedList_length` ends with fuel for one step more than there are
-- elements, and is the number of elements; the head does not count.
pub list_length_lem :
    (fuel : ℕ) (h : Heap) (head : ℕ) (xs : List ℕ)
    → Follows h head xs head
    → length xs < fuel
    → list_length fuel (head ∷ []) h ≡ some (length xs)
unfolding list_length Follows
list_length_lem fuel h head [] chain enough = rw chain (ground arith)
list_length_lem fuel h head (x ∷ xs) (e, (other, chain)) enough =
    let count = count_from_lem fuel h head head (x ∷ xs) 0 (e, (other, chain)) enough in
    rw e (ground (arith, count))
