-- ===== src/SortedList/Tests.antt =====
-- Runs of the theorems about the sorted list on a ring of a head at 1 and one element at 2.
use cs111winter.Base.{List, ◌++◌, some, ℕ, ◌≡◌, refl, [], ◌∷◌, arith, ◌==◌, if◌then◌else◌}
use cs111winter.SortedList.Ring.{Chain, Distinct}
use cs111winter.SortedList.Refine.{keys_of, Holds, insert_lem}
use cs111winter.SortedList.Remove.{delete_lem}
use cs111winter.SortedList.Spec.{IsSorted, insert_key}
use cs111winter.SortedList.{insert, Heap, gone, delete}
use cs111winter.SortedList.Laws.{Follows}

abbrev ring : Heap
ring a =
    if a == 1
    then record { prev = 2; next = 2; key = [] }
    else if a == 2
    then record { prev = 1; next = 1; key = 66 ∷ [] }
    else record { prev = 0; next = 0; key = 67 ∷ [] }

ring-Follows : Follows ring 1 (2 ∷ []) 1
unfolding Follows
ring-Follows = (refl, (omega arith, refl))

ring-Holds : Holds ring 1 (2 ∷ []) ((66 ∷ []) ∷ [])
unfolding keys_of Chain Distinct
ring-Holds = record {
  ring = record { chain = (refl, (refl, (refl, refl))); distinct = (refl, (refl, tt)) };
  keys = refl;
}

one-IsSorted : IsSorted (keys_of ring (2 ∷ []))
unfolding keys_of IsSorted
one-IsSorted = tt

insert_lem_example :
    (h' : Heap) × (ys : List ℕ) × (zs : List ℕ) × (insert 2 1 3 ring ≡ some h')
    × (ys ++ zs ≡ 2 ∷ [])
    × Holds h' 1 (ys ++ 3 ∷ zs) (insert_key (67 ∷ []) ((66 ∷ []) ∷ []))
insert_lem_example = insert_lem 2 ring 1 (2 ∷ []) ((66 ∷ []) ∷ []) 3 ring-Holds refl (omega arith)

delete_lem_example :
    (h' : Heap) × (delete 2 ring ≡ gone h') × Holds h' 1 ([] ++ []) (keys_of ring ([] ++ []))
delete_lem_example = delete_lem ring 1 [] 2 [] ring-Holds.ring
