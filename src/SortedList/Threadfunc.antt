-- ===== src/SortedList/Threadfunc.antt =====
-- lab4/sltest.c: threadfunc as one thread runs it alone, where every lock is free. It inserts its
-- elements, measures the lists, and then looks each key up and deletes what it finds.
use cs111winter.Base.{
  ◌>>=◌, ℕ, zero, suc, ◌+◌, Bool, List, [], ◌∷◌, Option, none, some, ◌==◌, if◌then◌else◌,
}
pub mod Alone
use cs111winter.SortedList.{
  Heap, insert, Deleted, gone, bad_next, bad_prev, delete, lookup, length, hash,
}

-- The heap after SortedList_delete, whose result threadfunc does not look at.
abbrev pub after_delete : Heap → Deleted → Heap
after_delete h (gone h') = h'
after_delete h bad_next = h
after_delete h bad_prev = h

-- The lists have the heads `list 0`, ..., `list (n_lists - 1)`.
module _ (n_lists : ℕ) (list : ℕ → ℕ) where
  abbrev pub list_of : ℕ → Heap → ℕ
  list_of element h = list (hash n_lists (h element).key)

  -- The first loop, over the thread's elements.
  unfoldable pub insert_all : (fuel : ℕ) → List ℕ → Heap → Option Heap
  insert_all fuel [] h = some h
  insert_all fuel (e ∷ es) h = do h' ← insert fuel (list_of e h) e h; insert_all fuel es h'

  -- A round of the last loop: `continue` if the key is not found.
  unfoldable pub delete_key : (element : ℕ) → Heap → Heap
  delete_key e h =
      let target : ℕ = lookup (list_of e h) (h e).key h in
      if target == 0 then h else after_delete h (delete target h)

  unfoldable pub delete_all : List ℕ → Heap → Heap
  unfolding delete_key
  delete_all [] h = h
  delete_all (e ∷ es) h = delete_all es (delete_key e h)

  -- The `k` heads from the one of list `i` on.
  abbrev pub heads_from : (k i : ℕ) → List ℕ
  heads_from zero i = []
  heads_from (suc k) i = list i ∷ heads_from k (i + 1)

  -- `threadfunc`: the length, and the heap at the end.
  unfoldable pub threadfunc : (fuel : ℕ) → List ℕ → Heap → Option (ℕ × Heap)
  unfolding insert_all delete_all
  threadfunc fuel elements h = do
    h' ← insert_all fuel elements h
    n ← length fuel (heads_from n_lists 0) h'
    some (n, delete_all elements h')
