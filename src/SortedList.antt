-- ===== src/SortedList.antt =====
-- lab4/sltest.c and SortedList.h: the ring of elements behind a dummy head, on a heap of cells by
-- their addresses, and the hash that picks one of several lists. The null pointer is 0. The calls of
-- pthread_yield change nothing here: these are the functions as one thread runs them.
use cs111winter.Base.{
  ◌>>=◌, ℕ, zero, suc, ◌+◌, ◌%◌, Bool, List, [], ◌∷◌, true, false, Option, none, some, ◌==◌, ltb,
  if◌then◌else◌, ◌&&◌, ◌||◌, not,
}
pub mod Laws
pub mod Length
pub mod Ring
pub mod Insert
pub mod Spec
pub mod Refine
pub mod Remove
pub mod Threadfunc
pub mod Threads
mod Tests

-- `struct SortedListElement`, with its key as the string of bytes that it points to.
pub record Cell : Type 0 where
  pub prev : ℕ
  pub next : ℕ
  pub key : List ℕ

-- `strcmp(a, b) <= 0`, on strings without their final zero.
unfoldable pub key_leb : (a b : List ℕ) → Bool
key_leb [] b = true
key_leb (x ∷ a) [] = false
key_leb (x ∷ a) (y ∷ b) = ltb x y || ((x == y) && key_leb a b)

abbrev pub Heap : Type 0
Heap = ℕ → Cell

abbrev pub set_prev : (p v : ℕ) → Heap → Heap
set_prev p v h a = if a == p then record (h p) { prev = v } else h a

abbrev pub set_next : (p v : ℕ) → Heap → Heap
set_next p v h a = if a == p then record (h p) { next = v } else h a

-- The loop of `SortedList_insert`: where the walk from `n` stops; `none` is a walk that has not
-- come to its end in `fuel` steps.
unfoldable pub place_from : (fuel : ℕ) → Heap → (list : ℕ) (key : List ℕ) (n : ℕ) → Option ℕ
unfolding key_leb
place_from zero h list key n = none
place_from (suc fuel) h list key n =
    let rest = place_from fuel h list key (h n).next in
    if n == list then some n else if key_leb key (h n).key then some n else rest

-- The four writes that link `element` in before `n`.
unfoldable pub link_before : (n element : ℕ) → Heap → Heap
link_before n element h =
    let p = (h n).prev in
    set_prev n element (set_next p element (set_next element n (set_prev element p h)))

unfoldable pub insert : (fuel : ℕ) (list element : ℕ) → Heap → Option Heap
unfolding place_from link_before
insert fuel list element h = do
  n ← place_from fuel h list (h element).key (h list).next
  some (link_before n element h)

-- The results of `SortedList_delete`.
pub data Deleted : Type 0 where
  gone : Heap → Deleted
  bad_next bad_prev : Deleted

unfoldable pub delete : (element : ℕ) → Heap → Deleted
delete element h =
    let n = (h element).next in
    let p = (h element).prev in
    if not ((h n).prev == element)
    then bad_next
    else if not ((h p).next == element)
    then bad_prev
    else gone (set_prev element 0 (set_next element 0 (set_next p n (set_prev n p h))))

-- `SortedList_lookup`. The `return list` in its loop stands under no condition, so that the loop
-- ends in its first round, whatever the key.
unfoldable pub lookup : (list : ℕ) (key : List ℕ) → Heap → ℕ
lookup list key h = if list == (h list).next then 0 else (h list).next

-- The loop over one list in `SortedList_length`, from the element `at` on.
unfoldable pub count_from : (fuel : ℕ) → Heap → (head at : ℕ) → ℕ → Option ℕ
count_from zero h head at n = none
count_from (suc fuel) h head at n =
    let after = (h at).next in
    let rest = count_from fuel h head after (n + 1) in if head == after then some n else rest

-- `SortedList_length` over the lists with the given heads.
unfoldable pub length : (fuel : ℕ) → List ℕ → Heap → Option ℕ
unfolding count_from
length fuel [] h = some 0
length fuel (head ∷ heads) h = do
  rest ← length fuel heads h
  n ← if head == (h head).next then some 0 else count_from fuel h head head 0
  some (n + rest)

-- `hash`: `char` is signed, but a key holds letters and digits, whose codes are below 128.
unfoldable pub sum_key : List ℕ → ℕ
sum_key [] = 0
sum_key (c ∷ key) = c + sum_key key

unfoldable pub hash : (n_lists : ℕ) → List ℕ → ℕ
unfolding sum_key
hash n_lists key = sum_key key % n_lists
