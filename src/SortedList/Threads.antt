-- ===== src/SortedList/Threads.antt =====
-- lab4/sltest.c: several threads in threadfunc, on the lists and the locks that they share. A step
-- is what a thread does between two of its waits for a lock and calls of `pthread_yield` that come
-- before a write. `lock` is the mutex or the spinlock of a list, `len_lock` that of the length,
-- whichever the flags choose: both are waited for until they are free.
use cs111winter.Base.{
  ℕ, zero, suc, ◌+◌, ◌<◌, ◌&&◌, Bool, List, [], ◌∷◌, Option, none, some, ◌==◌, if◌then◌else◌, not,
}
use cs111winter.SortedList.{
  Heap, Cell, place_from, link_before, lookup, set_prev, set_next, length, hash,
}
use cs111winter.SortedList.Threadfunc.{list_of, heads_from}
pub mod Start
pub mod Inv
pub mod Moves
pub mod Steps
pub mod Changes
pub mod Linking
pub mod Lookups
pub mod Reach
pub mod Turn
pub mod Rank
pub mod Finish
pub mod Progress
mod Tests

-- Where a thread is. Between two rounds; with the lock of its element's list, in front of the walk
-- of SortedList_insert, and behind it, with `n`; with the lock, in front of SortedList_lookup; with
-- its target, in front of SortedList_delete; behind that one's tests, with `p` and `n`; in front of
-- the unlock of list `j`; with len_lock and the locks of the lists below `j`; and in front of the
-- unlock of list `j` on the way out of the length.
pub data Place : Type 0 where
  between : Place
  inserting : (e : ℕ) → Place
  placed : (e n : ℕ) → Place
  deleting : (e : ℕ) → Place
  chosen : (j target : ℕ) → Place
  checked : (j target p n : ℕ) → Place
  leaving : (j : ℕ) → Place
  collecting : (j : ℕ) → Place
  scattering : (j : ℕ) → Place

-- The elements that the two loops of the thread still have before them, and its `length`.
pub record Thread : Type 0 where
  pub to_insert : List ℕ
  pub to_delete : List ℕ
  pub measured : Option ℕ
  pub place : Place

-- `missed` counts the lookups that found nothing, where the code says "should never be here".
pub record System : Type 0 where
  pub heap : Heap
  pub lock : ℕ → ℕ
  pub len_lock : ℕ
  pub missed : ℕ
  pub threads : ℕ → Thread

abbrev pub rest : List ℕ → List ℕ
rest [] = []
rest (e ∷ es) = es

abbrev pub put_thread : ℕ → Thread → (ℕ → Thread) → ℕ → Thread
put_thread i t threads j = if j == i then t else threads j

abbrev pub become : ℕ → Thread → System → System
become i t s = record s { threads = put_thread i t s.threads }

abbrev pub go_to : ℕ → Place → System → System
go_to i p s = become i (record (s.threads i) { place = p }) s

-- The lock of list `j` becomes `v`.
abbrev pub set_list_lock : (j v : ℕ) → System → System
set_list_lock j v s = record s { lock = λ k. if k == j then v else s.lock k }

-- The heap behind the writes of SortedList_delete.
abbrev pub unlink : (p n e : ℕ) → Heap → Heap
unlink p n e h = set_prev e 0 (set_next e 0 (set_next p n (set_prev n p h)))

-- With neither MUTEX nor SPIN, `guarded` is false and no lock is waited for or taken.
module _ (fuel n_lists : ℕ) (list : ℕ → ℕ) (guarded : Bool) where
  abbrev pub lock_list : (i j : ℕ) → Place → System → System
  lock_list i j p s =
      if guarded && not (s.lock j == 0)
      then s
      else go_to i p (if guarded then set_list_lock j 1 s else s)

  abbrev pub unlock_list : (i j : ℕ) → Place → System → System
  unlock_list i j p s = go_to i p (if guarded then set_list_lock j 0 s else s)

  abbrev pub lock_length : (i : ℕ) → System → System
  lock_length i s =
      if guarded && not (s.len_lock == 0)
      then s
      else go_to i (collecting 0) (if guarded then record s { len_lock = 1 } else s)

  abbrev pub index_of : ℕ → Heap → ℕ
  index_of e h = hash n_lists (h e).key

  -- The next round of one of the loops, or the length between them.
  unfoldable pub next_round : (i : ℕ) → (todo undo : List ℕ) → Option ℕ → System → System
  next_round i (e ∷ es) undo m s = lock_list i (index_of e s.heap) (inserting e) s
  next_round i [] undo none s = lock_length i s
  next_round i [] [] (some l) s = s
  next_round i [] (e ∷ es) (some l) s = lock_list i (index_of e s.heap) (deleting e) s

  -- Behind the walk; one that has not come to its end goes on.
  unfoldable pub walked : (i e : ℕ) → Option ℕ → System → System
  walked i e none s = s
  walked i e (some n) s = go_to i (placed e n) s

  abbrev pub linked : (i e n : ℕ) → System → System
  linked i e n s =
      become i
        (record (s.threads i) {
          to_insert = rest (s.threads i).to_insert;
          place = leaving (index_of e s.heap);
        })
        (record s { heap = link_before n e s.heap })

  -- A round of the last loop that ends, with this heap and this count of misses.
  abbrev pub deleted : (i j : ℕ) → Heap → (missed : ℕ) → System → System
  deleted i j h m s =
      become i
        (record (s.threads i) { to_delete = rest (s.threads i).to_delete; place = leaving j })
        (record s { heap = h; missed = m })

  abbrev pub looked_up : (i e : ℕ) → System → System
  looked_up i e s =
      let target = lookup (list_of n_lists list e s.heap) (s.heap e).key s.heap in
      if target == 0
      then deleted i (index_of e s.heap) s.heap (s.missed + 1) s
      else go_to i (chosen (index_of e s.heap) target) s

  -- The tests of SortedList_delete, in front of its yield.
  abbrev pub checks : (i j target : ℕ) → System → System
  checks i j target s =
      let n = (s.heap target).next in
      let p = (s.heap target).prev in
      if ((s.heap n).prev == target) && ((s.heap p).next == target)
      then go_to i (checked j target p n) s
      else deleted i j s.heap s.missed s

  unfoldable pub counted : (i : ℕ) → Option ℕ → System → System
  counted i none s = s
  counted i (some l) s =
      become i (record (s.threads i) { measured = some l; place = scattering 0 }) s

  unfoldable pub step_at : (i : ℕ) → Place → System → System
  unfolding next_round walked counted
  step_at i between s = let t = s.threads i in next_round i t.to_insert t.to_delete t.measured s
  step_at i (inserting e) s =
      let l = list_of n_lists list e s.heap in
      walked i e (place_from fuel s.heap l (s.heap e).key (s.heap l).next) s
  step_at i (placed e n) s = linked i e n s
  step_at i (deleting e) s = looked_up i e s
  step_at i (chosen j target) s = checks i j target s
  step_at i (checked j target p n) s = deleted i j (unlink p n target s.heap) s.missed s
  step_at i (leaving j) s = unlock_list i j between s
  step_at i (collecting j) s =
      if j == n_lists
      then counted i (length fuel (heads_from n_lists list n_lists 0) s.heap) s
      else lock_list i j (collecting (j + 1)) s
  step_at i (scattering j) s =
      if j == n_lists
      then go_to i between (if guarded then record s { len_lock = 0 } else s)
      else unlock_list i j (scattering (j + 1)) s

  -- The next step of thread `i`.
  unfoldable pub thread_step : (i : ℕ) → System → System
  unfolding step_at
  thread_step i s = step_at i (s.threads i).place s

  -- A schedule names the thread of each step.
  unfoldable pub run_schedule : List ℕ → System → System
  unfolding thread_step
  run_schedule [] s = s
  run_schedule (i ∷ is) s = run_schedule is (thread_step i s)

  -- The states that `n` threads can come to.
  pub data Reachable (n : ℕ) (s0 : System) : System → Type 0 where
    starts : Reachable n s0 s0
    goes_on : {s : System} (i : ℕ) → i < n → Reachable n s0 s → Reachable n s0 (thread_step i s)

-- The threads as `main` creates them, each with its elements.
abbrev pub created : (elements : ℕ → List ℕ) → Heap → System
created elements h = record {
  heap = h;
  lock = λ j. 0;
  len_lock = 0;
  missed = 0;
  threads = λ i. record {
    to_insert = elements i;
    to_delete = elements i;
    measured = none;
    place = between;
  };
}
