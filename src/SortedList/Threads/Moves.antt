-- ===== src/SortedList/Threads/Moves.antt =====
-- The invariant when one thread moves.
use cs111winter.Base.{ℕ, ◌<◌, ◌≡◌, ◌≢◌, ap, sym, ◌∙◌, true, false, List, arith, length}
use native.Mathlib.Decide.{ℕ_discrete}
use mathlib.Core.Path.{subst}
use cs111winter.SortedList.Ring.{has, IsRing}
use cs111winter.SortedList.Threads.{Thread, System, put_thread}
use cs111winter.SortedList.Threads.Inv.{
  holds, Knows, outside-Knows, IsFine, Inv, nobody, Moves, moved,
}

pub put-here : (i j : ℕ) (t : Thread) (threads : ℕ → Thread) → j ≡ i → put_thread i t threads j ≡ t
put-here i j t threads e = ground arith

pub put-other :
    (i j : ℕ) (t : Thread) (threads : ℕ → Thread) → j ≢ i → put_thread i t threads j ≡ threads j
put-other i j t threads other = ground arith

-- All threads but `i` are outside.
abbrev pub Others : (n : ℕ) → System → (i : ℕ) → Type 0
Others n s i = (j : ℕ) → j < n → j ≢ i → holds (s.threads j).place ≡ false

module _ (fuel head rounds n : ℕ) (xs xs' : List ℕ) (s s' : System) (i : ℕ) (t : Thread)
    (inv : Inv fuel head rounds n xs s) (less : i < n) (m : Moves head n xs xs' s s' i t)
    (mine : IsFine fuel head rounds s'.heap t) where
  -- The thread has the list to itself.
  pub moved_alone :
      Others n s i → (holds t.place ≡ true → s'.lock 0 ≡ 1) → Inv fuel head rounds n xs' s'
  moved_alone out keeps =
      moved fuel head rounds n xs xs' s s' i t inv less m mine
        (λ j l other.
          let f = inv.fine j l in
          record {
            order = f.order;
            once = f.once;
            knows = outside-Knows fuel head s.heap s'.heap _ _ _ (out j l other) f.knows;
          })
        (λ inside. (keeps inside, out))
        (λ j l other inside. let clash = out j l other in absurd (ground arith))

  -- The thread is outside, and leaves the list and its lock alone.
  pub moved_outside :
      s'.heap ≡ s.heap
      → s'.lock 0 ≡ s.lock 0
      → holds t.place ≡ false
      → Inv fuel head rounds n xs' s'
  moved_outside same lock' out =
      moved fuel head rounds n xs xs' s s' i t inv less m mine
        (λ j l other.
          subst (λ h. IsFine fuel head rounds h (s.threads j)) (sym same) (inv.fine j l))
        (λ inside. absurd (ground arith))
        (λ j l other inside. (lock' ∙ (inv.alone j l inside).0, out))

-- A move of a thread that changes neither the list nor what it has still to do.
pub record Stays (fuel head : ℕ) (s s' : System) (i : ℕ) (t : Thread) : Type 0 where
  pub threads' : s'.threads ≡ put_thread i t s.threads
  pub heap' : s'.heap ≡ s.heap
  pub missed' : s'.missed ≡ s.missed
  pub to_insert' : t.to_insert ≡ (s.threads i).to_insert
  pub to_delete' : t.to_delete ≡ (s.threads i).to_delete
  pub knows' : Knows fuel head s.heap t.place (s.threads i).to_insert (s.threads i).to_delete

module _ (fuel head rounds n : ℕ) (xs : List ℕ) (s s' : System) (i : ℕ) (t : Thread)
    (inv : Inv fuel head rounds n xs s) (less : i < n) (st : Stays fuel head s s' i t) where
  stays-Moves : Moves head n xs xs s s' i t
  stays-Moves = record {
    threads' = st.threads';
    missed' = st.missed' ∙ inv.missed;
    ring' = subst (λ h. IsRing h head xs) (sym st.heap') inv.ring;
    proper' = inv.proper;
    balance = let a = ap length st.to_insert' in let b = ap length st.to_delete' in omega arith;
    fewer = λ e i'. subst (λ es. has e es ≡ true) st.to_insert' i';
    new' = λ j e l i'. elim (ℕ_discrete j i) [
      | yes at ↦
          let mine : has e t.to_insert ≡ true =
            subst (λ f. has e f.to_insert ≡ true) (put-here i j t s.threads at) i' in
          inv.new i e less (subst (λ es. has e es ≡ true) st.to_insert' mine)
      | no other ↦
          inv.new j e l (subst (λ f. has e f.to_insert ≡ true) (put-other i j t s.threads other) i')
    ];
  }

  stays-IsFine : IsFine fuel head rounds s'.heap t
  stays-IsFine =
      let f = inv.fine i less in
      record {
        order = rw (st.to_insert', st.to_delete') f.order;
        once = rw st.to_insert' f.once;
        knows = rw (st.to_insert', st.to_delete', st.heap') st.knows';
      }

  pub stays_alone :
      Others n s i → (holds t.place ≡ true → s'.lock 0 ≡ 1) → Inv fuel head rounds n xs s'
  stays_alone = moved_alone fuel head rounds n xs xs s s' i t inv less stays-Moves stays-IsFine

  pub stays_outside : s'.lock 0 ≡ s.lock 0 → holds t.place ≡ false → Inv fuel head rounds n xs s'
  stays_outside =
      moved_outside fuel head rounds n xs xs s s' i t inv less stays-Moves stays-IsFine st.heap'

  pub stays_taking : s.lock 0 ≡ 0 → s'.lock 0 ≡ 1 → Inv fuel head rounds n xs s'
  stays_taking free taken =
      stays_alone (λ j l other. nobody fuel head rounds n xs s inv free j l) (λ inside. taken)

  pub stays_inside :
      holds (s.threads i).place ≡ true → s'.lock 0 ≡ s.lock 0 → Inv fuel head rounds n xs s'
  stays_inside inside same =
      let (taken, out) = inv.alone i less inside in stays_alone out (λ i'. same ∙ taken)

  pub stays_leaving :
      holds (s.threads i).place ≡ true → holds t.place ≡ false → Inv fuel head rounds n xs s'
  stays_leaving inside left =
      stays_alone (inv.alone i less inside).1 (λ inside'. absurd (ground arith))
