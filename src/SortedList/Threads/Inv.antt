-- ===== src/SortedList/Threads/Inv.antt =====
-- The invariant of the threads of sltest.c on one list under its lock.
use cs111winter.Base.{
  ℕ, ◌+◌, ◌-◌, ◌≤◌, ◌<◌, ◌≡◌, ◌≢◌, inl, inr, ap, sym, ◌∙◌, Bool, true, false, List, [], ◌∷◌, some,
  ◌==◌, ltb, arith, length, Bool-cases,
}
use native.Mathlib.Decide.{ℕ_discrete}
use mathlib.Core.Path.{subst}
use cs111winter.SortedList.{Heap, gone, place_from, delete}
use cs111winter.SortedList.Ring.{has, ◌∉◌, Distinct, IsRing}
use cs111winter.SortedList.Threads.{
  Place, between, inserting, placed, deleting, chosen, checked, leaving, collecting, scattering,
  Thread, System, put_thread, unlink,
}
use cs111winter.Base.{sum_to, sum_to-moves}

-- Whether a thread holds the lock of the list.
abbrev pub holds : Place → Bool
holds between = false
holds (inserting e) = true
holds (placed e n) = true
holds (deleting e) = true
holds (chosen j target) = true
holds (checked j target p n) = true
holds (leaving j) = true
holds (collecting j) = ltb 0 j
holds (scattering j) = j == 0

module _ (fuel head : ℕ) where
  -- What a thread knows at its place.
  unfoldable pub Knows : Heap → Place → (todo undo : List ℕ) → Type 0
  Knows h between todo undo = Unit {0}
  Knows h (inserting e) todo undo = (es : List ℕ) × (todo ≡ e ∷ es)
  Knows h (placed e n) todo undo =
      (es : List ℕ) × (todo ≡ e ∷ es) × (place_from fuel h head (h e).key (h head).next ≡ some n)
  Knows h (deleting e) todo undo = (es : List ℕ) × (todo ≡ []) × (undo ≡ e ∷ es)
  Knows h (chosen j target) todo undo =
      (j ≡ 0) × ((e : ℕ) × (es : List ℕ) × (todo ≡ []) × (undo ≡ e ∷ es) × (target ≡ (h head).next))
  Knows h (checked j target p n) todo undo =
      (j ≡ 0)
      × ((e : ℕ) × (es : List ℕ) × (todo ≡ [])
          × (undo ≡ e ∷ es)
          × (target ≡ (h head).next)
          × (delete target h ≡ gone (unlink p n target h)))
  Knows h (leaving j) todo undo = j ≡ 0
  Knows h (collecting j) todo undo = j ≤ 1
  Knows h (scattering j) todo undo = j ≤ 1

  pub outside-Knows :
      (h h' : Heap) (p : Place) (todo undo : List ℕ)
      → holds p ≡ false
      → Knows h p todo undo
      → Knows h' p todo undo
  unfolding Knows
  outside-Knows h h' between todo undo out k = k
  outside-Knows h h' (inserting e) todo undo out k = absurd (ground arith)
  outside-Knows h h' (placed e n) todo undo out k = absurd (ground arith)
  outside-Knows h h' (deleting e) todo undo out k = absurd (ground arith)
  outside-Knows h h' (chosen j target) todo undo out k = absurd (ground arith)
  outside-Knows h h' (checked j target p n) todo undo out k = absurd (ground arith)
  outside-Knows h h' (leaving j) todo undo out k = absurd (ground arith)
  outside-Knows h h' (collecting j) todo undo out k = k
  outside-Knows h h' (scattering j) todo undo out k = k

  pub record IsFine (rounds : ℕ) (h : Heap) (t : Thread) : Type 0 where
    pub order : (length t.to_insert ≤ length t.to_delete) × (length t.to_delete ≤ rounds)
    pub once : Distinct t.to_insert
    pub knows : Knows h t.place t.to_insert t.to_delete

-- A thread's elements that are in the list, or others that it is still to delete for them.
abbrev pub share : Thread → ℕ
share t = length t.to_delete - length t.to_insert

abbrev pub shares : (ℕ → Thread) → ℕ → ℕ
shares threads i = share (threads i)

-- The elements `xs` are in the list, and those that are to be inserted are others.
pub record Inv (fuel head rounds n : ℕ) (xs : List ℕ) (s : System) : Type 0 where
  pub ring : IsRing s.heap head xs
  pub proper : 0 ∉ (head ∷ xs)
  pub missed : s.missed ≡ 0
  pub sum : length xs ≡ sum_to n (shares s.threads)
  pub fine : (i : ℕ) → i < n → IsFine fuel head rounds s.heap (s.threads i)
  pub new : (i e : ℕ) → i < n → has e (s.threads i).to_insert ≡ true → e ∉ (0 ∷ head ∷ xs)
  pub apart :
      (i j e : ℕ)
      → (i < n) × (j < n)
      → j ≢ i
      → has e (s.threads i).to_insert ≡ true
      → e ∉ (s.threads j).to_insert
  pub alone :
      (i : ℕ)
      → i < n
      → holds (s.threads i).place ≡ true
      → (s.lock 0 ≡ 1) × ((j : ℕ) → j < n → j ≢ i → holds (s.threads j).place ≡ false)

-- With the lock free, nobody holds it.
pub nobody :
    (fuel head rounds n : ℕ) (xs : List ℕ) (s : System)
    → Inv fuel head rounds n xs s
    → s.lock 0 ≡ 0
    → (j : ℕ) → j < n
    → holds (s.threads j).place ≡ false
nobody fuel head rounds n xs s inv free j less = elim (Bool-cases (holds (s.threads j).place)) [
  | inl e ↦ let taken = (inv.alone j less e).0 in absurd (omega arith)
  | inr e ↦ e
]

not_has : (e : ℕ) (es : List ℕ) → ¬ (has e es ≡ true) → e ∉ es
not_has e es out = elim (Bool-cases (has e es)) [ inl i ↦ absurd (out i) | inr o ↦ o ]

-- Thread `i` becomes `t`, and the list has the elements `xs'`.
pub record Moves (head n : ℕ) (xs xs' : List ℕ) (s s' : System) (i : ℕ) (t : Thread) : Type 0 where
  pub threads' : s'.threads ≡ put_thread i t s.threads
  pub missed' : s'.missed ≡ 0
  pub ring' : IsRing s'.heap head xs'
  pub proper' : 0 ∉ (head ∷ xs')
  pub balance : length xs' + share (s.threads i) ≡ length xs + share t
  pub fewer : (e : ℕ) → has e t.to_insert ≡ true → has e (s.threads i).to_insert ≡ true
  pub new' :
      (j e : ℕ) → j < n → has e (put_thread i t s.threads j).to_insert ≡ true → e ∉ (0 ∷ head ∷ xs')

module _ (fuel head rounds n : ℕ) (xs xs' : List ℕ) (s s' : System) (i : ℕ) (t : Thread)
    (inv : Inv fuel head rounds n xs s) (less : i < n) (m : Moves head n xs xs' s s' i t)
    (mine : IsFine fuel head rounds s'.heap t) where
  at_i : s'.threads i ≡ t
  at_i = ap (λ f. f i) m.threads' ∙ ground arith

  at_other : (j : ℕ) → j ≢ i → s'.threads j ≡ s.threads j
  at_other j other = ap (λ f. f j) m.threads' ∙ ground arith

  pub moved :
      ((j : ℕ) → j < n → j ≢ i → IsFine fuel head rounds s'.heap (s.threads j))
      → (holds t.place ≡ true
          → (s'.lock 0 ≡ 1) × ((j : ℕ) → j < n → j ≢ i → holds (s.threads j).place ≡ false))
      → ((j : ℕ)
          → j < n
          → j ≢ i
          → holds (s.threads j).place ≡ true
          → (s'.lock 0 ≡ 1) × (holds t.place ≡ false))
      → Inv fuel head rounds n xs' s'
  moved others keeps spares = record {
    ring = m.ring';
    proper = m.proper';
    missed = m.missed';
    sum =
        let change =
          sum_to-moves n i (shares s.threads) (shares s'.threads) less
            (λ j other. ap share (at_other j other)) in
        let here = ap share at_i in let was = inv.sum in let balance = m.balance in omega arith;
    fine = λ j l. elim (ℕ_discrete j i) [
      | yes e ↦ rw (e, at_i) mine
      | no other ↦ rw (at_other j other) (others j l other)
    ];
    new = λ j e l i'. m.new' j e l (subst (λ f. has e (f j).to_insert ≡ true) m.threads' i');
    apart = λ j k e l other i'. elim (ℕ_discrete j i) [
      | yes at ↦
          let was = m.fewer e (rw (← at_i) (rw (← at) i')) in
          let other' : k ≢ i = λ f. other (f ∙ sym at) in
          rw (at_other k other') (inv.apart i k e (less, l.1) other' was)
      | no not_i ↦
          let was : has e (s.threads j).to_insert ≡ true = rw (← at_other j not_i) i' in
          elim (ℕ_discrete k i) [
            | yes at ↦
                rw (at, at_i)
                  (not_has e t.to_insert (λ h.
                    let out = inv.apart j i e (l.0, less) (λ f. not_i (sym f)) was in
                    let in_i = m.fewer e h in absurd (ground arith)))
            | no not_i' ↦ rw (at_other k not_i') (inv.apart j k e l other was)
          ]
    ];
    alone = λ j l inside. elim (ℕ_discrete j i) [
      | yes e ↦
          let (lock', out) = keeps (rw (← at_i) (rw (← e) inside)) in
          (
            lock',
            λ k l' other.
                let other' : k ≢ i = λ f. other (f ∙ sym e) in
                rw (at_other k other') (out k l' other'),
          )
      | no not_i ↦
          let inside' : holds (s.threads j).place ≡ true = rw (← at_other j not_i) inside in
          let (lock', out) = spares j l not_i inside' in
          (
            lock',
            λ k l' other. elim (ℕ_discrete k i) [
              | yes e ↦ rw (e, at_i) out
              | no not_i' ↦ rw (at_other k not_i') ((inv.alone j l inside').1 k l' other)
            ],
          )
    ];
  }
