-- ===== src/SortedList/Threads/Finish.antt =====
-- Some thread can always go on: no walk is endless, and a lock that is taken has its holder.
use cs111winter.Base.{
  ℕ, zero, suc, ◌*◌, ◌<◌, ◌≡◌, ◌≢◌, ◌⊎◌, inl, inr, ◌∙◌, true, false, Bool, List, [], ◌∷◌, some,
  arith, Bool-cases, not,
}
use native.Mathlib.Decide.{ℕ_discrete}
use cs111winter.SortedList.{place_from, length as list_length}
use cs111winter.SortedList.Ring.{Distinct}
use cs111winter.SortedList.Refine.{Chain-Follows}
use cs111winter.SortedList.Laws.{place_from_lem}
use cs111winter.SortedList.Length.{list_length_lem}
use cs111winter.SortedList.Threads.{
  Place, between, inserting, placed, deleting, chosen, checked, leaving, collecting, scattering,
  Thread, System,
}
use cs111winter.SortedList.Threads.Inv.{holds, Inv}
use cs111winter.SortedList.Threads.Changes.{Inv-length}
use cs111winter.SortedList.Threads.Turn.{keeps, Returns, Turn}
use cs111winter.SortedList.Threads.Rank.{is_through, Ready}

-- A thread with the property, or none.
search :
    (n : ℕ) (P : ℕ → Bool) → ((i : ℕ) × (i < n) × (P i ≡ true)) ⊎ ((i : ℕ) → i < n → P i ≡ false)
search zero P = inr (λ i less. absurd (omega arith))
search (suc n) P = elim (Bool-cases (P n)) [
  | inl this ↦ inl (n, omega arith, this)
  | inr other ↦ elim (search n P) [
    | inl (i, less, e) ↦ inl (i, omega arith, e)
    | inr others ↦ inr (λ i less. elim (ℕ_discrete i n) [
      | yes e ↦ rw e other
      | no ne ↦ others i (omega (arith, ne))
    ])
  ]
]

abbrev pub is_over : Thread → Bool
is_over t = is_through t.to_insert t.to_delete t.measured

-- Locks that nobody has are free.
pub record Locks (n : ℕ) (s : System) : Type 0 where
  pub list_free : ((i : ℕ) → i < n → holds (s.threads i).place ≡ false) → s.lock 0 ≡ 0
  pub len_free : ((i : ℕ) → i < n → keeps (s.threads i).place ≡ false) → s.len_lock ≡ 0

module _ (n i : ℕ) (less : i < n) where
  returned :
      (threads threads' : ℕ → Thread) (has' : Place → Bool) (lock lock' : ℕ)
      → ((j : ℕ) → j ≢ i → threads' j ≡ threads j)
      → Returns (has' (threads i).place) (has' (threads' i).place) lock lock'
      → (((j : ℕ) → j < n → has' (threads j).place ≡ false) → lock ≡ 0)
      → ((j : ℕ) → j < n → has' (threads' j).place ≡ false)
      → lock' ≡ 0
  returned threads threads' has' lock lock' others r was out = elim r [
    | inl inside ↦ let o = out i less in absurd (ground arith)
    | inr (inl free) ↦ free
    | inr (inr (same, had)) ↦
        same
        ∙ was (λ j l. elim (ℕ_discrete j i) [
          | yes e ↦ rw e had
          | no other ↦ rw (← others j other) (out j l)
        ])
  ]

  pub Turn-Locks : (s s' : System) → Turn s s' i → Locks n s → Locks n s'
  Turn-Locks s s' m l = record {
    list_free =
        returned s.threads s'.threads holds (s.lock 0) (s'.lock 0) m.others m.lock' l.list_free;
    len_free =
        returned s.threads s'.threads keeps s.len_lock s'.len_lock m.others m.len_lock' l.len_free;
  }

module _ (fuel : ℕ) (list : ℕ → ℕ) (rounds n : ℕ) (xs : List ℕ) (s : System)
    (inv : Inv fuel (list 0) rounds n xs s) (enough : n * rounds < fuel) where
  -- The walk over the list ends.
  walk-ends :
      (key : List ℕ)
      → (m : ℕ) × (place_from fuel s.heap (list 0) key (s.heap (list 0)).next ≡ some m)
  unfolding Distinct
  walk-ends key =
      let ring = inv.ring in
      let bound = Inv-length fuel (list 0) rounds n xs s inv in
      let place =
        place_from_lem fuel s.heap (list 0) key (list 0) xs
          (Chain-Follows s.heap (list 0) xs (list 0) ring.chain ring.distinct.0) (omega arith) in
      (_, place.found)

  count-ends : (m : ℕ) × (list_length fuel (list 0 ∷ []) s.heap ≡ some m)
  unfolding Distinct
  count-ends =
      let ring = inv.ring in
      let bound = Inv-length fuel (list 0) rounds n xs s inv in
      (
        _,
        list_length_lem fuel s.heap (list 0) xs
            (Chain-Follows s.heap (list 0) xs (list 0) ring.chain ring.distinct.0) (omega arith),
      )

  -- A thread with the lock of the list is ready, and one with len_lock while that lock is free.
  holder-Ready :
      (t : Thread) (p : Place)
      → (holds p ≡ true) ⊎ ((keeps p ≡ true) × (s.lock 0 ≡ 0))
      → Ready fuel (list 0) s t p
  unfolding Ready
  holder-Ready t between h = absurd (ground arith)
  holder-Ready t (inserting e) h = walk-ends (s.heap e).key
  holder-Ready t (placed e m) h = tt
  holder-Ready t (deleting e) h = tt
  holder-Ready t (chosen j target) h = tt
  holder-Ready t (checked j target p m) h = tt
  holder-Ready t (leaving j) h = tt
  holder-Ready t (collecting j) h =
      (λ z. elim h [ inl inside ↦ absurd (ground arith) | inr (keep, free) ↦ free ], count-ends)
  holder-Ready t (scattering j) h = tt

  between-Ready :
      (t : Thread) (p : Place)
      → holds p ≡ false
      → keeps p ≡ false
      → s.lock 0 ≡ 0
      → s.len_lock ≡ 0
      → is_through t.to_insert t.to_delete t.measured ≡ false
      → Ready fuel (list 0) s t p
  unfolding Ready
  between-Ready t between h k free len more = (free, len, more)
  between-Ready t (inserting e) h k free len more = absurd (ground arith)
  between-Ready t (placed e m) h k free len more = tt
  between-Ready t (deleting e) h k free len more = tt
  between-Ready t (chosen j target) h k free len more = tt
  between-Ready t (checked j target p m) h k free len more = tt
  between-Ready t (leaving j) h k free len more = tt
  between-Ready t (collecting j) h k free len more = absurd (ground arith)
  between-Ready t (scattering j) h k free len more = tt

  -- Unless all are through, some thread is ready.
  pub some-Ready :
      Locks n s
      → ((i : ℕ) × (i < n) × Ready fuel (list 0) s (s.threads i) (s.threads i).place)
        ⊎ ((i : ℕ) → i < n → is_over (s.threads i) ≡ true)
  some-Ready l = elim (search n (λ i. holds (s.threads i).place)) [
    | inl (i, less, h) ↦ inl (i, less, holder-Ready _ _ (inl h))
    | inr outside ↦
        let free = l.list_free outside in
        elim (search n (λ i. keeps (s.threads i).place)) [
          | inl (i, less, k) ↦ inl (i, less, holder-Ready _ _ (inr (k, free)))
          | inr apart ↦
              let len = l.len_free apart in
              elim (search n (λ i. not (is_over (s.threads i)))) [
                | inl (i, less, more) ↦ inl (
                  i,
                  less,
                  between-Ready _ _ (outside i less) (apart i less) free len (ground arith),
                )
                | inr through ↦ inr (λ i less. let e = through i less in ground arith)
              ]
        ]
  ]
