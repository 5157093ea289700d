-- ===== src/SortedList/Threads/Start.antt =====
-- lab4/sltest.c: the lists, the elements and the threads as main sets them up.
use cs111winter.Base.{
  ℕ, zero, suc, ◌+◌, ◌-◌, ◌*◌, ◌≤◌, ◌<◌, ◌≡◌, ◌≢◌, inl, inr, refl, ap, true, false, List, [], ◌∷◌,
  arith, length, Bool-cases, ltb, ◌==◌, if◌then◌else◌, ◌⊎◌,
}
use cs111winter.SortedList.{Heap, Cell}
use cs111winter.SortedList.Ring.{has, ◌∉◌, Distinct, Chain, IsRing}
use cs111winter.SortedList.Threads.{System, created}

abbrev pub put_cell : ℕ → Cell → Heap → Heap
put_cell a c h x = if x == a then c else h x

-- Each list is a head that points to itself.
unfoldable pub init_lists : (n_lists : ℕ) → (list : ℕ → ℕ) → Heap → Heap
init_lists zero list h = h
init_lists (suc k) list h =
    put_cell (list k) (record { prev = list k; next = list k; key = [] }) (init_lists k list h)

unfoldable pub init_elements :
    (n_elements : ℕ) → (element : ℕ → ℕ) → (keys : ℕ → List ℕ) → Heap → Heap
init_elements zero element keys h = h
init_elements (suc k) element keys h =
    put_cell (element k) (record { prev = 0; next = 0; key = keys k })
      (init_elements k element keys h)

-- The `k` elements from the one of index `from` on: those of thread i start at i * iterations.
unfoldable pub elements_from : (k from : ℕ) → (element : ℕ → ℕ) → List ℕ
elements_from zero from element = []
elements_from (suc k) from element = element from ∷ elements_from k (from + 1) element

-- The addresses of the lists and of the elements are what malloc has returned.
unfoldable pub begun :
    (n_lists n_threads iterations : ℕ)
    → (list element : ℕ → ℕ) → (keys : ℕ → List ℕ) → Heap
    → System
unfolding init_lists init_elements elements_from
begun n_lists n_threads iterations list element keys h =
    created (λ i. elements_from iterations (i * iterations) element)
      (init_elements (n_threads * iterations) element keys (init_lists n_lists list h))

-- malloc returns no null pointer, and the places that it returns are not the same.
pub record IsAllocated (list element : ℕ → ℕ) : Type 0 where
  pub list_proper : list 0 ≢ 0
  pub proper : (a : ℕ) → element a ≢ 0
  pub not_list : (a : ℕ) → element a ≢ list 0
  pub different : (a b : ℕ) → element a ≡ element b → a ≡ b

rounds-below : (k i j : ℕ) → i < j → i * k + k ≤ j * k
rounds-below k i j less =
    let d = j - suc i in let e : j ≡ d + suc i = omega (arith, less) in rw e (ground arith)

parts-apart : (k i j a : ℕ) → j ≢ i → i * k ≤ a → a < i * k + k → (a < j * k) ⊎ (j * k + k ≤ a)
parts-apart k i j a other lo hi = elim (Bool-cases (ltb i j)) [
  | inl less ↦ inl (omega (arith, rounds-below k i j (ground arith)))
  | inr not_less ↦ inr (omega (arith, rounds-below k j i (ground arith)))
]

module _ (list element : ℕ → ℕ) (al : IsAllocated list element) where
  init_elements-list :
      (k : ℕ) (keys : ℕ → List ℕ) (h : Heap) → init_elements k element keys h (list 0) ≡ h (list 0)
  unfolding init_elements
  init_elements-list zero keys h = refl
  init_elements-list (suc k) keys h =
      let other : (list 0 == element k) ≡ false = let o = al.not_list k in ground arith in
      rw other (init_elements-list k keys h)

  pub begun-IsRing :
      (k : ℕ) (keys : ℕ → List ℕ) (h : Heap)
      → IsRing (init_elements k element keys (init_lists 1 list h)) (list 0) []
  unfolding Chain Distinct init_lists
  begun-IsRing k keys h =
      let same = init_elements-list k keys (init_lists 1 list h) in
      record { chain = (rw same (ground arith), rw same (ground arith)); distinct = (refl, tt) }

  -- An element of a thread has an index in the thread's part.
  elements_from-has :
      (k from e : ℕ)
      → has e (elements_from k from element) ≡ true
      → (a : ℕ) × (from ≤ a) × (a < from + k) × (e ≡ element a)
  unfolding elements_from
  elements_from-has zero from e i = absurd (ground arith)
  elements_from-has (suc k) from e i = elim (Bool-cases (e == element from)) [
    | inl here ↦ (from, omega arith, omega arith, ground arith)
    | inr other ↦
        let (a, lo, hi, same) = elements_from-has k (from + 1) e (ground arith) in
        (a, omega arith, omega arith, same)
  ]

  pub length-elements_from : (k from : ℕ) → length (elements_from k from element) ≡ k
  unfolding elements_from
  length-elements_from zero from = refl
  length-elements_from (suc k) from = ap suc (length-elements_from k (from + 1))

  ∉-elements_from :
      (k from b : ℕ) → (b < from) ⊎ (from + k ≤ b) → element b ∉ elements_from k from element
  ∉-elements_from k from b out =
      elim (Bool-cases (has (element b) (elements_from k from element))) [
        | inr o ↦ o
        | inl i ↦
            let (a, lo, hi, same) = elements_from-has k from (element b) i in
            let e = al.different b a same in absurd (ground arith)
      ]

  pub elements_from-Distinct : (k from : ℕ) → Distinct (elements_from k from element)
  unfolding elements_from Distinct
  elements_from-Distinct zero from = tt
  elements_from-Distinct (suc k) from =
      (∉-elements_from k (from + 1) from (inl (omega arith)), elements_from-Distinct k (from + 1))

  pub elements_from-new :
      (k from e : ℕ) → has e (elements_from k from element) ≡ true → e ∉ (0 ∷ list 0 ∷ [])
  elements_from-new k from e i =
      let (a, lo, hi, same) = elements_from-has k from e i in
      let p = al.proper a in let q = al.not_list a in ground arith

  -- The parts of two threads have no element in common.
  pub elements_from-apart :
      (k i j e : ℕ)
      → j ≢ i
      → has e (elements_from k (i * k) element) ≡ true
      → e ∉ elements_from k (j * k) element
  elements_from-apart k i j e other in_i =
      let (a, lo, hi, same) = elements_from-has k (i * k) e in_i in
      rw same (∉-elements_from k (j * k) a (parts-apart k i j a other lo hi))
