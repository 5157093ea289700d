-- ===== src/Schedos/Laws.antt =====
-- What SchedOS runs next under strict priority and under settable priorities.
use cs111winter.Base.{
  ◌&&◌, ◌==◌, sym, ap, ◌∙◌, ℕ, zero, suc, ◌+◌, ◌-◌, ◌%◌, ◌^◌, ◌≤◌, ◌<◌, ◌≡◌, ◌⊎◌, inl, inr, refl,
  Bool, true, false, Option, none, some, arith, Bool-cases,
}
use native.Mathlib.Decide.{ℕ_discrete}
use cs111winter.Schedos.{
  spin, stray, top_priority, run, run_option, ready, Next, schedule_strict, schedule_priority,
  max_from, Kernel, Process, int_max, pick_from, first_from,
}

module _ (test : Process → Bool) (procs : ℕ → Process) where
  -- Process `j` is the first of the `k` from `lo` on that passes the test, or none of them does.
  abbrev First : (lo k : ℕ) → Option ℕ → Type 0
  First lo k o =
      ((j : ℕ) × (o ≡ some j)
        × (lo ≤ j)
        × (j < lo + k)
        × (test (procs j) ≡ true)
        × ((i : ℕ) → lo ≤ i → i < j → test (procs i) ≡ false))
      ⊎ ((o ≡ none) × ((i : ℕ) → lo ≤ i → i < lo + k → test (procs i) ≡ false))

  first_from-First : (k lo : ℕ) → First lo k (first_from k test procs lo)
  unfolding first_from
  first_from-First zero lo = inr (refl, λ i a b. absurd (omega arith))
  first_from-First (suc k) lo = elim (Bool-cases (test (procs lo))) [
    | inl hit ↦
        rw hit (inl (lo, refl, omega arith, omega arith, hit, λ i a b. absurd (omega arith)))
    | inr miss ↦ rw miss (elim (first_from-First k (lo + 1)) [
      | inl (j, e, a, b, hit, before) ↦ inl (
        j,
        e,
        omega arith,
        omega arith,
        hit,
        λ i c d. elim (ℕ_discrete i lo) [
          | yes one ↦ rw one miss
          | no more ↦ before i (omega arith) d
        ],
      )
      | inr (e, all) ↦ inr (
        e,
        λ i a b. elim (ℕ_discrete i lo) [
          | yes one ↦ rw one miss
          | no more ↦ all i (omega arith) (omega arith)
        ],
      )
    ])
  ]

  -- The search in the circle finds a process that passes, or none of the next `k` passes.
  abbrev Picked : (pid k : ℕ) → Option ℕ → Type 0
  Picked pid k o =
      ((j : ℕ) × (o ≡ some j) × (j < 5) × (test (procs j) ≡ true))
      ⊎ ((o ≡ none) × ((e : ℕ) → 1 ≤ e → e ≤ k → test (procs ((pid + e) % 5)) ≡ false))

  step_on : (pid e : ℕ) → 1 ≤ e → ((pid + 1) % 5 + (e - 1)) % 5 ≡ (pid + e) % 5
  step_on pid e h = omega arith

  pick_from-Picked : (k pid : ℕ) → Picked pid k (pick_from k test procs pid)
  unfolding pick_from
  pick_from-Picked zero pid = inr (refl, λ e a b. absurd (omega arith))
  pick_from-Picked (suc k) pid = elim (Bool-cases (test (procs ((pid + 1) % 5)))) [
    | inl hit ↦ rw hit (inl ((pid + 1) % 5, refl, omega arith, hit))
    | inr miss ↦ rw miss (elim (pick_from-Picked k ((pid + 1) % 5)) [
      | inl (j, e, a, hit) ↦ inl (j, e, a, hit)
      | inr (e, all) ↦ inr (
        e,
        λ i a b. elim (ℕ_discrete i 1) [
          | yes one ↦ rw one miss
          | no more ↦ rw (← step_on pid i a) (all (i - 1) (omega arith) (omega arith))
        ],
      )
    ])
  ]

  -- A search that fails has seen the whole table.
  pick_from-whole :
      (pid : ℕ)
      → ((e : ℕ) → 1 ≤ e → e ≤ 5 → test (procs ((pid + e) % 5)) ≡ false)
      → (i : ℕ) → i < 5
      → test (procs i) ≡ false
  pick_from-whole pid all i h =
      let turn : ℕ = (i + 4 - pid % 5) % 5 + 1 in
      let there : (pid + turn) % 5 ≡ i = omega arith in
      rw (← there) (all turn (omega arith) (omega arith))

int_max-small :
    (a b : ℕ)
    → a < 2 ^ 31
    → b < 2 ^ 31
    → (a ≤ int_max a b)
      × (b ≤ int_max a b)
      × (int_max a b < 2 ^ 31)
      × ((int_max a b ≡ a) ⊎ (int_max a b ≡ b))
int_max-small a b ha hb = ground arith

module _ (test : Process → Bool) (value : Process → ℕ) (procs : ℕ → Process) where
  -- `m` is the largest of `acc` and the values of the processes of the test.
  record IsMax (lo k acc m : ℕ) : Type 0 where
    least : (acc ≤ m) × (m < 2 ^ 31)
    above : (i : ℕ) → lo ≤ i → i < lo + k → test (procs i) ≡ true → value (procs i) ≤ m
    taken :
        (m ≡ acc)
        ⊎ ((i : ℕ) × (lo ≤ i) × (i < lo + k) × (test (procs i) ≡ true) × (value (procs i) ≡ m))

  max_from-IsMax :
      (k lo acc : ℕ)
      → acc < 2 ^ 31
      → ((i : ℕ) → lo ≤ i → i < lo + k → test (procs i) ≡ true → value (procs i) < 2 ^ 31)
      → IsMax lo k acc (max_from k test value procs lo acc)
  unfolding max_from
  max_from-IsMax zero lo acc h small = record {
    least = omega arith;
    above = λ i a b c. absurd (omega arith);
    taken = inl refl;
  }
  max_from-IsMax (suc k) lo acc h small = elim (Bool-cases (test (procs lo))) [
    | inl hit ↦
        let (a, b, c, d) =
          int_max-small acc (value (procs lo)) h (small lo (omega arith) (omega arith) hit) in
        let rest =
          max_from-IsMax k (lo + 1) (int_max acc (value (procs lo))) c
            (λ i x y. small i (omega arith) (omega arith)) in
        let least = rest.least in
        rw hit (record {
          least = omega arith;
          above = λ i x y t. elim (ℕ_discrete i lo) [
            | yes one ↦ rw one (omega arith)
            | no more ↦ rest.above i (omega arith) (omega arith) t
          ];
          taken = elim rest.taken [
            | inl e ↦ elim d [
              | inl f ↦ inl (e ∙ f)
              | inr f ↦ inr (lo, omega arith, omega arith, hit, sym f ∙ sym e)
            ]
            | inr (i, x, y, t, e) ↦ inr (i, omega arith, omega arith, t, e)
          ];
        })
    | inr miss ↦
        let rest = max_from-IsMax k (lo + 1) acc h (λ i x y. small i (omega arith) (omega arith)) in
        let least = rest.least in
        rw miss (record {
          least = omega arith;
          above = λ i x y t. elim (ℕ_discrete i lo) [
            | yes one ↦
                let clash : true ≡ false = sym t ∙ ap (λ z. test (procs z)) one ∙ miss in
                absurd (ground arith)
            | no more ↦ rest.above i (omega arith) (omega arith) t
          ];
          taken = elim rest.taken [
            | inl e ↦ inl e
            | inr (i, x, y, t, e) ↦ inr (i, omega arith, omega arith, t, e)
          ];
        })
  ]

-- The outcomes of strict priority.
abbrev pub Strict : Kernel → Next → Type 0
Strict k next =
    ((j : ℕ) × (next ≡ run (record k { current = j }))
      × (1 ≤ j)
      × (j < 5)
      × (ready (k.procs j) ≡ true)
      × ((i : ℕ) → 1 ≤ i → i < j → ready (k.procs i) ≡ false))
    ⊎ ((next ≡ stray) × ((i : ℕ) → 1 ≤ i → i < 5 → ready (k.procs i) ≡ false))

-- Strict priority runs the runnable process with the lowest number and changes nothing else. When
-- no process is runnable it runs the memory behind the table.
pub schedule_strict_lem : (k : Kernel) → Strict k (schedule_strict k)
unfolding schedule_strict run_option
schedule_strict_lem k = elim (first_from-First ready k.procs 4 1) [
  | inl (j, e, a, b, hit, before) ↦
      inl (j, ap (λ o. run_option stray o k) e, a, omega arith, hit, before)
  | inr (e, all) ↦ inr (ap (λ o. run_option stray o k) e, λ i a b. all i a (omega arith))
]

and_parts : (a : Bool) (x y : ℕ) → (a && (x == y)) ≡ true → (a ≡ true) × (x ≡ y)
and_parts a x y e = (ground arith, ground arith)

and_join : (a : Bool) (x y : ℕ) → a ≡ true → x ≡ y → (a && (x == y)) ≡ true
and_join a x y e f = ground arith

-- A runnable process has the top priority.
best_of :
    (k : Kernel) (i : ℕ)
    → 1 ≤ i
    → i < 5
    → ready (k.procs i) ≡ true
    → (top : ℕ) → IsMax ready (λ p. p.priority) k.procs 1 4 0 top
    → (j : ℕ) × (1 ≤ j) × (j < 5) × ((ready (k.procs j) && ((k.procs j).priority == top)) ≡ true)
best_of k i lo hi runs top m = elim m.taken [
  | inl e ↦
      let low = m.above i lo (omega arith) runs in (i, lo, hi, and_join _ _ top runs (omega arith))
  | inr (j, a, b, t, e) ↦ (j, a, omega arith, and_join _ _ top t e)
]

-- With settable priorities, of which none is negative, the process that runs is runnable and no
-- runnable process has a higher priority; there is such a process whenever one is runnable, so that
-- the kernel does not spin.
pub schedule_priority_lem :
    (pid : ℕ) (k : Kernel)
    → ((i : ℕ) → 1 ≤ i → i < 5 → ready (k.procs i) ≡ true → (k.procs i).priority < 2 ^ 31)
    → (i : ℕ) → 1 ≤ i
    → i < 5
    → ready (k.procs i) ≡ true
    → (j : ℕ) × (schedule_priority pid k ≡ run (record k { current = j }))
      × (j < 5)
      × (ready (k.procs j) ≡ true)
      × ((l : ℕ)
          → 1 ≤ l
          → l < 5
          → ready (k.procs l) ≡ true
          → (k.procs l).priority ≤ (k.procs j).priority)
unfolding schedule_priority run_option top_priority
schedule_priority_lem pid k small i lo hi runs =
    let value : Process → ℕ = λ p. p.priority in
    let top = max_from 4 ready value k.procs 1 0 in
    let m =
      max_from-IsMax ready value k.procs 4 1 0 (omega arith) (λ x a b. small x a (omega arith)) in
    let test : Process → Bool = λ p. ready p && (p.priority == top) in
    let (best, b1, b2, hit) = best_of k i lo hi runs top m in
    elim (pick_from-Picked test k.procs 5 pid) [
      | inl (j, e, near, ok) ↦
          let (r, p) = and_parts (ready (k.procs j)) _ _ ok in
          (
            j,
            ap (λ o. run_option spin o k) e,
            near,
            r,
            λ l a b t. rw p (m.above l a (omega arith) t),
          )
      | inr (e, all) ↦
          let clash : true ≡ false = sym hit ∙ pick_from-whole test k.procs pid all best b2 in
          absurd (ground arith)
    ]
