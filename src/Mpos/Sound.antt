-- ===== src/Mpos/Sound.antt =====
-- When the process table of MiniprocOS is in order, and changes to it that are harmless.
use cs111winter.Base.{
  ℕ, ◌≤◌, ◌<◌, ◌≡◌, ◌≢◌, ◌⊎◌, inl, inr, refl, sym, ap, ◌∙◌, true, false, arith, Bool-cases,
}
use native.Mathlib.Decide.{ℕ_discrete}
use cs111winter.Mpos.{
  ProcState, empty, runnable, blocked, zombie, Process, is_live, is_blocked, put, put-here,
  put-other,
}
use cs111winter.Mpos.Waiting.{Ended}

-- What process `d` waits for is a process that can still end.
abbrev pub Waits : (ℕ → Process) → Process → Type 0
Waits procs d = (1 ≤ d.wait_on) × (d.wait_on < 16) × (is_live (procs d.wait_on).state ≡ true)

-- A table in order: the descriptors hold their own numbers, descriptor 0 is not used, the current
-- process is one of the others, and a blocked process waits for one that is runnable or blocked.
pub record IsSound (procs : ℕ → Process) (current : ℕ) : Type 0 where
  pub numbered : (i : ℕ) → i < 16 → (procs i).pid ≡ i
  pub unused : (procs 0).state ≡ empty
  pub running : (1 ≤ current) × (current < 16)
  pub waits : (i : ℕ) → i < 16 → (procs i).state ≡ blocked → Waits procs (procs i)

-- A new process for descriptor `c` that keeps the table in order.
pub record IsFit (procs : ℕ → Process) (c : ℕ) (d : Process) : Type 0 where
  pub near : (1 ≤ c) × (c < 16)
  pub named : d.pid ≡ c
  pub lives : is_live (procs c).state ≡ true → is_live d.state ≡ true
  pub waits : d.state ≡ blocked → Waits procs d

module _ (procs : ℕ → Process) (current c : ℕ) (d : Process) where
  put-live :
      IsFit procs c d
      → (q : ℕ) → is_live (procs q).state ≡ true
      → is_live (put c d procs q).state ≡ true
  put-live fit q live = elim (ℕ_discrete q c) [
    | yes same ↦ rw (same, put-here c d procs) (fit.lives (rw (← same) live))
    | no other ↦ rw (put-other c d procs q other) live
  ]

  put-Waits : IsFit procs c d → (p : Process) → Waits procs p → Waits (put c d procs) p
  put-Waits fit p (lo, hi, live) = (lo, hi, put-live fit p.wait_on live)

  pub put-IsSound : IsSound procs current → IsFit procs c d → IsSound (put c d procs) current
  put-IsSound ok fit =
      let near = fit.near in
      record {
        numbered = λ i h. elim (ℕ_discrete i c) [
          | yes same ↦ rw (same, put-here c d procs) fit.named
          | no other ↦ rw (put-other c d procs i other) (ok.numbered i h)
        ];
        unused = rw (put-other c d procs 0 (omega arith)) ok.unused;
        running = ok.running;
        waits = λ i h b. elim (ℕ_discrete i c) [
          | yes same ↦
              let here : put c d procs i ≡ d = rw same (put-here c d procs) in
              rw here (put-Waits fit d (fit.waits (sym (ap (λ p. p.state) here) ∙ b)))
          | no other ↦
              let here = put-other c d procs i other in
              rw here (put-Waits fit (procs i) (ok.waits i h (sym (ap (λ p. p.state) here) ∙ b)))
        ];
      }

pub is_blocked-blocked : (s : ProcState) → is_blocked s ≡ true → s ≡ blocked
is_blocked-blocked blocked e = refl
is_blocked-blocked empty e = absurd (ground arith)
is_blocked-blocked runnable e = absurd (ground arith)
is_blocked-blocked zombie e = absurd (ground arith)

pub blocked_clash : (s : ProcState) → is_blocked s ≡ false → s ≡ blocked → ⊥
blocked_clash s idle b = let clash : true ≡ false = sym (ap is_blocked b) ∙ idle in ground arith

-- `wake` makes a process runnable under its own number.
pub record IsWake (wake : Process → Process) : Type 0 where
  pub number : (p : Process) → (wake p).pid ≡ p.pid
  pub ready : (p : Process) → (wake p).state ≡ runnable

module _ (wake : Process → Process) (c : ℕ) (dead : Process) (procs procs' : ℕ → Process) where
  -- What has become of process `i`: it is the dead one, or awake, or as it was.
  abbrev Fate : ℕ → Type 0
  Fate i =
      ((i ≡ c) × (procs' i ≡ dead))
      ⊎ (((procs' i ≡ wake (procs i)) × (i ≢ c))
          ⊎ ((procs' i ≡ procs i) × (i ≢ c) × ((procs i).state ≡ blocked → (procs i).wait_on ≢ c)))

  fate : Ended wake c dead procs procs' → (procs 0).state ≡ empty → (i : ℕ) → i < 16 → Fate i
  fate e unused i h = elim (ℕ_discrete i c) [
    | yes same ↦ inl (same, rw same e.own)
    | no other ↦ elim (Bool-cases (is_blocked (procs i).state)) [
      | inl yes' ↦
          let b = is_blocked-blocked _ yes' in
          elim (ℕ_discrete (procs i).wait_on c) [
            | yes w ↦ elim (ℕ_discrete i 0) [
              | yes first ↦ absurd (blocked_clash (procs i).state (rw (first, unused) refl) b)
              | no more ↦ inr (inl (e.woken i (omega arith) other b w, other))
            ]
            | no away ↦ inr (inr (e.kept i h other (inr away), other, λ b'. away))
          ]
      | inr idle ↦
          inr (inr (e.kept i h other (inl idle), other, λ b. absurd (blocked_clash _ idle b)))
    ]
  ]

  module _ (current : ℕ) (ok : IsSound procs current) (fair : IsWake wake)
      (e : Ended wake c dead procs procs') (near : (1 ≤ c) × (c < 16)) (gone : dead.state ≡ zombie)
      (named : dead.pid ≡ c) where
    Ended-live :
        (q : ℕ) → q < 16 → q ≢ c → is_live (procs q).state ≡ true → is_live (procs' q).state ≡ true
    Ended-live q h other live = elim (fate e ok.unused q h) [
      | inl (same, r) ↦ absurd (other same)
      | inr (inl (r, o)) ↦ rw (r, fair.ready (procs q)) refl
      | inr (inr (r, o, w)) ↦ rw r live
    ]

    pub Ended-IsSound : IsSound procs' current
    Ended-IsSound = record {
      numbered = λ i h. elim (fate e ok.unused i h) [
        | inl (same, r) ↦ rw (r, named) (sym same)
        | inr (inl (r, o)) ↦ rw (r, fair.number (procs i)) (ok.numbered i h)
        | inr (inr (r, o, w)) ↦ rw r (ok.numbered i h)
      ];
      unused =
          rw (e.kept 0 (omega arith) (omega (arith, near)) (inl (ap is_blocked ok.unused)))
            ok.unused;
      running = ok.running;
      waits = λ i h b. elim (fate e ok.unused i h) [
        | inl (same, r) ↦ absurd (blocked_clash (procs' i).state (rw (r, gone) refl) b)
        | inr (inl (r, o)) ↦
            absurd (blocked_clash (procs' i).state (rw (r, fair.ready (procs i)) refl) b)
        | inr (inr (r, o, away)) ↦
            let b' : (procs i).state ≡ blocked = sym (ap (λ p. p.state) r) ∙ b in
            let (lo, hi, live) = ok.waits i h b' in
            rw r (lo, hi, Ended-live (procs i).wait_on hi (away b') live)
      ];
    }
