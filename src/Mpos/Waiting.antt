-- ===== src/Mpos/Waiting.antt =====
-- Waiting in MiniprocOS: the loops of exit and kill over the process table.
use cs111winter.Base.{
  true, false, ℕ, zero, suc, ◌+◌, ◌≤◌, ◌<◌, ◌≡◌, ◌≢◌, ◌⊎◌, inl, inr, refl, ap, ◌∙◌, arith,
  Bool-cases, if◌then◌else◌,
}
use native.Mathlib.Decide.{ℕ_discrete}
use cs111winter.Mpos.{
  Kernel, zombie, runnable, is_blocked, blocked, Process, put, put-here, put-other,
}
use cs111winter.Mpos.Interrupt.{wake_kill, killed, exit_proc, waits_for, wake_from, wake_all}

-- What the loops of exit and kill do to one process.
abbrev pub wake_one : (Process → Process) → ℕ → Process → Process
wake_one wake pid p = if waits_for pid p then wake p else p

module _ (wake : Process → Process) (pid : ℕ) where
  -- One round of the loop, at `j`.
  abbrev wake_at : ℕ → (ℕ → Process) → ℕ → Process
  wake_at j procs = if waits_for pid (procs j) then put j (wake (procs j)) procs else procs

  wake_at-here : (j : ℕ) (procs : ℕ → Process) → wake_at j procs j ≡ wake_one wake pid (procs j)
  wake_at-here j procs = elim (Bool-cases (waits_for pid (procs j))) [
    | inl yes' ↦ rw yes' (put-here j (wake (procs j)) procs)
    | inr no' ↦ rw no' refl
  ]

  wake_at-other : (j : ℕ) (procs : ℕ → Process) (i : ℕ) → i ≢ j → wake_at j procs i ≡ procs i
  wake_at-other j procs i other = elim (Bool-cases (waits_for pid (procs j))) [
    | inl yes' ↦ rw yes' (put-other j (wake (procs j)) procs i other)
    | inr no' ↦ rw no' refl
  ]

  wake_from-outside :
      (k j : ℕ) (procs : ℕ → Process) (i : ℕ)
      → (i < j) ⊎ (j + k ≤ i)
      → wake_from k wake j pid procs i ≡ procs i
  unfolding wake_from
  wake_from-outside zero j procs i out = refl
  wake_from-outside (suc k) j procs i out =
      wake_from-outside k (j + 1) (wake_at j procs) i (ground arith)
      ∙ wake_at-other j procs i (ground arith)

  wake_from-inside :
      (k j : ℕ) (procs : ℕ → Process) (i : ℕ)
      → (j ≤ i) × (i < j + k)
      → wake_from k wake j pid procs i ≡ wake_one wake pid (procs i)
  unfolding wake_from
  wake_from-inside zero j procs i near = absurd (omega arith)
  wake_from-inside (suc k) j procs i near = elim (ℕ_discrete i j) [
    | yes here ↦
        wake_from-outside k (j + 1) (wake_at j procs) i (inl (omega arith))
        ∙ rw here (wake_at-here j procs)
    | no more ↦
        wake_from-inside k (j + 1) (wake_at j procs) i (omega arith)
        ∙ ap (wake_one wake pid) (wake_at-other j procs i more)
  ]

  wake_all_lem :
      (procs : ℕ → Process) (i : ℕ)
      → (1 ≤ i) × (i < 16)
      → wake_all wake pid procs i ≡ wake_one wake pid (procs i)
  unfolding wake_all
  wake_all_lem procs i near = wake_from-inside 15 1 procs i near

-- The processes when process `c` has ended as `dead`: those that waited for it are woken.
pub record Ended (wake : Process → Process) (c : ℕ) (dead : Process) (procs procs' : ℕ → Process)
    : Type 0 where
  pub own : procs' c ≡ dead
  pub woken :
      (i : ℕ)
      → (1 ≤ i) × (i < 16)
      → i ≢ c
      → (procs i).state ≡ blocked
      → (procs i).wait_on ≡ c
      → procs' i ≡ wake (procs i)
  pub kept :
      (i : ℕ)
      → i < 16
      → i ≢ c
      → (is_blocked (procs i).state ≡ false) ⊎ ((procs i).wait_on ≢ c)
      → procs' i ≡ procs i

waits_for-true : (c : ℕ) (p : Process) → p.state ≡ blocked → p.wait_on ≡ c → waits_for c p ≡ true
waits_for-true c p e w = rw (e, w) (ground arith)

waits_for-false :
    (c : ℕ) (p : Process) → (is_blocked p.state ≡ false) ⊎ (p.wait_on ≢ c) → waits_for c p ≡ false
waits_for-false c p (inl e) = rw e refl
waits_for-false c p (inr e) = ground arith

module _ (wake : Process → Process) (procs : ℕ → Process) (c : ℕ) (dead : Process) where
  abbrev after_end : ℕ → Process
  after_end = wake_all wake c (put c dead procs)

  after_end-other : (i : ℕ) → (1 ≤ i) × (i < 16) → i ≢ c → after_end i ≡ wake_one wake c (procs i)
  after_end-other i near other =
      wake_all_lem wake c (put c dead procs) i near
      ∙ ap (wake_one wake c) (put-other c dead procs i other)

  after_end-zero : (1 ≤ c) → after_end 0 ≡ procs 0
  unfolding wake_all
  after_end-zero h =
      wake_from-outside wake c 15 1 (put c dead procs) 0 (inl (omega arith))
      ∙ put-other c dead procs 0 (omega arith)

  after_end-Ended : (1 ≤ c) × (c < 16) → dead.state ≡ zombie → Ended wake c dead procs after_end
  after_end-Ended near gone = record {
    own =
        wake_all_lem wake c (put c dead procs) c near
        ∙ ap (wake_one wake c) (put-here c dead procs)
        ∙ rw (waits_for-false c dead (inl (rw gone refl))) refl;
    woken = λ i at other e w. after_end-other i at other ∙ rw (waits_for-true c (procs i) e w) refl;
    kept = λ i h other idle. elim (ℕ_discrete i 0) [
      | yes first ↦ rw first (after_end-zero (omega arith))
      | no more ↦ after_end-other i (omega arith) other ∙ rw (waits_for-false c (procs i) idle) refl
    ];
  }

-- Runnable, with this result of the call that was waited in.
abbrev pub resumed_with : ℕ → Process → Process
resumed_with v p = record p { state = runnable; registers = record (p.registers) { eax = v } }

abbrev pub resumed : Process → Process
resumed p = record p { state = runnable }

pub exit_proc_lem :
    (k : Kernel)
    → (1 ≤ k.current) × (k.current < 16)
    → (k.procs k.current).pid ≡ k.current
    → Ended
        (resumed_with (k.procs k.current).registers.eax)
        k.current
        (record (k.procs k.current) {
          state = zombie;
          exit_status = (k.procs k.current).registers.eax;
        })
        k.procs
        (exit_proc k).procs
unfolding exit_proc
exit_proc_lem k near own = rw own (after_end-Ended _ _ k.current _ near refl)

-- When process c, one of 1 to 15, is killed it is a zombie with exit status 1. Every other process
-- that waits for it is runnable again and otherwise as it was, its eax included, so that its wait
-- does not return the exit status; no other process changes.
pub killed_lem :
    (c : ℕ) (procs : ℕ → Process)
    → (1 ≤ c) × (c < 16)
    → Ended resumed c (record (procs c) { state = zombie; exit_status = 1 }) procs (killed c procs)
unfolding killed
killed_lem c procs near =
    let dead : Process = record (procs c) { state = zombie } in
    let mark : Process → Process = λ p. record p { exit_status = 1 } in
    let e = after_end-Ended wake_kill procs c dead near refl in
    let woken : ℕ → Process = after_end wake_kill procs c dead in
    let last : Process = record (woken c) { exit_status = 1 } in
    record {
      own = put-here c last woken ∙ ap mark e.own;
      woken = λ i at other b w. put-other c last woken i other ∙ e.woken i at other b w;
      kept = λ i h other idle. put-other c last woken i other ∙ e.kept i h other idle;
    }
