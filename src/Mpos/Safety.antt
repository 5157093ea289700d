-- ===== src/Mpos/Safety.antt =====
-- The system calls of MiniprocOS, one by one, on a process table in order.
use cs111winter.Base.{
  none, some, some, Option, ℕ, ◌-◌, ◌^◌, ◌≤◌, ◌<◌, ◌≡◌, ◌≢◌, inl, inr, refl, sym, ap, ◌∙◌, Bool,
  true, false, arith, ◌==◌, Bool-cases, ◌||◌, leb,
}
use mathlib.Core.Option.{some-injective}
use cs111winter.Mpos.{
  empty_slot, Registers, ProcState, empty, runnable, blocked, zombie, Process, Kernel, is_empty,
  is_live, is_zombie, is_runnable, put, set_eax, put-other, do_fork, create_thread, fork_into,
  thread_into, copy_stack, schedule, Next, run, spin, nprocs,
}
use cs111winter.Mpos.Fork.{Found, FirstEmpty, empty_slot-Found}
use cs111winter.Mpos.Schedule.{schedule_lem}
use cs111winter.Mpos.Waiting.{exit_proc_lem, killed_lem}
use cs111winter.Mpos.Sound.{IsSound, IsFit, put-IsSound, Ended-IsSound, blocked_clash}
use cs111winter.Mpos.Interrupt.{
  wake_kill, exit_proc, killed, return, wait_refused, wait_for, kill_proc, kill_refused,
  not_positive, save,
}

-- A kernel whose table is in order.
abbrev pub InOrder : Kernel → Type 0
InOrder k = IsSound k.procs k.current

-- What comes next, if anything, is in order.
abbrev pub Goes : Next → Type 0
Goes (run k) = InOrder k
Goes spin = Unit {0}

pub return-InOrder : (v : ℕ) (k : Kernel) → InOrder k → InOrder (return v k)
return-InOrder v k ok = put-IsSound k.procs k.current k.current _ ok (record {
  near = ok.running;
  named = let r = ok.running in ok.numbered k.current (omega arith);
  lives = λ live. live;
  waits = λ b. let r = ok.running in ok.waits k.current (omega arith) b;
})

pub save-InOrder : (reg : Registers) (k : Kernel) → InOrder k → InOrder (save reg k)
save-InOrder reg k ok = put-IsSound k.procs k.current k.current _ ok (record {
  near = ok.running;
  named = let r = ok.running in ok.numbered k.current (omega arith);
  lives = λ live. live;
  waits = λ b. let r = ok.running in ok.waits k.current (omega arith) b;
})

is_runnable-not_empty : (s : ProcState) → s ≡ empty → is_runnable s ≡ true → ⊥
is_runnable-not_empty s e r = let clash : true ≡ false = sym r ∙ ap is_runnable e in ground arith

pub schedule-Goes : (k : Kernel) → InOrder k → Goes (schedule k)
schedule-Goes k ok = elim (schedule_lem k) [
  | inl (d, next, e, c) ↦
      let place = c.place in
      let awake : next ≢ 0 = λ first. is_runnable-not_empty _ (rw first ok.unused) c.is_ready in
      rw e (record {
        numbered = ok.numbered;
        unused = ok.unused;
        running = omega arith;
        waits = ok.waits;
      })
  | inr (e, idle) ↦ rw e tt
]

not_refused :
    (p : ℕ) (rest : Bool)
    → (not_positive p || (leb nprocs p || rest)) ≡ false
    → (1 ≤ p) × (p < 16) × (rest ≡ false)
not_refused p rest e = (ground arith, ground arith, ground arith)

not_self : (p pid : ℕ) (rest : Bool) → ((p == pid) || rest) ≡ false → (p ≢ pid) × (rest ≡ false)
not_self p pid rest e = (ground arith, ground arith)

is_zombie-zombie : (s : ProcState) → is_zombie s ≡ true → s ≡ zombie
is_zombie-zombie zombie e = refl
is_zombie-zombie empty e = absurd (ground arith)
is_zombie-zombie runnable e = absurd (ground arith)
is_zombie-zombie blocked e = absurd (ground arith)

occupied-live : (s : ProcState) → is_empty s ≡ false → is_zombie s ≡ false → is_live s ≡ true
occupied-live runnable e z = refl
occupied-live blocked e z = refl
occupied-live empty e z = absurd (ground arith)
occupied-live zombie e z = absurd (ground arith)

pub exit_proc-InOrder : (k : Kernel) → InOrder k → InOrder (exit_proc k)
unfolding exit_proc
exit_proc-InOrder k ok =
    let r = ok.running in
    let named = ok.numbered k.current (omega arith) in
    Ended-IsSound _ k.current _ k.procs (exit_proc k).procs k.current ok
      (record { number = λ p. refl; ready = λ p. refl }) (exit_proc_lem k r named) r refl named

killed-IsSound :
    (c : ℕ) (k : Kernel) → (1 ≤ c) × (c < 16) → InOrder k → IsSound (killed c k.procs) k.current
killed-IsSound c k near ok =
    Ended-IsSound wake_kill c _ k.procs (killed c k.procs) k.current ok
      (record { number = λ p. refl; ready = λ p. refl }) (killed_lem c k.procs near) near refl
      (ok.numbered c (omega arith))

pub kill_proc-InOrder : (pid : ℕ) (k : Kernel) → InOrder k → InOrder (kill_proc pid k)
unfolding kill_proc kill_refused
kill_proc-InOrder pid k ok = elim (Bool-cases (kill_refused pid k)) [
  | inl yes' ↦ rw yes' (return-InOrder (2 ^ 32 - 1) k ok)
  | inr no' ↦
      let (lo, hi, e) = not_refused pid _ no' in
      rw no' (
        return-InOrder 0 (record k { procs = killed pid k.procs })
          (killed-IsSound pid k (lo, hi) ok))
]

-- A process that is neither dead nor free may be waited for.
wait_block-IsFit :
    (p : ℕ) (k : Kernel)
    → InOrder k
    → (1 ≤ p) × (p < 16)
    → is_live (k.procs p).state ≡ true
    → IsFit k.procs k.current (record (k.procs k.current) { state = blocked; wait_on = p })
wait_block-IsFit p k ok near live = record {
  near = ok.running;
  named = let r = ok.running in ok.numbered k.current (omega arith);
  lives = λ l. refl;
  waits = λ b. (near.0, near.1, live);
}

reap-IsFit :
    (p : ℕ) (procs : ℕ → Process) (current : ℕ)
    → IsSound procs current
    → (1 ≤ p) × (p < 16)
    → is_live (procs p).state ≡ false
    → IsFit procs p (record (procs p) { state = empty })
reap-IsFit p procs current ok near dead = record {
  near = near;
  named = ok.numbered p (omega arith);
  lives = λ l. sym dead ∙ l;
  waits = λ b. absurd (blocked_clash empty refl b);
}

reaped-InOrder :
    (p v : ℕ) (k : Kernel)
    → InOrder k
    → (1 ≤ p) × (p < 16)
    → p ≢ k.current
    → is_zombie (k.procs p).state ≡ true
    → let reaped = return v k in
      IsSound (put p (record (reaped.procs p) { state = empty }) reaped.procs) k.current
reaped-InOrder p v k ok near other z =
    let ok' = return-InOrder v k ok in
    let same = put-other k.current (set_eax v (k.procs k.current)) k.procs p other in
    put-IsSound (return v k).procs k.current p _ ok'
      (reap-IsFit p (return v k).procs k.current ok' near (rw (same, is_zombie-zombie _ z) refl))

pub wait_for-InOrder : (p : ℕ) (k : Kernel) → InOrder k → InOrder (wait_for p k)
unfolding wait_for wait_refused
wait_for-InOrder p k ok = elim (Bool-cases (wait_refused p k)) [
  | inl yes' ↦ rw yes' (return-InOrder (2 ^ 32 - 1) k ok)
  | inr no' ↦
      let (lo, hi, e) = not_refused p _ no' in
      let (other, full) = not_self p _ _ e in
      let r = ok.running in
      let named = ok.numbered k.current (omega arith) in
      elim (Bool-cases (is_zombie (k.procs p).state)) [
        | inl z ↦
            rw (no', z)
              (reaped-InOrder p (k.procs p).exit_status k ok (lo, hi) (λ s. other (s ∙ sym named))
                z)
        | inr alive ↦
            rw (no', alive)
              (put-IsSound k.procs k.current k.current _ ok
                (wait_block-IsFit p k ok (lo, hi) (occupied-live _ full alive)))
      ]
]

-- A new process in a descriptor that the search found.
new-IsFit :
    (procs : ℕ → Process) (current j : ℕ) (regs : Registers)
    → IsSound procs current
    → FirstEmpty procs 1 15 j
    → IsFit procs j (record (procs j) { registers = regs; state = runnable })
new-IsFit procs current j regs ok f =
    let near = f.near in
    record {
      near = omega arith;
      named = ok.numbered j (omega arith);
      lives = λ l. refl;
      waits = λ b. absurd (blocked_clash runnable refl b);
    }

fork_into-InOrder :
    (k : Kernel) (o : Option ℕ)
    → InOrder k
    → Found k.procs 1 15 o
    → InOrder (fork_into k.current k o).1
unfolding fork_into copy_stack
fork_into-InOrder k none ok found = ok
fork_into-InOrder k (some j) ok (inl (i, e, f)) =
    let g : FirstEmpty k.procs 1 15 j = rw (some-injective j i e) f in
    put-IsSound k.procs k.current j _ ok (new-IsFit k.procs k.current j _ ok g)
fork_into-InOrder k (some j) ok (inr (e, all)) = absurd (ground arith)

thread_into-InOrder :
    (entry : ℕ) (k : Kernel) (o : Option ℕ)
    → InOrder k
    → Found k.procs 1 15 o
    → InOrder (thread_into k.current entry k o).1
unfolding thread_into
thread_into-InOrder entry k none ok found = ok
thread_into-InOrder entry k (some j) ok (inl (i, e, f)) =
    let g : FirstEmpty k.procs 1 15 j = rw (some-injective j i e) f in
    put-IsSound k.procs k.current j _ ok (new-IsFit k.procs k.current j _ ok g)
thread_into-InOrder entry k (some j) ok (inr (e, all)) = absurd (ground arith)

pub do_fork-InOrder : (k : Kernel) → InOrder k → InOrder (do_fork k.current k).1
unfolding do_fork
do_fork-InOrder k ok = fork_into-InOrder k (empty_slot k.procs) ok (empty_slot-Found k.procs)

pub create_thread-InOrder :
    (entry : ℕ) (k : Kernel) → InOrder k → InOrder (create_thread k.current entry k).1
unfolding create_thread
create_thread-InOrder entry k ok =
    thread_into-InOrder entry k (empty_slot k.procs) ok (empty_slot-Found k.procs)
