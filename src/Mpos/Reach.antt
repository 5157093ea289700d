-- ===== src/Mpos/Reach.antt =====
-- The states that MiniprocOS reaches from `start`.
use cs111winter.Base.{ℕ, ◌≡◌, refl, sym, ap, ◌∙◌, Option, none, some, arith}
use mathlib.Core.Path.{subst}
use native.Mathlib.Decide.{ℕ_discrete}
use cs111winter.Mpos.{
  Registers, empty, runnable, Kernel, put, put-other, do_fork, create_thread, run,
}
use cs111winter.Mpos.Sound.{blocked_clash}
use cs111winter.Mpos.Safety.{
  InOrder, Goes, return-InOrder, save-InOrder, schedule-Goes, do_fork-InOrder,
  create_thread-InOrder, exit_proc-InOrder, wait_for-InOrder, kill_proc-InOrder,
}
use cs111winter.Mpos.Interrupt.{
  exit_proc, wait_for, blank_proc, first_proc, dispatch, interrupt, start, save, Syscall,
  syscall_of, getpid, fork, yield_cpu, exit, wait, kill, newthread, sys_getpid, sys_fork, sys_exit,
  sys_wait, sys_kill, sys_newthread,
}

dispatch-Goes : (call : Option Syscall) (k : Kernel) → InOrder k → Goes (dispatch call k)
unfolding dispatch sys_getpid sys_fork sys_exit sys_wait sys_kill sys_newthread
dispatch-Goes none k ok = tt
dispatch-Goes (some getpid) k ok = return-InOrder _ k ok
dispatch-Goes (some fork) k ok = return-InOrder _ (do_fork k.current k).1 (do_fork-InOrder k ok)
dispatch-Goes (some yield_cpu) k ok = schedule-Goes k ok
dispatch-Goes (some exit) k ok = schedule-Goes (exit_proc k) (exit_proc-InOrder k ok)
dispatch-Goes (some wait) k ok =
    let eax = (k.procs k.current).registers.eax in
    schedule-Goes (wait_for eax k) (wait_for-InOrder eax k ok)
dispatch-Goes (some kill) k ok = kill_proc-InOrder (k.procs k.current).registers.eax k ok
dispatch-Goes (some newthread) k ok =
    return-InOrder _ (create_thread k.current (k.procs k.current).registers.eax k).1
      (create_thread-InOrder (k.procs k.current).registers.eax k ok)

start-Goes : (regs : Registers) (entry : ℕ) (memory : ℕ → ℕ) → Goes (start regs entry memory)
unfolding start
start-Goes regs entry memory =
    let first = first_proc regs entry in
    record {
      numbered = λ i h. elim (ℕ_discrete i 1) [
        | yes one ↦ rw one refl
        | no more ↦ rw (put-other 1 first blank_proc i more) refl
      ];
      unused = refl;
      running = omega arith;
      waits = λ i h b. elim (ℕ_discrete i 1) [
        | yes one ↦
            let at : put 1 first blank_proc i ≡ first = rw one refl in
            absurd (blocked_clash runnable refl (ap (λ p. p.state) (sym at) ∙ b))
        | no more ↦
            let at = put-other 1 first blank_proc i more in
            absurd (blocked_clash empty refl (ap (λ p. p.state) (sym at) ∙ b))
      ];
    }

-- The states of the kernel: after `start`, and then by system calls and by what the processes do to
-- memory and registers between them.
pub data Reachable : Kernel → Type 0 where
  boot :
      (regs : Registers) (entry : ℕ) (memory : ℕ → ℕ) (k : Kernel)
      → start regs entry memory ≡ run k
      → Reachable k
  trap : (reg : Registers) (k k1 : Kernel) → Reachable k → interrupt reg k ≡ run k1 → Reachable k1
  work : (memory : ℕ → ℕ) (k : Kernel) → Reachable k → Reachable (record k { memory = memory })

-- In every state that the kernel of MiniprocOS reaches the process table is in order: descriptors
-- hold their numbers, descriptor 0 is not used, the current process is one of 1 to 15, and every
-- blocked process waits for one of 1 to 15 that is runnable or blocked itself, never for one that
-- is dead or for a descriptor that is free.
pub Reachable-InOrder : (k : Kernel) → Reachable k → InOrder k
unfolding interrupt
Reachable-InOrder k (boot regs entry memory _ e) = subst Goes e (start-Goes regs entry memory)
Reachable-InOrder k (trap reg k0 _ r e) = subst Goes e (
    dispatch-Goes (syscall_of reg.intno) (save reg k0)
      (save-InOrder reg k0 (Reachable-InOrder k0 r)))
Reachable-InOrder k (work memory k0 r) =
    let ok = Reachable-InOrder k0 r in
    record { numbered = ok.numbered; unused = ok.unused; running = ok.running; waits = ok.waits }
