-- ===== src/Mpos/Tests.antt =====
-- Runs of the theorems about MiniprocOS on the state that `start` leaves.
use cs111winter.Base.{ℕ, ◌<◌, ◌≡◌, refl, arith}
use cs111winter.Mpos.{Registers, zombie, Kernel, put, schedule, do_fork}
use cs111winter.Mpos.Schedule.{Scheduled, schedule_lem}
use cs111winter.Mpos.Fork.{ForkOutcome, do_fork_lem}
use cs111winter.Mpos.Interrupt.{
  return, save, sys_fork, dispatch, syscall_of, interrupt, no_regs, blank_proc, first_proc, start,
  killed,
}
use cs111winter.Mpos.Waiting.{Ended, resumed, killed_lem}
use cs111winter.Mpos.Safety.{InOrder}
use cs111winter.Mpos.Reach.{trap, Reachable, boot, Reachable-InOrder}

-- The kernel when the first process starts.
abbrev fresh : Kernel
fresh = record {
  procs = put 1 (first_proc no_regs 0x200000) blank_proc;
  current = 1;
  memory = λ a. a;
}

schedule_lem_example : Scheduled fresh (schedule fresh)
schedule_lem_example = schedule_lem fresh

fresh-numbered : (j : ℕ) → j < 16 → (fresh.procs j).pid ≡ j
fresh-numbered j h = ground arith

do_fork_lem_example : ForkOutcome 1 fresh (do_fork 1 fresh)
do_fork_lem_example = do_fork_lem 1 fresh (record {
  numbered = fresh-numbered;
  known = (omega arith, omega arith, refl);
  within = (omega arith, omega arith);
})

killed_lem_example :
    Ended resumed 1
      (record (first_proc no_regs 0x200000) { state = zombie; exit_status = 1 })
      fresh.procs
      (killed 1 fresh.procs)
killed_lem_example = killed_lem 1 fresh.procs (omega arith, omega arith)

fresh-Reachable : Reachable fresh
unfolding start
fresh-Reachable = boot no_regs 0x200000 (λ a. a) fresh refl

-- The kernel after the first process has forked.
abbrev fork_regs : Registers
fork_regs = record no_regs { intno = 49; esp = 0x2C0000 }

abbrev saved : Kernel
saved = save fork_regs fresh

abbrev forked : Kernel
forked = return (do_fork 1 saved).0 (do_fork 1 saved).1

forked-Reachable : Reachable forked
unfolding interrupt syscall_of dispatch sys_fork
forked-Reachable = trap fork_regs fresh forked fresh-Reachable refl

Reachable-InOrder_example : InOrder forked
Reachable-InOrder_example = Reachable-InOrder forked forked-Reachable
