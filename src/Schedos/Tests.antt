-- ===== src/Schedos/Tests.antt =====
-- Runs of the theorems about SchedOS on the table that `start` sets up.
use cs111winter.Mpos.Interrupt.{no_regs}
use cs111winter.Schedos.{Kernel, schedule_strict, first_procs}
use cs111winter.Schedos.Laws.{Strict, schedule_strict_lem}

abbrev fresh : Kernel
fresh = record {
  procs = first_procs (λ i. no_regs) (λ i. 0x200000);
  current = 1;
  algorithm = 2;
  cursorpos = 0xB8000;
  console = λ a. 0;
}

schedule_strict_lem_example : Strict fresh (schedule_strict fresh)
schedule_strict_lem_example = schedule_strict_lem fresh
