-- ===== src/Schedos.antt =====
-- weensyos2/schedos-kern.c and schedos-kern.h: the scheduler of SchedOS with its four algorithms,
-- and its system calls. An `int` is its 32-bit pattern. The registers and the states of a process
-- are those of MiniprocOS: the two copies of x86.h declare the same registers.
use cs111winter.Base.{
  int_leb, int_ltb, minus_one, ℕ, zero, suc, ◌+◌, ◌-◌, ◌*◌, ◌%◌, ◌^◌, Bool, Option, none, some,
  ◌==◌, leb, ltb, if◌then◌else◌, ◌&&◌, ◌||◌,
}
use cs111winter.Mpos.{Registers, ProcState, empty, runnable, zombie, is_runnable}
use cs111winter.Mpos.Interrupt.{no_regs}
pub mod Laws
mod Tests

abbrev pub nprocs : ℕ
nprocs = 5

abbrev pub proc1_start : ℕ
proc1_start = 0x200000

abbrev pub proc_size : ℕ
proc_size = 0x100000

pub record Process : Type 0 where
  pub pid : ℕ
  pub registers : Registers
  pub state : ProcState
  pub exit_status : ℕ
  pub priority : ℕ
  pub share : ℕ
  pub share_count : ℕ

-- `proc_array`, the index of the process that `current` points to, `scheduling_algorithm`, the
-- shared `cursorpos` and the 16-bit cells of the console by their addresses.
pub record Kernel : Type 0 where
  pub procs : ℕ → Process
  pub current : ℕ
  pub algorithm : ℕ
  pub cursorpos : ℕ
  pub console : ℕ → ℕ

abbrev pub int_max : ℕ → ℕ → ℕ
int_max a b = if int_leb b a then a else b

abbrev pub ready : Process → Bool
ready p = is_runnable p.state

abbrev pub put : ℕ → Process → (ℕ → Process) → ℕ → Process
put i p procs j = if i == j then p else procs j

-- What follows: a process runs; the kernel spins for ever, after a message in case of `unknown`; or
-- it runs the memory behind the last descriptor, `proc_array[NPROCS]`.
pub data Next : Type 0 where
  run : Kernel → Next
  spin unknown stray : Next

abbrev pub run_proc : ℕ → Kernel → Next
run_proc i k = run (record k { current = i })

-- `while (1)`: the first process behind `pid` in the circle that passes the test. The loop changes
-- nothing, so that after one fruitless round it never ends: `none`.
unfoldable pub pick_from : ℕ → (Process → Bool) → (ℕ → Process) → ℕ → Option ℕ
pick_from zero test procs pid = none
pick_from (suc k) test procs pid =
    let next = (pid + 1) % nprocs in
    let rest = pick_from k test procs next in if test (procs next) then some next else rest

-- `for (j = lo; j < NPROCS; j++)` up to the first process that passes the test, `k` left.
unfoldable pub first_from : ℕ → (Process → Bool) → (ℕ → Process) → ℕ → Option ℕ
first_from zero test procs j = none
first_from (suc k) test procs j =
    let rest = first_from k test procs (j + 1) in if test (procs j) then some j else rest

-- `for (j = lo; j < NPROCS; j++)` with the maximum of `value` over the processes of the test.
unfoldable pub max_from : ℕ → (Process → Bool) → (Process → ℕ) → (ℕ → Process) → ℕ → ℕ → ℕ
max_from zero test value procs j acc = acc
max_from (suc k) test value procs j acc =
    max_from k test value procs (j + 1)
      (if test (procs j) then int_max acc (value (procs j)) else acc)

-- The reset of the counts in the loop over the runnable processes.
abbrev pub refill : (ℕ → Process) → ℕ → Process
refill procs j =
    let p = procs j in
    if leb 1 j && (ltb j nprocs && ready p) then record p { share_count = p.share } else p

unfoldable pub run_option : Next → Option ℕ → Kernel → Next
run_option otherwise none k = otherwise
run_option otherwise (some j) k = run_proc j k

unfoldable pub schedule_round : ℕ → Kernel → Next
unfolding run_option
schedule_round pid k = run_option spin (pick_from nprocs ready k.procs pid) k

unfoldable pub schedule_strict : Kernel → Next
unfolding run_option
schedule_strict k = run_option stray (first_from (nprocs - 1) ready k.procs 1) k

unfoldable pub top_priority : Kernel → ℕ
unfolding max_from
top_priority k = max_from (nprocs - 1) ready (λ p. p.priority) k.procs 1 0

unfoldable pub schedule_priority : ℕ → Kernel → Next
unfolding run_option
schedule_priority pid k =
    let top = top_priority k in
    run_option spin (pick_from nprocs (λ p. ready p && (p.priority == top)) k.procs pid) k

-- Has the process turns left?
abbrev pub has_turn : Process → Bool
has_turn p = ready p && (int_ltb 1 p.share_count || ((p.share == 1) && (p.share_count == 1)))

-- The choice by the largest share, when the current process has no turn left.
unfoldable pub next_share : Kernel → Next
unfolding run_option max_from
next_share k =
    let share : Process → ℕ = λ p. p.share in
    let largest = max_from (nprocs - 1) has_turn share k.procs 1 minus_one in
    let over = largest == minus_one in
    let procs = if over then refill k.procs else k.procs in
    let largest' = if over then max_from (nprocs - 1) ready share procs 1 largest else largest in
    let found = first_from (nprocs - 1) (λ p. ready p && (p.share == largest')) procs 1 in
    run_option stray found (record k { procs = procs })

unfoldable pub schedule_share : ℕ → Kernel → Next
unfolding next_share
schedule_share pid k =
    let p = k.procs pid in
    let spent : Process = record p { share_count = (p.share_count + minus_one) % 2 ^ 32 } in
    let k1 : Kernel = record k { procs = put pid spent k.procs } in
    if ready spent && int_ltb 0 spent.share_count then run_proc pid k1 else next_share k1

-- `schedule`, where `pid` is `current->p_pid`.
unfoldable pub schedule_from : ℕ → Kernel → Next
unfolding schedule_round schedule_strict schedule_priority schedule_share
schedule_from pid k =
    if k.algorithm == 0
    then schedule_round pid k
    else if k.algorithm == 1
    then schedule_strict k
    else if k.algorithm == 2
    then schedule_priority pid k
    else if k.algorithm == 3
    then schedule_share pid k
    else unknown

unfoldable pub schedule : Kernel → Next
unfolding schedule_from
schedule k = schedule_from (k.procs k.current).pid k

pub data Interrupt : Type 0 where
  yield_cpu exit user1 user2 clock priority share print : Interrupt

abbrev pub with_current : (Process → Process) → Kernel → Kernel
with_current f k = record k { procs = put k.current (f (k.procs k.current)) k.procs }

unfoldable pub dispatch : Option Interrupt → Registers → Kernel → Next
dispatch none reg k = spin
dispatch (some yield_cpu) reg k = schedule k
dispatch (some exit) reg k =
    schedule (with_current (λ p. record p { state = zombie; exit_status = reg.eax }) k)
dispatch (some user1) reg k = run k
dispatch (some user2) reg k = run k
dispatch (some clock) reg k = schedule k
dispatch (some priority) reg k = schedule (with_current (λ p. record p { priority = reg.eax }) k)
dispatch (some share) reg k =
    schedule (with_current (λ p. record p { share = reg.eax; share_count = reg.eax }) k)
dispatch (some print) reg k = run (record k {
  console = λ a. if a == k.cursorpos then reg.eax % 2 ^ 16 else k.console a;
  cursorpos = k.cursorpos + 2;
})

unfoldable pub interrupt_of : ℕ → Option Interrupt
interrupt_of intno =
    if intno == 48
    then some yield_cpu
    else if intno == 49
    then some exit
    else if intno == 50
    then some user1
    else if intno == 51
    then some user2
    else if intno == 32
    then some clock
    else if intno == 52
    then some priority
    else if intno == 53
    then some share
    else if intno == 54
    then some print
    else none

unfoldable pub interrupt : Registers → Kernel → Next
unfolding interrupt_of dispatch
interrupt reg k =
    dispatch (interrupt_of reg.intno) reg (with_current (λ p. record p { registers = reg }) k)

-- The descriptors that `start` sets up: `special i` are the registers that special_registers_init
-- sets, on top of zeros, and `entry i` is the entry point that the loader finds.
unfoldable pub first_procs : (special : ℕ → Registers) (entry : ℕ → ℕ) → ℕ → Process
first_procs special entry i =
    let used = leb 1 i && ltb i nprocs in
    record {
      pid = i;
      registers =
          if used
          then record (special i) { esp = proc1_start + i * proc_size; eip = entry i }
          else no_regs;
      state = if used then runnable else empty;
      exit_status = 0;
      priority = if used then (if i == 4 then 2 else 1) else 0;
      share = if used then i else 0;
      share_count = if used then i else 0;
    }

-- `start`. It calls `schedule` before any process is current: `null_pid` is the number that is read
-- through the null pointer `current`.
unfoldable pub start :
    (null_pid : ℕ) (special : ℕ → Registers) (entry : ℕ → ℕ) (console : ℕ → ℕ) → Next
unfolding first_procs schedule_from
start null_pid special entry console = schedule_from null_pid (record {
  procs = first_procs special entry;
  current = 0;
  algorithm = 0;
  cursorpos = 0xB8000;
  console = console;
})
