-- ===== src/Mpos/Interrupt.antt =====
-- weensyos1-sunnie/mpos-kern.c: `interrupt`, the handler of the system calls, and `start`.
use cs111winter.Base.{
  ℕ, zero, suc, ◌+◌, ◌-◌, ◌^◌, Bool, ◌&&◌, ◌||◌, Option, none, some, ◌==◌, leb, if◌then◌else◌,
}
use cs111winter.Mpos.{
  nprocs, proc1_stack_addr, proc_stack_size, Registers, empty, runnable, blocked, zombie, Process,
  Kernel, is_empty, is_blocked, is_zombie, put, set_eax, Next, run, spin, schedule, do_fork,
  create_thread,
}

-- The numbers of mpos.h.
pub data Syscall : Type 0 where
  getpid fork yield_cpu exit wait kill newthread : Syscall

unfoldable pub syscall_of : ℕ → Option Syscall
syscall_of intno =
    if intno == 48
    then some getpid
    else if intno == 49
    then some fork
    else if intno == 50
    then some yield_cpu
    else if intno == 51
    then some exit
    else if intno == 52
    then some wait
    else if intno == 53
    then some kill
    else if intno == 54
    then some newthread
    else none

-- Is the process blocked in a wait for process `pid`?
abbrev pub waits_for : ℕ → Process → Bool
waits_for pid p = is_blocked p.state && (p.wait_on == pid)

-- What the loops of exit and kill do to a waiting process.
abbrev pub wake_exit : ℕ → Process → Process
wake_exit status p = set_eax status (record p { state = runnable })

abbrev pub wake_kill : Process → Process
wake_kill p = record p { state = runnable }

-- `for (pid = j; pid != NPROCS; pid++)`, with `k` rounds left.
unfoldable pub wake_from : ℕ → (Process → Process) → ℕ → (pid : ℕ) → (ℕ → Process) → ℕ → Process
wake_from zero wake j pid procs = procs
wake_from (suc k) wake j pid procs =
    wake_from k wake (j + 1) pid
      (if waits_for pid (procs j) then put j (wake (procs j)) procs else procs)

unfoldable pub wake_all : (Process → Process) → ℕ → (ℕ → Process) → ℕ → Process
unfolding wake_from
wake_all wake pid procs = wake_from (nprocs - 1) wake 1 pid procs

-- `current->p_registers.reg_eax = v`
abbrev pub return : ℕ → Kernel → Kernel
return v k = record k { procs = put k.current (set_eax v (k.procs k.current)) k.procs }

-- An `int` that is not positive.
abbrev pub not_positive : ℕ → Bool
not_positive v = (v == 0) || leb (2 ^ 31) v

unfoldable pub sys_getpid : Kernel → Next
sys_getpid k = run (return (k.procs k.current).pid k)

unfoldable pub sys_fork : Kernel → Next
sys_fork k = let (j, k1) = do_fork k.current k in run (return j k1)

-- `sys_exit` before the call of `schedule`.
unfoldable pub exit_proc : Kernel → Kernel
unfolding wake_all
exit_proc k =
    let p = k.procs k.current in
    let status = p.registers.eax in
    let dead : Process = record p { state = zombie; exit_status = status } in
    record k { procs = wake_all (wake_exit status) p.pid (put k.current dead k.procs) }

unfoldable pub sys_exit : Kernel → Next
unfolding exit_proc
sys_exit k = schedule (exit_proc k)

unfoldable pub wait_refused : ℕ → Kernel → Bool
wait_refused p k =
    not_positive p
    || (leb nprocs p || ((p == (k.procs k.current).pid) || is_empty (k.procs p).state))

-- The three branches of `sys_wait` for process `p`, before the call of `schedule`.
unfoldable pub wait_for : ℕ → Kernel → Kernel
unfolding wait_refused
wait_for p k =
    let me = k.procs k.current in
    let child = k.procs p in
    let reaped = return child.exit_status k in
    if wait_refused p k
    then return (2 ^ 32 - 1) k
    else if is_zombie child.state
    then record reaped { procs = put p (record (reaped.procs p) { state = empty }) reaped.procs }
    else record k { procs = put k.current (record me { state = blocked; wait_on = p }) k.procs }

unfoldable pub sys_wait : Kernel → Next
unfolding wait_for
sys_wait k = schedule (wait_for (k.procs k.current).registers.eax k)

unfoldable pub kill_refused : ℕ → Kernel → Bool
kill_refused pid k = not_positive pid || (leb nprocs pid || is_empty (k.procs pid).state)

-- The processes after a kill that is not refused: `pid` is a zombie with status 1, and those that
-- wait for it are runnable.
unfoldable pub killed : ℕ → (ℕ → Process) → ℕ → Process
unfolding wake_all
killed pid procs =
    let woken = wake_all wake_kill pid (put pid (record (procs pid) { state = zombie }) procs) in
    put pid (record (woken pid) { exit_status = 1 }) woken

unfoldable pub kill_proc : ℕ → Kernel → Kernel
unfolding kill_refused killed
kill_proc pid k =
    if kill_refused pid k
    then return (2 ^ 32 - 1) k
    else return 0 (record k { procs = killed pid k.procs })

unfoldable pub sys_kill : Kernel → Next
unfolding kill_proc
sys_kill k = run (kill_proc (k.procs k.current).registers.eax k)

unfoldable pub sys_newthread : Kernel → Next
sys_newthread k =
    let (j, k1) = create_thread k.current (k.procs k.current).registers.eax k in run (return j k1)

unfoldable pub dispatch : Option Syscall → Kernel → Next
unfolding sys_getpid sys_fork sys_exit sys_wait sys_kill sys_newthread
dispatch none k = spin
dispatch (some getpid) k = sys_getpid k
dispatch (some fork) k = sys_fork k
dispatch (some yield_cpu) k = schedule k
dispatch (some exit) k = sys_exit k
dispatch (some wait) k = sys_wait k
dispatch (some kill) k = sys_kill k
dispatch (some newthread) k = sys_newthread k

-- `current->p_registers = *reg`
abbrev pub save : Registers → Kernel → Kernel
save reg k = record k {
  procs = put k.current (record (k.procs k.current) { registers = reg }) k.procs;
}

unfoldable pub interrupt : Registers → Kernel → Next
unfolding syscall_of dispatch
interrupt reg k = dispatch (syscall_of reg.intno) (save reg k)

-- What `memset` leaves in a descriptor, with its number in it.
abbrev pub no_regs : Registers
no_regs = record {
  edi = 0;
  esi = 0;
  ebp = 0;
  original_esp = 0;
  ebx = 0;
  edx = 0;
  ecx = 0;
  eax = 0;
  es = 0;
  ds = 0;
  intno = 0;
  err = 0;
  eip = 0;
  cs = 0;
  eflags = 0;
  esp = 0;
  ss = 0;
}

abbrev pub blank_proc : ℕ → Process
blank_proc i = record { pid = i; registers = no_regs; state = empty; exit_status = 0; wait_on = 0 }

abbrev pub first_proc : (regs : Registers) (entry : ℕ) → Process
first_proc regs entry = record {
  pid = 1;
  registers = record regs { eip = entry; esp = proc1_stack_addr + proc_stack_size };
  state = runnable;
  exit_status = 0;
  wait_on = 0;
}

-- `start` from the point where the hardware is set up and the program is loaded: `regs` are the
-- special registers of the first process, `entry` is the entry point that the loader found.
unfoldable pub start : (regs : Registers) (entry : ℕ) (memory : ℕ → ℕ) → Next
start regs entry memory =
    run (record { procs = put 1 (first_proc regs entry) blank_proc; current = 1; memory = memory })
