-- ===== src/Mpos.antt =====
-- weensyos1-sunnie/mpos-kern.c and mpos-kern.h: the process table of MiniprocOS, its scheduler, and
-- the system calls that make processes. The array of descriptors is a function of the index, and
-- memory is a function of the address. A register holds 32 bits; an `int` is its bit pattern.
use cs111winter.Base.{
  ℕ, zero, suc, ◌+◌, ◌-◌, ◌*◌, ◌%◌, ◌^◌, ◌≡◌, ◌≢◌, Bool, true, false, Option, none, some, arith,
  ◌==◌, if◌then◌else◌,
}
use cs111winter.Klib.{memcpy}
pub mod Interrupt
pub mod Schedule
pub mod Fork
pub mod Waiting
pub mod Sound
pub mod Safety
pub mod Reach
mod Tests

abbrev pub nprocs : ℕ
nprocs = 16

abbrev pub proc1_stack_addr : ℕ
proc1_stack_addr = 0x280000

abbrev pub proc_stack_size : ℕ
proc_stack_size = 0x040000

-- `registers_t` of x86.h, without its padding.
pub record Registers : Type 0 where
  pub edi : ℕ
  pub esi : ℕ
  pub ebp : ℕ
  pub original_esp : ℕ
  pub ebx : ℕ
  pub edx : ℕ
  pub ecx : ℕ
  pub eax : ℕ
  pub es : ℕ
  pub ds : ℕ
  pub intno : ℕ
  pub err : ℕ
  pub eip : ℕ
  pub cs : ℕ
  pub eflags : ℕ
  pub esp : ℕ
  pub ss : ℕ

pub data ProcState : Type 0 where
  empty runnable blocked zombie : ProcState

pub record Process : Type 0 where
  pub pid : ℕ
  pub registers : Registers
  pub state : ProcState
  pub exit_status : ℕ
  pub wait_on : ℕ

-- `proc_array`, the index of the process that `current` points to, and the memory of the stacks.
pub record Kernel : Type 0 where
  pub procs : ℕ → Process
  pub current : ℕ
  pub memory : ℕ → ℕ

abbrev pub is_runnable : ProcState → Bool
is_runnable runnable = true
is_runnable empty = false
is_runnable blocked = false
is_runnable zombie = false

abbrev pub is_live : ProcState → Bool
is_live runnable = true
is_live blocked = true
is_live empty = false
is_live zombie = false

abbrev pub is_empty : ProcState → Bool
is_empty empty = true
is_empty runnable = false
is_empty blocked = false
is_empty zombie = false

abbrev pub is_blocked : ProcState → Bool
is_blocked blocked = true
is_blocked empty = false
is_blocked runnable = false
is_blocked zombie = false

abbrev pub is_zombie : ProcState → Bool
is_zombie zombie = true
is_zombie empty = false
is_zombie runnable = false
is_zombie blocked = false

-- `proc_array[i] = p`
abbrev pub put : ℕ → Process → (ℕ → Process) → ℕ → Process
put i p procs j = if i == j then p else procs j

pub put-here : (i : ℕ) (p : Process) (procs : ℕ → Process) → put i p procs i ≡ p
put-here i p procs = ground arith

pub put-other :
    (i : ℕ) (p : Process) (procs : ℕ → Process) (j : ℕ) → j ≢ i → put i p procs j ≡ procs j
put-other i p procs j other = ground arith

abbrev pub set_eax : ℕ → Process → Process
set_eax v p = record p { registers = record (p.registers) { eax = v } }

-- The loop of `schedule` behind process `pid`, for `k` rounds. It changes nothing, so that a search
-- that has gone round the table once without a hit never ends: `none`.
unfoldable pub pick_from : ℕ → (ℕ → Process) → ℕ → Option ℕ
pick_from zero procs pid = none
pick_from (suc k) procs pid =
    let next = (pid + 1) % nprocs in
    let rest = pick_from k procs next in if is_runnable (procs next).state then some next else rest

-- A process that runs next, with the kernel's state; or a kernel that spins for ever.
pub data Next : Type 0 where
  run : Kernel → Next
  spin : Next

-- `run(proc)` makes `proc` the current process and resumes it.
abbrev pub run_proc : ℕ → Kernel → Next
run_proc i k = run (record k { current = i })

unfoldable pub schedule : Kernel → Next
unfolding pick_from
schedule k = elim (pick_from nprocs k.procs (k.procs k.current).pid) [
  | none ↦ spin
  | some pid ↦ run_proc pid k
]

-- The first empty descriptor from `j` on, with `k` left to look at.
unfoldable pub empty_from : ℕ → (ℕ → Process) → ℕ → Option ℕ
empty_from zero procs j = none
empty_from (suc k) procs j =
    let rest = empty_from k procs (j + 1) in if is_empty (procs j).state then some j else rest

unfoldable pub empty_slot : (ℕ → Process) → Option ℕ
unfolding empty_from
empty_slot procs = empty_from (nprocs - 1) procs 1

abbrev pub stack_top : ℕ → ℕ
stack_top pid = (proc1_stack_addr + proc_stack_size * pid) % 2 ^ 32

-- How much of its stack a process uses, by its stack pointer.
abbrev pub stack_used : Process → ℕ
stack_used src = (stack_top src.pid + 2 ^ 32 - src.registers.esp) % 2 ^ 32

-- Where the stack pointer of the copy comes to lie.
abbrev pub stack_bottom : (dest src : Process) → ℕ
stack_bottom dest src = (stack_top dest.pid + 2 ^ 32 - stack_used src) % 2 ^ 32

-- `copy_stack`: the new `dest`, and the memory.
unfoldable pub copy_stack : (dest src : Process) → (ℕ → ℕ) → Process × (ℕ → ℕ)
unfolding memcpy
copy_stack dest src memory = (
  record dest { registers = record (dest.registers) { esp = stack_bottom dest src } },
  memcpy (stack_used src) (stack_bottom dest src) src.registers.esp memory,
)

-- `do_fork` from the point where the search for an empty descriptor has ended: `parent` is an
-- index.
unfoldable pub fork_into : (parent : ℕ) → Kernel → Option ℕ → ℕ × Kernel
unfolding copy_stack
fork_into parent k none = (2 ^ 32 - 1, k)
fork_into parent k (some j) =
    let p = k.procs parent in
    let child : Process = record (k.procs j) { registers = p.registers } in
    let (copied, memory) = copy_stack child p k.memory in
    let child' : Process = set_eax 0 (record copied { state = runnable }) in
    (j, record k { procs = put j child' k.procs; memory = memory })

-- `do_fork`: the child's number, or -1, and the kernel's state.
unfoldable pub do_fork : (parent : ℕ) → Kernel → ℕ × Kernel
unfolding empty_slot fork_into
do_fork parent k = fork_into parent k (empty_slot k.procs)

unfoldable pub thread_into : (parent start : ℕ) → Kernel → Option ℕ → ℕ × Kernel
thread_into parent start k none = (2 ^ 32 - 1, k)
thread_into parent start k (some j) =
    let regs = (k.procs parent).registers in
    let thread : Process = record (k.procs j) {
      registers = record regs { eip = start; eax = 0 };
      state = runnable;
    } in
    (j, record k { procs = put j thread k.procs })

-- `create_thread`: the registers of the parent, the stack pointer too, but the instruction pointer.
unfoldable pub create_thread : (parent start : ℕ) → Kernel → ℕ × Kernel
unfolding empty_slot thread_into
create_thread parent start k = thread_into parent start k (empty_slot k.procs)
