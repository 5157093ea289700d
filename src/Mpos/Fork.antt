-- ===== src/Mpos/Fork.antt =====
-- Forking in MiniprocOS: which descriptor the child gets, and what its stack holds.
use cs111winter.Base.{
  ℕ, zero, suc, ◌+◌, ◌-◌, ◌*◌, ◌%◌, ◌^◌, ◌≤◌, ◌<◌, ◌≡◌, ◌≢◌, ◌⊎◌, inl, inr, refl, sym, ap, ◌∙◌,
  true, false, Option, none, some, arith, Bool-cases,
}
use cs111winter.Klib.Copying.{memcpy_outside, memcpy_at}
use native.Mathlib.Decide.{ℕ_discrete}
use cs111winter.Mpos.{
  ProcState, empty, runnable, blocked, zombie, Process, Kernel, is_empty, put-here, put-other,
  empty_from, empty_slot, fork_into, stack_top, stack_used, stack_bottom, copy_stack, do_fork,
  proc_stack_size, proc1_stack_addr,
}

-- Of `n` bytes, none is written before it is read.
abbrev Disjoint : (n dst src : ℕ) → Type 0
Disjoint n dst src = (dst ≤ src) ⊎ (src + n ≤ dst)

is_empty-empty : (s : ProcState) → is_empty s ≡ true → s ≡ empty
is_empty-empty empty e = refl
is_empty-empty runnable e = absurd (ground arith)
is_empty-empty blocked e = absurd (ground arith)
is_empty-empty zombie e = absurd (ground arith)

-- Descriptor `j` is the first empty one of the `k` from `lo` on.
pub record FirstEmpty (procs : ℕ → Process) (lo k j : ℕ) : Type 0 where
  pub near : (lo ≤ j) × (j < lo + k)
  pub free : (procs j).state ≡ empty
  pub before : (i : ℕ) → lo ≤ i → i < j → is_empty (procs i).state ≡ false

abbrev pub Found : (ℕ → Process) → (lo k : ℕ) → Option ℕ → Type 0
Found procs lo k o =
    ((j : ℕ) × (o ≡ some j) × FirstEmpty procs lo k j)
    ⊎ ((o ≡ none) × ((i : ℕ) → lo ≤ i → i < lo + k → is_empty (procs i).state ≡ false))

empty_from-Found : (procs : ℕ → Process) (k lo : ℕ) → Found procs lo k (empty_from k procs lo)
unfolding empty_from
empty_from-Found procs zero lo = inr (refl, λ i a b. absurd (omega arith))
empty_from-Found procs (suc k) lo = elim (Bool-cases (is_empty (procs lo).state)) [
  | inl yes' ↦ rw yes' (
      inl (
        lo,
        refl,
        record {
          near = omega arith;
          free = is_empty-empty _ yes';
          before = λ i a b. absurd (omega arith);
        },
      ))
  | inr no' ↦ rw no' (elim (empty_from-Found procs k (lo + 1)) [
    | inl (j, e, f) ↦
        let near = f.near in
        inl (
          j,
          e,
          record {
            near = omega arith;
            free = f.free;
            before = λ i a b. elim (ℕ_discrete i lo) [
              | yes one ↦ rw one no'
              | no more ↦ f.before i (omega arith) b
            ];
          },
        )
    | inr (e, all) ↦ inr (
      e,
      λ i a b. elim (ℕ_discrete i lo) [
        | yes one ↦ rw one no'
        | no more ↦ all i (omega arith) (omega arith)
      ],
    )
  ])
]

pub empty_slot-Found : (procs : ℕ → Process) → Found procs 1 15 (empty_slot procs)
unfolding empty_slot
empty_slot-Found procs = empty_from-Found procs 15 1

-- Process `j` of `k1` is a copy of process `parent` of `k`.
pub record Forked (parent : ℕ) (k : Kernel) (j : ℕ) (k1 : Kernel) : Type 0 where
  pub first_free : FirstEmpty k.procs 1 15 j
  pub is_ready : (k1.procs j).state ≡ runnable
  pub child_regs :
      (k1.procs j).registers
      ≡ record ((k.procs parent).registers) { eax = 0; esp = (k1.procs j).registers.esp }
  -- the child's stack pointer is as far below the top of its stack as the parent's
  pub depth :
      (k1.procs j).registers.esp + (0x280000 + 0x040000 * parent)
      ≡ (k.procs parent).registers.esp + (0x280000 + 0x040000 * j)
  pub others : (i : ℕ) → i ≢ j → k1.procs i ≡ k.procs i
  pub stack :
      (x : ℕ)
      → (k.procs parent).registers.esp + x < 0x280000 + 0x040000 * parent
      → k1.memory ((k1.procs j).registers.esp + x) ≡ k.memory ((k.procs parent).registers.esp + x)
  pub elsewhere :
      (a : ℕ)
      → (a < (k1.procs j).registers.esp) ⊎ (0x280000 + 0x040000 * j ≤ a)
      → k1.memory a ≡ k.memory a

-- A kernel whose descriptors hold their own numbers, and whose process `i` keeps within its stack.
pub record IsOrdered (k : Kernel) (i : ℕ) : Type 0 where
  pub numbered : (j : ℕ) → j < 16 → (k.procs j).pid ≡ j
  pub known : (1 ≤ i) × (i < 16) × ((k.procs i).state ≡ runnable)
  pub within :
      (proc1_stack_addr + proc_stack_size * (i - 1) ≤ (k.procs i).registers.esp)
      × ((k.procs i).registers.esp ≤ proc1_stack_addr + proc_stack_size * i)

-- The outcomes of `do_fork`: a child, or -1 with nothing changed.
abbrev pub ForkOutcome : ℕ → Kernel → ℕ × Kernel → Type 0
ForkOutcome parent k r =
    ((j : ℕ) × (k1 : Kernel) × (r ≡ (j, k1)) × Forked parent k j k1)
    ⊎ ((r ≡ (2 ^ 32 - 1, k)) × ((i : ℕ) → 1 ≤ i → i < 16 → is_empty (k.procs i).state ≡ false))

is_runnable-occupied : {s : ProcState} → s ≡ empty → s ≡ runnable → ⊥
is_runnable-occupied a b =
    let clash : true ≡ false = sym (ap is_empty a) ∙ ap is_empty b in ground arith

stack_sizes :
    (i esp : ℕ)
    → (1 ≤ i) × (i < 16)
    → (0x280000 + 0x040000 * (i - 1) ≤ esp) × (esp ≤ 0x280000 + 0x040000 * i)
    → ((stack_top i + 2 ^ 32 - esp) % 2 ^ 32 + esp ≡ stack_top i)
      × (stack_top i ≡ 0x280000 + 0x040000 * i)
stack_sizes i esp near within = (omega arith, omega arith)

bottom_place :
    (pid j used : ℕ)
    → pid ≡ j
    → (1 ≤ j) × (j < 1 + 15)
    → used ≤ 0x040000
    → (stack_top pid + 2 ^ 32 - used) % 2 ^ 32 + used ≡ 0x280000 + 0x040000 * j
bottom_place pid j used its near small = omega arith

stacks_apart :
    (i j n dst src : ℕ)
    → j ≢ i
    → dst + n ≡ 0x280000 + 0x040000 * j
    → n + src ≡ 0x280000 + 0x040000 * i
    → n ≤ 0x040000
    → Disjoint n dst src
stacks_apart i j n dst src other at_dst at_src small = elim (ℕ_discrete i (i - j + j)) [
  | yes below ↦ inl (omega arith)
  | no above ↦ inr (omega arith)
]

fork_into-none : (parent : ℕ) (k : Kernel) → fork_into parent k none ≡ (2 ^ 32 - 1, k)
unfolding fork_into
fork_into-none parent k = refl

-- What `fork_into` makes of the descriptor `dest`.
abbrev child_of : (dest src : Process) → Process
child_of dest src = record dest {
  registers = record (src.registers) { eax = 0; esp = stack_bottom dest src };
  state = runnable;
}

fork_into-Forked :
    (parent : ℕ) (k : Kernel) (j : ℕ)
    → IsOrdered k parent
    → FirstEmpty k.procs 1 15 j
    → (k1 : Kernel) × (fork_into parent k (some j) ≡ (j, k1)) × Forked parent k j k1
unfolding fork_into copy_stack
fork_into-Forked parent k j ok f =
    let p = k.procs parent in
    let c : Process = child_of (k.procs j) p in
    let near = f.near in
    let known = ok.known in
    let within = ok.within in
    let near' : (1 ≤ parent) × (parent < 16) = omega arith in
    let own : p.pid ≡ parent = ok.numbered parent (omega arith) in
    let its : (k.procs j).pid ≡ j = ok.numbered j (omega arith) in
    let other : j ≢ parent = λ same. is_runnable-occupied f.free (rw same known.2) in
    let (used, top) = stack_sizes parent p.registers.esp near' within in
    let used' : stack_used p + p.registers.esp ≡ stack_top parent = rw own used in
    let bottom : c.registers.esp + stack_used p ≡ 0x280000 + 0x040000 * j =
      bottom_place (k.procs j).pid j (stack_used p) its near (omega arith) in
    let src_top : stack_used p + p.registers.esp ≡ 0x280000 + 0x040000 * parent = used' ∙ top in
    let apart = stacks_apart parent j _ _ _ other bottom src_top (omega arith) in
    let here = put-here j c k.procs in
    let esp_at = ap (λ q. q.registers.esp) here in
    (
      _,
      refl,
      record {
        first_free = f;
        is_ready = rw here refl;
        child_regs = rw here refl;
        depth = rw here (omega (arith, bottom, src_top));
        others = put-other j c k.procs;
        stack = λ x h.
            rw here (memcpy_at _ _ _ k.memory _ _ apart (omega (arith, h, src_top)) (omega arith));
        elsewhere = λ a out. memcpy_outside (stack_used p) c.registers.esp _ k.memory a (elim out [
          | inl low ↦ inl (omega (arith, esp_at, low))
          | inr high ↦ inr (omega (arith, bottom))
        ]);
      },
    )

-- In an ordered kernel do_fork takes the first empty descriptor behind descriptor 0. The child is
-- runnable, its registers are the parent's but for a zero eax and a stack pointer that is as far
-- below the top of its own stack as the parent's is below the top of the parent's, and the bytes
-- on its stack are those on the parent's; the other descriptors and the rest of memory keep their
-- contents. With no descriptor empty the result is -1 and nothing changes.
pub do_fork_lem :
    (parent : ℕ) (k : Kernel) → IsOrdered k parent → ForkOutcome parent k (do_fork parent k)
unfolding do_fork
do_fork_lem parent k ok = elim (empty_slot-Found k.procs) [
  | inl (j, e, f) ↦
      let (k1, r, forked) = fork_into-Forked parent k j ok f in
      inl (j, k1, ap (fork_into parent k) e ∙ r, forked)
  | inr (e, all) ↦
      inr (ap (fork_into parent k) e ∙ fork_into-none parent k, λ i a b. all i a (omega arith))
]
