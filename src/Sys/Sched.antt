-- ===== src/Sys/Sched.antt =====
-- core/sys/sched (sched.c, sched_algo.c, process.h) and the handler `schedule` of
-- arch/x86_64/constant_isrs.c. An access outside the process table is a `fault`. The software
-- interrupt `int $0x20` is an output: `true` where a routine raises it, and `schedule` handles it.
pub mod Slots
pub mod Turn
pub mod Switch
use h0r_net.Common.{
  ◌^◌, ℕ, zero, suc, ◌+◌, ◌-◌, Bool, true, false, List, Option, none, some, ltb, ◌==◌,
  if◌then◌else◌, u32, Outcome, ok, fault, out_of_fuel, ◌>>=◌, at_index, get_elem?, set,
}

-- The register frame of an interrupt (arch/x86_64/interrupts/ISR.h).
pub record Registers : Type 0 where
  pub rax : ℕ
  pub rbx : ℕ
  pub rcx : ℕ
  pub rdx : ℕ
  pub rsi : ℕ
  pub rdi : ℕ
  pub rbp : ℕ
  pub r8 : ℕ
  pub r9 : ℕ
  pub r10 : ℕ
  pub r11 : ℕ
  pub r12 : ℕ
  pub r13 : ℕ
  pub r14 : ℕ
  pub r15 : ℕ
  pub interrupt : ℕ
  pub error : ℕ
  pub rip : ℕ
  pub cs : ℕ
  pub rflags : ℕ
  pub rsp : ℕ
  pub ss : ℕ

abbrev pub zero_registers : Registers
zero_registers = record {
  rax = 0;
  rbx = 0;
  rcx = 0;
  rdx = 0;
  rsi = 0;
  rdi = 0;
  rbp = 0;
  r8 = 0;
  r9 = 0;
  r10 = 0;
  r11 = 0;
  r12 = 0;
  r13 = 0;
  r14 = 0;
  r15 = 0;
  interrupt = 0;
  error = 0;
  rip = 0;
  cs = 0;
  rflags = 0;
  rsp = 0;
  ss = 0;
}

-- SCHED_STATE_NONEXISTENT, _READY, _BLOCKED and _DEAD.
pub data ProcessState : Type 0 where
  nonexistent ready blocked dead : ProcessState

pub record Process : Type 0 where
  pub state_flags : ProcessState
  pub name : ℕ
  pub regs : Registers
  pub saved_regs : Registers
  pub tty_id : ℕ
  pub pagemap : ℕ

-- A process table entry of zero bytes.
abbrev pub no_process : Process
no_process = record {
  state_flags = nonexistent;
  name = 0;
  regs = zero_registers;
  saved_regs = zero_registers;
  tty_id = 0;
  pagemap = 0;
}

abbrev pub max_processes : ℕ
max_processes = 64

pub record Sched : Type 0 where
  pub processes : List Process
  pub num_procs : ℕ
  pub current_pid : ℕ
  pub running : Bool

-- `processes[pid] = f(processes[pid])`
unfoldable pub change : (Process → Process) → ℕ → Sched → Outcome Sched
change f pid s = do
  p ← at_index (get_elem? s.processes pid)
  ok (record s { processes = set s.processes pid (f p) })

-- -1 is `u32`'s largest value.
unfoldable pub sched_add_process : ℕ → Registers → ℕ → Sched → Outcome (ℕ × Sched)
unfolding change
sched_add_process name init_state pagemap s =
    if ltb s.num_procs max_processes
    then (do
      s' ←
          change
            (λ p. record p {
              name = name;
              regs = init_state;
              pagemap = pagemap;
              state_flags = ready;
            })
            s.num_procs s
      ok (s.num_procs, record s' { num_procs = u32 (s.num_procs + 1) }))
    else ok (2 ^ 32 - 1, s)

unfoldable pub sched_kill : ℕ → Sched → Outcome (Bool × Sched)
unfolding change
sched_kill pid s = do
  s' ← (if ltb pid max_processes then change (λ p. record p { state_flags = dead }) pid s else ok s)
  ok (s'.current_pid == pid, s')

-- The slot that is pointed to.
abbrev pub sched_get_curr_process : Sched → Outcome Process
sched_get_curr_process s = at_index (get_elem? s.processes s.current_pid)

unfoldable pub sched_save_state : ℕ → Sched → Outcome Sched
unfolding change
sched_save_state pid s = change (λ p. record p { saved_regs = p.regs }) pid s

unfoldable pub sched_restore_state : ℕ → Sched → Outcome (Bool × Sched)
unfolding change
sched_restore_state pid s = do
  s' ← change (λ p. record p { regs = p.saved_regs }) pid s
  ok (pid == s'.current_pid, s')

unfoldable pub sched_block : ℕ → Sched → Outcome Sched
unfolding change
sched_block pid s = change (λ p. record p { state_flags = blocked }) pid s

unfoldable pub sched_unblock : ℕ → Sched → Outcome Sched
unfolding change
sched_unblock pid s = change (λ p. record p { state_flags = ready }) pid s

-- `sched_current_pid++`, and back to 0 past `sched_num_procs`, which is itself a slot.
unfoldable pub advance : ℕ → ℕ → ℕ
advance num_procs pid = if ltb num_procs (u32 (pid + 1)) then 0 else u32 (pid + 1)

-- What the loop does to a slot that it passes.
unfoldable pub reap : Process → Process
reap p = elim (p.state_flags) [ dead ↦ no_process | _ ↦ p ]

unfoldable pub is_ready : Process → Bool
is_ready p = elim (p.state_flags) [ ready ↦ true | _ ↦ false ]

unfoldable pub next_loop : ℕ → Sched → Outcome Sched
unfolding advance reap is_ready
next_loop zero s = out_of_fuel
next_loop (suc f) s = do
  p ← at_index (get_elem? s.processes s.current_pid)
  let rest = next_loop f (record s {
    processes = set s.processes s.current_pid (reap p);
    current_pid = advance s.num_procs s.current_pid;
  })
  if is_ready p then ok s else rest

unfoldable pub next_process : ℕ → Sched → Outcome Sched
unfolding next_loop
next_process f s = next_loop f (record s { current_pid = advance s.num_procs s.current_pid })

-- The handler of `int $0x20`: what it puts into the frame, and the page map that it binds. Setting
-- the timer and acknowledging the interrupt are left out.
unfoldable pub schedule : ℕ → Registers → Sched → Outcome (Registers × ℕ × Sched)
unfolding next_process change
schedule f regs s = do
  s' ←
      (if s.running
        then change (λ p. record p { regs = regs }) s.current_pid s
        else ok (record s { running = true }))
  s'' ← next_process f s'
  p ← at_index (get_elem? s''.processes s''.current_pid)
  ok (p.regs, p.pagemap, s'')
