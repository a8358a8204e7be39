-- ===== src/Sys/Steps.antt =====
-- The kernel from its start on, as a system of steps: the interrupts that `isr_handler` of
-- arch/x86_64/interrupts/ISR.c is called for, the processes that core/sys/krnlexec.c adds, and what
-- the locks of vendor/printf.c do to the process table.
pub mod Table
pub mod Turns
pub mod Calls
pub mod Safety
use h0r_net.Common.{ℕ, ◌≡◌, ◌<◌, [], Bool, false, Outcome, ok, replicate}
use h0r_net.Sys.Sched.{
  Sched, Registers, no_process, max_processes, sched_add_process, sched_block, sched_unblock,
}
use h0r_net.Sys.Events.{Event, Events}
use h0r_net.Sys.Events.Fire.{Kernel}
use h0r_net.Arch.Isr.{Handlers, isr_handler}

-- An entry of zero bytes.
abbrev pub no_event : Event
no_event = record { event = 0; subscribers = []; num_subscribers = 0 }

-- The variables of sched.c and events.c before anything runs.
abbrev pub boot_kernel : Kernel
boot_kernel = record {
  events = record { events = replicate 64 no_event; num_events = 0 };
  sched = record {
    processes = replicate max_processes no_process;
    num_procs = 0;
    current_pid = 0;
    running = false;
  };
  interrupts = 0;
  stores = [];
}

-- An interrupt may come with any frame. A process that waits for a lock is blocked by itself, and
-- let go by the number that it had.
pub data Step (handlers : Handlers) (k : Kernel) : Kernel → Type 0 where
  interrupt :
      (regs : Registers) {regs' : Registers} {k' : Kernel}
      → isr_handler handlers regs k ≡ ok (regs', k')
      → Step handlers k k'
  add_process :
      (name : ℕ) (regs : Registers) (pagemap : ℕ) {pid : ℕ} {s : Sched}
      → sched_add_process name regs pagemap k.sched ≡ ok (pid, s)
      → Step handlers k (record k { sched = s })
  block :
      {s : Sched}
      → sched_block k.sched.current_pid k.sched ≡ ok s
      → Step handlers k (record k { sched = s })
  unblock :
      (pid : ℕ) {s : Sched}
      → pid < k.sched.num_procs
      → sched_unblock pid k.sched ≡ ok s
      → Step handlers k (record k { sched = s })

pub data Reach (handlers : Handlers) : Kernel → Type 0 where
  start : Reach handlers boot_kernel
  later : {k k' : Kernel} → Reach handlers k → Step handlers k k' → Reach handlers k'
