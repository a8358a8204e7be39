-- ===== src/Tests/Steps.antt =====
-- The kernel's steps at concrete inputs: a process is added, the timer starts it, and it asks for an
-- event.
use h0r_net.Common.{ℕ, ◌≡◌, refl, true, none, some, arith, ok, replicate, set, ◌∷◌}
use h0r_net.Sys.Sched.{
  Registers, zero_registers, no_process, Process, ready, sched_add_process, is_ready,
}
use h0r_net.Sys.Sched.Slots.{ready_at}
use h0r_net.Sys.Events.Fire.{Kernel}
use h0r_net.Arch.Isr.{Handlers, isr_handler, schedule_handler, syscall_handler, cisrs_register}
use h0r_net.Sys.Steps.{Reach, start, later, add_process, boot_kernel}
use h0r_net.Sys.Steps.Turns.{Scheduled}
use h0r_net.Sys.Steps.Calls.{IsValid}
use h0r_net.Sys.Steps.Safety.{Reach-IsValid, isr_handler-Scheduled, isr_handler-Answered}

abbrev handlers : Handlers
handlers =
    set (set (replicate 255 none) 32 (some (schedule_handler 65))) 128 (some (syscall_handler true))

registered : cisrs_register 65 true (replicate 255 none) ≡ ok handlers
unfolding cisrs_register
registered = refl

abbrev entry_frame : Registers
entry_frame = record zero_registers { rip = 0x200000 }

abbrev first_process : Process
first_process = record no_process {
  state_flags = ready;
  name = 1;
  regs = entry_frame;
  pagemap = 0x5000;
}

-- The kernel after the first process has been added.
abbrev kernel : Kernel
kernel = record boot_kernel {
  sched = record boot_kernel.sched {
    processes = first_process ∷ replicate 63 no_process;
    num_procs = 1;
  };
}

reach : Reach handlers kernel
unfolding sched_add_process
reach = later start (add_process 1 entry_frame 0x5000 refl)

Reach-IsValid_example : IsValid kernel
Reach-IsValid_example = Reach-IsValid 65 true handlers registered kernel reach

first_ready : ready_at kernel.sched 0 ≡ true
unfolding is_ready
first_ready = refl

abbrev timer : Registers
timer = record zero_registers { interrupt = 32 }

isr_handler-Scheduled_example :
    (regs' : Registers) × (pagemap : ℕ) × (k' : Kernel) × (isr_handler handlers timer kernel
      ≡ ok (regs', k'))
    × Reach handlers k'
    × Scheduled regs' pagemap k'.sched
isr_handler-Scheduled_example =
    isr_handler-Scheduled 65 true handlers registered timer kernel 0 reach refl (omega arith)
      first_ready (omega arith)

-- A system call that creates an event.
abbrev create : Registers
create = record zero_registers { interrupt = 128; rax = 1 }

isr_handler-Answered_example :
    (value : ℕ) × (k' : Kernel) × (isr_handler handlers create kernel
      ≡ ok (record create { rax = value }, k'))
    × Reach handlers k'
    × (k'.sched ≡ kernel.sched)
    × (k'.interrupts ≡ kernel.interrupts)
isr_handler-Answered_example =
    isr_handler-Answered 65 true handlers registered create kernel reach refl
      (record { in_table = λ e. absurd (omega arith); can_resize = λ e. refl })
      (record {
        no_exit = λ e. omega (arith, e);
        no_fire = λ e. omega (arith, e);
        no_event_exit = λ e. omega (arith, e);
      })
