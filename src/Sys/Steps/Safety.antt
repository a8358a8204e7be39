-- ===== src/Sys/Steps/Safety.antt =====
-- arch/x86_64/interrupts/ISR.c over core/sys: what holds in every state that the kernel reaches
-- with its own handlers registered, and which interrupts it comes back from.
use h0r_net.Common.{
  ◌>>=◌, dec_lt, subst, ℕ, zero, suc, ◌≤◌, ◌<◌, ◌≡◌, ◌≢◌, refl, ap, ◌∙◌, true, false, some, none,
  arith, ok, get_elem?, Yields, result, Yields-ok, Yields->>=, Yields-result, Bool, u32, ℕ_discrete,
  replicate,
}
use h0r_net.Sys.Sched.{Registers, no_process, max_processes, is_ready}
use h0r_net.Sys.Sched.Slots.{slot_ready, ready_at}
use h0r_net.Sys.Events.Fire.{Kernel}
use h0r_net.Sys.Events.Valid.{EventIsValid}
use h0r_net.Arch.Isr.{Handlers, isr_handler, schedule_handler, syscall_handler, cisrs_register}
use h0r_net.Arch.Isr.Laws.{isr_handler-dispatch}
use h0r_net.Sys.Steps.{
  start, later, unblock, block, add_process, later, interrupt, Step, Reach, boot_kernel, no_event,
}
use h0r_net.Sys.Steps.Table.{sched_add_process-Valid, sched_block-Valid, sched_unblock-Valid}
use h0r_net.Sys.Steps.Turns.{Scheduled, schedule-keeps, schedule-returns}
use h0r_net.Sys.Steps.Calls.{IsValid, syscall-Valid, syscall-Keeps}

replicate-slot : {A : Type 0} (n i : ℕ) (a b : A) → get_elem? (replicate n a) i ≡ some b → a ≡ b
replicate-slot zero i a b e = absurd cc
replicate-slot (suc n) zero a b e = cc
replicate-slot (suc n) (suc i) a b e = replicate-slot n i a b e

no_process-slot : (n t : ℕ) → slot_ready (get_elem? (replicate n no_process) t) ≡ false
unfolding is_ready
no_process-slot zero t = refl
no_process-slot (suc n) zero = refl
no_process-slot (suc n) (suc t) = no_process-slot n t

no_event-Valid : EventIsValid no_event
no_event-Valid = record { counted = omega arith; all_slots = tt }

boot_kernel-Valid : IsValid boot_kernel
boot_kernel-Valid = record {
  events = record {
    slots = refl;
    counted = omega arith;
    each = λ i e at. subst EventIsValid (replicate-slot 64 i no_event e at) no_event-Valid;
  };
  sched = record {
    table = record { slots = refl; counted = omega arith; unused = λ t le. no_process-slot 64 t };
    current = omega arith;
    in_use = λ on. absurd cc;
  };
}

-- The numbers that the dispatch tells apart.
data InterruptCase (i : ℕ) : Type 0 where
  exception : i < 32 → InterruptCase i
  timer_tick : i ≡ 32 → InterruptCase i
  system_call : i ≡ 128 → InterruptCase i
  unhandled : 32 < i → i < 255 → i ≢ 128 → InterruptCase i
  behind_table : 255 ≤ i → InterruptCase i

interrupt_cases : (i : ℕ) → InterruptCase i
interrupt_cases i = elim (ℕ_discrete i 32) [
  | yes e ↦ timer_tick e
  | no not_timer ↦ elim (ℕ_discrete i 128) [
    | yes e ↦ system_call e
    | no not_call ↦ elim (dec_lt i 32) [
      | yes lt ↦ exception lt
      | no ge ↦ elim (dec_lt i 255) [
        | yes lt ↦ unhandled (omega arith) lt not_call
        | no out ↦ behind_table (omega arith)
      ]
    ]
  ]
]

-- What a system call with these arguments asks for exists.
pub record Answerable (resizes : Bool) (number arg1 : ℕ) : Type 0 where
  pub in_table : number ≡ 2 → u32 arg1 < 64
  pub can_resize : number ≡ 3 → resizes ≡ true

-- The calls that switch to no other process before they return: not `sys_exit`, `event_fire` and
-- `event_exit`, which may raise the timer interrupt themselves.
pub record Quiet (number : ℕ) : Type 0 where
  pub no_exit : number ≢ 0
  pub no_fire : number ≢ 5
  pub no_event_exit : number ≢ 6

module _ (f : ℕ) (resizes : Bool) (handlers : Handlers)
    (registered : cisrs_register f resizes (replicate 255 none) ≡ ok handlers) where
  schedule_handler-Valid :
      (regs : Registers) (k : Kernel)
      → IsValid k
      → Yields Unit (λ r. IsValid r.1) (schedule_handler f regs k)
  unfolding schedule_handler
  schedule_handler-Valid regs k v =
      Yields->>= _ (schedule-keeps f regs k.sched v.sched)
        (λ r s. result (record { events = v.events; sched = s.valid }))

  syscall_handler-Valid :
      (regs : Registers) (k : Kernel)
      → IsValid k
      → Yields Unit (λ r. IsValid r.1) (syscall_handler resizes regs k)
  unfolding syscall_handler
  syscall_handler-Valid regs k v =
      Yields->>= _ (syscall-Valid resizes regs.rax regs.rdi regs.rsi k v (λ e out. tt) (λ e no. tt))
        (λ r h. result h)

  isr_handler-Valid :
      (regs : Registers) (k : Kernel)
      → IsValid k
      → Yields Unit (λ r. IsValid r.1) (isr_handler handlers regs k)
  isr_handler-Valid regs k v =
      let (early, timer, call, other, out) =
        isr_handler-dispatch f resizes handlers registered regs k in
      elim (interrupt_cases regs.interrupt) [
        | exception lt ↦ rw (early lt) (record { holds = tt })
        | timer_tick e ↦ rw (timer e) (schedule_handler-Valid regs k v)
        | system_call e ↦ rw (call e) (syscall_handler-Valid regs k v)
        | unhandled lo hi ne ↦ rw (other lo hi ne) (result v)
        | behind_table ge ↦ rw (out ge) (record { holds = tt })
      ]

  Step-IsValid : (k k' : Kernel) → IsValid k → Step handlers k k' → IsValid k'
  Step-IsValid k k' v (interrupt regs e) = Yields-ok (isr_handler-Valid regs k v) e
  Step-IsValid k k' v (add_process name regs pagemap e) = record {
    events = v.events;
    sched = Yields-ok {D = Unit} (sched_add_process-Valid k.sched name regs pagemap v.sched) e;
  }
  Step-IsValid k k' v (block e) = record {
    events = v.events;
    sched =
        Yields-ok {D = Unit} (sched_block-Valid k.sched k.sched.current_pid v.sched v.sched.current)
          e;
  }
  Step-IsValid k k' v (unblock pid lt e) = record {
    events = v.events;
    sched = Yields-ok {D = Unit} (sched_unblock-Valid k.sched pid v.sched lt) e;
  }

  -- In every state that steps lead to from the start: the process table has its 64 slots, of which
  -- none from `num_procs` on is ready, the current process has a slot, one in use once the scheduler
  -- runs, the event table has its 64 entries, of which at most 64 are given out, and every event has
  -- as many subscribers as it counts, all of them processes with a slot.
  pub Reach-IsValid : (k : Kernel) → Reach handlers k → IsValid k
  Reach-IsValid k start = boot_kernel-Valid
  Reach-IsValid k (later {k = k0} r s) = Step-IsValid k0 k (Reach-IsValid k0 r) s

  -- A timer interrupt in a state that the kernel reaches, the scheduler started or not, with a slot
  -- free and a process ready, comes back: it leaves a reachable state in which the scheduler runs
  -- and the current process is ready, with the frame of that process.
  pub isr_handler-Scheduled :
      (regs : Registers) (k : Kernel) (t : ℕ)
      → Reach handlers k
      → regs.interrupt ≡ 32
      → k.sched.num_procs < max_processes
      → ready_at k.sched t ≡ true
      → k.sched.num_procs < f
      → (regs' : Registers) × (pagemap : ℕ) × (k' : Kernel) × (isr_handler handlers regs k
          ≡ ok (regs', k'))
        × Reach handlers k'
        × Scheduled regs' pagemap k'.sched
  unfolding schedule_handler
  isr_handler-Scheduled regs k t reach e room ready fuel =
      let (early, timer, call, other, out) =
        isr_handler-dispatch f resizes handlers registered regs k in
      let ((regs', pagemap, s), runs, chosen) =
        Yields-result _
          (schedule-returns f regs k.sched t (Reach-IsValid k reach).sched room ready fuel) in
      let done : isr_handler handlers regs k ≡ ok (regs', record k { sched = s }) =
        timer e ∙ ap (λ o. o >>= λ r. ok (r.0, record k { sched = r.2 })) runs in
      (regs', pagemap, record k { sched = s }, done, later reach (interrupt regs done), chosen)

  -- A system call other than `sys_exit`, `event_fire` and `event_exit`, which may raise the timer
  -- interrupt, comes back from a state that the kernel reaches, with the frame of the caller but for
  -- its result, leaves a reachable state and the process table as it was, and raises no interrupt,
  -- unless it destroys an event with a number behind the table, or subscribes where `realloc` does
  -- not get through.
  pub isr_handler-Answered :
      (regs : Registers) (k : Kernel)
      → Reach handlers k
      → regs.interrupt ≡ 128
      → Answerable resizes regs.rax regs.rdi
      → Quiet regs.rax
      → (value : ℕ) × (k' : Kernel) × (isr_handler handlers regs k
          ≡ ok (record regs { rax = value }, k'))
        × Reach handlers k'
        × (k'.sched ≡ k.sched)
        × (k'.interrupts ≡ k.interrupts)
  unfolding syscall_handler
  isr_handler-Answered regs k reach e can quiet =
      let (early, timer, call, other, out) =
        isr_handler-dispatch f resizes handlers registered regs k in
      let ((value, k'), runs, valid) = Yields-result _ (
        syscall-Valid resizes regs.rax regs.rdi regs.rsi k (Reach-IsValid k reach)
          (λ e out. (let lt = can.in_table e in absurd (omega arith)))
          (λ e no. (let yes_it = can.can_resize e in absurd cc))) in
      let done : isr_handler handlers regs k ≡ ok (record regs { rax = value }, k') =
        call e ∙ ap (λ o. o >>= λ r. ok (record regs { rax = r.0 }, r.1)) runs in
      let keeps =
        Yields-ok
          (syscall-Keeps resizes regs.rax regs.rdi regs.rsi k quiet.no_exit quiet.no_fire
            quiet.no_event_exit)
          runs in
      (value, k', done, later reach (interrupt regs done), keeps.0, keeps.1)
