-- ===== src/Sys/Steps/Turns.antt =====
-- `next_process` and the handler `schedule` of arch/x86_64/constant_isrs.c: the valid process table,
-- and the process that runs next.
use h0r_net.Sys.Sched.Switch.{some-lt}
use h0r_net.Sys.Sched.Turn.{next_process-ends, passed-ready}
use h0r_net.Common.{
  get_elem?-set_ne, get_elem?-set_self, ℕ_discrete, set, length, Yields-known, ok, if◌then◌else◌,
  inr, inl, Bool-cases, zero, Yields-map, suc, ℕ, ◌<◌, ◌≡◌, refl, sym, ap, ◌∙◌, true, false, some,
  arith, get_elem?, length-set, Yields, result, Yields->>=, Yields-if, Yields-at_index, ltb,
}
use h0r_net.Sys.Sched.{
  max_processes, advance, next_process, schedule, reap, Registers, next_loop, Sched, Process,
  is_ready, change,
}
use h0r_net.Sys.Sched.Slots.{passed, ready_at, slot_ready}
use h0r_net.Sys.Steps.Table.{TableIsValid, SchedIsValid}

-- What the loop of `next_process` leaves when it ends.
pub record Turned (s s' : Sched) : Type 0 where
  pub table : TableIsValid s'
  pub is_ready : ready_at s' s'.current_pid ≡ true
  pub in_use : s'.current_pid < s'.num_procs
  pub same_procs : s'.num_procs ≡ s.num_procs
  pub same_running : s'.running ≡ s.running

-- What is ready is in use.
pub ready-in_use : (s : Sched) → TableIsValid s → (t : ℕ) → ready_at s t ≡ true → t < s.num_procs
ready-in_use s v t r = elim (Bool-cases (ltb t s.num_procs)) [
  | inl lt ↦ ground arith
  | inr ge ↦ (let un = v.unused t (ground arith) in absurd cc)
]

passed-Valid :
    (s : Sched) (p : Process)
    → TableIsValid s
    → get_elem? s.processes s.current_pid ≡ some p
    → is_ready p ≡ false
    → TableIsValid (passed p s)
passed-Valid s p v at not = record {
  slots = length-set s.processes s.current_pid (reap p) ∙ v.slots;
  counted = v.counted;
  unused =
      λ t le. passed-ready s p at not (some-lt s.processes s.current_pid p at) t ∙ v.unused t le;
}

next_loop-Turned : (f : ℕ) (s : Sched) → TableIsValid s → Yields Unit (Turned s) (next_loop f s)
unfolding next_loop
next_loop-Turned zero s v = record { holds = tt }
next_loop-Turned (suc f) s v =
    Yields->>= _ (Yields-at_index s.processes s.current_pid (λ out. tt) (λ p at. at)) (λ p at.
      Yields-if (is_ready p)
        (λ now. result (record {
          table = v;
          is_ready = ap slot_ready at ∙ now;
          in_use = ready-in_use s v s.current_pid (ap slot_ready at ∙ now);
          same_procs = refl;
          same_running = refl;
        }))
        (λ later.
          Yields-map _ (next_loop-Turned f (passed p s) (passed-Valid s p v at later)) (λ s' t.
            record {
              table = t.table;
              is_ready = t.is_ready;
              in_use = t.in_use;
              same_procs = t.same_procs;
              same_running = t.same_running;
            })))

next_process-Turned :
    (f : ℕ) (s : Sched) → TableIsValid s → Yields Unit (Turned s) (next_process f s)
unfolding next_process
next_process-Turned f s v =
    Yields-map _
      (next_loop-Turned f (record s { current_pid = advance s.num_procs s.current_pid })
        (record { slots = v.slots; counted = v.counted; unused = v.unused }))
      (λ s' t. record {
        table = t.table;
        is_ready = t.is_ready;
        in_use = t.in_use;
        same_procs = t.same_procs;
        same_running = t.same_running;
      })

-- The scheduler runs, and the frame and the page map are those of the current process, which is
-- ready.
pub record Scheduled (frame : Registers) (pagemap : ℕ) (s : Sched) : Type 0 where
  pub valid : SchedIsValid s
  pub started : s.running ≡ true
  pub process : Process
  pub here : get_elem? s.processes s.current_pid ≡ some process
  pub runs : is_ready process ≡ true
  pub same_frame : frame ≡ process.regs
  pub same_pagemap : pagemap ≡ process.pagemap

-- What the first half of `schedule` leaves: the interrupted frame in the table, or the scheduler
-- started.
record Saved (s s' : Sched) : Type 0 where
  slots : length s'.processes ≡ length s.processes
  same_procs : s'.num_procs ≡ s.num_procs
  started : s'.running ≡ true
  same_ready : (t : ℕ) → ready_at s' t ≡ ready_at s t

keeps_regs :
    (regs : Registers) (s : Sched) (p : Process)
    → get_elem? s.processes s.current_pid ≡ some p
    → (t : ℕ)
    → slot_ready (get_elem? (set s.processes s.current_pid (record p { regs = regs })) t)
      ≡ ready_at s t
unfolding is_ready
keeps_regs regs s p at t = elim (ℕ_discrete s.current_pid t) [
  | yes here ↦
      ap slot_ready (
        ap (get_elem? (set s.processes s.current_pid (record p { regs = regs }))) (sym here)
        ∙ get_elem?-set_self s.processes s.current_pid _ (some-lt s.processes s.current_pid p at))
      ∙ sym (ap slot_ready (ap (get_elem? s.processes) (sym here) ∙ at))
  | no ne ↦ ap slot_ready (get_elem?-set_ne s.processes s.current_pid t _ ne)
]

Saved-Valid : (s s' : Sched) → TableIsValid s → Saved s s' → TableIsValid s'
Saved-Valid s s' v c = record {
  slots = c.slots ∙ v.slots;
  counted = omega (arith, c.same_procs, v.counted);
  unused = λ t le. c.same_ready t ∙ v.unused t (omega (arith, c.same_procs));
}

-- `D` is where the choice of the next process may have no result.
module _ {D : Type 0} (f : ℕ) (regs : Registers) (s : Sched) (v : SchedIsValid s) where
  first_half : Yields D (Saved s) (
      if s.running
      then change (λ p. record p { regs = regs }) s.current_pid s
      else ok (record s { running = true }))
  unfolding change
  first_half =
      Yields-if s.running
        (λ on.
          Yields->>= _
            (Yields-at_index s.processes s.current_pid
              (λ out. absurd (omega (arith, v.table.slots, v.current))) (λ p at. at))
            (λ p at. result (record {
              slots = length-set s.processes s.current_pid _;
              same_procs = refl;
              started = on;
              same_ready = keeps_regs regs s p at;
            })))
        (λ off.
          result
            (record { slots = refl; same_procs = refl; started = refl; same_ready = λ t. refl }))

  pub schedule-Scheduled :
      ((s' : Sched)
        → TableIsValid s'
        → s'.num_procs ≡ s.num_procs
        → ((t : ℕ) → ready_at s' t ≡ ready_at s t)
        → Yields D (Turned s') (next_process f s'))
      → Yields D (λ r. Scheduled r.0 r.1 r.2) (schedule f regs s)
  unfolding schedule
  schedule-Scheduled turn = Yields->>= _ first_half (λ s' c.
      Yields->>= _ (turn s' (Saved-Valid s s' v.table c) c.same_procs c.same_ready) (λ s'' t.
        Yields->>= _
          (Yields-at_index s''.processes s''.current_pid
            (λ out. absurd (omega (arith, t.in_use, t.table.counted, t.table.slots))) (λ p at. at))
          (λ p at. result (record {
            valid = record {
              table = t.table;
              current = omega (arith, t.in_use, t.table.counted);
              in_use = λ on. t.in_use;
            };
            started = t.same_running ∙ c.started;
            process = p;
            here = at;
            runs = sym (ap slot_ready at) ∙ t.is_ready;
            same_frame = refl;
            same_pagemap = refl;
          }))))

-- A timer interrupt may find nothing to run; what it does find is `Scheduled`.
pub schedule-keeps :
    (f : ℕ) (regs : Registers) (s : Sched)
    → SchedIsValid s
    → Yields Unit (λ r. Scheduled r.0 r.1 r.2) (schedule f regs s)
schedule-keeps f regs s v =
    schedule-Scheduled f regs s v (λ s' table same ready. next_process-Turned f s' table)

-- With a free slot and a ready process, it has a result.
pub schedule-returns :
    (f : ℕ) (regs : Registers) (s : Sched) (t : ℕ)
    → SchedIsValid s
    → s.num_procs < max_processes
    → ready_at s t ≡ true
    → s.num_procs < f
    → Yields ⊥ (λ r. Scheduled r.0 r.1 r.2) (schedule f regs s)
schedule-returns f regs s t v room ready fuel =
    schedule-Scheduled f regs s v (λ s' table procs same.
      let r : ready_at s' t ≡ true = same t ∙ ready in
      let low : t < s.num_procs = ready-in_use s v.table t ready in
      let (s'', e) =
        next_process-ends f s' t (omega (arith, procs, table.slots)) (omega (arith, procs))
          (omega (arith, procs)) r (omega (arith, procs)) in
      Yields-known e (next_process-Turned f s' table))
