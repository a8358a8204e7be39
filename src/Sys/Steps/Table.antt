-- ===== src/Sys/Steps/Table.antt =====
-- core/sys/sched and the handler `schedule`: what the process table keeps through every operation.
use h0r_net.Common.{
  ◌+◌, suc, u32, ℕ, ◌≤◌, ◌<◌, ◌≡◌, refl, sym, ap, ◌∙◌, true, false, some, arith, get_elem?, set,
  length, length-set, get_elem?-set_self, get_elem?-set_ne, ℕ_discrete, Yields, result, Yields->>=,
  Yields-if, Yields-at_index, ltb,
}
use h0r_net.Sys.Sched.{
  Registers, sched_add_process, Sched, Process, is_ready, change, sched_kill, sched_save_state,
  sched_restore_state, sched_block, sched_unblock, max_processes,
}
use h0r_net.Sys.Sched.Slots.{ready_at, slot_ready}

-- The part that does not depend on the current process: no slot from `sched_num_procs` on is ready.
pub record TableIsValid (s : Sched) : Type 0 where
  pub slots : length s.processes ≡ max_processes
  pub counted : s.num_procs ≤ max_processes
  pub unused : (t : ℕ) → s.num_procs ≤ t → ready_at s t ≡ false

pub record SchedIsValid (s : Sched) : Type 0 where
  pub table : TableIsValid s
  pub current : s.current_pid < max_processes
  pub in_use : s.running ≡ true → s.current_pid < s.num_procs

-- A slot that is written stays as ready as it was, if it is an unused one.
set-unused :
    (s : Sched) (pid : ℕ) (p q : Process)
    → get_elem? s.processes pid ≡ some p
    → pid < length s.processes
    → (s.num_procs ≤ pid → is_ready p ≡ false → is_ready q ≡ false)
    → ((t : ℕ) → s.num_procs ≤ t → ready_at s t ≡ false)
    → (t : ℕ) → s.num_procs ≤ t
    → slot_ready (get_elem? (set s.processes pid q) t) ≡ false
set-unused s pid p q at lt keeps unused t le = elim (ℕ_discrete pid t) [
  | yes here ↦
      (let low : s.num_procs ≤ pid = omega arith in
        ap (λ i. slot_ready (get_elem? (set s.processes pid q) i)) (sym here)
        ∙ ap slot_ready (get_elem?-set_self s.processes pid q lt)
        ∙ keeps low (sym (ap slot_ready at) ∙ unused pid low))
  | no ne ↦ ap slot_ready (get_elem?-set_ne s.processes pid t q ne) ∙ unused t le
]

-- The table of `s'` is that of `s` but for the first unused slot.
record Filled (s s' : Sched) : Type 0 where
  slots : length s'.processes ≡ max_processes
  same_procs : s'.num_procs ≡ s.num_procs
  same_current : s'.current_pid ≡ s.current_pid
  same_running : s'.running ≡ s.running
  unused : (t : ℕ) → s.num_procs < t → ready_at s' t ≡ false

module _ {D : Type 0} (s : Sched) where
  -- A change of a slot that does not make an unused one ready.
  pub change-Valid :
      (f : Process → Process) (pid : ℕ)
      → SchedIsValid s
      → pid < max_processes
      → ((p : Process) → s.num_procs ≤ pid → is_ready p ≡ false → is_ready (f p) ≡ false)
      → Yields D SchedIsValid (change f pid s)
  unfolding change
  change-Valid f pid v lt keeps =
      Yields->>= _
        (Yields-at_index s.processes pid (λ out. absurd (omega (arith, v.table.slots)))
          (λ p at. at))
        (λ p at. result (record {
          table = record {
            slots = length-set s.processes pid (f p) ∙ v.table.slots;
            counted = v.table.counted;
            unused =
                set-unused s pid p (f p) at (omega (arith, v.table.slots)) (keeps p) v.table.unused;
          };
          current = v.current;
          in_use = v.in_use;
        }))

  -- A slot beyond the table may be passed, which does nothing.
  pub sched_kill-Valid :
      (pid : ℕ) → SchedIsValid s → Yields D (λ r. SchedIsValid r.1) (sched_kill pid s)
  unfolding sched_kill is_ready
  sched_kill-Valid pid v =
      Yields->>= _
        (Yields-if (ltb pid max_processes)
          (λ lt. change-Valid _ pid v (ground arith) (λ p low not. refl)) (λ ge. result v))
        (λ s' v'. result v')

  pub sched_save_state-Valid :
      (pid : ℕ)
      → SchedIsValid s
      → pid < max_processes
      → Yields D SchedIsValid (sched_save_state pid s)
  unfolding sched_save_state is_ready
  sched_save_state-Valid pid v lt = change-Valid _ pid v lt (λ p low not. not)

  pub sched_restore_state-Valid :
      (pid : ℕ)
      → SchedIsValid s
      → pid < max_processes
      → Yields D (λ r. SchedIsValid r.1) (sched_restore_state pid s)
  unfolding sched_restore_state is_ready
  sched_restore_state-Valid pid v lt =
      Yields->>= _ (change-Valid _ pid v lt (λ p low not. not)) (λ s' v'. result v')

  pub sched_block-Valid :
      (pid : ℕ) → SchedIsValid s → pid < max_processes → Yields D SchedIsValid (sched_block pid s)
  unfolding sched_block is_ready
  sched_block-Valid pid v lt = change-Valid _ pid v lt (λ p low not. refl)

  pub sched_unblock-Valid :
      (pid : ℕ) → SchedIsValid s → pid < s.num_procs → Yields D SchedIsValid (sched_unblock pid s)
  unfolding sched_unblock is_ready
  sched_unblock-Valid pid v lt =
      change-Valid _ pid v (omega (arith, v.table.counted)) (λ p low. absurd (omega arith))

  pub sched_add_process-Valid :
      (name : ℕ) (regs : Registers) (pagemap : ℕ)
      → SchedIsValid s
      → Yields D (λ r. SchedIsValid r.1) (sched_add_process name regs pagemap s)
  unfolding sched_add_process change
  sched_add_process-Valid name regs pagemap v =
      Yields-if (ltb s.num_procs max_processes)
        (λ lt.
          (let low : s.num_procs < max_processes = ground arith in
            let in_table : s.num_procs < length s.processes = omega (arith, v.table.slots) in
            Yields->>= {P = Filled s} _
              (Yields->>= _
                (Yields-at_index s.processes s.num_procs (λ out. absurd (omega arith)) (λ p at. at))
                (λ p at. result (record {
                  slots = length-set s.processes s.num_procs _ ∙ v.table.slots;
                  same_procs = refl;
                  same_current = refl;
                  same_running = refl;
                  unused = λ t lt.
                      ap slot_ready
                        (get_elem?-set_ne s.processes s.num_procs t _ (λ e. omega arith))
                      ∙ v.table.unused t (omega arith);
                })))
              (λ s' c. result (
                let count : u32 (s.num_procs + 1) ≡ suc s.num_procs = omega arith in
                record {
                  table = record {
                    slots = c.slots;
                    counted = omega arith;
                    unused = λ t le. c.unused t (omega arith);
                  };
                  current = rw (c.same_current) v.current;
                  in_use = λ r. omega (arith, c.same_current, v.in_use (sym c.same_running ∙ r));
                }))))
        (λ ge. result v)
