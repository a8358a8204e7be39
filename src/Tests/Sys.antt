-- ===== src/Tests/Sys.antt =====
-- src/core/sys at concrete inputs: a table of 64 slots with two ready processes.
use h0r_net.Common.{
  zero, suc, ℕ, zero, suc, ◌≤◌, ◌≡◌, ◌≢◌, refl, true, false, ◌∷◌, some, ok, out_of_fuel, arith,
  get_elem?, replicate,
}
use h0r_net.Sys.Sched.{
  Sched, Process, Registers, zero_registers, no_process, ready, next_process, sched_kill, schedule,
  is_ready, advance,
}
use h0r_net.Sys.Sched.Slots.{ready_at, slot_ready}
use h0r_net.Sys.Sched.Turn.{InTable, Chosen, next_process-Chosen, next_process-spins}
use h0r_net.Sys.Sched.Switch.{sched_kill-not_chosen, schedule-Chosen, with_slot}

abbrev first_process : Process
first_process = record no_process { state_flags = ready; name = 1 }

abbrev second_process : Process
second_process = record no_process { state_flags = ready; name = 2 }

abbrev pub table : Sched
table = record {
  processes = first_process ∷ second_process ∷ replicate 62 no_process;
  num_procs = 2;
  current_pid = 0;
  running = true;
}

in_table : InTable table
in_table = record { slots = omega arith; word = omega arith; current = omega arith }

first_ready : ready_at table 0 ≡ true
unfolding is_ready
first_ready = refl

second_ready : ready_at table 1 ≡ true
unfolding is_ready
second_ready = refl

next_process-Chosen_example :
    (s' : Sched) × (next_process 3 table ≡ ok s')
    × Chosen (record table { current_pid = advance 2 0 }) s'
next_process-Chosen_example =
    next_process-Chosen table 3 1 in_table (omega arith) second_ready (omega arith)

-- A table in which no process is ready.
abbrev idle : Sched
idle = record table { processes = replicate 64 no_process }

idle_slot : (n t : ℕ) → slot_ready (get_elem? (replicate n no_process) t) ≡ false
unfolding is_ready
idle_slot zero t = refl
idle_slot (suc n) zero = refl
idle_slot (suc n) (suc t) = idle_slot n t

idle_not_ready : (t : ℕ) → t ≤ 2 → ready_at idle t ≡ false
idle_not_ready t le = idle_slot 64 t

idle-InTable : InTable idle
idle-InTable = record { slots = omega arith; word = omega arith; current = omega arith }

next_process-spins_example : next_process 1000 idle ≡ out_of_fuel
next_process-spins_example = next_process-spins idle idle-InTable idle_not_ready 1000

-- A table of 64 processes, of which the last one runs.
abbrev full : Sched
full = record {
  processes = replicate 64 first_process;
  num_procs = 64;
  current_pid = 63;
  running = true;
}

sched_kill-not_chosen_example :
    (s' : Sched) × (s'' : Sched) × (sched_kill 0 table ≡ ok (true, s'))
    × (next_process 3 s' ≡ ok s'')
    × (s''.current_pid ≢ 0)
    × (ready_at table s''.current_pid ≡ true)
sched_kill-not_chosen_example =
    sched_kill-not_chosen 0 table 3 1 in_table (omega arith) (omega arith) (omega arith)
      (omega arith) second_ready (omega arith)

abbrev other_frame : Registers
other_frame = record zero_registers { rax = 5; rip = 4096 }

schedule-Chosen_example :
    (next : Process) × (s' : Sched) × (schedule 3 other_frame table
      ≡ ok (next.regs, next.pagemap, s'))
    × Chosen
        (record (with_slot (λ q. record q { regs = other_frame }) 0 first_process table) {
          current_pid = advance 2 0;
        })
        s'
    × (get_elem? s'.processes s'.current_pid ≡ some next)
    × (get_elem? s'.processes 0 ≡ some (record first_process { regs = other_frame }))
schedule-Chosen_example =
    schedule-Chosen 3 other_frame table first_process refl in_table refl first_ready (omega arith)
