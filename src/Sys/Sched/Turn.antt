-- ===== src/Sys/Sched/Turn.antt =====
-- core/sys/sched/sched_algo.c, `next_process`: which process it chooses, and when its loop ends.
use h0r_net.Common.{
  ℕ, zero, suc, ◌+◌, ◌-◌, ◌≤◌, ◌<◌, ◌^◌, ◌≡◌, ◌≢◌, refl, true, false, some, get_elem?, length,
  arith, ok, ℕ_discrete, inl, inr, Bool-cases, get_elem?-set_self, get_elem?-set_ne, get_elem?-lt,
  length-set, ap, sym, ◌∙◌, out_of_fuel, fault, get_elem?-ge,
}
use h0r_net.Sys.Sched.{Sched, Process, is_ready, reap, advance, next_loop, next_process}
use h0r_net.Sys.Sched.Slots.{
  slot_ready, ready_at, passed, distance, distance-advance, distance-lt, distance_self, advance-suc,
  advance-le, reap-not_ready,
}

-- `s'` is `s` with the process chosen: the ready one that is nearest on the way round the table
-- from the slot that `s` stands at.
pub record Chosen (s s' : Sched) : Type 0 where
  pub in_turn : s'.current_pid ≤ s.num_procs
  pub is_next : ready_at s s'.current_pid ≡ true
  pub nearest :
      (t : ℕ)
      → t ≤ s.num_procs
      → ready_at s t ≡ true
      → distance s.num_procs s.current_pid s'.current_pid ≤ distance s.num_procs s.current_pid t
  pub kept : (t : ℕ) → ready_at s t ≡ true → get_elem? s'.processes t ≡ get_elem? s.processes t
  pub same_procs : s'.num_procs ≡ s.num_procs
  pub same_running : s'.running ≡ s.running

-- The table has a slot for every number that the loop goes through.
pub record InTable (s : Sched) : Type 0 where
  pub slots : s.num_procs < length s.processes
  pub word : suc s.num_procs < 2 ^ 32
  pub current : s.current_pid ≤ s.num_procs

passed-InTable : (s : Sched) (p : Process) → InTable s → InTable (passed p s)
passed-InTable s p h = record {
  slots = rw length-set h.slots;
  word = h.word;
  current = advance-le s.num_procs s.current_pid;
}

-- Passing a slot that is not ready leaves the same slots ready.
pub passed-ready :
    (s : Sched) (p : Process)
    → get_elem? s.processes s.current_pid ≡ some p
    → is_ready p ≡ false
    → s.current_pid < length s.processes
    → (t : ℕ) → ready_at (passed p s) t ≡ ready_at s t
passed-ready s p e not_ready lt t = elim (ℕ_discrete s.current_pid t) [
  | yes here ↦
      ap slot_ready (
        ap (get_elem? (passed p s).processes) (sym here)
        ∙ get_elem?-set_self s.processes s.current_pid (reap p) lt)
      ∙ reap-not_ready p not_ready
      ∙ sym (ap slot_ready (ap (get_elem? s.processes) (sym here) ∙ e) ∙ not_ready)
  | no ne ↦ ap slot_ready (get_elem?-set_ne s.processes s.current_pid t (reap p) ne)
]

not_current :
    (s : Sched) (p : Process)
    → get_elem? s.processes s.current_pid ≡ some p
    → is_ready p ≡ false
    → (t : ℕ) → ready_at s t ≡ true
    → s.current_pid ≢ t
not_current s p e not_ready t r here =
    let is : ready_at s t ≡ false =
      ap slot_ready (ap (get_elem? s.processes) (sym here) ∙ e) ∙ not_ready in
    cc

Chosen-passed :
    (s s' : Sched) (p : Process)
    → InTable s
    → get_elem? s.processes s.current_pid ≡ some p
    → is_ready p ≡ false
    → Chosen (passed p s) s'
    → Chosen s s'
Chosen-passed s s' p h e not_ready c =
    let lt : s.current_pid < length s.processes = omega (arith, h.slots, h.current) in
    let same = passed-ready s p e not_ready lt in
    let next : ready_at s s'.current_pid ≡ true = sym (same s'.current_pid) ∙ c.is_next in
    let step = λ (t : ℕ) (hi : t ≤ s.num_procs) (r : ready_at s t ≡ true).
      distance-advance s.num_procs s.current_pid t h.word h.current hi
        (not_current s p e not_ready t r) in
    record {
      in_turn = c.in_turn;
      is_next = next;
      nearest = λ t hi r.
          omega
            (arith, c.nearest t hi (same t ∙ r), step t hi r, step s'.current_pid c.in_turn next);
      kept = λ t r.
          c.kept t (same t ∙ r)
          ∙ get_elem?-set_ne s.processes s.current_pid t (reap p) (not_current s p e not_ready t r);
      same_procs = c.same_procs;
      same_running = c.same_running;
    }

here-Chosen : (s : Sched) → InTable s → ready_at s s.current_pid ≡ true → Chosen s s
here-Chosen s h r = record {
  in_turn = h.current;
  is_next = r;
  nearest = λ t hi rt. omega (arith, distance_self s.num_procs s.current_pid);
  kept = λ t rt. refl;
  same_procs = refl;
  same_running = refl;
}

next_loop-Chosen :
    (f : ℕ) (s : Sched) (t : ℕ)
    → InTable s
    → t ≤ s.num_procs
    → ready_at s t ≡ true
    → distance s.num_procs s.current_pid t < f
    → (s' : Sched) × (next_loop f s ≡ ok s') × Chosen s s'
unfolding next_loop
next_loop-Chosen zero s t h hi r fuel = absurd (omega arith)
next_loop-Chosen (suc f) s t h hi r fuel =
    let (p, e) = get_elem?-lt s.processes s.current_pid (omega (arith, h.slots, h.current)) in
    elim (Bool-cases (is_ready p)) [
      | inl now ↦ rw (e, now) (s, refl, here-Chosen s h (ap slot_ready e ∙ now))
      | inr later ↦
          let (s', eq, c) =
            next_loop-Chosen f (passed p s) t (passed-InTable s p h) hi
              (passed-ready s p e later (omega (arith, h.slots, h.current)) t ∙ r)
              (omega (
                arith,
                distance-advance s.num_procs s.current_pid t h.word h.current hi
                    (not_current s p e later t r),
              )) in
          rw (e, later) (s', eq, Chosen-passed s s' p h e later c)
    ]

-- When some process up to `sched_num_procs` is ready, `next_process` ends within one round of the
-- table, and chooses the ready process that comes first after the current one.
pub next_process-Chosen :
    (s : Sched) (f t : ℕ)
    → InTable s
    → t ≤ s.num_procs
    → ready_at s t ≡ true
    → s.num_procs < f
    → (s' : Sched) × (next_process f s ≡ ok s')
      × Chosen (record s { current_pid = advance s.num_procs s.current_pid }) s'
unfolding next_process
next_process-Chosen s f t h hi r fuel =
    let le = advance-le s.num_procs s.current_pid in
    next_loop-Chosen f (record s { current_pid = advance s.num_procs s.current_pid }) t
      (record { slots = h.slots; word = h.word; current = le }) hi r
      (omega (arith, distance-lt s.num_procs (advance s.num_procs s.current_pid) t le hi))

-- The loop ends wherever the current process stands, for instance before the scheduler is started.
pub next_process-ends :
    (f : ℕ) (s : Sched) (t : ℕ)
    → s.num_procs < length s.processes
    → suc s.num_procs < 2 ^ 32
    → t ≤ s.num_procs
    → ready_at s t ≡ true
    → s.num_procs < f
    → (s' : Sched) × (next_process f s ≡ ok s')
unfolding next_process
next_process-ends f s t slots word hi r fuel =
    let le = advance-le s.num_procs s.current_pid in
    let (s', e, c) =
      next_loop-Chosen f (record s { current_pid = advance s.num_procs s.current_pid }) t
        (record { slots = slots; word = word; current = le }) hi r
        (omega (arith, distance-lt s.num_procs (advance s.num_procs s.current_pid) t le hi)) in
    (s', e)

next_loop-spins :
    (f : ℕ) (s : Sched)
    → InTable s
    → ((t : ℕ) → t ≤ s.num_procs → ready_at s t ≡ false)
    → next_loop f s ≡ out_of_fuel
unfolding next_loop
next_loop-spins zero s h none_ready = refl
next_loop-spins (suc f) s h none_ready =
    let lt : s.current_pid < length s.processes = omega (arith, h.slots, h.current) in
    let (p, e) = get_elem?-lt s.processes s.current_pid lt in
    let later : is_ready p ≡ false = sym (ap slot_ready e) ∙ none_ready s.current_pid h.current in
    rw (e, later)
      (next_loop-spins f (passed p s) (passed-InTable s p h)
        (λ t hi. passed-ready s p e later lt t ∙ none_ready t hi))

-- When no process up to `sched_num_procs` is ready, `next_process` does not end: it uses up every
-- amount of fuel.
pub next_process-spins :
    (s : Sched)
    → InTable s
    → ((t : ℕ) → t ≤ s.num_procs → ready_at s t ≡ false)
    → (f : ℕ) → next_process f s ≡ out_of_fuel
unfolding next_process
next_process-spins s h none_ready f =
    next_loop-spins f (record s { current_pid = advance s.num_procs s.current_pid })
      (record { slots = h.slots; word = h.word; current = advance-le s.num_procs s.current_pid })
      none_ready

next_loop-fault :
    (left f : ℕ) (s : Sched)
    → s.num_procs ≡ length s.processes
    → suc s.num_procs < 2 ^ 32
    → s.current_pid + left ≡ s.num_procs
    → ((t : ℕ) → s.current_pid ≤ t → ready_at s t ≡ false)
    → left < f
    → next_loop f s ≡ fault
unfolding next_loop
next_loop-fault left zero s full word e none_ready fuel = absurd (omega arith)
next_loop-fault zero (suc f) s full word e none_ready fuel =
    rw (get_elem?-ge s.processes s.current_pid (omega arith))
next_loop-fault (suc left) (suc f) s full word e none_ready fuel =
    let lt : s.current_pid < length s.processes = omega arith in
    let (p, at) = get_elem?-lt s.processes s.current_pid lt in
    let later : is_ready p ≡ false =
      sym (ap slot_ready at) ∙ none_ready s.current_pid (omega arith) in
    let step : advance s.num_procs s.current_pid ≡ suc s.current_pid =
      advance-suc s.num_procs s.current_pid word (omega arith) in
    rw (at, later)
      (next_loop-fault left f (passed p s)
        (full ∙ sym (length-set s.processes s.current_pid (reap p))) word (omega (arith, step))
        (λ t lo. passed-ready s p at later lt t ∙ none_ready t (omega (arith, step))) (omega arith))

-- In a table that is full, `next_process` reads the slot behind the table when no process after the
-- current one is ready, since its loop goes to `sched_num_procs` itself.
pub next_process-fault :
    (s : Sched) (f : ℕ)
    → s.num_procs ≡ length s.processes
    → suc s.num_procs < 2 ^ 32
    → s.current_pid < s.num_procs
    → ((t : ℕ) → s.current_pid < t → ready_at s t ≡ false)
    → s.num_procs < f
    → next_process f s ≡ fault
unfolding next_process
next_process-fault s f full word lt none_ready fuel =
    let step : advance s.num_procs s.current_pid ≡ suc s.current_pid =
      advance-suc s.num_procs s.current_pid word lt in
    next_loop-fault (s.num_procs - suc s.current_pid) f
      (record s { current_pid = advance s.num_procs s.current_pid }) full word (omega (arith, step))
      (λ t lo. none_ready t (omega (arith, step))) (omega arith)
