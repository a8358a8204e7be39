-- ===== src/Sys/Sched/Switch.antt =====
-- core/sys/sched/sched.c and the handler `schedule` of arch/x86_64/constant_isrs.c: what they do to
-- the process table, and to which frame control returns.
use h0r_net.Common.{
  if◌then◌else◌, at_index, ℕ, suc, ◌+◌, ◌≤◌, ◌<◌, ◌≡◌, ◌≢◌, refl, true, false, List, Option, none,
  some, ltb, ◌==◌, get_elem?, set, length, arith, ok, inl, inr, Bool-cases, get_elem?-set_self,
  get_elem?-set_ne, get_elem?-lt, length-set, u32, ap, sym, ◌∙◌, get_elem?-ge, ◌>>=◌, Outcome,
}
use h0r_net.Sys.Sched.{
  Sched, Process, Registers, ready, dead, blocked, is_ready, advance, change, next_process,
  sched_add_process, sched_kill, sched_save_state, sched_restore_state, sched_block, sched_unblock,
  schedule, max_processes,
}
use h0r_net.Sys.Sched.Slots.{slot_ready, ready_at}
use h0r_net.Sys.Sched.Turn.{InTable, Chosen, next_process-Chosen}

-- `s'` is `s` with slot `pid` holding `p`.
pub record Changed (s s' : Sched) (pid : ℕ) (p : Process) : Type 0 where
  pub here : get_elem? s'.processes pid ≡ some p
  pub others : (i : ℕ) → pid ≢ i → get_elem? s'.processes i ≡ get_elem? s.processes i
  pub same_length : length s'.processes ≡ length s.processes
  pub same_current : s'.current_pid ≡ s.current_pid
  pub same_running : s'.running ≡ s.running

abbrev pub with_slot : (Process → Process) → ℕ → Process → Sched → Sched
with_slot f pid p s = record s { processes = set s.processes pid (f p) }

pub some-lt : {A : Type 0} (xs : List A) (i : ℕ) (x : A) → get_elem? xs i ≡ some x → i < length xs
some-lt xs i x e = elim (Bool-cases (ltb i (length xs))) [
  | inl lt ↦ ground arith
  | inr ge ↦ (let out = get_elem?-ge xs i (ground arith) in absurd cc)
]

with_slot-Changed :
    (f : Process → Process) (pid : ℕ) (s : Sched) (p : Process)
    → get_elem? s.processes pid ≡ some p
    → Changed s (with_slot f pid p s) pid (f p)
with_slot-Changed f pid s p e = record {
  here = get_elem?-set_self s.processes pid (f p) (some-lt s.processes pid p e);
  others = λ i ne. get_elem?-set_ne s.processes pid i (f p) ne;
  same_length = length-set s.processes pid (f p);
  same_current = refl;
  same_running = refl;
}

Changed-trans :
    {s s' s'' : Sched} {pid : ℕ} {p q : Process}
    → Changed s s' pid p
    → Changed s' s'' pid q
    → Changed s s'' pid q
Changed-trans c d = record {
  here = d.here;
  others = λ i ne. d.others i ne ∙ c.others i ne;
  same_length = d.same_length ∙ c.same_length;
  same_current = d.same_current ∙ c.same_current;
  same_running = d.same_running ∙ c.same_running;
}

change-some :
    (f : Process → Process) (pid : ℕ) (s : Sched) (p : Process)
    → get_elem? s.processes pid ≡ some p
    → change f pid s ≡ ok (with_slot f pid p s)
unfolding change
change-some f pid s p e = rw e refl

abbrev killed : Process → Process
killed p = record p { state_flags = dead }

killed-not_ready : (p : Process) → is_ready (killed p) ≡ false
unfolding is_ready
killed-not_ready p = refl

is_ready-regs :
    (frame : Registers) (p : Process) → is_ready (record p { regs = frame }) ≡ is_ready p
unfolding is_ready
is_ready-regs frame p = refl

slot_ready-some : (o : Option Process) → slot_ready o ≡ true → (p : Process) × (o ≡ some p)
slot_ready-some none r = absurd cc
slot_ready-some (some p) r = (p, refl)

-- In a table of `MAX_PROCESSES` slots with a free one, `sched_add_process` returns the number of
-- the slot that it fills with a ready process of the given frame and page map; the other slots are
-- kept and the count of processes is one more.
pub sched_add_process-ready :
    (name pagemap : ℕ) (regs : Registers) (s : Sched)
    → length s.processes ≡ max_processes
    → s.num_procs < max_processes
    → (p : Process) × (s' : Sched) × (sched_add_process name regs pagemap s ≡ ok (s.num_procs, s'))
      × Changed s s' s.num_procs p
      × (s'.num_procs ≡ suc s.num_procs)
      × (is_ready p ≡ true)
      × (p.regs ≡ regs)
      × (p.pagemap ≡ pagemap)
unfolding sched_add_process is_ready
sched_add_process-ready name pagemap regs s len lt =
    let (p, e) = get_elem?-lt s.processes s.num_procs (omega arith) in
    let room : ltb s.num_procs max_processes ≡ true = ground arith in
    let fill = λ (p : Process). record p {
      name = name;
      regs = regs;
      pagemap = pagemap;
      state_flags = ready;
    } in
    let c = with_slot-Changed fill s.num_procs s p e in
    rw (room, e)
      (
        fill p,
        record (with_slot fill s.num_procs p s) { num_procs = u32 (s.num_procs + 1) },
        refl,
        record {
          here = c.here;
          others = c.others;
          same_length = c.same_length;
          same_current = refl;
          same_running = refl;
        },
        omega arith,
        refl,
        refl,
        refl,
      )

-- A process that is killed is not chosen again: with another one ready, the next choice ends and
-- takes a different slot.
pub sched_kill-not_chosen :
    (pid : ℕ) (s : Sched) (f t : ℕ)
    → InTable s
    → pid < length s.processes
    → pid < max_processes
    → t ≤ s.num_procs
    → pid ≢ t
    → ready_at s t ≡ true
    → s.num_procs < f
    → (s' : Sched) × (s'' : Sched) × (sched_kill pid s ≡ ok (s.current_pid == pid, s'))
      × (next_process f s' ≡ ok s'')
      × (s''.current_pid ≢ pid)
      × (ready_at s s''.current_pid ≡ true)
unfolding sched_kill
sched_kill-not_chosen pid s f t h lt max hi ne r fuel =
    let (p, e) = get_elem?-lt s.processes pid lt in
    let known : ltb pid max_processes ≡ true = ground arith in
    let s' : Sched = with_slot killed pid p s in
    let c = with_slot-Changed killed pid s p e in
    let (s'', eq, chosen) =
      next_process-Chosen s' f t
        (record {
          slots = omega (arith, c.same_length, h.slots);
          word = h.word;
          current = h.current;
        })
        hi (ap slot_ready (c.others t ne) ∙ r) fuel in
    let not_it : ready_at s' pid ≡ false = ap slot_ready c.here ∙ killed-not_ready p in
    let other : s''.current_pid ≢ pid = λ same.
      (let is : ready_at s' pid ≡ true = ap (ready_at s') (sym same) ∙ chosen.is_next in
        absurd cc) in
    rw (known, e)
      (
        s',
        s'',
        refl,
        eq,
        other,
        sym (ap slot_ready (c.others s''.current_pid (λ same. other (sym same)))) ∙ chosen.is_next,
      )

-- Blocking a process takes it out of the choice, and unblocking it puts it back; neither changes its
-- frame or another slot.
pub sched_block-unblock :
    (pid : ℕ) (s : Sched) (p : Process)
    → get_elem? s.processes pid ≡ some p
    → (s' : Sched) × (s'' : Sched) × (sched_block pid s ≡ ok s')
      × (sched_unblock pid s' ≡ ok s'')
      × (ready_at s' pid ≡ false)
      × Changed s s'' pid (record p { state_flags = ready })
      × (ready_at s'' pid ≡ true)
unfolding sched_block sched_unblock is_ready
sched_block-unblock pid s p e =
    let block = λ (q : Process). record q { state_flags = blocked } in
    let unblock = λ (q : Process). record q { state_flags = ready } in
    let s' : Sched = with_slot block pid p s in
    let c = with_slot-Changed block pid s p e in
    let c' = with_slot-Changed unblock pid s' (block p) c.here in
    (
      s',
      with_slot unblock pid (block p) s',
      change-some block pid s p e,
      change-some unblock pid s' (block p) c.here,
      ap slot_ready c.here,
      Changed-trans c c',
      ap slot_ready c'.here,
    )

-- What `sched_save_state` keeps of a process's frame, `sched_restore_state` brings back after
-- the frame has been overwritten; it asks for a switch exactly for the current process.
pub sched_restore_state-save_state :
    (pid : ℕ) (s : Sched) (p : Process) (other : Registers)
    → get_elem? s.processes pid ≡ some p
    → (saved : Sched) × (changed : Sched) × (restored : Sched) × (sched_save_state pid s ≡ ok saved)
      × (change (λ q. record q { regs = other }) pid saved ≡ ok changed)
      × (sched_restore_state pid changed ≡ ok (pid == s.current_pid, restored))
      × Changed s restored pid (record p { saved_regs = p.regs })
unfolding sched_save_state sched_restore_state
sched_restore_state-save_state pid s p other e =
    let save = λ (q : Process). record q { saved_regs = q.regs } in
    let write = λ (q : Process). record q { regs = other } in
    let restore = λ (q : Process). record q { regs = q.saved_regs } in
    let s' : Sched = with_slot save pid p s in
    let c = with_slot-Changed save pid s p e in
    let s'' : Sched = with_slot write pid (save p) s' in
    let c' = with_slot-Changed write pid s' (save p) c.here in
    let c'' = with_slot-Changed restore pid s'' (write (save p)) c'.here in
    (
      s',
      s'',
      with_slot restore pid (write (save p)) s'',
      change-some save pid s p e,
      change-some write pid s' (save p) c.here,
      ap (λ o. o >>= λ t. ok (pid == t.current_pid, t))
          (change-some restore pid s'' (write (save p)) c'.here),
      Changed-trans c (Changed-trans c' c''),
    )

-- On a timer interrupt in a running scheduler with a ready process current, control goes to the
-- frame and page map of the ready process that is next in turn, and the interrupted frame is what
-- the process that was current holds, whatever frame its slot had before.
pub schedule-Chosen :
    (f : ℕ) (frame : Registers) (s : Sched) (p : Process)
    → s.running ≡ true
    → InTable s
    → get_elem? s.processes s.current_pid ≡ some p
    → is_ready p ≡ true
    → s.num_procs < f
    → (next : Process) × (s' : Sched) × (schedule f frame s ≡ ok (next.regs, next.pagemap, s'))
      × Chosen
          (record (with_slot (λ q. record q { regs = frame }) s.current_pid p s) {
            current_pid = advance s.num_procs s.current_pid;
          })
          s'
      × (get_elem? s'.processes s'.current_pid ≡ some next)
      × (get_elem? s'.processes s.current_pid ≡ some (record p { regs = frame }))
unfolding schedule
schedule-Chosen f frame s p running h e r fuel =
    let write = λ (q : Process). record q { regs = frame } in
    let c = with_slot-Changed write s.current_pid s p e in
    let held : ready_at (with_slot write s.current_pid p s) s.current_pid ≡ true =
      ap slot_ready c.here ∙ is_ready-regs frame p ∙ r in
    let (s', eq, chosen) =
      next_process-Chosen (with_slot write s.current_pid p s) f s.current_pid
        (record {
          slots = omega (arith, c.same_length, h.slots);
          word = h.word;
          current = h.current;
        })
        h.current held fuel in
    let here = chosen.kept s.current_pid held in
    let (next, at) =
      slot_ready-some (get_elem? s'.processes s'.current_pid)
        (ap slot_ready (chosen.kept s'.current_pid chosen.is_next) ∙ chosen.is_next) in
    let leave = λ (t : Sched).
      at_index (get_elem? t.processes t.current_pid) >>= λ q. ok (q.regs, q.pagemap, t) in
    let choose = λ (o : Outcome Sched). o >>= λ t. next_process f t >>= leave in
    let ends : schedule f frame s ≡ ok (next.regs, next.pagemap, s') =
      ap
        (λ b. choose (if b then change write s.current_pid s else ok (record s { running = true })))
        running
      ∙ ap choose (change-some write s.current_pid s p e)
      ∙ ap (λ o. o >>= leave) eq
      ∙ ap (λ o. at_index o >>= λ q. ok (q.regs, q.pagemap, s')) at in
    (next, s', ends, chosen, at, here ∙ c.here)
