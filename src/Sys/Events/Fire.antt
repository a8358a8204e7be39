-- ===== src/Sys/Events/Fire.antt =====
-- core/sys/events.c, `event_fire` and `event_exit`, and the dispatch of core/sys/syscall.c.
-- events.c declares `processes` as a pointer and sched.c defines it as an array, so what
-- `event_fire` stores in frames goes to wherever the first bytes of the table point: the stores are
-- an output, and the table keeps its frames.
-- `int $0x20` switches to another process on the spot. A call changes nothing of the kernel's state
-- behind its first such interrupt, so the kernel that it leaves is the one in which that interrupt
-- comes, and the count says that one comes. What the interrupt does is the timer's own, which then acts
-- on that kernel; the value is what the caller gets if it is ever chosen again, which after `sys_exit`
-- is not to be: the process is dead.
use h0r_net.Common.{
  ℕ, zero, suc, ◌+◌, Bool, false, List, [], ◌∷◌, ltb, ◌==◌, ◌||◌, if◌then◌else◌, u32, Outcome, ok,
  fault, ◌>>=◌, at_index, get_elem?,
}
use h0r_net.Sys.Sched.{Sched, sched_kill, sched_restore_state, sched_save_state}
use h0r_net.Sys.Events.{
  Events, Subscriber, event_create, event_destroy, event_subscribe, event_unsubscribe,
}

-- `rip`, `rdi` and `rsi` of the frame of process `pid` are stored.
pub record FrameStore : Type 0 where
  pub pid : ℕ
  pub rip : ℕ
  pub rdi : ℕ
  pub rsi : ℕ

pub record Fired : Type 0 where
  pub stores : List FrameStore
  pub was_scheduled : Bool
  pub sched : Sched

-- The first `left` of the subscribers, in order.
unfoldable pub fire_loop : ℕ → ℕ → ℕ → List Subscriber → Sched → Outcome Fired
fire_loop id private zero xs s = ok (record { stores = []; was_scheduled = false; sched = s })
fire_loop id private (suc left) [] s = fault
fire_loop id private (suc left) (x ∷ xs) s = do
  s' ← sched_save_state x.pid s
  rest ← fire_loop id private left xs s'
  ok (record {
    stores = record { pid = x.pid; rip = x.callback; rdi = id; rsi = private } ∷ rest.stores;
    was_scheduled = (x.pid == s.current_pid) || rest.was_scheduled;
    sched = rest.sched;
  })

-- An event that was destroyed is fired like any other: its number is not looked at.
unfoldable pub event_fire : ℕ → ℕ → Events → Sched → Outcome Fired
unfolding fire_loop
event_fire id private es s =
    if ltb id es.num_events
    then (do
      e ← at_index (get_elem? es.events id)
      fire_loop id private e.num_subscribers e.subscribers s)
    else ok (record { stores = []; was_scheduled = false; sched = s })

-- What a system call leaves: the interrupts that it raises are counted.
pub record Kernel : Type 0 where
  pub events : Events
  pub sched : Sched
  pub interrupts : ℕ
  pub stores : List FrameStore

abbrev pub raise : Bool → ℕ
raise b = if b then 1 else 0

-- The interrupt of `sched_restore_state` on the current process, and one more: the process waits in
-- the first, and raises the second when it is chosen again.
unfoldable pub event_exit : Kernel → Outcome (ℕ × Kernel)
event_exit k = do
  (asks, s) ← sched_restore_state k.sched.current_pid k.sched
  ok (0, record k { sched = s; interrupts = k.interrupts + raise asks + 1 })

-- Where the count of interrupts goes up, the caller does not go on at once: see above.
-- `resizes` is as in `event_subscribe`; the arguments are cut to 32 bits where the callee takes u32.
unfoldable pub syscall : Bool → ℕ → ℕ → ℕ → Kernel → Outcome (ℕ × Kernel)
unfolding event_exit
syscall resizes number arg1 arg2 k =
    if number == 0
    then (do
      (asks, s) ← sched_kill k.sched.current_pid k.sched
      ok (0, record k { sched = s; interrupts = k.interrupts + raise asks }))
    else if number == 1
    then (do (id, es) ← event_create k.events; ok (id, record k { events = es }))
    else if number == 2
    then (event_destroy (u32 arg1) k.events >>= λ es. ok (0, record k { events = es }))
    else if number == 3
    then (event_subscribe resizes k.sched.current_pid (u32 arg1) arg2 k.events >>= λ es.
        ok (0, record k { events = es }))
    else if number == 4
    then (event_unsubscribe k.sched.current_pid (u32 arg1) k.events >>= λ es.
        ok (0, record k { events = es }))
    else if number == 5
    then (do
      fired ← event_fire (u32 arg1) arg2 k.events k.sched
      ok (
        0,
        record k {
          sched = fired.sched;
          interrupts = k.interrupts + raise fired.was_scheduled;
          stores = fired.stores;
        },
      ))
    else if number == 6
    then event_exit k
    else ok (0, k)
