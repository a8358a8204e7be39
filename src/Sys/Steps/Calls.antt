-- ===== src/Sys/Steps/Calls.antt =====
-- core/sys/syscall.c with `event_fire` and `event_exit`: what a system call keeps of the kernel's
-- state, and when it comes to an end.
use h0r_net.Common.{
  ok, ℕ, zero, suc, ◌≤◌, ◌≡◌, ◌≢◌, refl, false, ◌>>=◌, Outcome, halted, fault, out_of_fuel, List,
  [], ◌∷◌, arith, Yields, result, Yields->>=, Yields-if, Yields-at_index, ◌==◌, ltb, Bool, u32,
  length,
}
use h0r_net.Sys.Sched.{Sched}
use h0r_net.Sys.Events.{Events, Subscriber}
use h0r_net.Sys.Events.Fire.{Kernel, fire_loop, event_fire, event_exit, syscall}
use h0r_net.Sys.Events.Valid.{
  EventsIsValid, AllSlots, event_create-Valid, event_destroy-Valid, event_subscribe-Valid,
  event_unsubscribe-Valid,
}
use h0r_net.Sys.Steps.Table.{
  SchedIsValid, sched_kill-Valid, sched_save_state-Valid, sched_restore_state-Valid,
}

pub record IsValid (k : Kernel) : Type 0 where
  pub events : EventsIsValid k.events
  pub sched : SchedIsValid k.sched

module _ {D : Type 0} where
  fire_loop-Valid :
      (id private left : ℕ) (xs : List Subscriber) (s : Sched)
      → left ≤ length xs
      → AllSlots xs
      → SchedIsValid s
      → Yields D (λ r. SchedIsValid r.sched) (fire_loop id private left xs s)
  unfolding fire_loop
  fire_loop-Valid id private zero xs s le a v = result v
  fire_loop-Valid id private (suc left) [] s le a v = absurd (omega arith)
  fire_loop-Valid id private (suc left) (x ∷ xs) s le a v =
      Yields->>= _ (sched_save_state-Valid s x.pid v a.0) (λ s' v'.
        Yields->>= _ (fire_loop-Valid id private left xs s' (omega arith) a.1 v')
          (λ rest v''. result v''))

  event_fire-Valid :
      (id private : ℕ) (es : Events) (s : Sched)
      → EventsIsValid es
      → SchedIsValid s
      → Yields D (λ r. SchedIsValid r.sched) (event_fire id private es s)
  unfolding event_fire
  event_fire-Valid id private es s e v =
      Yields-if (ltb id es.num_events)
        (λ known.
          Yields->>= _
            (Yields-at_index es.events id (λ out. absurd (ground (arith, e.slots, e.counted)))
              (λ x at. at))
            (λ x at.
              let h = e.each id x at in
              fire_loop-Valid id private x.num_subscribers x.subscribers s h.counted h.all_slots v))
        (λ unknown. result v)

  event_exit-Valid : (k : Kernel) → IsValid k → Yields D (λ r. IsValid r.1) (event_exit k)
  unfolding event_exit
  event_exit-Valid k v =
      Yields->>= _ (sched_restore_state-Valid k.sched k.sched.current_pid v.sched v.sched.current)
        (λ r v'. result (record { events = v.events; sched = v' }))

  returns :
      {n : ℕ} {k : Kernel}
      → EventsIsValid k.events
      → SchedIsValid k.sched
      → Yields D (λ (r : ℕ × Kernel). IsValid r.1) (ok (n, k))
  returns e s = result (record { events = e; sched = s })

  -- A system call in a valid state has a result, which is valid, but for `event_destroy` of a number
  -- behind the table, and for `event_subscribe` where `realloc` does not get through.
  pub syscall-Valid :
      (resizes : Bool) (number arg1 arg2 : ℕ) (k : Kernel)
      → IsValid k
      → (number ≡ 2 → 64 ≤ u32 arg1 → D)
      → (number ≡ 3 → resizes ≡ false → D)
      → Yields D (λ r. IsValid r.1) (syscall resizes number arg1 arg2 k)
  unfolding syscall
  syscall-Valid resizes number arg1 arg2 k v destroy subscribe =
      Yields-if (number == 0)
        (λ _.
          Yields->>= _ (sched_kill-Valid k.sched k.sched.current_pid v.sched)
            (λ r v'. returns v.events v'))
        (λ _.
          Yields-if (number == 1)
            (λ _. Yields->>= _ (event_create-Valid k.events v.events) (λ r e. returns e v.sched))
            (λ _.
              Yields-if (number == 2)
                (λ it.
                  Yields->>= _
                    (event_destroy-Valid k.events v.events (u32 arg1) (destroy (ground arith)))
                    (λ es e. returns e v.sched))
                (λ _.
                  Yields-if (number == 3)
                    (λ it.
                      Yields->>= _
                        (event_subscribe-Valid k.events v.events resizes k.sched.current_pid
                          (u32 arg1) arg2 v.sched.current (subscribe (ground arith)))
                        (λ es e. returns e v.sched))
                    (λ _.
                      Yields-if (number == 4)
                        (λ _.
                          Yields->>= _
                            (event_unsubscribe-Valid k.events v.events k.sched.current_pid
                              (u32 arg1))
                            (λ es e. returns e v.sched))
                        (λ _.
                          Yields-if (number == 5)
                            (λ _.
                              Yields->>= _
                                (event_fire-Valid (u32 arg1) arg2 k.events k.sched v.events v.sched)
                                (λ fired v'. returns v.events v'))
                            (λ _.
                              Yields-if (number == 6) (λ _. event_exit-Valid k v)
                                (λ _. result v)))))))

done : {A : Type 0} (o : Outcome A) → Yields Unit (λ a. Unit) o
done (ok a) = result tt
done (halted e) = record { holds = tt }
done fault = record { holds = tt }
done out_of_fuel = record { holds = tt }

abbrev Keeps : Kernel → ℕ × Kernel → Type 0
Keeps k r = (r.1.sched ≡ k.sched) × (r.1.interrupts ≡ k.interrupts)

quiet :
    {B : Type 0} (k : Kernel) (o : Outcome B) (f : B → ℕ × Kernel)
    → ((b : B) → Keeps k (f b))
    → Yields Unit (Keeps k) (o >>= λ b. ok (f b))
quiet k o f same = Yields->>= o (done o) (λ b _. result (same b))

-- The calls that are about the table of events only.
pub syscall-Keeps :
    (resizes : Bool) (number arg1 arg2 : ℕ) (k : Kernel)
    → number ≢ 0
    → number ≢ 5
    → number ≢ 6
    → Yields Unit (Keeps k) (syscall resizes number arg1 arg2 k)
unfolding syscall
syscall-Keeps resizes number arg1 arg2 k no_exit no_fire no_event_exit =
    Yields-if (number == 0) (λ it. absurd (ground arith))
      (λ _.
        Yields-if (number == 1) (λ _. quiet k _ _ (λ b. (refl, refl)))
          (λ _.
            Yields-if (number == 2) (λ _. quiet k _ _ (λ b. (refl, refl)))
              (λ _.
                Yields-if (number == 3) (λ _. quiet k _ _ (λ b. (refl, refl)))
                  (λ _.
                    Yields-if (number == 4) (λ _. quiet k _ _ (λ b. (refl, refl)))
                      (λ _.
                        Yields-if (number == 5) (λ it. absurd (ground arith))
                          (λ _.
                            Yields-if (number == 6) (λ it. absurd (ground arith))
                              (λ _. result (refl, refl))))))))
