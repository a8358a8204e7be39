-- ===== src/Sys/Events/Valid.antt =====
-- core/sys/events.c: what the event table keeps through every operation, and which of them come to
-- an end.
use h0r_net.Common.{
  subst, ◌^◌, ℕ, zero, suc, ◌-◌, ◌≤◌, ◌<◌, ◌≡◌, refl, sym, ap, ◌∙◌, false, List, [], ◌∷◌, ◌++◌,
  Option, none, some, arith, get_elem?, set, length, length-set, length-append, get_elem?-set_self,
  get_elem?-set_ne, ℕ_discrete, Yields, result, Yields->>=, Yields-if, Yields-at_index, inl, inr,
  Bool-cases, ◌==◌, ltb, Bool,
}
use h0r_net.Sys.Sched.{max_processes}
use h0r_net.Sys.Sched.Switch.{some-lt}
use h0r_net.Sys.Events.{
  Event, Events, Subscriber, take, add_subscriber, remove_first, remove_subscriber, event_create,
  event_destroy, event_subscribe, event_unsubscribe, shortened,
}

-- Every entry is of a slot of the process table.
abbrev pub AllSlots : List Subscriber → Type 0
AllSlots [] = Unit {0}
AllSlots (x ∷ xs) = (x.pid < max_processes) × AllSlots xs

pub record EventIsValid (e : Event) : Type 0 where
  pub counted : e.num_subscribers ≤ length e.subscribers
  pub all_slots : AllSlots e.subscribers

pub record EventsIsValid (s : Events) : Type 0 where
  pub slots : length s.events ≡ 64
  pub counted : s.num_events ≤ 64
  pub each : (i : ℕ) (e : Event) → get_elem? s.events i ≡ some e → EventIsValid e

length-take : {A : Type 0} (n : ℕ) (xs : List A) → n ≤ length xs → length (take n xs) ≡ n
length-take zero xs h = refl
length-take (suc n) [] h = absurd (omega arith)
length-take (suc n) (x ∷ xs) h = ap suc (length-take n xs (omega arith))

AllSlots-take : (n : ℕ) (xs : List Subscriber) → AllSlots xs → AllSlots (take n xs)
AllSlots-take zero xs h = tt
AllSlots-take (suc n) [] h = tt
AllSlots-take (suc n) (x ∷ xs) h = (h.0, AllSlots-take n xs h.1)

AllSlots-added :
    (xs : List Subscriber) (x : Subscriber)
    → AllSlots xs
    → x.pid < max_processes
    → AllSlots (xs ++ (x ∷ []))
AllSlots-added [] x h lt = (lt, tt)
AllSlots-added (y ∷ xs) x h lt = (h.0, AllSlots-added xs x h.1 lt)

-- What is left has one entry less.
abbrev Shorter : ℕ → Option (List Subscriber) → Type 0
Shorter n none = Unit {0}
Shorter n (some ys) = (n ≤ suc (length ys)) × AllSlots ys

Shorter-∷ :
    (n : ℕ) (x : Subscriber) (o : Option (List Subscriber))
    → x.pid < max_processes
    → Shorter n o
    → Shorter (suc n) (elim o [ none ↦ none | some ys ↦ some (x ∷ ys) ])
Shorter-∷ n x none lt h = tt
Shorter-∷ n x (some ys) lt h = (omega (arith, h.0), (lt, h.1))

remove_first-Shorter :
    (pid n : ℕ) (xs : List Subscriber)
    → n ≤ length xs
    → AllSlots xs
    → Shorter n (remove_first pid n xs)
unfolding remove_first
remove_first-Shorter pid zero xs h a = tt
remove_first-Shorter pid (suc n) [] h a = absurd (omega arith)
remove_first-Shorter pid (suc n) (x ∷ xs) h a = elim (Bool-cases (x.pid == pid)) [
  | inl it ↦ rw it (omega (arith, length-take n xs (omega arith)), AllSlots-take n xs a.1)
  | inr not ↦ rw not (Shorter-∷ n x _ a.0 (remove_first-Shorter pid n xs (omega arith) a.1))
]

shortened-Valid :
    (e : Event) (o : Option (List Subscriber))
    → EventIsValid e
    → Shorter e.num_subscribers o
    → EventIsValid (shortened o e)
shortened-Valid e none v h = v
shortened-Valid e (some ys) v h = record { counted = omega (arith, h.0); all_slots = h.1 }

remove_subscriber-Valid :
    (pid : ℕ) (e : Event) → EventIsValid e → EventIsValid (remove_subscriber pid e)
unfolding remove_subscriber
remove_subscriber-Valid pid e v =
    shortened-Valid e _ v
      (remove_first-Shorter pid e.num_subscribers e.subscribers v.counted v.all_slots)

add_subscriber-Valid :
    (pid callback : ℕ) (e : Event)
    → pid < max_processes
    → EventIsValid e
    → EventIsValid (add_subscriber pid callback e)
unfolding add_subscriber
add_subscriber-Valid pid callback e lt v = record {
  counted = omega (
    arith,
    length-take e.num_subscribers e.subscribers v.counted,
    length-append (take e.num_subscribers e.subscribers)
        (record { pid = pid; callback = callback } ∷ []),
  );
  all_slots = AllSlots-added _ _ (AllSlots-take e.num_subscribers e.subscribers v.all_slots) lt;
}

set-each :
    (s : Events) (id : ℕ) (e : Event)
    → EventsIsValid s
    → EventIsValid e
    → (i : ℕ) (e' : Event) → get_elem? (set s.events id e) i ≡ some e'
    → EventIsValid e'
set-each s id e v h i e' at = elim (ℕ_discrete id i) [
  | yes here ↦
      let lt : id < length s.events =
        omega (arith, here, some-lt (set s.events id e) i e' at, length-set s.events id e) in
      let same : some e ≡ some e' =
        sym (get_elem?-set_self s.events id e lt) ∙ ap (get_elem? (set s.events id e)) here ∙ at in
      let equal : e ≡ e' = cc in subst EventIsValid equal h
  | no ne ↦ v.each i e' (sym (get_elem?-set_ne s.events id i e ne) ∙ at)
]

set-Valid :
    (s : Events) (id : ℕ) (e : Event)
    → EventsIsValid s
    → EventIsValid e
    → EventsIsValid (record s { events = set s.events id e })
set-Valid s id e v h = record {
  slots = length-set s.events id e ∙ v.slots;
  counted = v.counted;
  each = λ i e' at. set-each s id e v h i e' at;
}

module _ {D : Type 0} (s : Events) (v : EventsIsValid s) where
  pub event_create-Valid : Yields D (λ r. EventsIsValid r.1) (event_create s)
  unfolding event_create
  event_create-Valid =
      Yields-if (ltb s.num_events 64)
        (λ lt.
          Yields->>= _
            (Yields-at_index s.events s.num_events (λ out. absurd (ground (arith, v.slots)))
              (λ e at. at))
            (λ e at. result (
              let made : EventsIsValid _ =
                set-Valid s s.num_events _ v (record { counted = omega arith; all_slots = tt }) in
              record {
                slots = made.slots;
                counted = (let lt64 : s.num_events < 64 = ground arith in omega arith);
                each = made.each;
              })))
        (λ ge. result v)

  -- The index is not compared with anything.
  pub event_destroy-Valid : (id : ℕ) → (64 ≤ id → D) → Yields D EventsIsValid (event_destroy id s)
  unfolding event_destroy
  event_destroy-Valid id out =
      Yields->>= _ (Yields-at_index s.events id (λ h. out (omega (arith, v.slots))) (λ e at. at))
        (λ e at. result (
          set-Valid s id (record e { event = 2 ^ 32 - 1 }) v
            (let h = v.each id e at in record { counted = h.counted; all_slots = h.all_slots })))

  pub event_subscribe-Valid :
      (resizes : Bool) (pid id callback : ℕ)
      → pid < max_processes
      → (resizes ≡ false → D)
      → Yields D EventsIsValid (event_subscribe resizes pid id callback s)
  unfolding event_subscribe
  event_subscribe-Valid resizes pid id callback lt out =
      Yields-if (ltb id s.num_events)
        (λ known.
          Yields->>= _
            (Yields-at_index s.events id (λ h. absurd (ground (arith, v.slots, v.counted)))
              (λ e at. at))
            (λ e at.
              Yields-if resizes
                (λ can.
                  result
                    (set-Valid s id _ v (add_subscriber-Valid pid callback e lt (v.each id e at))))
                (λ cannot. record { holds = out cannot })))
        (λ unknown. result v)

  pub event_unsubscribe-Valid : (pid id : ℕ) → Yields D EventsIsValid (event_unsubscribe pid id s)
  unfolding event_unsubscribe
  event_unsubscribe-Valid pid id =
      Yields-if (ltb id s.num_events)
        (λ known.
          Yields->>= _
            (Yields-at_index s.events id (λ h. absurd (ground (arith, v.slots, v.counted)))
              (λ e at. at))
            (λ e at. result (set-Valid s id _ v (remove_subscriber-Valid pid e (v.each id e at)))))
        (λ unknown. result v)
