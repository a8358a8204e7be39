-- ===== src/Sys/Events.antt =====
-- core/sys/events.c and core/sys/syscall.c. The subscribers of an event are a list that holds the
-- array's entries, of which the first `num_subscribers` count.
pub mod Fire
pub mod Laws
pub mod Valid
use h0r_net.Common.{
  ℕ, zero, suc, ◌+◌, ◌-◌, ◌^◌, Bool, true, false, List, [], ◌∷◌, ◌++◌, Option, some, none, ltb,
  ◌==◌, ◌&&◌, if◌then◌else◌, u32, Outcome, ok, fault, ◌>>=◌, at_index, get_elem?, set, length,
}
use h0r_net.Sys.Sched.{Sched, sched_kill, sched_restore_state, sched_save_state}

pub record Subscriber : Type 0 where
  pub pid : ℕ
  pub callback : ℕ

pub record Event : Type 0 where
  pub event : ℕ
  pub subscribers : List Subscriber
  pub num_subscribers : ℕ

pub record Events : Type 0 where
  pub events : List Event
  pub num_events : ℕ

-- The first `n` entries.
abbrev pub take {ℓ} : {A : Type ℓ} → ℕ → List A → List A
take zero xs = []
take (suc n) [] = []
take (suc n) (x ∷ xs) = x ∷ take n xs

unfoldable pub event_create : Events → Outcome (ℕ × Events)
event_create s =
    if ltb s.num_events 64
    then (do
      old ← at_index (get_elem? s.events s.num_events)
      ok (
        s.num_events,
        record {
          events =
              set s.events s.num_events
                (record { event = s.num_events; subscribers = []; num_subscribers = 0 });
          num_events = u32 (s.num_events + 1);
        },
      ))
    else ok (2 ^ 32 - 1, s)

-- The index is not compared with anything.
unfoldable pub event_destroy : ℕ → Events → Outcome Events
event_destroy id s = do
  e ← at_index (get_elem? s.events id)
  ok (record s { events = set s.events id (record e { event = 2 ^ 32 - 1 }) })

-- The array is reallocated for one entry more than counts, and keeps those that count.
unfoldable pub add_subscriber : ℕ → ℕ → Event → Event
add_subscriber pid callback e = record e {
  subscribers =
      take e.num_subscribers e.subscribers ++ (record { pid = pid; callback = callback } ∷ []);
  num_subscribers = u32 (e.num_subscribers + 1);
}

-- `resizes` is whether `realloc` gets through, of which this module leaves open when it does, since the
-- blocks of the heap lie apart from the table: for the first subscriber its argument is NULL, and it
-- reads the size in front of that, which the memory there decides.
unfoldable pub event_subscribe : Bool → ℕ → ℕ → ℕ → Events → Outcome Events
unfolding add_subscriber
event_subscribe resizes pid id callback s =
    if ltb id s.num_events
    then (do
      e ← at_index (get_elem? s.events id)
      (if resizes
          then ok (record s { events = set s.events id (add_subscriber pid callback e) })
          else fault))
    else ok s

-- The first entry of the process among the `n` that count, if there is one, is overwritten by those
-- behind it.
pub remove_first : ℕ → ℕ → List Subscriber → Option (List Subscriber)
remove_first pid zero xs = none
remove_first pid (suc n) [] = none
remove_first pid (suc n) (x ∷ xs) =
    let rest = remove_first pid n xs in
    if x.pid == pid then some (take n xs) else elim rest [ none ↦ none | some ys ↦ some (x ∷ ys) ]

abbrev pub shortened : Option (List Subscriber) → Event → Event
shortened none e = e
shortened (some left) e = record e { subscribers = left; num_subscribers = e.num_subscribers - 1 }

unfoldable pub remove_subscriber : ℕ → Event → Event
unfolding remove_first
remove_subscriber pid e = shortened (remove_first pid e.num_subscribers e.subscribers) e

unfoldable pub event_unsubscribe : ℕ → ℕ → Events → Outcome Events
unfolding remove_subscriber
event_unsubscribe pid id s =
    if ltb id s.num_events
    then (do
      e ← at_index (get_elem? s.events id)
      ok (record s { events = set s.events id (remove_subscriber pid e) }))
    else ok s
