-- ===== src/Sys/Events/Laws.antt =====
-- core/sys/events.c: subscribing and unsubscribing.
use h0r_net.Common.{
  ℕ, zero, suc, ◌+◌, ◌^◌, ◌<◌, ◌≡◌, refl, ap, true, false, List, [], ◌∷◌, ◌++◌, some, ◌==◌, u32,
  length, arith,
}
use h0r_net.Sys.Events.{Event, Subscriber, take, add_subscriber, remove_first, remove_subscriber}

-- No entry is the process's.
abbrev pub Absent : ℕ → List Subscriber → Type 0
Absent pid [] = Unit {0}
Absent pid (x ∷ xs) = ((x.pid == pid) ≡ false) × Absent pid xs

-- The array holds as many entries as are counted.
abbrev pub Counted : Event → Type 0
Counted e = length e.subscribers ≡ e.num_subscribers

take_all : {A : Type 0} (n : ℕ) (xs : List A) → length xs ≡ n → take n xs ≡ xs
take_all zero [] h = refl
take_all zero (x ∷ xs) h = absurd (omega arith)
take_all (suc n) [] h = refl
take_all (suc n) (x ∷ xs) h = ap (λ ys. x ∷ ys) (take_all n xs (omega arith))

remove_first-added :
    (pid callback n : ℕ) (xs : List Subscriber)
    → length xs ≡ n
    → Absent pid xs
    → remove_first pid (suc n) (xs ++ (record { pid = pid; callback = callback } ∷ [])) ≡ some xs
unfolding remove_first
remove_first-added pid callback zero [] h a =
    let it : (pid == pid) ≡ true = ground arith in rw it refl
remove_first-added pid callback (suc n) [] h a = absurd (omega arith)
remove_first-added pid callback zero (x ∷ xs) h a = absurd (omega arith)
remove_first-added pid callback (suc n) (x ∷ xs) h a =
    rw (a.0, remove_first-added pid callback n xs (omega arith) a.1) refl

pub remove_subscriber-add_subscriber :
    (pid callback : ℕ) (e : Event)
    → Counted e
    → Absent pid e.subscribers
    → e.num_subscribers + 1 < 2 ^ 32
    → remove_subscriber pid (add_subscriber pid callback e) ≡ e
unfolding remove_subscriber add_subscriber
remove_subscriber-add_subscriber pid callback e counted absent word =
    let all = take_all e.num_subscribers e.subscribers counted in
    let count : u32 (e.num_subscribers + 1) ≡ suc e.num_subscribers = omega arith in
    rw (count, all, remove_first-added pid callback e.num_subscribers e.subscribers counted absent)
      (ap (λ n. record e { num_subscribers = n }) (omega arith))
