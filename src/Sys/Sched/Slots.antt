-- ===== src/Sys/Sched/Slots.antt =====
-- The process table of core/sys/sched: which slots are ready, and what `next_process` does to a
-- slot that it passes.
use h0r_net.Common.{
  ℕ, suc, ◌+◌, ◌-◌, ◌≤◌, ◌<◌, ◌^◌, ◌≡◌, ◌≢◌, Bool, false, Option, none, some, if◌then◌else◌, leb,
  get_elem?, set, arith,
}
use h0r_net.Sys.Sched.{Sched, Process, is_ready, reap, advance}

abbrev pub slot_ready : Option Process → Bool
slot_ready none = false
slot_ready (some p) = is_ready p

-- Slot `t` of the table holds a process that can run.
abbrev pub ready_at : Sched → ℕ → Bool
ready_at s t = slot_ready (get_elem? s.processes t)

-- The state after the loop has passed the slot of `p`.
abbrev pub passed : Process → Sched → Sched
passed p s = record s {
  processes = set s.processes s.current_pid (reap p);
  current_pid = advance s.num_procs s.current_pid;
}

-- How many slots lie between `c` and `t` on the way round the slots 0 to `n`.
unfoldable pub distance : ℕ → ℕ → ℕ → ℕ
distance n c t = if leb c t then t - c else (t + suc n) - c

pub distance-advance :
    (n c t : ℕ)
    → suc n < 2 ^ 32
    → c ≤ n
    → t ≤ n
    → c ≢ t
    → distance n c t ≡ suc (distance n (advance n c) t)
unfolding distance advance
distance-advance n c t word hc ht ne = ground arith

pub distance-lt : (n c t : ℕ) → c ≤ n → t ≤ n → distance n c t < suc n
unfolding distance
distance-lt n c t hc ht = ground arith

pub advance-le : (n c : ℕ) → advance n c ≤ n
unfolding advance
advance-le n c = ground arith

-- A slot that is not ready is not ready either once it has been passed.
pub reap-not_ready : (p : Process) → is_ready p ≡ false → is_ready (reap p) ≡ false
unfolding is_ready reap
reap-not_ready p = ground arith

pub distance_self : (n c : ℕ) → distance n c c ≡ 0
unfolding distance
distance_self n c = ground arith

pub advance-suc : (n c : ℕ) → suc n < 2 ^ 32 → c < n → advance n c ≡ suc c
unfolding advance
advance-suc n c word lt = ground arith
