-- ===== src/Sys/Tty.antt =====
-- core/sys/resman/tty.c: the table of terminals. What reaches the serial port or the screen is the
-- output of `tty_write`.
use h0r_net.Common.{
  Option-cases, inl, inr, ℕ, zero, suc, ◌+◌, ◌≡◌, refl, Bool, true, List, [], ◌∷◌, ◌==◌,
  if◌then◌else◌, u16, Mem, Outcome, ok, fault, ◌>>=◌, at_index, get_elem?, set,
}

pub record Tty : Type 0 where
  pub out_type : ℕ
  pub out_port : ℕ
  pub in_type : ℕ
  pub in_port : ℕ
  pub lock : ℕ

abbrev pub no_tty : Tty
no_tty = record { out_type = 0; out_port = 0; in_type = 0; in_port = 0; lock = 0 }

-- MAX_TTYS
abbrev pub max_ttys : ℕ
max_ttys = 4

pub record Ttys : Type 0 where
  pub ttys : List Tty
  pub next_tty_id : ℕ
  pub initialized : Bool

unfoldable pub tty_register : Tty → Ttys → Outcome (ℕ × Ttys)
tty_register tty s = if s.next_tty_id == max_ttys then ok (0, s) else (do
  old ← at_index (get_elem? s.ttys s.next_tty_id)
  ok (
    s.next_tty_id,
    record {
      ttys = set s.ttys s.next_tty_id tty;
      next_tty_id = u16 (s.next_tty_id + 1);
      initialized = if s.next_tty_id == 0 then true else s.initialized;
    },
  ))

unfoldable pub tty_unregister : ℕ → Ttys → Outcome Ttys
tty_unregister id s = do
  old ← at_index (get_elem? s.ttys id)
  ok (record s { ttys = set s.ttys id no_tty })

-- `tty` is a copy of the table's entry, and the lock is written to the copy.
unfoldable pub tty_lock : ℕ → Ttys → Outcome (Bool × Ttys)
tty_lock id s = do tty ← at_index (get_elem? s.ttys id); ok (tty.lock == 0, s)

unfoldable pub tty_unlock : ℕ → Ttys → Outcome Ttys
tty_unlock id s = do
  tty ← at_index (get_elem? s.ttys id)
  ok (record s { ttys = set s.ttys id (record tty { lock = 0 }) })

unfoldable pub tty_get_lock : ℕ → Ttys → Outcome ℕ
tty_get_lock id s = do tty ← at_index (get_elem? s.ttys id); ok tty.lock

pub data TtyOutput : Type 0 where
  serial : ℕ → ℕ → TtyOutput
  uterus : List ℕ → TtyOutput

-- The bytes from `buffer`.
pub bytes_from : Mem → ℕ → ℕ → List ℕ
bytes_from m buffer zero = []
bytes_from m buffer (suc n) = m buffer ∷ bytes_from m (buffer + 1) n

pub serial_bytes : ℕ → List ℕ → List TtyOutput
serial_bytes port [] = []
serial_bytes port (b ∷ bs) = serial b port ∷ serial_bytes port bs

-- A byte to the port for each of the buffer, or the buffer to the terminal on the screen.
unfoldable pub tty_write : Mem → ℕ → ℕ → ℕ → Ttys → Outcome (List TtyOutput)
unfolding bytes_from serial_bytes
tty_write m id buffer size s = do
  tty ← at_index (get_elem? s.ttys id)
  let bytes = bytes_from m buffer size
  ok (
      if tty.out_type == 1
      then serial_bytes tty.out_port bytes
      else if tty.out_type == 2
      then uterus bytes ∷ []
      else [])

-- Two tasks that ask for the lock of a terminal that is not locked both get it: the lock stays free.
pub tty_lock_twice :
    (id : ℕ) (s : Ttys)
    → tty_get_lock id s ≡ ok 0
    → (s' : Ttys) × (tty_lock id s ≡ ok (true, s'))
      × (tty_get_lock id s' ≡ ok 0)
      × (tty_lock id s' ≡ ok (true, s'))
unfolding tty_lock tty_get_lock
tty_lock_twice id s free = elim (Option-cases (get_elem? s.ttys id)) [
  | inl out ↦ (let faults : tty_get_lock id s ≡ fault = rw out refl in absurd cc)
  | inr (tty, at) ↦
      let read : tty_get_lock id s ≡ ok tty.lock = rw at refl in
      let unlocked : tty.lock ≡ 0 = cc in (s, rw (at, unlocked) refl, free, rw (at, unlocked) refl)
]
