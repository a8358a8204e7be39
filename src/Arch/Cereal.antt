-- ===== src/Arch/Cereal.antt =====
-- arch/x86_64/io/cereal.c and arch/x86_64/audio/pcspk.c: the serial ports and the speaker. A write to
-- a port is an output, and what a port gives is an argument; turning interrupts off and on is left
-- out.
use h0r_net.Common.{
  ℕ, suc, ◌+◌, ◌/◌, ◌%◌, ◌^◌, Bool, true, false, List, [], ◌∷◌, ◌++◌, ◌==◌, ◌!=◌, if◌then◌else◌, u8,
  Outcome, ok, fault, out_of_fuel, ◌>>=◌, ◌*◌,
}

pub record PortWrite : Type 0 where
  pub port : ℕ
  pub value : ℕ

abbrev pub outb8 : ℕ → ℕ → PortWrite
outb8 port value = record { port = port; value = u8 value }

-- The writes of `init_cereal_port` before it reads the test byte back.
abbrev pub configuring : ℕ → List PortWrite
configuring port =
    outb8 (port + 1) 0x00
    ∷ outb8 (port + 3) 0x80
    ∷ outb8 (port + 0) 0x03
    ∷ outb8 (port + 1) 0x00
    ∷ outb8 (port + 3) 0x03
    ∷ outb8 (port + 2) 0xc7
    ∷ outb8 (port + 4) 0x0b
    ∷ outb8 (port + 4) 0x1e
    ∷ outb8 (port + 0) 0xae
    ∷ []

-- `echo` is what each port gives back.
unfoldable pub init_cereal_port : (ℕ → ℕ) → ℕ → Bool × List PortWrite
init_cereal_port echo port =
    if echo port != 0xae
    then (false, configuring port)
    else (true, configuring port ++ (outb8 (port + 4) 0x0f ∷ []))

-- The ports in turn, up to the first that fails.
pub init_ports : (ℕ → ℕ) → List ℕ → Bool × List PortWrite
init_ports echo [] = (true, [])
init_ports echo (port ∷ ports) =
    let first = init_cereal_port echo port in
    let rest = init_ports echo ports in
    if first.0 then (rest.0, first.1 ++ rest.1) else (false, first.1)

-- COM1 to COM8
abbrev pub com_ports : List ℕ
com_ports = 0x3f8 ∷ 0x2f8 ∷ 0x3e8 ∷ 0x2e8 ∷ 0x5f8 ∷ 0x4f8 ∷ 0x5e8 ∷ 0x4e8 ∷ []

unfoldable pub cereal_init : (ℕ → ℕ) → Bool × List PortWrite
unfolding init_ports init_cereal_port
cereal_init echo = init_ports echo com_ports

abbrev pub one_more : Outcome ℕ → Outcome ℕ
one_more (ok n) = ok (suc n)
one_more o = o

-- The status register, one reading after another, until bit `bit` is set: how many were needed.
pub await_bit : ℕ → List ℕ → Outcome ℕ
await_bit bit [] = out_of_fuel
await_bit bit (status ∷ later) =
    let rest = await_bit bit later in if status / 2 ^ bit % 2 == 0 then one_more rest else ok 1

-- The number of readings, and the byte.
unfoldable pub cereal_read : ℕ → List ℕ → ℕ → Outcome (ℕ × ℕ)
unfolding await_bit
cereal_read port statuses byte = await_bit 0 statuses >>= λ n. ok (n, byte)

unfoldable pub cereal_write : ℕ → ℕ → List ℕ → Outcome (List PortWrite)
unfolding await_bit
cereal_write a port statuses = await_bit 5 statuses >>= λ n. ok (outb8 port a ∷ [])

-- `tmp | 3` for what the port 0x61 gives.
abbrev pub or_three : ℕ → ℕ
or_three tmp = tmp / 4 * 4 + 3

-- A frequency of 0 divides by 0.
unfoldable pub play_sound : ℕ → ℕ → Outcome (List PortWrite)
play_sound frequency tmp =
    let div = 1193180 / frequency in
    let tuned = outb8 0x43 0xb6 ∷ outb8 0x42 div ∷ outb8 0x42 (div / 2 ^ 8) ∷ [] in
    if frequency == 0
    then fault
    else ok (tuned ++ (if tmp != or_three tmp then outb8 0x61 (or_three tmp) ∷ [] else []))

abbrev pub nosound : ℕ → List PortWrite
nosound tmp = outb8 0x61 (tmp / 4 * 4) ∷ []
