-- ===== src/Arch/Ps2.antt =====
-- arch/x86_64/io/PS2.c, `ps2_init`. Registering the keyboard's handler for interrupt 33 is left out.
use h0r_net.Common.{ℕ, ◌%◌, Bool, List, [], ◌∷◌, ◌==◌, Mem, Outcome, ok, ◌>>=◌}
use h0r_net.Arch.Cereal.{PortWrite, outb8}
use h0r_net.Arch.Ioapic.{Ioapic, Write, ioapic_unmask}

-- Whether a byte that waits in the controller is read away, and what is written.
pub record Ps2Start : Type 0 where
  pub drained : Bool
  pub unmasking : List Write
  pub writes : List PortWrite

-- `status` is what the command port gives.
unfoldable pub ps2_init : Mem → (status : ℕ) → Ioapic → Outcome Ps2Start
ps2_init m status s = do
  unmasking ← ioapic_unmask m 1 s
  ok (record {
    drained = status % 2 == 1;
    unmasking = unmasking;
    writes = outb8 0x64 0x60 ∷ outb8 0x60 0x65 ∷ outb8 0x64 0xae ∷ outb8 0x60 0xf4 ∷ [];
  })
