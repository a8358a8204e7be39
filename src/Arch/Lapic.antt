-- ===== src/Arch/Lapic.antt =====
-- arch/x86_64/LAPIC.c: the processor's own interrupt controller and its timer. A write to a register
-- is an output, as is a write to a port.
use h0r_net.Common.{
  ℕ, ◌*◌, ◌^◌, List, [], ◌∷◌, ◌++◌, if◌then◌else◌, u32, sub32, Mem, Outcome, ok, halted, ◌>>=◌,
}
use h0r_net.Common.LittleEndian.{load_le}
use h0r_net.Acpi.Sdt.{Acpi}
use h0r_net.Acpi.Madt.{Madt, madt_init}
use h0r_net.Acpi.Hpet.{hpet_init, hpet_usleep}

-- A write of `wreg`, by the register's offset.
pub record RegWrite : Type 0 where
  pub offset : ℕ
  pub val : ℕ

abbrev pub wreg : ℕ → ℕ → RegWrite
wreg offset val = record { offset = offset; val = u32 val }

-- LAPIC_TMRINITCNT, LAPIC_LVT_TMR with LVT_MASKED
abbrev pub lapic_timer_stop : List RegWrite
lapic_timer_stop = wreg 0x380 0 ∷ wreg 0x320 (2 ^ 16) ∷ []

-- The product of u64 is cut to 32 bits.
abbrev pub lapic_timer_oneshot : (ticks ms vec : ℕ) → List RegWrite
lapic_timer_oneshot ticks ms vec =
    lapic_timer_stop ++ (wreg 0x3e0 0 ∷ wreg 0x320 vec ∷ wreg 0x380 (ms * ticks) ∷ [])

abbrev pub lapic_eoi : RegWrite
lapic_eoi = wreg 0xb0 0

-- The end of `schedule` in constant_isrs.c.
abbrev pub next_slice : (ticks : ℕ) → List RegWrite
next_slice ticks = lapic_timer_oneshot ticks 5 32 ++ (lapic_eoi ∷ [])

-- HN_ERR_NO_ACPI
abbrev pub err_no_acpi : ℕ
err_no_acpi = 33

-- What `lapic_init` leaves: the entries, the memory with the event timer's registers, the ticks of
-- the timer, and the writes.
pub record LapicStart : Type 0 where
  pub madt : Madt
  pub memory : Mem
  pub ticks : ℕ
  pub writes : List RegWrite

-- The writes before the event timer is looked for, and those that start the count.
abbrev pub enabling : List RegWrite
enabling = wreg 0xf0 0x1ff ∷ wreg 0x80 0 ∷ []

abbrev pub counting : List RegWrite
counting = wreg 0x3e0 0 ∷ wreg 0x320 0 ∷ wreg 0x380 0xffffffff ∷ []

-- The literals "APIC" and "HPET" stand at `apic` and `hpet`. The event timer's counter reads `now` and
-- then `readings`, and the timer's count reads `remaining` afterwards. Masking the old controller's
-- interrupts through its ports is left out.
unfoldable pub lapic_init :
    ℕ
    → Mem
    → ℕ
    → (dsdt facp apic hpet : ℕ) → Acpi
    → (now : ℕ) → List ℕ
    → (remaining : ℕ) → Madt
    → Outcome LapicStart
lapic_init f m off dsdt facp apic hpet acpi now readings remaining s = do
  madt ← madt_init f m off dsdt facp apic acpi s
  let (found, regs, m') = hpet_init m off dsdt facp hpet acpi
  (if found
      then (do
        waited ← hpet_usleep (load_le 8 m' regs) 100 now readings
        ok (record {
          madt = madt;
          memory = m';
          ticks = sub32 0xffffffff remaining;
          writes = enabling ++ lapic_timer_stop ++ counting ++ lapic_timer_stop;
        }))
      else halted err_no_acpi)
