-- ===== src/Arch/Ioapic/Start.antt =====
-- arch/x86_64/IOAPIC.c: the entries that `ioapic_init` masks, and which of them can be unmasked.
use h0r_net.Common.{◌%◌, ◌/◌, ℕ, ◌+◌, ◌^◌, ◌<◌, ◌≡◌, ◌≢◌, List, [], ◌∷◌, some, Mem}
use h0r_net.Arch.Ioapic.{
  gs_interrupt_base, ioapic_adress, Ioapic, entry_type, type_ioapic, type_override, first_ioapic,
}

-- The entry at `e` is the only controller, and no interrupt has an override.
abbrev pub OnlyController : Mem → ℕ → List ℕ → Type 0
OnlyController m e [] = e ≡ e
OnlyController m e (x ∷ xs) =
    (entry_type m x ≢ type_override)
    × (entry_type m x ≡ type_ioapic → x ≡ e)
    × OnlyController m e xs

-- The entry at `e` is a controller with a pointer and `count` as its highest entry, and the vectors of
-- its interrupts fit 8 bits.
pub record Controller (m : Mem) (off : ℕ) (version : ℕ → ℕ) (s : Ioapic) (e count : ℕ)
    : Type 0 where
  pub first : first_ioapic m s.entries ≡ some e
  pub only : OnlyController m e s.entries
  pub no_null : 0 < ioapic_adress m e + off
  pub word : ioapic_adress m e + off < 2 ^ 64
  pub highest : version (ioapic_adress m e + off) / 2 ^ 16 % 256 ≡ count
  pub vectors : gs_interrupt_base m e + count < 224

module _ {m : Mem} {off : ℕ} {version : ℕ → ℕ} {s : Ioapic} {e count : ℕ}
    (c : Controller m off version s e count) where
  abbrev at : ℕ
  at = ioapic_adress m e + off

  abbrev base : ℕ
  base = gs_interrupt_base m e

  abbrev started : Ioapic
  started = record s { ioapicaddr = at; vector_count = count }
