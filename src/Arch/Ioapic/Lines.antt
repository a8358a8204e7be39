-- ===== src/Arch/Ioapic/Lines.antt =====
-- arch/x86_64/IOAPIC.c: which entry belongs to an interrupt, and what masking it changes.
use h0r_net.Common.{
  ℕ, ◌+◌, ◌*◌, ◌%◌, ◌^◌, ◌<◌, ◌≡◌, ◌⊎◌, inl, inr, refl, List, [], ◌∷◌, Option, none, some,
  Option-cases, arith, ap, ok, fault, u8, sub32, Mem,
}
use h0r_net.Arch.Ioapic.{
  write, Ioapic, Write, get_gsi, ioapic_mask, ioapic_unmask, find_override, mask_entry,
  unmask_entry, gs_interrupt_base, ioapic_adress, redirected, entry_writes, gs_interupt,
}

-- Two lists of two writes to the same registers; the first values differ in bit 16 alone, the bit
-- that masks an entry, and the second ones are equal.
pub record SameButMasked (ws ws' : List Write) : Type 0 where
  pub at : ℕ
  pub at' : ℕ
  pub reg : ℕ
  pub reg' : ℕ
  pub value : ℕ
  pub other : ℕ
  pub small : value < 2 ^ 16
  pub masked :
      ws
      ≡ record { at = at; reg = reg; value = 2 ^ 16 + value }
        ∷ record { at = at; reg = reg'; value = other }
        ∷ []
  pub unmasked :
      ws'
      ≡ record { at = at'; reg = reg; value = value }
        ∷ record { at = at'; reg = reg'; value = other }
        ∷ []

entry_writes-SameButMasked :
    (at at' distance value : ℕ)
    → value < 2 ^ 16
    → SameButMasked (entry_writes at distance (2 ^ 16 + value)) (entry_writes at' distance value)
entry_writes-SameButMasked at at' distance value small = record {
  at = at;
  at' = at';
  reg = (distance * 2 + 16) % 256;
  reg' = (distance * 2 + 17) % 256;
  value = value;
  other = 0;
  small = small;
  masked =
      ap
        (λ v.
          record { at = at; reg = (distance * 2 + 16) % 256; value = v }
          ∷ write at (distance * 2 + 17) 0
          ∷ [])
        (omega arith);
  unmasked =
      ap
        (λ v.
          record { at = at'; reg = (distance * 2 + 16) % 256; value = v }
          ∷ write at' (distance * 2 + 17) 0
          ∷ [])
        (omega arith);
}

module _ (m : Mem) (id : ℕ) (s : Ioapic) (lt : id < 256) where
  abbrev Outcomes : Option ℕ → Type 0
  Outcomes o =
      ((mask_entry m id s o ≡ fault) × (unmask_entry m id s o ≡ fault))
      ⊎ ((ws ws' : List Write) × (mask_entry m id s o ≡ ok ws)
          × (unmask_entry m id s o ≡ ok ws')
          × SameButMasked ws ws')

  plain_entry : Outcomes none
  plain_entry = elim (Option-cases (get_gsi m s.vector_count s.entries id)) [
    | inl missing ↦ rw missing (inl (refl, refl))
    | inr (gsi, here) ↦ rw here (
        inr (
          _,
          _,
          refl,
          refl,
          entry_writes-SameButMasked s.ioapicaddr (ioapic_adress m gsi)
              (sub32 id (gs_interrupt_base m gsi)) (u8 (32 + id)) (omega arith),
        ))
  ]

  override_entry : (e : ℕ) → Outcomes (some e)
  override_entry e = elim (Option-cases (get_gsi m s.vector_count s.entries (gs_interupt m e))) [
    | inl missing ↦ rw missing (inl (refl, refl))
    | inr (gsi, here) ↦ rw here (
        inr (
          _,
          _,
          refl,
          refl,
          entry_writes-SameButMasked (ioapic_adress m gsi) (ioapic_adress m gsi)
              (sub32 (gs_interupt m e) (gs_interrupt_base m gsi)) (redirected m e id)
              (ground arith),
        ))
  ]

-- Masking and unmasking an interrupt find the same entry, through an override or without one: both
-- read through a null pointer, or both write the same two registers, with values that differ in the
-- mask bit alone.
pub ioapic_mask-unmask :
    (m : Mem) (id : ℕ) (s : Ioapic)
    → id < 256
    → ((ioapic_mask m id s ≡ fault) × (ioapic_unmask m id s ≡ fault))
      ⊎ ((ws ws' : List Write) × (ioapic_mask m id s ≡ ok ws)
          × (ioapic_unmask m id s ≡ ok ws')
          × SameButMasked ws ws')
unfolding ioapic_mask ioapic_unmask
ioapic_mask-unmask m id s lt = elim (Option-cases (find_override m (u8 (32 + id)) s.entries)) [
  | inl plain ↦ rw plain (plain_entry m id s lt)
  | inr (e, found) ↦ rw found (override_entry m id s lt e)
]
