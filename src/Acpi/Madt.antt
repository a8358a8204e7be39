-- ===== src/Acpi/Madt.antt =====
-- arch/x86_64/ACPI/MADT.c: the entries of the interrupt controllers' table.
pub mod Entries
use h0r_net.Common.{
  ℕ, zero, suc, ◌+◌, Bool, true, false, List, ◌||◌, ltb, leb, if◌then◌else◌, u16, u64, Mem, Outcome,
  ok, out_of_fuel, ◌>>=◌, at_index, get_elem?, set,
}
use h0r_net.Common.LittleEndian.{load_le}
use h0r_net.Acpi.Sdt.{Acpi, table_length, find_sdt}

-- MAX_ENTRIES, the length of `entry_ptrs`.
abbrev pub max_entries : ℕ
max_entries = 64

pub record Madt : Type 0 where
  pub entry_ptrs : List ℕ
  pub num_madt_entries : ℕ
  pub lapic_base : ℕ

-- The `length` of `entry_header`.
abbrev pub entry_length : Mem → ℕ → ℕ
entry_length m entry = m (entry + 1)

unfoldable pub recurse_table : ℕ → Mem → ℕ → ℕ → Madt → Outcome Madt
recurse_table zero m end_addr ptr s = out_of_fuel
recurse_table (suc f) m end_addr ptr s =
    let rest = (do
      old ← at_index (get_elem? s.entry_ptrs s.num_madt_entries)
      recurse_table f m end_addr (ptr + entry_length m ptr) (record s {
        entry_ptrs = set s.entry_ptrs s.num_madt_entries ptr;
        num_madt_entries = u16 (s.num_madt_entries + 1);
      })) in
    if leb end_addr ptr || ltb max_entries s.num_madt_entries then ok s else rest

-- sizeof(madt_header)
abbrev pub madt_header_size : ℕ
madt_header_size = 44

-- The literal "APIC" stands at `apic`. A table that is not there is read at 0.
unfoldable pub madt_init : ℕ → Mem → ℕ → (dsdt facp apic : ℕ) → Acpi → Madt → Outcome Madt
unfolding recurse_table find_sdt
madt_init f m off dsdt facp apic acpi s =
    let h = find_sdt m off dsdt facp acpi apic in
    recurse_table f m (h + table_length m h) (h + madt_header_size)
      (record s { lapic_base = load_le 4 m (h + 36) })
