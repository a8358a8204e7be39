-- ===== src/Tests/Acpi.antt =====
-- src/drivers/ACPI and src/arch/x86_64/ACPI at concrete inputs.
use h0r_net.Common.{
  ◌+◌, ◌≤◌, ◌<◌, ◌≡◌, inr, refl, true, false, [], ◌∷◌, Mem, if◌then◌else◌, ◌==◌, replicate,
  get_elem?, ok, fault, arith,
}
use h0r_net.Common.LittleEndian.{load_le}
use h0r_net.Libk.Text.{strncmp}
use h0r_net.Acpi.Sdt.{Acpi, do_checksum, find_nth_sdt}
use h0r_net.Acpi.Sdt.Checksum.{OneByte, do_checksum-OneByte}
use h0r_net.Acpi.Sdt.Find.{with_signature, root_tables, or_null, find_nth_sdt-with_signature}
use h0r_net.Acpi.Madt.{Madt, recurse_table}
use h0r_net.Acpi.Madt.Entries.{Collected, recurse_table-Chain}
use h0r_net.Acpi.Mcfg.{DeviceConfig}

-- A table of 40 bytes at 256, whose bytes add up to 256.
abbrev table : Mem
table = λ a. if a == 260 then 40 else if a == 265 then 216 else 0

abbrev damaged : Mem
damaged = λ a. if a == 280 then 7 else table a

one_byte : OneByte table damaged 280
one_byte = record {
  changed = λ e. omega (arith, e);
  kept = λ b ne. ground (arith, ne);
  bytes = λ a. ground arith;
  bytes' = λ a. ground arith;
}

right : do_checksum table 256 ≡ true
unfolding do_checksum load_le
right = refl

inside : 280 < 256 + load_le 4 table 260
unfolding load_le
inside = omega arith

do_checksum-OneByte_example : do_checksum damaged 256 ≡ false
do_checksum-OneByte_example =
    do_checksum-OneByte table damaged 256 280 one_byte (omega arith) inside (inr (omega arith))
      right

-- A root table at 512 with two entries, the second of which leads to a table "A" at 1024. The
-- literal at 784 is "A", the one at 768 is "D".
abbrev tables : Mem
tables = λ a.
    if a == 516
    then 44
    else if a == 768
    then 68
    else if a == 784
    then 65
    else if a == 553
    then 4
    else if a == 1024
    then 65
    else 0

abbrev acpi : Acpi
acpi = record { rsdt = 512; xsdt = 0; use_xsdt = false; acpi_ver = 0 }

find_nth_sdt-with_signature_example :
    find_nth_sdt tables 0 768 800 acpi 784 0
    ≡ or_null (get_elem? (with_signature tables 784 (root_tables tables 0 acpi)) 0)
unfolding strncmp
find_nth_sdt-with_signature_example = find_nth_sdt-with_signature tables 0 768 800 acpi 784 0 refl

found : find_nth_sdt tables 0 768 800 acpi 784 0 ≡ 1024
unfolding find_nth_sdt strncmp load_le
found = refl

-- Entries of 8 bytes, and entries of none.
abbrev entries : Mem
entries = λ a. 8

abbrev empty_entries : Mem
empty_entries = λ a. 0

abbrev madt : Madt
madt = record { entry_ptrs = replicate 64 0; num_madt_entries = 0; lapic_base = 0 }

recurse_table-Chain_example :
    (2 ≤ 64
      → (s' : Madt) × (recurse_table 65 entries 16 0 madt ≡ ok s') × Collected madt s' (0 ∷ 8 ∷ []))
    × (64 < 2 → recurse_table 65 entries 16 0 madt ≡ fault)
recurse_table-Chain_example =
    recurse_table-Chain 65 entries 16 0 madt (0 ∷ 8 ∷ []) refl refl
      (omega arith, refl, (omega arith, refl, omega arith)) (omega arith)

abbrev segment : DeviceConfig
segment = record { base_address = 0xb0000000; start_bus = 0; end_bus = 255 }
