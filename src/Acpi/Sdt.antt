-- ===== src/Acpi/Sdt.antt =====
-- drivers/ACPI/SDT.c: checksums, the root table, and the search by signature.
pub mod Checksum
pub mod Find
use h0r_net.Common.{
  ℕ, zero, suc, ◌+◌, ◌-◌, ◌*◌, ◌/◌, Bool, true, false, List, ◌==◌, leb, if◌then◌else◌, u8, u64, Mem,
}
use h0r_net.Common.LittleEndian.{load_le}
use h0r_net.Libk.Memory.{Sign, same, plus, minus}
use h0r_net.Libk.Text.{strncmp}

-- sizeof(sdt_header), and the offset of its `length`.
abbrev pub sdt_header_size : ℕ
sdt_header_size = 36

abbrev pub table_length : Mem → ℕ → ℕ
table_length m table = load_le 4 m (table + 4)

-- The loop of `do_checksum`, with `left` bytes to go.
pub checksum_loop : Mem → ℕ → ℕ → ℕ → ℕ
checksum_loop m a zero sum = sum
checksum_loop m a (suc left) sum = checksum_loop m (a + 1) left (u8 (sum + m a))

unfoldable pub do_checksum : Mem → ℕ → Bool
unfolding checksum_loop
do_checksum m table = checksum_loop m table (table_length m table) 0 == 0

-- `rsdt`, `xsdt`, `use_xsdt` and `hn_data.ACPI_ver`.
pub record Acpi : Type 0 where
  pub rsdt : ℕ
  pub xsdt : ℕ
  pub use_xsdt : Bool
  pub acpi_ver : ℕ

-- The fields of `XSDP`.
abbrev pub revision_field : ℕ
revision_field = 15

abbrev pub rsdt_address_field : ℕ
rsdt_address_field = 16

abbrev pub xsdt_address_field : ℕ
xsdt_address_field = 24

unfoldable pub find_rsdt : Mem → ℕ → ℕ → Acpi → Bool × Acpi
unfolding do_checksum
find_rsdt m off rsdp s =
    let revision = m (rsdp + revision_field) in
    let xsdt = u64 (load_le 8 m (rsdp + xsdt_address_field) + off) in
    let rsdt = u64 (load_le 4 m (rsdp + rsdt_address_field) + off) in
    if leb 2 revision
    then (do_checksum m xsdt, record s { xsdt = xsdt; use_xsdt = true; acpi_ver = revision })
    else (do_checksum m rsdt, record s { rsdt = rsdt; acpi_ver = revision })

-- `!strncmp(table, signature, 4)`
abbrev pub is_same : Sign → Bool
is_same same = true
is_same plus = false
is_same minus = false

abbrev pub has_signature : Mem → ℕ → ℕ → Bool
has_signature m signature table = is_same (strncmp m table signature 4)

-- The offset of the array `SDTs` with entries of `size` bytes: RSDT and XSDT are not packed, so that it
-- is aligned for its entries, at 36 in the one and at 40 in the other.
abbrev pub entries_offset : ℕ → ℕ
entries_offset size = (sdt_header_size + (size - 1)) / size * size

-- Entry `i` of a root table with entries of `size` bytes, as a pointer.
abbrev pub entry_pointer : Mem → ℕ → ℕ → ℕ → ℕ → ℕ
entry_pointer m off root size i = u64 (load_le size m (root + entries_offset size + size * i) + off)

-- Both loops of `find_nth_SDT`: from entry `i`, with `n` tables of the signature found so far.
pub find_loop : Mem → ℕ → ℕ → ℕ → ℕ → ℕ → ℕ → ℕ → ℕ → ℕ
find_loop m off root size signature index i zero n = 0
find_loop m off root size signature index i (suc left) n =
    let table = entry_pointer m off root size i in
    let here = has_signature m signature table in
    let rest = find_loop m off root size signature index (i + 1) left (if here then n + 1 else n) in
    if here then (if n == index then table else rest) else rest

-- How many entries there are. A length below the header's makes the source's count negative, which
-- the loop takes like none.
abbrev pub entry_count : Mem → ℕ → ℕ → ℕ
entry_count m root size = (table_length m root - sdt_header_size) / size

unfoldable pub find_nth_table : Mem → ℕ → Acpi → ℕ → ℕ → ℕ
unfolding find_loop
find_nth_table m off s signature index =
    if s.use_xsdt
    then find_loop m off s.xsdt 8 signature index 0 (entry_count m s.xsdt 8) 0
    else find_loop m off s.rsdt 4 signature index 0 (entry_count m s.rsdt 4) 0

-- The fields `dsdt` and `X_Dsdt` of `fadt_header`.
abbrev pub dsdt_field : ℕ
dsdt_field = 40

abbrev pub x_dsdt_field : ℕ
x_dsdt_field = 140

-- `dsdt` and `facp` are the addresses of the two literals. The source calls itself for "FACP", which
-- is not "DSDT", so that call goes to the loops.
unfoldable pub find_nth_sdt : Mem → ℕ → (dsdt facp : ℕ) → Acpi → ℕ → ℕ → ℕ
unfolding find_nth_table
find_nth_sdt m off dsdt facp s signature index =
    let fadt = find_nth_table m off s facp 0 in
    if is_same (strncmp m dsdt signature 4)
    then (if s.use_xsdt
        then u64 (load_le 8 m (fadt + x_dsdt_field) + off)
        else u64 (load_le 4 m (fadt + dsdt_field) + off))
    else find_nth_table m off s signature index

unfoldable pub find_sdt : Mem → ℕ → (dsdt facp : ℕ) → Acpi → ℕ → ℕ
unfolding find_nth_sdt
find_sdt m off dsdt facp s signature = find_nth_sdt m off dsdt facp s signature 0
