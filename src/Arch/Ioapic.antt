-- ===== src/Arch/Ioapic.antt =====
-- arch/x86_64/IOAPIC.c: the controller's redirection entries, over the entries that MADT.c collected.
-- A write to a register of the controller is an output.
pub mod Lines
pub mod Start
use h0r_net.Common.{
  ℕ, zero, suc, ◌+◌, ◌*◌, ◌/◌, ◌%◌, ◌^◌, Bool, true, false, List, [], ◌∷◌, ◌++◌, Option, none, some,
  ltb, leb, ◌==◌, ◌!=◌, ◌&&◌, if◌then◌else◌, u8, u32, u64, sub32, Mem, Outcome, ok, fault, ◌>>=◌,
}
use h0r_net.Common.LittleEndian.{load_le}

-- The fields of `madt_entry`, at the pointer `e`.
abbrev pub entry_type : Mem → ℕ → ℕ
entry_type m e = m e

abbrev pub ioapic_adress : Mem → ℕ → ℕ
ioapic_adress m e = load_le 4 m (e + 4)

abbrev pub gs_interrupt_base : Mem → ℕ → ℕ
gs_interrupt_base m e = load_le 4 m (e + 8)

abbrev pub irq_source : Mem → ℕ → ℕ
irq_source m e = m (e + 3)

abbrev pub gs_interupt : Mem → ℕ → ℕ
gs_interupt m e = m (e + 4)

abbrev pub override_flags : Mem → ℕ → ℕ
override_flags m e = load_le 2 m (e + 5)

-- MADT_ENTRY_TYPE_IOAPIC and MADT_ENTRY_TYPE_IOLAPIC_OVERRIDE
abbrev pub type_ioapic : ℕ
type_ioapic = 1

abbrev pub type_override : ℕ
type_override = 2

-- `ioapicaddr`, `vector_count`, and the entries: the first `num_madt_entries` of `entry_ptrs`.
pub record Ioapic : Type 0 where
  pub ioapicaddr : ℕ
  pub vector_count : ℕ
  pub entries : List ℕ

-- A write of `write`: the address of the controller, the register and the value.
pub record Write : Type 0 where
  pub at : ℕ
  pub reg : ℕ
  pub value : ℕ

abbrev pub write : ℕ → ℕ → ℕ → Write
write ioapicaddr reg value = record { at = ioapicaddr; reg = reg % 256; value = u32 value }

-- The first entry of a controller.
unfoldable pub first_ioapic : Mem → List ℕ → Option ℕ
first_ioapic m [] = none
first_ioapic m (e ∷ es) = if entry_type m e == type_ioapic then some e else first_ioapic m es

-- The loop of `ioapic_init` from vector `i`, with `left` rounds to go.
pub mask_all : ℕ → ℕ → ℕ → List Write
mask_all at i zero = []
mask_all at i (suc left) =
    write at (16 + 2 * i) (2 ^ 16 + (32 + i))
    ∷ write at (16 + 2 * i + 1) 0
    ∷ mask_all at (i + 1) left

-- `ioapicaddr` after the search.
abbrev pub found_address : Mem → ℕ → ℕ → Option ℕ → ℕ
found_address m off old none = old
found_address m off old (some e) = u64 (ioapic_adress m e + off)

-- `version` is what the register of that name holds, by the controller's address. The result is
-- false in both cases.
unfoldable pub ioapic_init : Mem → ℕ → (version : ℕ → ℕ) → Ioapic → Bool × List Write × Ioapic
unfolding first_ioapic mask_all
ioapic_init m off version s =
    let at = found_address m off s.ioapicaddr (first_ioapic m s.entries) in
    let count = version at / 2 ^ 16 % 256 in
    if at == 0
    then (false, [], record s { ioapicaddr = at })
    else (false, mask_all at 0 (count + 1), record s { ioapicaddr = at; vector_count = count })

-- Whether the controller of entry `e` has the interrupt. The sum is one of u32.
abbrev pub covers : Mem → ℕ → ℕ → ℕ → Bool
covers m count gsi e =
    entry_type m e == type_ioapic
    && (leb (gs_interrupt_base m e) gsi && ltb gsi (u32 (gs_interrupt_base m e + count)))

-- A null pointer is `none`.
unfoldable pub get_gsi : Mem → ℕ → List ℕ → ℕ → Option ℕ
get_gsi m count [] gsi = none
get_gsi m count (e ∷ es) gsi = if covers m count gsi e then some e else get_gsi m count es gsi

-- The first override of an interrupt.
unfoldable pub find_override : Mem → ℕ → List ℕ → Option ℕ
find_override m vec [] = none
find_override m vec (e ∷ es) =
    if entry_type m e == type_override && irq_source m e == vec
    then some e
    else find_override m vec es

-- `redir`, whose upper half stays 0.
abbrev pub redirected : Mem → ℕ → ℕ → ℕ
redirected m e id =
    id
    + (if override_flags m e / 2 % 2 == 1 then 2 ^ 13 else 0)
    + (if override_flags m e / 8 % 2 == 1 then 2 ^ 15 else 0)

-- Reading through a null pointer is a fault.
abbrev pub present : Option ℕ → Outcome ℕ
present none = fault
present (some e) = ok e

-- The two writes of an interrupt's entry, by its distance to the controller's first interrupt.
abbrev pub entry_writes : ℕ → ℕ → ℕ → List Write
entry_writes at distance value =
    write at (distance * 2 + 16) value ∷ write at (distance * 2 + 17) 0 ∷ []

-- The interrupt's override leads to a controller that is used by its physical address.
abbrev pub override_writes : Mem → ℕ → ℕ → Ioapic → Outcome (List Write)
override_writes m e value s = do
  gsi ← present (get_gsi m s.vector_count s.entries (gs_interupt m e))
  let distance = sub32 (gs_interupt m e) (gs_interrupt_base m gsi)
  ok (entry_writes (ioapic_adress m gsi) distance value)

abbrev pub mask_entry : Mem → ℕ → Ioapic → Option ℕ → Outcome (List Write)
mask_entry m id s (some e) = override_writes m e (2 ^ 16 + redirected m e id) s
mask_entry m id s none = do
  gsi ← present (get_gsi m s.vector_count s.entries id)
  let distance = sub32 id (gs_interrupt_base m gsi)
  ok (entry_writes s.ioapicaddr distance (2 ^ 16 + u8 (32 + id)))

unfoldable pub ioapic_mask : Mem → ℕ → Ioapic → Outcome (List Write)
unfolding find_override
ioapic_mask m id s = mask_entry m id s (find_override m (u8 (32 + id)) s.entries)

abbrev pub unmask_entry : Mem → ℕ → Ioapic → Option ℕ → Outcome (List Write)
unmask_entry m id s (some e) = override_writes m e (redirected m e id) s
unmask_entry m id s none = do
  gsi ← present (get_gsi m s.vector_count s.entries id)
  let distance = sub32 id (gs_interrupt_base m gsi)
  ok (entry_writes (ioapic_adress m gsi) distance (u8 (32 + id)))

unfoldable pub ioapic_unmask : Mem → ℕ → Ioapic → Outcome (List Write)
unfolding find_override
ioapic_unmask m id s = unmask_entry m id s (find_override m (u8 (32 + id)) s.entries)
