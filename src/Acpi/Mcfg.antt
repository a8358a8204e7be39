-- ===== src/Acpi/Mcfg.antt =====
-- drivers/ACPI/MCFG.c: the configuration space of PCI Express. A null pointer is read and written
-- like any other address.
pub mod Addresses
use h0r_net.Common.{
  ℕ, zero, suc, ◌+◌, ◌*◌, ◌/◌, ◌%◌, ◌^◌, Bool, true, false, List, [], ◌∷◌, ◌++◌, leb, ◌==◌, ◌&&◌,
  ◌||◌, if◌then◌else◌, u8, u16, u32, u64, sub64, Mem,
}
use h0r_net.Common.LittleEndian.{load_le, store_le}
use h0r_net.Acpi.Sdt.{Acpi, table_length, find_sdt}

-- The fields of `device_config` that are used.
pub record DeviceConfig : Type 0 where
  pub base_address : ℕ
  pub start_bus : ℕ
  pub end_bus : ℕ

-- sizeof(mcfg_header) and sizeof(device_config)
abbrev pub mcfg_header_size : ℕ
mcfg_header_size = 44

abbrev pub device_config_size : ℕ
device_config_size = 16

-- `num_mcfg_entries` entries from `a`, as a list.
pub load_entries : Mem → ℕ → ℕ → List DeviceConfig
load_entries m a zero = []
load_entries m a (suc n) =
    record { base_address = load_le 8 m a; start_bus = m (a + 10); end_bus = m (a + 11) }
    ∷ load_entries m (a + device_config_size) n

-- The literal "MCFG" stands at `mcfg`. The count wraps for a table shorter than its header.
unfoldable pub mcfg_init : Mem → ℕ → (dsdt facp mcfg : ℕ) → Acpi → Bool × List DeviceConfig
unfolding load_entries find_sdt
mcfg_init m off dsdt facp mcfg acpi =
    let h = find_sdt m off dsdt facp acpi mcfg in
    if h == 0 then (false, []) else (
      true,
      load_entries m (h + mcfg_header_size)
          (u32 (sub64 (table_length m h) mcfg_header_size / device_config_size)),
    )

-- The first entry whose buses hold `bus`. The first bus is not taken off.
unfoldable pub pcie_getaddr : List DeviceConfig → ℕ → ℕ → ℕ → ℕ → ℕ
pcie_getaddr [] bus dev func off = 0
pcie_getaddr (e ∷ es) bus dev func off =
    if leb e.start_bus bus && leb bus e.end_bus
    then u64 (e.base_address + bus * 2 ^ 20 + dev * 2 ^ 15 + func * 2 ^ 12 + off)
    else pcie_getaddr es bus dev func off

unfoldable pub pcie_read : Mem → List DeviceConfig → ℕ → ℕ → ℕ → ℕ → ℕ
unfolding pcie_getaddr
pcie_read m es bus dev func off = load_le 4 m (pcie_getaddr es bus dev func off)

unfoldable pub pcie_write : List DeviceConfig → ℕ → ℕ → ℕ → ℕ → ℕ → Mem → Mem
unfolding pcie_getaddr
pcie_write es bus dev func off val m = store_le 4 m (pcie_getaddr es bus dev func off) val

-- What `iterate_pci` prints of a device.
pub record PciFunction : Type 0 where
  pub vendor_id : ℕ
  pub device_id : ℕ

pub functions_loop : Mem → List DeviceConfig → ℕ → ℕ → ℕ → ℕ → List PciFunction
functions_loop m es bus device function zero = []
functions_loop m es bus device function (suc left) =
    let vendor = u16 (pcie_read m es bus device function 0) in
    let id = u16 (pcie_read m es bus device function 2) in
    let rest = functions_loop m es bus device (function + 1) left in
    if vendor == 0 || (vendor == 0xffff || id == 0)
    then rest
    else record { vendor_id = vendor; device_id = id } ∷ rest

pub devices_loop : Mem → List DeviceConfig → ℕ → ℕ → ℕ → List PciFunction
devices_loop m es bus device zero = []
devices_loop m es bus device (suc left) =
    let multi = pcie_read m es bus device 0 0x0e / 2 ^ 7 % 2 == 1 in
    functions_loop m es bus device 0 (if multi then 8 else 1)
    ++ devices_loop m es bus (device + 1) left

pub buses_loop : Mem → List DeviceConfig → ℕ → ℕ → List PciFunction
buses_loop m es bus zero = []
buses_loop m es bus (suc left) = devices_loop m es bus 0 32 ++ buses_loop m es (bus + 1) left

unfoldable pub iterate_pci : Mem → List DeviceConfig → List PciFunction
unfolding buses_loop devices_loop functions_loop
iterate_pci m es = buses_loop m es 0 8
