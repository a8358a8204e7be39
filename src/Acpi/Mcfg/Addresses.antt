-- ===== src/Acpi/Mcfg/Addresses.antt =====
-- drivers/ACPI/MCFG.c, `pcie_getaddr`: which function and register an address stands for.
use h0r_net.Common.{ℕ, ◌+◌, ◌-◌, ◌/◌, ◌%◌, ◌^◌, ◌≤◌, ◌<◌, ◌≡◌, true, List, ◌∷◌, leb, ◌&&◌, arith}
use h0r_net.Acpi.Mcfg.{DeviceConfig, pcie_getaddr}

-- The numbers of a function and a register in its first 256 bytes.
pub record PciAddress (bus dev func off : ℕ) : Type 0 where
  pub bus_word : bus < 256
  pub dev_word : dev < 32
  pub func_word : func < 8
  pub off_word : off < 256

-- The address of a register determines it: from the distance to the base that the entry gives, bus,
-- device, function and offset can be read back, and the address lies within 256 MiB of the base.
pub pcie_getaddr-fields :
    (e : DeviceConfig) (es : List DeviceConfig) (bus dev func off : ℕ)
    → PciAddress bus dev func off
    → e.base_address + 2 ^ 28 ≤ 2 ^ 64
    → e.start_bus ≤ bus
    → bus ≤ e.end_bus
    → let a = pcie_getaddr (e ∷ es) bus dev func off in
      let d = a - e.base_address in
      (e.base_address ≤ a)
      × (d < 2 ^ 28)
      × (d / 2 ^ 20 ≡ bus)
      × (d / 2 ^ 15 % 32 ≡ dev)
      × (d / 2 ^ 12 % 8 ≡ func)
      × (d % 2 ^ 12 ≡ off)
unfolding pcie_getaddr
pcie_getaddr-fields e es bus dev func off p word lo hi =
    let inside : (leb e.start_bus bus && leb bus e.end_bus) ≡ true = ground arith in
    rw inside (omega (arith, p.bus_word, p.dev_word, p.func_word, p.off_word))
