-- ===== src/Acpi.antt =====
-- drivers/ACPI and arch/x86_64/ACPI: the firmware's tables. The memory is given by pointer: what
-- PHYS_TO_VIRT makes of a physical address is that address plus `off`.
pub mod Sdt
pub mod Madt
pub mod Mcfg
pub mod Hpet
