-- ===== src/Arch.antt =====
-- The tables that the processor reads.
pub mod Idt
pub mod Gdt
pub mod Rtc
pub mod Pager
pub mod Isr
pub mod Lapic
pub mod Cereal
pub mod Cpu
pub mod Entry
pub mod Ps2
pub mod Keyboard
pub mod Ioapic
