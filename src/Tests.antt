-- ===== src/Tests.antt =====
-- Runs of the definitions on small inputs, and each theorem with hypotheses at an input that meets
-- them.
mod Libk
mod Mm
mod Heap
mod Sys
mod Tar
mod Siv
mod Arch
mod Pager
mod Wakeup
mod Registery
mod Keyboard
mod Boot
mod Ioapic
mod Acpi
mod Steps
mod Exec
mod Live
mod Utils
