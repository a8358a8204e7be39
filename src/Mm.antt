-- ===== src/Mm.antt =====
-- src/core/mm: physical pages and the heap on top of them.
pub mod Pmm
pub mod Memmap
pub mod Heap
