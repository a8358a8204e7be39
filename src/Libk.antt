-- ===== src/Libk.antt =====
-- src/libk: the kernel's small C library.
pub mod Bitmap
pub mod Memory
pub mod Text
pub mod Numbers
pub mod Vector
