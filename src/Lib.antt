-- ===== src/Lib.antt =====
-- The h0r.net kernel: a small x86-64 kernel in C. This library models the parts that carry its own
-- logic and proves what makes them correct.
--
-- The parts and how they interact. The library of the kernel (libk) has the text and memory
-- functions and the bitmap. The physical page allocator (core/mm/pmm.c) keeps one bit for each page
-- in such a bitmap; the heap (core/mm/heap.c) takes whole pages from it for every block. The
-- scheduler (core/sys/sched) keeps a table of processes, and the handler of the timer interrupt
-- (arch/x86_64/constant_isrs.c) switches between them. The virtual
-- file layer (core/sys/resman/SIV.c) hands files of drives to descriptors and calls the drivers,
-- such as the one of the boot archive (libk/tar.c, drivers/filesys/tar.c). The pager
-- (arch/x86_64/pager.c) takes its tables from the page allocator. Every interrupt comes through one
-- entry (arch/x86_64/interrupts/ISR.c), which calls the scheduler and the system calls. The tables of
-- the firmware (drivers/ACPI, arch/x86_64/ACPI) say where the devices are.
--
-- Which file models which part:
--   Common and its children: tests, lists, machine words with their wrap-around, memory as a
--     function from addresses to bytes, and the outcome of a routine, which is a result, a halt
--     behind the error screen, an access outside an array, or fuel that is used up.
--   Libk.Bitmap: libk/bitmap.c. Libk.Memory and Libk.Text: libk/string.c.
--   Mm.Pmm: core/mm/pmm.c, with its global variables in the record `Pmm`. Mm.Heap: core/mm/heap.c,
--     with the two mappings of physical memory that core/mm/mem.h translates between.
--   Sys.Sched: core/sys/sched/sched.c, sched_algo.c, process.h, and `schedule` of
--     arch/x86_64/constant_isrs.c. The table and its counters are the record `Sched`.
--   Arch: arch/x86_64/interrupts/IDT.c, arch/x86_64/gdt.c and arch/x86_64/rtc.c. Arch.Pager:
--     arch/x86_64/pager.c, over the memory and the page allocator of the heap. Arch.Isr:
--     arch/x86_64/interrupts/ISR.c and the handlers of arch/x86_64/constant_isrs.c. Arch.Ioapic and
--     Arch.Lapic: arch/x86_64/IOAPIC.c and LAPIC.c, whose writes to registers are outputs. Arch.Keyboard:
--     arch/x86_64/io/PS2.c and input.c. Arch.Cpu: arch/x86_64/cpu.c. Arch.Cereal:
--     arch/x86_64/io/cereal.c and audio/pcspk.c.
--   Acpi: drivers/ACPI (SDT.c, MCFG.c, HPET.c) and arch/x86_64/ACPI/MADT.c, over a byte memory; a
--     string literal of the source is an address at which it stands.
--   Sys.Registery: core/sys/resman/registery.c.
--   Sys.Events: core/sys/events.c and core/sys/syscall.c. Sys.Tty: core/sys/resman/tty.c. Siv:
--     core/sys/resman/SIV.c, with a driver as a record of operations.
--   Sys.Wakeup: core/sys/wakeup/wakeup.c and core/kernel.c, the start of the kernel.
--   Sys.Exec: core/sys/krnlexec.c, which joins the pager, the page allocator and the scheduler.
--   Mm.Pmm.Live: the page allocator over time, as steps that request, free and write pages.
--   Sys.Steps: the kernel over time, as steps of interrupts, of processes that are added, and of the
--     blocking that the locks of vendor/printf.c do. Its state is the record `Kernel` of
--     Sys.Events.Fire. A timer interrupt that a system call raises itself is counted there, and what
--     it does is a step of its own behind the call; whether `realloc` gets through is an argument.
--   Arch.Pager.Fill: addresses that have no tables yet.
--   Arch.Entry: arch/x86_64/x86_64.c, what the boot loader hands over; Mm.Memmap: core/mm/mem.c.
--   Arch.Ps2: `ps2_init` of arch/x86_64/io/PS2.c. Libk.Numbers and Libk.Vector: libk/stdlib.c and
--     libk/vector.h. Utils: utils/error.c (Psod), utils/log.c (Log) and utils/psf2.c (Font).
--   Tar: libk/tar.c and drivers/filesys/tar.c, with the vector of headers on the heap. Tar.Driver joins
--     it to the virtual file layer.
--   Tests: runs at concrete inputs.
-- Paths are below the repository's directory `src`. An operation has the name of its C function; the
-- functions of libk take the memory before their own arguments, the others take the state as their
-- last argument, and both return the new state beside the result.
--
-- Bounds and fuel. A number of the source is a natural number, and `u8` to `u64` write the
-- wrap-around out where the source's type can wrap. Loops over text that ends in a zero byte run on
-- fuel, one unit for a byte; the theorems ask for more fuel than the text has bytes, and such fuel
-- gives a result. The loop of `next_process` runs on fuel, one unit for a slot: more than
-- `sched_num_procs` units are enough when some process is ready. The loop of `parse_tar` runs on fuel,
-- one unit for a header: one more than the archive has blocks of 512 bytes is enough. `recurse_table` runs
-- on fuel, one unit for an entry: 65 units are enough, since the array holds 64. `wait_loop` runs on
-- the readings of the clock, and `await_bit` on those of a serial port. All other loops
-- of the source are bounded and recursive in their bound. The backtrace of the error screen runs on
-- fuel, one unit for a frame: one more than the chain has frames is enough.
--
-- Not modelled: special instructions, the texts of messages, the screen, `_start`, the process Gaia, the
-- vendored printf and ACPI libraries, and the copies of another library's headers in libk. The
-- accesses of ports and device registers are outputs and arguments of the definitions. The memory
-- map of the bootloader is an argument of `pmm_init`, as are the addresses of the interrupt
-- stubs of `init_isr`. A pointer that is not canonical faults in `vmm_unmap_page`, the only routine
-- that makes one.
pub mod Common
pub mod Libk
pub mod Mm
pub mod Acpi
pub mod Arch
pub mod Siv
pub mod Sys
pub mod Tar
pub mod Utils
mod Tests
