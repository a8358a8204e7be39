-- ===== src/Sys/Exec.antt =====
-- core/sys/krnlexec.c: a function of the kernel becomes a process with a page map and a stack of its
-- own.
pub mod Prepared
pub mod Process
use h0r_net.Common.{ℕ, ◌+◌, ◌*◌, Bool, if◌then◌else◌, u64, Outcome, ok, ◌>>=◌}
use h0r_net.Mm.Pmm.{Pmm, page_size, request_pages}
use h0r_net.Mm.Heap.{Heap}
use h0r_net.Arch.Pager.{vmm_create_pagemap, vmm_map_range}
use h0r_net.Sys.Sched.{Registers, zero_registers, Sched, sched_add_process}

abbrev pub with_pmm : Heap → Pmm → Heap
with_pmm h p = record h { pmm = p }

-- The frame a process starts with.
abbrev pub first_frame : (func stack : ℕ) → Bool → Registers
first_frame func stack user = record zero_registers {
  rip = func;
  rsp = u64 (stack + 2 * page_size);
  cs = if user then 0x38 else 0x8;
  ss = if user then 0x40 else 0x10;
  rflags = 0x202;
}

-- `boot` is the boot loader's page map; 11 is FLAGS_R, FLAGS_W and FLAGS_U. The results of
-- `vmm_map_range` and `sched_add_process` are not looked at.
unfoldable pub execute : (boot name func : ℕ) → Bool → Heap → Sched → Outcome (Heap × Sched)
execute boot name func user h s = do
  (pagemap, h') ← vmm_create_pagemap boot h
  (stack, p) ← request_pages 2 h'.pmm
  (mapped, h'') ← vmm_map_range pagemap stack stack 2 11 (with_pmm h' p)
  (pid, s') ← sched_add_process name (first_frame func stack user) pagemap s
  ok (h'', s')
