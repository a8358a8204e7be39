-- ===== src/Sys/Wakeup.antt =====
-- core/sys/wakeup/wakeup.c and core/kernel.c: the start of the kernel, from the memory map to the
-- first process.
pub mod Mounts
use h0r_net.Common.{ℕ, ◌+◌, ◌==◌, false, List, if◌then◌else◌, Outcome, ok, halted, ◌>>=◌}
use h0r_net.Mm.Pmm.{MemmapEntry, pmm_init}
use h0r_net.Siv.{Siv, siv_init}
use h0r_net.Sys.Sched.{Registers, Sched, schedule}
use h0r_net.Sys.Exec.{with_pmm, execute}
use h0r_net.Sys.Tty.{Ttys, no_tty, tty_register}
use h0r_net.Tar.Driver.{tar_init}

-- The parts of the kernel that the start sets up; the heap is the one of the file layer.
pub record Machine : Type 0 where
  pub siv : Siv
  pub ttys : Ttys
  pub sched : Sched

-- What the boot loader hands over: the memory map, the archive and its size, the page map, and the
-- addresses of "", of "Gaia" and of `gaia_main`.
pub record Boot : Type 0 where
  pub memmap : List MemmapEntry
  pub initramfs : ℕ
  pub size : ℕ
  pub pagemap : ℕ
  pub empty : ℕ
  pub gaia : ℕ
  pub gaia_main : ℕ

-- HN_ERR_NO_FS
abbrev pub err_no_fs : ℕ
err_no_fs = 37

-- The terminal is one of the screen: 2 is TTY_TYPE_UTERUS.
unfoldable pub wakeup_init_hw : ℕ → Boot → Machine → Outcome Machine
wakeup_init_hw f b k = do
  p ← pmm_init b.memmap k.siv.heap.pmm
  (id, ttys) ← tty_register (record no_tty { out_type = 2 }) k.ttys
  let siv = siv_init (record (k.siv) { heap = with_pmm k.siv.heap p })
  siv' ← tar_init f b.initramfs b.size b.empty siv
  ok (record k { siv = siv'; ttys = ttys })

unfoldable pub wakeup_do_mounts : Machine → Outcome Machine
wakeup_do_mounts k = if k.siv.num_drives == 0 then halted err_no_fs else ok k

-- The frame is that of the kernel's own code, which the interrupt leaves; the result is the frame and
-- the page map of the process that runs next.
unfoldable pub wakeup_startup : ℕ → Boot → Registers → Machine → Outcome (Registers × ℕ × Machine)
wakeup_startup f b regs k = do
  (heap, sched) ← execute b.pagemap b.gaia b.gaia_main false k.siv.heap k.sched
  (regs', pagemap, sched') ← schedule f regs sched
  ok (regs', pagemap, record k { siv = record (k.siv) { heap = heap }; sched = sched' })

unfoldable pub kmain : ℕ → Boot → Registers → Machine → Outcome (Registers × ℕ × Machine)
unfolding wakeup_init_hw wakeup_do_mounts wakeup_startup
kmain f b regs k = do
  k1 ← wakeup_init_hw f b k
  k2 ← wakeup_do_mounts k1
  wakeup_startup f b regs k2
