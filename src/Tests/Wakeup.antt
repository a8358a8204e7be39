-- ===== src/Tests/Wakeup.antt =====
-- src/core/sys/wakeup/wakeup.c at concrete inputs: the memory map of the page allocator's tests, and an
-- archive of one empty file at 65536, in the reserved part.
use h0r_net.Common.{
  ◌+◌, Mem, store8, Outcome, halted, if◌then◌else◌, leb, ltb, ◌&&◌, ◌^◌, ◌≡◌, refl, false, ◌==◌, ok,
  arith, replicate,
}
use h0r_net.Siv.{no_drive, no_driver, no_file}
use h0r_net.Sys.Sched.{zero_registers, no_process}
use h0r_net.Sys.Tty.{no_tty}
use h0r_net.Sys.Wakeup.{Machine, Boot, wakeup_init_hw, wakeup_startup, kmain}
use h0r_net.Sys.Wakeup.Mounts.{Startable, Mounted, kmain-archive, kmain-no_archive}
use h0r_net.Tar.{TarContents, parse_tar, parse_size, next_header}
use h0r_net.Tests.Mm.{map_entries, before_boot}
use h0r_net.Mm.Heap.{Heap, malloc}
use h0r_net.Mm.Pmm.{
  Pmm, pmm_init, is_usable, add_entries, request_pages, lock_pages, unreserve_entries, all_reserved,
}
use h0r_net.Mm.Pmm.Boot.{bitmap_locked, unreserved}
use h0r_net.Libk.Bitmap.{bitmap_get, bitmap_set}
use h0r_net.Libk.Vector.{vector_init, vector_push_back}
use h0r_net.Common.LittleEndian.{store_le}

abbrev archive : Mem
archive = λ a. if a == 65536 then 97 else if leb 65660 a && ltb a 65671 then 48 else 0

abbrev boot : Boot
boot = record {
  memmap = map_entries;
  initramfs = 65536;
  size = 2048;
  pagemap = 0;
  empty = 200;
  gaia = 300;
  gaia_main = 0xffffffff80000000;
}

abbrev machine : Machine
machine = record {
  siv = record {
    drives = replicate 64 no_drive;
    num_drives = 0;
    drivers = replicate 8 no_driver;
    num_drivers = 0;
    open_files = replicate 64 no_file;
    open_file_contents = replicate 64 0;
    num_open_files = 0;
    heap = record { pmm = record before_boot { memory = archive }; hhdm_off = 2 ^ 47 };
  };
  ttys = record { ttys = replicate 4 no_tty; next_tty_id = 0; initialized = false };
  sched = record {
    processes = replicate 64 no_process;
    num_procs = 0;
    current_pid = 0;
    running = false;
  };
}

abbrev booted : Pmm
booted = (bitmap_locked (unreserved map_entries (record before_boot { memory = archive }))).1

boots : pmm_init map_entries (record before_boot { memory = archive }) ≡ ok booted
unfolding pmm_init is_usable add_entries
boots = refl

startable : Startable boot machine booted
startable = record {
  pages = boots;
  terminals = refl;
  terminal_room = omega arith;
  no_drives = refl;
  drive_room = omega arith;
  driver_room = omega arith;
}

abbrev contents : TarContents
contents = record { hdr_num = 1; headers = 2 ^ 47 + 4104 }

-- The heap with the vector of one pointer, and the kernel's result with it.
abbrev after_tar : Outcome (TarContents × Heap)
after_tar = parse_tar 9 (record { pmm = booted; hhdm_off = 2 ^ 47 }) 65536 2048

reads_archive : (h : Heap) × (after_tar ≡ ok (contents, h))
unfolding parse_tar parse_size next_header malloc request_pages lock_pages bitmap_get bitmap_set
    vector_init vector_push_back store_le store8 is_usable add_entries unreserve_entries
    all_reserved
reads_archive = (_, refl)

kmain-archive_example :
    (k1 : Machine) × (wakeup_init_hw 9 boot machine ≡ ok k1)
    × Mounted 9 boot machine contents reads_archive.0 k1
    × (kmain 9 boot zero_registers machine ≡ wakeup_startup 9 boot zero_registers k1)
kmain-archive_example =
    kmain-archive 9 startable zero_registers contents reads_archive.0 refl reads_archive.1

abbrev bare : Boot
bare = record boot { initramfs = 0 }

bare-Startable : Startable bare machine booted
bare-Startable = record {
  pages = boots;
  terminals = refl;
  terminal_room = omega arith;
  no_drives = refl;
  drive_room = omega arith;
  driver_room = omega arith;
}

kmain-no_archive_example : kmain 9 bare zero_registers machine ≡ halted 37
kmain-no_archive_example = kmain-no_archive 9 bare-Startable zero_registers refl
