-- ===== src/Tests/Siv.antt =====
-- src/core/sys/resman and src/core/sys/events.c at concrete inputs: one drive with a driver that
-- knows one file, four terminals, and 64 events.
use h0r_net.Common.{
  ℕ, ◌≡◌, ◌≢◌, refl, true, ok, arith, [], replicate, get_elem?, if◌then◌else◌, ◌==◌,
}
use h0r_net.Siv.{
  Siv, Drive, BlockDriver, File, no_file, siv_open, siv_close, siv_get_file, siv_read, siv_write,
}
use h0r_net.Siv.Files.{Opens, siv_open-close}
use h0r_net.Sys.Tty.{Ttys, no_tty, tty_get_lock}
use h0r_net.Sys.Events.{Event, Events}
use h0r_net.Tests.Heap.{heap}

abbrev known_file : File
known_file = record no_file { full_path = 100; size = 5 }

-- The file at path 100 is there, and no other.
abbrev driver : BlockDriver
driver = record {
  is_virtual = true;
  get_props = λ own path h. ok (if path == 100 then known_file else no_file);
  read = λ own path offset buffer size h. ok h;
  write = λ own path offset buffer size h. ok h;
}

abbrev drive : Drive
drive = record { driver_id = 0; driver_specific_data = 0 }

abbrev files : Siv
files = record {
  drives = replicate 64 drive;
  num_drives = 1;
  drivers = replicate 8 driver;
  num_drivers = 1;
  open_files = replicate 64 no_file;
  open_file_contents = replicate 64 0;
  num_open_files = 3;
  heap = heap;
}

known-Opens : Opens files 0 100 drive driver known_file
known-Opens = record { has_drive = refl; has_driver = refl; props = refl }

siv_open-close_example :
    (s' : Siv) × (s'' : Siv) × (siv_open 0 100 0 files ≡ ok (3, s'))
    × (siv_get_file 3 s' ≡ ok known_file)
    × (s'.num_open_files ≡ 4)
    × ((fd : ℕ) → 3 ≢ fd → get_elem? s'.open_files fd ≡ get_elem? files.open_files fd)
    × ((offset buffer size : ℕ) → siv_read 3 offset buffer size s' ≡ ok (record s' { heap = heap }))
    × ((offset buffer size : ℕ)
        → siv_write 3 offset buffer size s' ≡ ok (record s' { heap = heap }))
    × (siv_close 3 s' ≡ ok s'')
    × (siv_get_file 3 s'' ≡ ok no_file)
siv_open-close_example =
    siv_open-close files 0 100 0 drive driver known_file known-Opens (omega arith) (omega arith)
      refl refl refl refl

abbrev terminals : Ttys
terminals = record { ttys = replicate 4 no_tty; next_tty_id = 1; initialized = true }

no_lock : tty_get_lock 0 terminals ≡ ok 0
unfolding tty_get_lock
no_lock = refl

abbrev created : Event
created = record { event = 0; subscribers = []; num_subscribers = 0 }

abbrev pub event_table : Events
event_table = record { events = replicate 64 created; num_events = 1 }
