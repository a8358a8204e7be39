-- ===== src/Siv/Files.antt =====
-- core/sys/resman/SIV.c: descriptors from `siv_open` to `siv_close`.
use h0r_net.Common.{
  ℕ, suc, ◌+◌, ◌≤◌, ◌<◌, ◌≡◌, ◌≢◌, refl, ap, true, false, ◌&&◌, ◌||◌, some, ◌==◌, u32, arith, ok,
  fault, ◌>>=◌, at_index, get_elem?, set, length, length-set, get_elem?-lt, get_elem?-ge,
  get_elem?-set_self, get_elem?-set_ne,
}
use h0r_net.Siv.{
  Siv, Drive, BlockDriver, File, no_file, no_fd, siv_open, siv_close, siv_get_file, siv_read,
  siv_write, preloads,
}

-- The setting of an `open`: the drive and its driver are there, and the driver gives the properties.
pub record Opens (s : Siv) (drive_id path : ℕ) (drive : Drive) (driver : BlockDriver) (file : File)
    : Type 0 where
  pub has_drive : get_elem? s.drives drive_id ≡ some drive
  pub has_driver : get_elem? s.drivers drive.driver_id ≡ some driver
  pub props : driver.get_props drive.driver_specific_data path s.heap ≡ ok file

module _ (s : Siv) (drive_id path flags : ℕ) (drive : Drive) (driver : BlockDriver) (file : File)
    (o : Opens s drive_id path drive driver file) where
  -- Once 64 descriptors have been given out, every `siv_open` writes behind `open_files`, whatever
  -- has been closed since: none is given back.
  pub siv_open-fault :
      length s.open_files ≤ s.num_open_files → siv_open drive_id path flags s ≡ fault
  unfolding siv_open
  siv_open-fault full =
      rw (o.has_drive, o.has_driver, o.props, get_elem?-ge s.open_files s.num_open_files full) refl

  -- An `open` of a file that the driver does not know, or of a directory, returns `UINT32_MAX`; the
  -- slot is zeroed, but its descriptor is used up.
  pub siv_open-fails :
      s.num_open_files < length s.open_files
      → s.num_open_files < no_fd
      → ((file.size == 0 && file.full_path == 0) || file.isdir) ≡ true
      → (s' : Siv) × (siv_open drive_id path flags s ≡ ok (no_fd, s'))
        × (get_elem? s'.open_files s.num_open_files ≡ some no_file)
        × (s'.num_open_files ≡ suc s.num_open_files)
        × (s'.heap ≡ s.heap)
  unfolding siv_open
  siv_open-fails room word bad =
      let (old, at) = get_elem?-lt s.open_files s.num_open_files room in
      rw (o.has_drive, o.has_driver, o.props, at, bad)
        (
          _,
          refl,
          get_elem?-set_self (set s.open_files s.num_open_files file) s.num_open_files no_file
              (omega (arith, length-set s.open_files s.num_open_files file)),
          omega arith,
          refl,
        )

  -- A file that is opened without preloading: the descriptor is the number of those given out so
  -- far, which goes up by one, holds the properties that the driver gave, and leaves the other
  -- descriptors alone; reads and writes through it are
  -- the driver's on the path of those properties, and after `siv_close` the slot is zeroed.
  pub siv_open-close :
      s.num_open_files < length s.open_files
      → s.num_open_files < no_fd
      → get_elem? s.open_file_contents s.num_open_files ≡ some 0
      → ((file.size == 0 && file.full_path == 0) || file.isdir) ≡ false
      → preloads driver flags ≡ false
      → get_elem? s.drives file.drive_id ≡ some drive
      → (s' : Siv) × (s'' : Siv) × (siv_open drive_id path flags s ≡ ok (s.num_open_files, s'))
        × (siv_get_file s.num_open_files s' ≡ ok file)
        × (s'.num_open_files ≡ suc s.num_open_files)
        × ((fd : ℕ)
            → s.num_open_files ≢ fd
            → get_elem? s'.open_files fd ≡ get_elem? s.open_files fd)
        × ((offset buffer size : ℕ)
            → siv_read s.num_open_files offset buffer size s' ≡ (
                driver.read drive.driver_specific_data file.full_path offset buffer size s.heap
                >>= λ h. ok (record s' { heap = h })))
        × ((offset buffer size : ℕ)
            → siv_write s.num_open_files offset buffer size s' ≡ (
                driver.write drive.driver_specific_data file.full_path offset buffer size s.heap
                >>= λ h. ok (record s' { heap = h })))
        × (siv_close s.num_open_files s' ≡ ok s'')
        × (siv_get_file s.num_open_files s'' ≡ ok no_file)
  unfolding siv_open siv_close siv_get_file siv_read siv_write
  siv_open-close room word unread good lazy same_drive =
      let (old, at) = get_elem?-lt s.open_files s.num_open_files room in
      let held = get_elem?-set_self s.open_files s.num_open_files file room in
      rw (o.has_drive, o.has_driver, o.props, at, good, lazy)
        (
          record s {
            open_files = set s.open_files s.num_open_files file;
            num_open_files = u32 (s.num_open_files + 1);
          },
          record s {
            open_files = set (set s.open_files s.num_open_files file) s.num_open_files no_file;
            num_open_files = u32 (s.num_open_files + 1);
          },
          refl,
          ap at_index held,
          omega arith,
          λ fd ne. get_elem?-set_ne s.open_files s.num_open_files fd file ne,
          λ offset buffer size. rw (unread, held, same_drive, o.has_driver) refl,
          λ offset buffer size. rw (held, same_drive, o.has_driver) refl,
          rw (unread, held) refl,
          ap at_index (
              get_elem?-set_self (set s.open_files s.num_open_files file) s.num_open_files no_file
                (omega (arith, room, length-set s.open_files s.num_open_files file))),
        )
