-- ===== src/Tar/Driver.antt =====
-- drivers/filesys/tar.c: the archive as a driver of the virtual file layer. Its headers and the archive
-- are known by their physical addresses; the pointers of a caller are read through the two mappings.
pub mod Boot
use h0r_net.Common.{ℕ, ◌+◌, ◌==◌, true, Bool, if◌then◌else◌, Outcome, ok, ◌>>=◌}
use h0r_net.Mm.Heap.{Heap, phys, with_memory}
use h0r_net.Siv.{Siv, File, no_file, BlockDriver, siv_register_driver, siv_register_drive}
use h0r_net.Tar.{
  TarContents, parse_tar, parse_size, find_file, tar_read, tar_write, uid_field, gid_field,
  size_field, mtime_field, typeflag_field,
}

-- The literal "" stands at `empty`. '5' is the type of a directory.
unfoldable pub tar_get_props : ℕ → TarContents → (drive_id empty path : ℕ) → Heap → Outcome File
tar_get_props f contents drive_id empty path h = do
  let m = h.pmm.memory
  header ← find_file f m h.hhdm_off contents (phys h.hhdm_off path)
  ok (
      if header == 0 then no_file else record {
        drive_id = drive_id;
        name = empty;
        full_path = path;
        size = parse_size m (header + size_field);
        isdir = m (header + typeflag_field) == 53;
        created = 0;
        last_modified = parse_size m (header + mtime_field);
        last_accessed = 0;
        owner_id = parse_size m (header + uid_field);
        group_id = parse_size m (header + gid_field);
        perms = 0xfff;
      })

-- The operations that are not stubs.
abbrev pub tar_driver : ℕ → TarContents → (drive_id empty : ℕ) → BlockDriver
tar_driver f contents drive_id empty = record {
  is_virtual = true;
  get_props = λ own path h. tar_get_props f contents drive_id empty path h;
  read = λ own path offset buffer size h.
      tar_read f h.hhdm_off contents (phys h.hhdm_off path) offset (phys h.hhdm_off buffer) size
        h.pmm.memory
      >>= λ m. ok (with_memory h m);
  write = λ own path offset buffer size h.
      tar_write f h.hhdm_off contents (phys h.hhdm_off path) offset (phys h.hhdm_off buffer) size
        h.pmm.memory
      >>= λ m. ok (with_memory h m);
}

-- The archive is at `initramfs`. `drive_id` is set after the driver is registered, to the number that
-- `siv_register_drive` gives, which is the number of drives.
unfoldable pub tar_init : ℕ → (initramfs size empty : ℕ) → Siv → Outcome Siv
tar_init f initramfs size empty s =
    let registered = (do
      (contents, h) ← parse_tar f s.heap initramfs size
      (driver_id, s') ←
          siv_register_driver (tar_driver f contents s.num_drives empty) (record s { heap = h })
      (drive_id, s'') ←
          siv_register_drive (record { driver_id = driver_id; driver_specific_data = 0 }) s'
      ok s'') in
    if initramfs == 0 then ok s else registered
