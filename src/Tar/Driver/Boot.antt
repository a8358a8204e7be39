-- ===== src/Tar/Driver/Boot.antt =====
-- drivers/filesys/tar.c with core/sys/resman/SIV.c: from the archive to the bytes of an open file.
use h0r_net.Common.{
  Mem, Outcome, ◌>>=◌, ℕ, ◌+◌, ◌<◌, ◌≡◌, false, ◌==◌, some, ok, get_elem?, set, length, u16,
}
use h0r_net.Mm.Heap.{Heap, with_memory, phys}
use h0r_net.Siv.{Siv, Drive, no_fd}
use h0r_net.Tar.{TarContents, parse_tar, find_file, typeflag_field}
use h0r_net.Tar.Driver.{tar_driver}

-- Before `tar_init`: the archive is there, `parse_tar` gets through with the contents and the heap
-- given, and each table has room.
pub record Bootable (f initramfs size : ℕ) (s : Siv) (contents : TarContents) (heap : Heap)
    : Type 0 where
  pub there : (initramfs == 0) ≡ false
  pub parsed : parse_tar f s.heap initramfs size ≡ ok (contents, heap)
  pub drive_room : s.num_drives < length s.drives
  pub driver_room : s.num_drivers < length s.drivers
  pub file_room : s.num_open_files < length s.open_files
  pub word : s.num_open_files < no_fd
  pub unread : get_elem? s.open_file_contents s.num_open_files ≡ some 0

module _ {f initramfs size : ℕ} {s : Siv} {contents : TarContents} {heap : Heap} (empty : ℕ)
    (b : Bootable f initramfs size s contents heap) where
  abbrev drive : Drive
  drive = record { driver_id = s.num_drivers; driver_specific_data = 0 }

  abbrev booted : Siv
  booted = record s {
    heap = heap;
    drivers = set s.drivers s.num_drivers (tar_driver f contents s.num_drives empty);
    num_drivers = u16 (s.num_drivers + 1);
    drives = set s.drives s.num_drives drive;
    num_drives = u16 (s.num_drives + 1);
  }

  module _ (path header : ℕ)
      (found : find_file f heap.pmm.memory heap.hhdm_off contents (phys heap.hhdm_off path)
        ≡ ok header)
      (there : (header == 0) ≡ false)
      (plain : (heap.pmm.memory (header + typeflag_field) == 53) ≡ false) where
    abbrev after_read : Siv → Outcome Mem → Outcome Siv
    after_read s2 o = (o >>= λ m. ok (with_memory heap m)) >>= λ h. ok (record s2 { heap = h })
