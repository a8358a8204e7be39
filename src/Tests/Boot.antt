-- ===== src/Tests/Boot.antt =====
-- src/drivers/filesys/tar.c with src/core/sys/resman/SIV.c at concrete inputs: the archive of one file
-- of five bytes at 20480, with the name at 100.
use h0r_net.Common.{◌+◌, ◌^◌, replicate}
use h0r_net.Common.LittleEndian.{store_le}
use h0r_net.Mm.Heap.{Heap}
use h0r_net.Siv.{Siv, no_file}
use h0r_net.Tar.{TarContents}
use h0r_net.Tar.Driver.{tar_driver}
use h0r_net.Tests.Tar.{heap, one_locked}

abbrev contents : TarContents
contents = record { hdr_num = 1; headers = 2 ^ 47 + 4104 }

-- The heap with the vector of one pointer.
abbrev after_tar : Heap
after_tar = record {
  pmm = record one_locked {
    memory = store_le 8 (store_le 8 one_locked.memory 4096 500) 4104 (2 ^ 47 + 20480);
  };
  hhdm_off = 2 ^ 47;
}

abbrev empty_files : Siv
empty_files = record {
  drives = replicate 64 (record { driver_id = 0; driver_specific_data = 0 });
  num_drives = 0;
  drivers = replicate 8 (tar_driver 0 contents 0 0);
  num_drivers = 0;
  open_files = replicate 64 no_file;
  open_file_contents = replicate 64 0;
  num_open_files = 0;
  heap = heap;
}
