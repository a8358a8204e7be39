-- ===== src/Tests/Tar.antt =====
-- src/libk/tar.c at concrete inputs: an archive of one file of five bytes at 20480, its name at 100, and
-- page 1 free for the vector.
use h0r_net.Common.{
  ℕ, ◌+◌, ◌^◌, ◌≡◌, ◌≢◌, refl, false, ok, out_of_fuel, arith, [], ◌∷◌, Mem, if◌then◌else◌, ◌==◌,
  ◌||◌, ◌&&◌, leb, ltb, inl, store8-IsBytes, store8, IsBytes,
}
use h0r_net.Common.LittleEndian.{store_le, store_le-IsBytes}
use h0r_net.Libk.Bitmap.{bitmap_get, bitmap_set}
use h0r_net.Libk.Memory.Laws.{in_area}
use h0r_net.Mm.Pmm.{Pmm, lock_pages, request_pages}
use h0r_net.Mm.Heap.{Heap, malloc}
use h0r_net.Tar.{parse_tar, parse_size, find_file, TarContents, pointers}
use h0r_net.Tar.Sizes.{octal}
use h0r_net.Tar.Walk.{parse_tar-ends}
use h0r_net.Tar.Walk.Archive.{HasSize, Archive, parse_tar-Archive}
use h0r_net.Tests.Mm.{pmm}

abbrev pub archive : Mem
archive = λ a.
    if a == 0
    then 1
    else if a == 100 || a == 20480
    then 97
    else if leb 20604 a && ltb a 20614
    then 48
    else if a == 20614
    then 53
    else 0

abbrev pub heap : Heap
heap = record { pmm = record pmm { memory = archive }; hhdm_off = 2 ^ 47 }

parse_tar-ends_example : parse_tar 5 heap 20480 2048 ≢ out_of_fuel
parse_tar-ends_example = parse_tar-ends 4 heap 20480 2048 (omega arith) (omega arith)

-- The heap with the vector's block.
abbrev pub one_locked : Pmm
one_locked = (lock_pages 4096 1 heap.pmm).1

abbrev with_vector : Heap
with_vector = record {
  pmm = record one_locked { memory = store_le 8 one_locked.memory 4096 500 };
  hhdm_off = 2 ^ 47;
}

made : malloc 500 heap ≡ ok (2 ^ 47 + 4104, with_vector)
unfolding malloc request_pages bitmap_get bitmap_set
made = refl

archive-IsBytes : IsBytes archive
archive-IsBytes a = ground arith

with_vector-IsBytes : IsBytes with_vector.pmm.memory
unfolding lock_pages bitmap_set bitmap_get
with_vector-IsBytes =
    store_le-IsBytes 8 (store8 archive 0 3) 4096 500
      (store8-IsBytes archive 0 3 archive-IsBytes (omega arith))

five : HasSize with_vector.pmm.memory 20480 5
unfolding octal store_le store8 lock_pages bitmap_set bitmap_get
five = record { digits = λ i lt. ground arith; value = refl; small = omega arith }

one_file : Archive with_vector.pmm.memory 22528 20480 (5 ∷ [])
unfolding octal store_le store8 lock_pages bitmap_set bitmap_get h0r_net.Tar.Walk.Archive.behind
one_file = (λ e. absurd (omega (arith, e)), omega arith, five, inl refl)

parse_tar-Archive_example :
    (h' : Heap) × (parse_tar 5 heap 20480 2048
      ≡ ok (record { hdr_num = 1; headers = 2 ^ 47 + 4104 }, h'))
    × (pointers h'.pmm.memory (2 ^ 47) (2 ^ 47 + 4104) 1 ≡ 20480 ∷ [])
    × ((a : ℕ) → in_area 4104 8 a ≡ false → h'.pmm.memory a ≡ with_vector.pmm.memory a)
unfolding h0r_net.Tar.Walk.Archive.headers_from
parse_tar-Archive_example =
    parse_tar-Archive 5 heap with_vector 20480 2048 (2 ^ 47 + 4104) (5 ∷ []) made
      with_vector-IsBytes
      (record {
        archive_room = omega arith;
        reached = omega arith;
        word = omega arith;
        apart = inl (omega arith);
      })
      one_file (omega arith) (omega arith)
