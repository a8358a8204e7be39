-- ===== src/Tar.antt =====
-- libk/tar.c and drivers/filesys/tar.c: the archive that the bootloader hands over, and the driver
-- that reads and writes its files in place. A header is known by its physical address; the vector holds
-- the pointers to them, which lead through the mapping of physical memory.
pub mod Sizes
pub mod Walk
pub mod Lookup
pub mod Driver
use h0r_net.Common.{
  ℕ, zero, suc, ◌+◌, ◌-◌, ◌*◌, ◌/◌, ◌%◌, Bool, true, false, List, [], ◌∷◌, ◌++◌, none, some, Option,
  ltb, leb, ◌==◌, ◌||◌, if◌then◌else◌, u8, u32, u64, sub64, sub32, Mem, Outcome, ok, fault,
  out_of_fuel, ◌>>=◌, length,
}
use h0r_net.Libk.Memory.{Sign, memcpy, same, plus, minus}
use h0r_net.Libk.Text.{strcmp}
use h0r_net.Libk.Vector.{Vector, vector_init, vector_push_back}
use h0r_net.Mm.Heap.{Heap, phys}
use h0r_net.Common.LittleEndian.{load_le}

-- The offsets of the fields of `struct tar_header`.
abbrev pub uid_field : ℕ
uid_field = 108

abbrev pub gid_field : ℕ
gid_field = 116

abbrev pub size_field : ℕ
size_field = 124

abbrev pub mtime_field : ℕ
mtime_field = 136

abbrev pub typeflag_field : ℕ
typeflag_field = 156

-- The loop of `parse_size`, over the digits before `j`.
pub size_loop : Mem → ℕ → ℕ → ℕ → ℕ → ℕ
size_loop m input zero count size = size
size_loop m input (suc j) count size =
    size_loop m input j (u32 (count * 8)) (u32 (size + u32 (sub32 (m (input + j)) 48 * count)))

unfoldable pub parse_size : Mem → ℕ → ℕ
unfolding size_loop
parse_size m input = size_loop m input 11 1 0

-- `headers` points to the array of the vector.
pub record TarContents : Type 0 where
  pub hdr_num : ℕ
  pub headers : ℕ

-- The header behind one whose file has `size` bytes.
unfoldable pub next_header : ℕ → ℕ → ℕ
next_header header size =
    let behind = u64 (header + (size / 512 + 1) * 512) in
    if size % 512 == 0 then behind else u64 (behind + 512)

-- The loop of `parse_tar`: `i` headers are counted, and the vector holds the pointers to them.
pub tar_loop : ℕ → ℕ → ℕ → ℕ → ℕ → Vector → Heap → Outcome (TarContents × Heap)
tar_loop zero start file_size header i v h = out_of_fuel
tar_loop (suc f) start file_size header i v h =
    let m = h.pmm.memory in
    let size = parse_size m (header + size_field) in
    let rest = vector_push_back (u64 (header + h.hhdm_off)) v h >>= λ r.
    tar_loop f start file_size (next_header header size) (u32 (i + 1)) r.0 r.1 in
    if m header == 0 || leb file_size (sub64 header start)
    then ok (record { hdr_num = u8 i; headers = v.block }, h)
    else rest

unfoldable pub parse_tar : ℕ → Heap → ℕ → ℕ → Outcome (TarContents × Heap)
unfolding tar_loop
parse_tar f h header file_size = do
  (v, h') ← vector_init h
  tar_loop f header file_size header 0 v h'

-- The first `n` pointers of an array, as physical addresses.
pub pointers : Mem → ℕ → ℕ → ℕ → List ℕ
pointers m off block zero = []
pointers m off block (suc n) =
    phys off (load_le 8 m (phys off block)) ∷ pointers m off (u64 (block + 8)) n

-- What a comparison in `find_file` leads to.
abbrev pub compared : Option Sign → ℕ → Outcome ℕ → Outcome ℕ
compared none header rest = out_of_fuel
compared (some same) header rest = ok header
compared (some plus) header rest = rest
compared (some minus) header rest = rest

-- The loop of `find_file` over the `left` headers that are left; 0 is the null pointer.
pub find_loop : ℕ → Mem → ℕ → ℕ → List ℕ → Outcome ℕ
find_loop f m name zero headers = ok 0
find_loop f m name (suc left) [] = fault
find_loop f m name (suc left) (header ∷ headers) =
    let rest = find_loop f m name left headers in compared (strcmp f m header name) header rest

unfoldable pub find_file : ℕ → Mem → ℕ → TarContents → ℕ → Outcome ℕ
unfolding find_loop pointers
find_file f m off contents name =
    find_loop f m name contents.hdr_num (pointers m off contents.headers contents.hdr_num)

-- What both directions copy at most: the offset does not count.
unfoldable pub copied_size : Mem → ℕ → ℕ → ℕ
copied_size m header size =
    let file_size = parse_size m (header + size_field) in
    if ltb file_size size then file_size else size

unfoldable pub tar_read : ℕ → ℕ → TarContents → ℕ → ℕ → ℕ → ℕ → Mem → Outcome Mem
unfolding find_file copied_size
tar_read f off contents path offset buffer size m = do
  header ← find_file f m off contents path
  ok (memcpy m buffer (header + 512 + offset) (copied_size m header size))

unfoldable pub tar_write : ℕ → ℕ → TarContents → ℕ → ℕ → ℕ → ℕ → Mem → Outcome Mem
unfolding find_file copied_size
tar_write f off contents path offset buffer size m = do
  header ← find_file f m off contents path
  ok (memcpy m (header + 512 + offset) buffer (copied_size m header size))
