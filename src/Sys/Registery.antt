-- ===== src/Sys/Registery.antt =====
-- core/sys/resman/registery.c: the hives of the registry. `read_hive` gets the file's bytes through
-- the file layer into a block of its own; a name is compared by `strcmp` of libk on fuel.
pub mod Search
use h0r_net.Common.{
  ℕ, zero, suc, ◌+◌, ◌*◌, ◌^◌, none, some, Option, ◌==◌, ◌||◌, if◌then◌else◌, Mem, Outcome, ok,
  out_of_fuel, ◌>>=◌, u64, u32,
}
use h0r_net.Common.LittleEndian.{load_le}
use h0r_net.Libk.Memory.{Sign, same, plus, minus}
use h0r_net.Libk.Text.{strcmp}
use h0r_net.Mm.Heap.{malloc, free, phys}
use h0r_net.Siv.{Siv, no_fd, siv_open, siv_get_file, siv_read, siv_close}

-- HIVE_MAGIC and KEY_MAGIC
abbrev pub hive_magic : ℕ
hive_magic = 0xB16B00B5

abbrev pub key_magic : ℕ
key_magic = 0x69420666

-- The sizes of `hive_header`, `key_header` and `entry_header`, which are packed.
abbrev pub hive_header_size : ℕ
hive_header_size = 73

abbrev pub key_header_size : ℕ
key_header_size = 76

abbrev pub entry_header_size : ℕ
entry_header_size = 66

-- A four-byte field in big-endian order, as `be32toh` of the loaded word gives it.
abbrev pub load_be32 : Mem → ℕ → ℕ
load_be32 m a = m a * 2 ^ 24 + m (a + 1) * 2 ^ 16 + m (a + 2) * 2 ^ 8 + m (a + 3)

-- The block has the size of the header, and the read asks for the size of the file.
unfoldable pub read_hive : ℕ → Siv → Outcome (ℕ × Siv)
read_hive path s = do
  (fd, s1) ← siv_open 0 path 0 s
  let rest = (do
    file ← siv_get_file fd s1
    (hive, h) ← malloc hive_header_size s1.heap
    s2 ← siv_read fd 0 hive (u32 file.size) (record s1 { heap = h })
    s3 ← siv_close fd s2
    (if load_be32 s3.heap.pmm.memory (phys s3.heap.hhdm_off hive) == hive_magic
        then ok (hive, s3)
        else ok (0, record s3 { heap = free hive s3.heap })))
  (if fd == no_fd then ok (0, s1) else rest)

unfoldable pub free_hive : ℕ → Siv → Siv
free_hive hive s = record s { heap = free hive s.heap }

-- What a comparison of names leads to.
abbrev pub name_found : Option Sign → ℕ → Outcome ℕ → Outcome ℕ
name_found none item rest = out_of_fuel
name_found (some same) item rest = ok item
name_found (some plus) item rest = rest
name_found (some minus) item rest = rest

-- The loop of `read_key`: `pointer` never moves.
pub key_loop : ℕ → Mem → ℕ → ℕ → ℕ → Outcome ℕ
key_loop f m path zero pointer = ok 0
key_loop f m path (suc left) pointer =
    let rest = key_loop f m path left pointer in
    if load_le 4 m pointer == key_magic
    then name_found (strcmp f m (pointer + 12) path) pointer rest
    else ok 0

unfoldable pub read_key : ℕ → Mem → ℕ → ℕ → Outcome ℕ
unfolding key_loop
read_key f m hive path =
    if hive == 0 || path == 0
    then ok 0
    else key_loop f m path (load_be32 m (hive + 4)) (hive + hive_header_size)

-- The step to the next entry: `be32toh` of the byte `length` moves it to the top of the word.
pub entry_loop : ℕ → Mem → ℕ → ℕ → ℕ → Outcome ℕ
entry_loop f m name zero entry = ok 0
entry_loop f m name (suc left) entry =
    let next = u64 (entry + entry_header_size + m (entry + 65) * 2 ^ 24) in
    let rest = entry_loop f m name left next in name_found (strcmp f m entry name) entry rest

unfoldable pub read_entry : ℕ → Mem → ℕ → ℕ → Outcome ℕ
unfolding entry_loop
read_entry f m key name =
    if key == 0 || name == 0
    then ok 0
    else entry_loop f m name (load_be32 m (key + 4)) (key + key_header_size)
