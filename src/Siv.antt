-- ===== src/Siv.antt =====
-- core/sys/resman/SIV.c: drives, their drivers and the open files. A driver's functions are a
-- record of operations, which a drive calls with its own data.
pub mod Files
use h0r_net.Common.{
  ℕ, ◌+◌, ◌-◌, ◌^◌, Bool, true, false, not, ◌&&◌, ◌||◌, List, none, some, ◌==◌, ◌!=◌, if◌then◌else◌,
  bit_and, u16, u32, u64, Outcome, ok, fault, ◌>>=◌, at_index, get_elem?, set, map,
}
use h0r_net.Libk.Memory.{memcpy}
use h0r_net.Mm.Heap.{Heap, malloc, free, phys, with_memory}

pub record File : Type 0 where
  pub drive_id : ℕ
  pub name : ℕ
  pub full_path : ℕ
  pub size : ℕ
  pub isdir : Bool
  pub created : ℕ
  pub last_modified : ℕ
  pub last_accessed : ℕ
  pub owner_id : ℕ
  pub group_id : ℕ
  pub perms : ℕ

-- `(file_t){0}`
abbrev pub no_file : File
no_file = record {
  drive_id = 0;
  name = 0;
  full_path = 0;
  size = 0;
  isdir = false;
  created = 0;
  last_modified = 0;
  last_accessed = 0;
  owner_id = 0;
  group_id = 0;
  perms = 0;
}

-- The operations of `block_driver_t` that SIV.c calls; the first argument is the data of the drive.
pub record BlockDriver : Type 0 where
  pub is_virtual : Bool
  pub get_props : ℕ → ℕ → Heap → Outcome File
  pub read : (own path offset buffer size : ℕ) → Heap → Outcome Heap
  pub write : (own path offset buffer size : ℕ) → Heap → Outcome Heap

pub record Drive : Type 0 where
  pub driver_id : ℕ
  pub driver_specific_data : ℕ

pub record Siv : Type 0 where
  pub drives : List Drive
  pub num_drives : ℕ
  pub drivers : List BlockDriver
  pub num_drivers : ℕ
  pub open_files : List File
  pub open_file_contents : List ℕ
  pub num_open_files : ℕ
  pub heap : Heap

-- A drive of zero bytes, and a driver of null pointers.
abbrev pub no_drive : Drive
no_drive = record { driver_id = 0; driver_specific_data = 0 }

abbrev pub no_driver : BlockDriver
no_driver = record {
  is_virtual = false;
  get_props = λ own path h. fault;
  read = λ own path offset buffer size h. fault;
  write = λ own path offset buffer size h. fault;
}

unfoldable pub siv_init : Siv → Siv
siv_init s = record s {
  drives = map (λ d. no_drive) s.drives;
  drivers = map (λ d. no_driver) s.drivers;
}

-- `xs[i] = x`
abbrev pub store_at {ℓ} : {A : Type ℓ} → List A → ℕ → A → Outcome (List A)
store_at xs i x = at_index (get_elem? xs i) >>= λ old. ok (set xs i x)

unfoldable pub siv_register_drive : Drive → Siv → Outcome (ℕ × Siv)
siv_register_drive drive s = do
  drives ← store_at s.drives s.num_drives drive
  ok (s.num_drives, record s { drives = drives; num_drives = u16 (s.num_drives + 1) })

unfoldable pub siv_register_driver : BlockDriver → Siv → Outcome (ℕ × Siv)
siv_register_driver driver s = do
  drivers ← store_at s.drivers s.num_drivers driver
  ok (s.num_drivers, record s { drivers = drivers; num_drivers = u16 (s.num_drivers + 1) })

-- SIV_FLAGS_CACHE and SIV_FLAGS_FORCE_PRELOAD
abbrev pub preloads : BlockDriver → ℕ → Bool
preloads driver flags = (not driver.is_virtual && bit_and flags 1 != 0) || bit_and flags 2 != 0

-- The file is read into memory as a whole.
unfoldable pub preload : BlockDriver → Drive → ℕ → ℕ → ℕ → Siv → Outcome Siv
preload driver drive path size fd s = do
  (contents, h) ← malloc size s.heap
  pointers ← store_at s.open_file_contents fd contents
  h' ← driver.read drive.driver_specific_data path 0 contents (u32 size) h
  ok (record s { open_file_contents = pointers; heap = h' })

-- UINT32_MAX
abbrev pub no_fd : ℕ
no_fd = 2 ^ 32 - 1

-- The descriptor is taken before anything is known of the file.
unfoldable pub siv_open : ℕ → ℕ → ℕ → Siv → Outcome (ℕ × Siv)
unfolding preload
siv_open drive_id path flags s = do
  drive ← at_index (get_elem? s.drives drive_id)
  driver ← at_index (get_elem? s.drivers drive.driver_id)
  let fd = s.num_open_files
  file ← driver.get_props drive.driver_specific_data path s.heap
  files ← store_at s.open_files fd file
  let opened : Siv = record s { open_files = files; num_open_files = u32 (fd + 1) }
  let preloaded = preload driver drive path file.size fd opened >>= λ s'. ok (fd, s')
  (if (file.size == 0 && file.full_path == 0) || file.isdir
      then ok (no_fd, record opened { open_files = set files fd no_file })
      else if preloads driver flags
      then preloaded
      else ok (fd, opened))

unfoldable pub siv_close : ℕ → Siv → Outcome Siv
siv_close fd s = do
  contents ← at_index (get_elem? s.open_file_contents fd)
  let s' =
      if contents != 0
      then record s {
        heap = free contents s.heap;
        open_file_contents = set s.open_file_contents fd 0;
      }
      else s
  files ← store_at s.open_files fd no_file
  ok (record s' { open_files = files })

unfoldable pub siv_get_file : ℕ → Siv → Outcome File
siv_get_file fd s = at_index (get_elem? s.open_files fd)

-- A pointer into the kernel's memory is read through the two mappings of physical memory.
unfoldable pub siv_read : ℕ → ℕ → ℕ → ℕ → Siv → Outcome Siv
siv_read fd offset buffer size s = do
  contents ← at_index (get_elem? s.open_file_contents fd)
  let off = s.heap.hhdm_off
  let copied = memcpy s.heap.pmm.memory (phys off buffer) (phys off (u64 (contents + offset))) size
  (if contents != 0 then ok (record s { heap = with_memory s.heap copied }) else (do
    file ← at_index (get_elem? s.open_files fd)
    drive ← at_index (get_elem? s.drives file.drive_id)
    driver ← at_index (get_elem? s.drivers drive.driver_id)
    h ← driver.read drive.driver_specific_data file.full_path offset buffer size s.heap
    ok (record s { heap = h })))

unfoldable pub siv_write : ℕ → ℕ → ℕ → ℕ → Siv → Outcome Siv
siv_write fd offset buffer size s = do
  file ← at_index (get_elem? s.open_files fd)
  drive ← at_index (get_elem? s.drives file.drive_id)
  driver ← at_index (get_elem? s.drivers drive.driver_id)
  h ← driver.write drive.driver_specific_data file.full_path offset buffer size s.heap
  ok (record s { heap = h })
