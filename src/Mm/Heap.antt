-- ===== src/Mm/Heap.antt =====
-- core/mm/heap.c: `malloc` and its kin. A block is a run of whole pages, and its size stands in the
-- eight bytes before the address that the caller gets.
-- A pointer is read through the bootloader's page tables, which map the physical memory at 0 and at
-- `hhdm_off` (PHYS_TO_VIRT and VIRT_TO_PHYS of core/mm/mem.h).
pub mod Blocks
pub mod Frees
use h0r_net.Common.{
  ℕ, ◌+◌, ◌-◌, ◌*◌, ◌/◌, Bool, true, false, leb, ltb, ◌==◌, if◌then◌else◌, u64, sub64, Mem, Outcome,
  ok, ◌>>=◌,
}
use h0r_net.Common.LittleEndian.{load_le, store_le}
use h0r_net.Libk.Memory.{memcpy, memset}
use h0r_net.Mm.Pmm.{Pmm, page_size, request_pages, free_pages}

pub record Heap : Type 0 where
  pub pmm : Pmm
  pub hhdm_off : ℕ

-- The physical address that an access through a pointer reaches.
abbrev pub phys : ℕ → ℕ → ℕ
phys off v = if leb off v then v - off else v

abbrev pub with_memory : Heap → Mem → Heap
with_memory h m = record h { pmm = record (h.pmm) { memory = m } }

-- sizeof(usize)
abbrev pub header_size : ℕ
header_size = 8

abbrev pub pages_for : ℕ → ℕ
pages_for size = size / page_size + 1

unfoldable pub malloc : ℕ → Heap → Outcome (ℕ × Heap)
malloc size h = do
  (pages, p) ← request_pages (pages_for size) h.pmm
  let pp = u64 (pages + h.hhdm_off)
  ok (
    u64 (pp + header_size),
    record h { pmm = record p { memory = store_le 8 p.memory (phys h.hhdm_off pp) size } },
  )

-- The size that stands before a block.
unfoldable pub size_of : Heap → ℕ → ℕ
size_of h block = load_le 8 h.pmm.memory (phys h.hhdm_off (sub64 block header_size))

-- The result of `free_pages` is not looked at.
unfoldable pub free : ℕ → Heap → Heap
free tofree h =
    if tofree == 0
    then h
    else let pp = sub64 tofree header_size in
      let size = size_of h tofree in
      record h { pmm = (free_pages (sub64 pp h.hhdm_off) (pages_for size) h.pmm).1 }

unfoldable pub calloc : ℕ → ℕ → Heap → Outcome (ℕ × Heap)
calloc count size h = do
  let total = u64 (count * size)
  (block, h') ← malloc total h
  ok (block, with_memory h' (memset h'.pmm.memory (phys h'.hhdm_off block) 0 total))

-- Both reallocations: `keep` bytes are copied from the block that has just been freed.
unfoldable pub move_block : ℕ → ℕ → ℕ → Heap → Outcome (ℕ × Heap)
move_block old size keep h = do
  (block, h') ← malloc size (free old h)
  ok (
    block,
    with_memory h' (memcpy h'.pmm.memory (phys h'.hhdm_off block) (phys h'.hhdm_off old) keep),
  )

-- The old size is read from the block, before any test for NULL.
unfoldable pub realloc : ℕ → ℕ → Heap → Outcome (ℕ × Heap)
realloc old size h =
    move_block old size (if ltb (size_of h old) size then size_of h old else size) h

unfoldable pub realloc_plus : ℕ → ℕ → ℕ → Heap → Outcome (ℕ × Heap)
realloc_plus old size oldsize h = move_block old size (if ltb oldsize size then oldsize else size) h
