-- ===== src/Mm/Heap/Blocks.antt =====
-- core/mm/heap.c, `malloc`: where the block lies, what stands before it, and how much room it has.
use h0r_net.Common.{
  ℕ, ◌+◌, ◌-◌, ◌*◌, ◌/◌, ◌%◌, ◌^◌, ◌≤◌, ◌<◌, ◌≡◌, ◌↔◌, refl, true, false, if◌then◌else◌, u64, sub64,
  Mem, IsBytes, ok, arith, ◌∙◌,
}
use h0r_net.Common.LittleEndian.{store_le, store_le_frame, store_le-IsBytes, load_le-store_le}
use h0r_net.Libk.Bitmap.{Bitmap, is_set, bitmap_get}
use h0r_net.Libk.Memory.Laws.{in_area}
use h0r_net.Mm.Pmm.{Pmm, page_size}
use h0r_net.Mm.Pmm.Pages.{locked, in_buffer}
use h0r_net.Mm.Pmm.Ranges.{MarkedRange}
use h0r_net.Mm.Pmm.Requests.{Ready, request_pages-MarkedRange}
use h0r_net.Mm.Heap.{Heap, phys, header_size, pages_for, malloc, size_of}

-- The pointer to the block on the pages from `i`.
abbrev pub block_at : ℕ → ℕ → ℕ
block_at off i = off + (i * page_size + header_size)

-- The pages from `i` on can be reached through the higher half, and hold no part of the bitmap.
pub record Reachable (h : Heap) (i num : ℕ) : Type 0 where
  pub mapped : h.hhdm_off + (i + num) * page_size ≤ 2 ^ 64
  pub clear :
      (a : ℕ)
      → in_area (i * page_size) (num * page_size) a ≡ true
      → in_buffer h.pmm.page_bmp a ≡ false

-- `h'` is `h` with a block of `size` bytes on the pages from `i`.
pub record Allocated (h h' : Heap) (i size : ℕ) : Type 0 where
  pub same_off : h'.hhdm_off ≡ h.hhdm_off
  pub same_bmp : h'.pmm.page_bmp ≡ h.pmm.page_bmp
  pub bytes : IsBytes h'.pmm.memory
  pub header : size_of h' (block_at h.hhdm_off i) ≡ size
  pub bits :
      (j : ℕ)
      → j ≤ h.pmm.page_bmp.size * 8
      → locked h'.pmm j ≡ (if in_area i (pages_for size) j then true else locked h.pmm j)
  pub frame :
      (a : ℕ)
      → in_buffer h.pmm.page_bmp a ≡ false
      → in_area (i * page_size) header_size a ≡ false
      → h'.pmm.memory a ≡ h.pmm.memory a

-- A bit depends on the buffer's bytes alone.
pub is_set_frame :
    (m m' : Mem) (bm : Bitmap) (j : ℕ)
    → j ≤ bm.size * 8
    → ((a : ℕ) → in_buffer bm a ≡ true → m' a ≡ m a)
    → is_set m' bm j ≡ is_set m bm j
unfolding bitmap_get
is_set_frame m m' bm j inside same = rw (same (bm.buffer + j / 8) (ground arith))

module _ (h : Heap) (i size : ℕ) (r : Ready h.pmm i (pages_for size))
    (g : Reachable h i (pages_for size)) (word : size < 2 ^ 64) where
  header_at : phys h.hhdm_off (u64 (i * page_size + h.hhdm_off)) ≡ i * page_size
  header_at = ground (arith, g.mapped)

  block_word : u64 (u64 (i * page_size + h.hhdm_off) + header_size) ≡ block_at h.hhdm_off i
  block_word = ground (arith, g.mapped)

  header_back : phys h.hhdm_off (sub64 (block_at h.hhdm_off i) header_size) ≡ i * page_size
  header_back = ground (arith, g.mapped)

  abbrev with_header : Pmm → Heap
  with_header p = record h { pmm = record p { memory = store_le 8 p.memory (i * page_size) size } }

  header_lem : (p : Pmm) → size_of (with_header p) (block_at h.hhdm_off i) ≡ size
  unfolding size_of
  header_lem p = rw header_back (load_le-store_le 8 p.memory (i * page_size) size word)

  header_clear :
      (a : ℕ) → in_buffer h.pmm.page_bmp a ≡ true → in_area (i * page_size) header_size a ≡ false
  header_clear a inside = ground (arith, g.clear a)

  bits_lem :
      (p : Pmm) (j : ℕ)
      → MarkedRange h.pmm p i (pages_for size) true
      → j ≤ h.pmm.page_bmp.size * 8
      → locked (with_header p).pmm j
        ≡ (if in_area i (pages_for size) j then true else locked h.pmm j)
  bits_lem p j m inside =
      is_set_frame p.memory _ p.page_bmp j (rw m.same_bmp inside) (λ a there.
        store_le_frame 8 p.memory (i * page_size) size a (header_clear a (rw m.same_bmp at there)))
      ∙ m.bits j

  -- `malloc` returns the address eight bytes into the first free page, with the size before it; the
  -- pages that it counts for the size are locked.
  pub malloc-Allocated :
      (h' : Heap) × (malloc size h ≡ ok (block_at h.hhdm_off i, h')) × Allocated h h' i size
  unfolding malloc
  malloc-Allocated =
      let (p, e, m) = request_pages-MarkedRange r in
      (
        with_header p,
        rw (e, header_at, block_word),
        record {
          same_off = refl;
          same_bmp = m.same_bmp;
          bytes = store_le-IsBytes 8 p.memory (i * page_size) size m.bytes;
          header = header_lem p;
          bits = λ j inside. bits_lem p j m inside;
          frame =
              λ a out apart. store_le_frame 8 p.memory (i * page_size) size a apart ∙ m.frame a out;
        },
      )

-- The pages that `malloc` locks hold the block exactly when the size leaves eight bytes of its last
-- page; otherwise the last bytes of the block lie in a page that is not its own.
pub malloc_room_iff :
    (h : Heap) (i size : ℕ) (block : ℕ) (h' : Heap)
    → Ready h.pmm i (pages_for size)
    → Reachable h i (pages_for size)
    → size < 2 ^ 64
    → malloc size h ≡ ok (block, h')
    → (block + size ≤ h.hhdm_off + (i + pages_for size) * page_size)
      ↔ (size % page_size ≤ page_size - header_size)
malloc_room_iff h i size block h' r g word e =
    let (_, made, _) = malloc-Allocated h i size r g word in
    let address : block ≡ block_at h.hhdm_off i = cc in (λ fits. omega arith, λ small. omega arith)
