-- ===== src/Mm/Heap/Frees.antt =====
-- core/mm/heap.c, `free` and `realloc`: a live block gives its pages back, and a reallocated one
-- keeps its bytes.
use h0r_net.Libk.Memory.Laws.{in_area, memcpy-get}
use h0r_net.Mm.Pmm.Pages.{in_buffer, locked}
use h0r_net.Mm.Pmm.Requests.{Ready}
use h0r_net.Common.{
  sym, ltb, if◌then◌else◌, ◌∙◌, ap, ◌^◌, ◌+◌, ◌<◌, ok, ℕ, ◌-◌, ◌*◌, ◌/◌, ◌%◌, ◌≤◌, ◌≡◌, refl, false,
  ◌==◌, sub64, IsBytes, arith,
}
use h0r_net.Mm.Pmm.{page_size}
use h0r_net.Mm.Pmm.Ranges.{MarkedRange, Covered, free_pages-MarkedRange}
use h0r_net.Mm.Heap.{
  realloc, phys, memcpy, with_memory, realloc_plus, malloc, move_block, Heap, header_size,
  pages_for, free, size_of,
}
use h0r_net.Mm.Heap.Blocks.{malloc-Allocated, Allocated, block_at, Reachable}

-- A block of `size` bytes whose pages begin at page `o`.
pub record Live (h : Heap) (o size : ℕ) : Type 0 where
  pub bytes : IsBytes h.pmm.memory
  pub header : size_of h (block_at h.hhdm_off o) ≡ size
  pub covered : Covered h.pmm (o * page_size) (pages_for size)
  pub reachable : Reachable h o (pages_for size)

module _ (h : Heap) (o size : ℕ) (l : Live h o size) where
  free_address : sub64 (sub64 (block_at h.hhdm_off o) header_size) h.hhdm_off ≡ o * page_size
  free_address = ground (arith, l.reachable.mapped)

  -- `free` of a live block unlocks exactly the pages that its size counts, and writes nothing but
  -- the bitmap.
  pub free-MarkedRange :
      ((free (block_at h.hhdm_off o) h).hhdm_off ≡ h.hhdm_off)
      × MarkedRange h.pmm (free (block_at h.hhdm_off o) h).pmm o (pages_for size) false
  unfolding free
  free-MarkedRange =
      let some_block : (block_at h.hhdm_off o == 0) ≡ false = ground arith in
      let index : o * page_size / page_size ≡ o = omega arith in
      rw (some_block, l.header, free_address)
        (
          refl,
          (rw index at
              (free_pages-MarkedRange (o * page_size) (pages_for size) h.pmm l.bytes l.covered)).1,
        )

-- `free(NULL)` does nothing.
free_null : (h : Heap) → free 0 h ≡ h
unfolding free
free_null h = refl

-- What `malloc` returns is a live block.
Allocated-Live :
    (h h' : Heap) (i size : ℕ)
    → Ready h.pmm i (pages_for size)
    → Reachable h i (pages_for size)
    → Allocated h h' i size
    → Live h' i size
Allocated-Live h h' i size r g a = record {
  bytes = a.bytes;
  header = ap (λ off. size_of h' (block_at off i)) a.same_off ∙ a.header;
  covered = record { no_wrap = r.covered.no_wrap; in_bitmap = rw a.same_bmp r.covered.in_bitmap };
  reachable = record {
    mapped = rw a.same_off g.mapped;
    clear = λ b inside. rw a.same_bmp (g.clear b inside);
  };
}

-- A block that is allocated and freed: its pages are free afterwards and no other bit has changed,
-- so a page in use that the block had been given is free as well.
pub free-malloc :
    (h : Heap) (i size : ℕ)
    → Ready h.pmm i (pages_for size)
    → Reachable h i (pages_for size)
    → size < 2 ^ 64
    → (h' : Heap) × (malloc size h ≡ ok (block_at h.hhdm_off i, h'))
      × ((j : ℕ)
          → j ≤ h.pmm.page_bmp.size * 8
          → locked (free (block_at h.hhdm_off i) h').pmm j
            ≡ (if in_area i (pages_for size) j then false else locked h.pmm j))
free-malloc h i size r g word =
    let (h', e, a) = malloc-Allocated h i size r g word in
    let l = Allocated-Live h h' i size r g a in
    let f = (free-MarkedRange h' i size l).1 in
    (
      h',
      e,
      λ j inside.
          ap (λ off. locked (free (block_at off i) h').pmm j) (sym a.same_off)
          ∙ f.bits j
          ∙ ground (arith, a.bits j inside),
    )

-- The setting of a reallocation: a live block that its pages have room for, and free pages for the
-- new one once the old one has been freed.
pub record Movable (h : Heap) (o oldsize i size : ℕ) : Type 0 where
  pub live : Live h o oldsize
  pub room : oldsize % page_size ≤ page_size - header_size
  pub ready : Ready (free (block_at h.hhdm_off o) h).pmm i (pages_for size)
  pub reachable : Reachable (free (block_at h.hhdm_off o) h) i (pages_for size)
  pub word : size < 2 ^ 64

module _ (h : Heap) (o oldsize i size keep : ℕ) (v : Movable h o oldsize i size)
    (bounded : keep ≤ oldsize) where
  abbrev freed : Heap
  freed = free (block_at h.hhdm_off o) h

  -- The new block never lies behind the old one, whose first page has just become free.
  not_behind : i ≤ o
  not_behind =
      let f = (free-MarkedRange h o oldsize v.live).1 in
      ground (arith, f.bits o, v.ready.first.below o)

  abbrev src : ℕ
  src = o * page_size + header_size

  abbrev dst : ℕ
  dst = i * page_size + header_size

  old_clear : (k : ℕ) → k < keep → in_buffer h.pmm.page_bmp (src + k) ≡ false
  old_clear k below = v.live.reachable.clear (src + k) (ground (arith, v.room))

  module _ (h1 : Heap) (a : Allocated freed h1 i size) where
    kept_byte :
        (k : ℕ) → k < keep → memcpy h1.pmm.memory dst src keep (dst + k) ≡ h.pmm.memory (src + k)
    kept_byte k below =
        let f = (free-MarkedRange h o oldsize v.live).1 in
        let outside = old_clear k below in
        memcpy-get h1.pmm.memory dst src keep (dst + k) (ground (arith, not_behind))
        ∙ ground (
          arith,
          a.frame (src + k) (ap (λ b. in_buffer b (src + k)) f.same_bmp ∙ outside)
              (ground (arith, not_behind)),
          f.frame (src + k) outside,
        )

    addresses :
        (phys h1.hhdm_off (block_at freed.hhdm_off i) ≡ dst)
        × (phys h1.hhdm_off (block_at h.hhdm_off o) ≡ src)
    addresses =
        let off = (free-MarkedRange h o oldsize v.live).0 in
        let off1 = a.same_off in (ground arith, ground arith)

  -- The bytes that are to be kept stand at the start of the new block.
  move_block-keeps :
      (h' : Heap) × (move_block (block_at h.hhdm_off o) size keep h
        ≡ ok (block_at h.hhdm_off i, h'))
      × ((k : ℕ) → k < keep → h'.pmm.memory (dst + k) ≡ h.pmm.memory (src + k))
  unfolding move_block
  move_block-keeps =
      let off = (free-MarkedRange h o oldsize v.live).0 in
      let (h1, e, a) = malloc-Allocated freed i size v.ready v.reachable v.word in
      (
        with_memory h1 (memcpy h1.pmm.memory dst src keep),
        rw (e, (addresses h1 a).0, (addresses h1 a).1)
            (ap (λ b. ok (block_at b i, with_memory h1 (memcpy h1.pmm.memory dst src keep))) off),
        kept_byte h1 a,
      )

-- `realloc` of a live block: as many of its bytes as both sizes have stand at the start of the new
-- block, although the old one is freed first and the two may overlap.
pub realloc-keeps :
    (h : Heap) (o oldsize i size : ℕ)
    → Movable h o oldsize i size
    → (h' : Heap) × (realloc (block_at h.hhdm_off o) size h ≡ ok (block_at h.hhdm_off i, h'))
      × ((k : ℕ)
          → k < oldsize
          → k < size
          → h'.pmm.memory (i * page_size + header_size + k)
            ≡ h.pmm.memory (o * page_size + header_size + k))
unfolding realloc
realloc-keeps h o oldsize i size v =
    let smaller = if ltb oldsize size then oldsize else size in
    let (h', e, kept) = move_block-keeps h o oldsize i size smaller v (ground arith) in
    (h', rw v.live.header e, λ k lo hi. kept k (ground arith))

-- `realloc_plus` does the same for the old size that it is told, up to that of the block.
pub realloc_plus-keeps :
    (h : Heap) (o oldsize i size told : ℕ)
    → Movable h o oldsize i size
    → told ≤ oldsize
    → (h' : Heap) × (realloc_plus (block_at h.hhdm_off o) size told h
        ≡ ok (block_at h.hhdm_off i, h'))
      × ((k : ℕ)
          → k < told
          → k < size
          → h'.pmm.memory (i * page_size + header_size + k)
            ≡ h.pmm.memory (o * page_size + header_size + k))
unfolding realloc_plus
realloc_plus-keeps h o oldsize i size told v le =
    let smaller = if ltb told size then told else size in
    let (h', e, kept) = move_block-keeps h o oldsize i size smaller v (ground arith) in
    (h', e, λ k lo hi. kept k (ground arith))
