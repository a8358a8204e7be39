-- ===== src/Arch/Pager/Fill/Copies.antt =====
-- arch/x86_64/pager.c, `vmm_create_pagemap`: what it leaves outside the new page map.
use h0r_net.Common.{
  ℕ, zero, suc, ◌+◌, ◌*◌, ◌≤◌, ◌<◌, ◌≡◌, refl, true, false, ◌==◌, if◌then◌else◌, arith, ◌∙◌, ok,
  u64,
}
use h0r_net.Libk.Bitmap.{Bitmap}
use h0r_net.Libk.Memory.Laws.{in_area, memset-get, memset-IsBytes}
use h0r_net.Mm.Pmm.{page_size}
use h0r_net.Mm.Pmm.Pages.{locked, in_buffer}
use h0r_net.Mm.Pmm.Requests.{request_pages-MarkedRange}
use h0r_net.Mm.Heap.{Heap}
use h0r_net.Arch.Pager.{load_entry, store_entry, copy_entries, vmm_create_pagemap}
use h0r_net.Arch.Pager.Fresh.{Fresh, taken, with_table, new_table-Fresh}
use h0r_net.Arch.Pager.Create.{CanCreate, vmm_create_pagemap-halves}
use h0r_net.Arch.Pager.Fill.{table, TablePage, locked_frame}
use h0r_net.Arch.Pager.Fill.Maps.{Paged}
use h0r_net.Arch.Pager.Fill.Translates.{store_entry-Paged, store_entry-locked}

with_table-locked :
    {h : Heap} {i : ℕ} (g : Fresh h i) (j : ℕ)
    → TablePage h.hhdm_off h.pmm.page_bmp i
    → j ≤ h.pmm.page_bmp.size * 8
    → locked (with_table g).pmm j ≡ (if i == j then true else locked h.pmm j)
with_table-locked {h} {i} g j r le =
    let m = (request_pages-MarkedRange g.ready).2 in
    locked_frame (taken g) (with_table g).pmm j refl
      (λ a inside.
        let bitmap : in_buffer h.pmm.page_bmp a ≡ true = rw (← m.same_bmp) inside in
        let out : in_area (i * page_size) page_size a ≡ false = ground (arith, r.clear a, bitmap) in
        memset-get (taken g).memory (i * page_size) 0 page_size a ∙ rw out refl)
      (rw m.same_bmp le)
    ∙ m.bits j
    ∙ ground arith

with_table-Paged :
    {h : Heap} {i : ℕ} (g : Fresh h i) → Paged h.hhdm_off h.pmm.page_bmp (with_table g)
with_table-Paged {h} {i} g =
    let m = (request_pages-MarkedRange g.ready).2 in
    record {
      same_off = refl;
      same_bmp = m.same_bmp;
      bytes = memset-IsBytes (taken g).memory (i * page_size) 0 page_size m.bytes;
    }

module _ {off : ℕ} {bm : Bitmap} (t from : ℕ) (r : TablePage off bm t) where
  copy_entries-Paged :
      (i left : ℕ) (h : Heap)
      → Paged off bm h
      → i + left ≤ 512
      → Paged off bm (copy_entries (table off t) from i left h)
        × ((j : ℕ)
            → j ≤ bm.size * 8
            → locked (copy_entries (table off t) from i left h).pmm j ≡ locked h.pmm j)
  unfolding copy_entries
  copy_entries-Paged i zero h p room = (p, λ j le. refl)
  copy_entries-Paged i (suc left) h p room =
      let (p', same) =
        copy_entries-Paged (i + 1) left (store_entry (table off t) i (load_entry h from i) h)
          (store_entry-Paged (table off t) i (load_entry h from i) p) (omega arith) in
      (p', λ j le. same j le ∙ store_entry-locked t i (load_entry h from i) j p r (omega arith) le)

-- A new page map changes one bit of the page bitmap, its own.
pub record Created (h h' : Heap) (i pagemap : ℕ) : Type 0 where
  pub paged : Paged h.hhdm_off h.pmm.page_bmp h'
  pub bits :
      (j : ℕ)
      → j ≤ h.pmm.page_bmp.size * 8
      → locked h'.pmm j ≡ (if i == j then true else locked h.pmm j)
  pub lower : (j : ℕ) → j < 256 → load_entry h' (table h.hhdm_off i) j ≡ 0
  pub upper :
      (j : ℕ)
      → 256 ≤ j
      → j < 512
      → load_entry h' (table h.hhdm_off i) j ≡ load_entry h (h.hhdm_off + pagemap) j

module _ {h : Heap} {i pagemap : ℕ} (c : CanCreate h i pagemap)
    (r : TablePage h.hhdm_off h.pmm.page_bmp i) where
  abbrev copies : Heap
  copies =
      copy_entries (table h.hhdm_off i) (u64 (pagemap + h.hhdm_off)) 256 256 (with_table c.fresh)

  create-copies : vmm_create_pagemap pagemap h ≡ ok (table h.hhdm_off i, copies)
  unfolding vmm_create_pagemap
  create-copies = rw (new_table-Fresh c.fresh) refl

  pub vmm_create_pagemap-Created :
      (h' : Heap) × (vmm_create_pagemap pagemap h ≡ ok (table h.hhdm_off i, h'))
      × Created h h' i pagemap
  vmm_create_pagemap-Created =
      let (h', runs, lower, upper) = vmm_create_pagemap-halves c in
      let same : copies ≡ h' = cc create-copies in
      let (paged, bits) =
        copy_entries-Paged i (u64 (pagemap + h.hhdm_off)) r 256 256 (with_table c.fresh)
          (with_table-Paged c.fresh) (omega arith) in
      (
        h',
        runs,
        record {
          paged = rw (← same) paged;
          bits = rw (← same) (λ j le. bits j le ∙ with_table-locked c.fresh j r le);
          lower = lower;
          upper = upper;
        },
      )
