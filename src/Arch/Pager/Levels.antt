-- ===== src/Arch/Pager/Levels.antt =====
-- arch/x86_64/pager.c: making the table of the next level, and taking a page's mapping away.
use h0r_net.Common.{
  ℕ, ◌+◌, ◌*◌, ◌/◌, ◌%◌, ◌^◌, ◌<◌, ◌≡◌, refl, Bool, true, false, ◌==◌, u64, sub64, arith, ◌∙◌, ap,
  ok, fault,
}
use h0r_net.Common.LittleEndian.{store_le_frame}
use h0r_net.Libk.Memory.Laws.{in_area, memset-get}
use h0r_net.Mm.Pmm.{page_size}
use h0r_net.Mm.Heap.{Heap}
use h0r_net.Arch.Pager.{
  or_flags, transform_flags, get_addr, is_present, load_entry, store_entry, get_next_lvl,
  vmm_unmap_page, pml4_index, is_canonical,
}
use h0r_net.Arch.Pager.Entries.{
  PageAddress, or_flags-transform_flags, or_flags-transform_flags-le, load_entry-store_entry, place,
}
use h0r_net.Arch.Pager.Fresh.{Fresh, new_lvl, taken, with_table, new_table-Fresh}
use h0r_net.Arch.Pager.Walk.{Leads, get_next_lvl-Leads}

-- Entry `index` of a table leads nowhere, and page `i` is the first free one, of an address that an
-- entry can hold and that the higher half reaches.
pub record CanGrow (h : Heap) (lvl index i : ℕ) : Type 0 where
  pub absent : is_present (load_entry h lvl index) ≡ false
  pub fresh : Fresh h i
  pub address : i < 2 ^ 40

module _ {h : Heap} {lvl index i : ℕ} (g : CanGrow h lvl index i) where
  abbrev pub grown : ℕ → Heap
  grown flags = store_entry lvl index (or_flags (i * page_size) flags) (with_table g.fresh)

  pub get_next_lvl-CanGrow :
      (flags : ℕ) → get_next_lvl lvl index flags true h ≡ ok ((new_lvl g.fresh), grown flags)
  unfolding get_next_lvl
  get_next_lvl-CanGrow flags =
      let back : sub64 (new_lvl g.fresh) h.hhdm_off ≡ i * page_size =
        omega (arith, g.fresh.mapped) in
      rw (g.absent, new_table-Fresh g.fresh, back) refl

  -- A step through an entry without a table, asked to make one with at least the permission to
  -- read: the first free page becomes that table and is locked, the rest of it but the entry itself
  -- is zero, and every later step through the entry, whatever its flags, leads to the same table and
  -- changes nothing.
  pub get_next_lvl-grows :
      (flags : ℕ)
      → flags % 2 ≡ 1
      → (h' : Heap) × (get_next_lvl lvl index (transform_flags flags) true h
          ≡ ok ((new_lvl g.fresh), h'))
        × Leads h' lvl index (new_lvl g.fresh)
        × ((flags' : ℕ) (alloc : Bool)
            → get_next_lvl lvl index flags' alloc h' ≡ ok ((new_lvl g.fresh), h'))
        × ((a : ℕ)
            → in_area (i * page_size) page_size a ≡ true
            → in_area (place h lvl index) 8 a ≡ false
            → h'.pmm.memory a ≡ 0)
  unfolding store_entry
  get_next_lvl-grows flags reads =
      let entry = or_flags (i * page_size) (transform_flags flags) in
      let e = or_flags-transform_flags (i * page_size) flags (omega (arith, g.address)) in
      let stored = load_entry-store_entry (with_table g.fresh) lvl index entry e.1 in
      let asked : (flags % 2 == 1) ≡ true = ground arith in
      let leads : Leads (grown (transform_flags flags)) lvl index (new_lvl g.fresh) = (
        ap is_present stored ∙ e.2 ∙ asked,
        ap (λ x. u64 (get_addr x + h.hhdm_off)) stored
            ∙ ap (λ x. u64 (x + h.hhdm_off)) e.0
            ∙ omega (arith, g.fresh.mapped),
      ) in
      (
        grown (transform_flags flags),
        get_next_lvl-CanGrow (transform_flags flags),
        leads,
        λ flags' alloc.
            get_next_lvl-Leads (grown (transform_flags flags)) lvl index (new_lvl g.fresh) flags'
              alloc leads,
        λ a inside out.
            store_le_frame 8 (with_table g.fresh).pmm.memory (place h lvl index) entry a out
            ∙ memset-get (taken g.fresh).memory (i * page_size) 0 page_size a
            ∙ rw inside refl,
      )

  -- The step that a translation makes, with no flags: the page is taken all the same, and the entry
  -- leads nowhere afterwards, so the next translation takes another page.
  pub get_next_lvl-leaks :
      (h' : Heap) × (get_next_lvl lvl index 0 true h ≡ ok ((new_lvl g.fresh), h'))
      × (is_present (load_entry h' lvl index) ≡ false)
  unfolding or_flags
  get_next_lvl-leaks = (
    grown 0,
    get_next_lvl-CanGrow 0,
    ap is_present (
          load_entry-store_entry (with_table g.fresh) lvl index (i * page_size)
            (omega (arith, g.address)))
        ∙ ground arith,
  )

-- Where the first table was made for a page that is not to be executed, taking the mapping away
-- faults: the entry's bit 63 stays in the pointer to the next table.
pub vmm_unmap_page-fault :
    (h : Heap) (pml4 vaddr table flags : ℕ)
    → is_canonical pml4 ≡ true
    → PageAddress table
    → load_entry h pml4 (pml4_index vaddr) ≡ or_flags table (transform_flags flags)
    → flags % 2 ≡ 1
    → flags / 4 % 2 ≡ 0
    → vmm_unmap_page pml4 vaddr h ≡ fault
unfolding vmm_unmap_page
vmm_unmap_page-fault h pml4 vaddr table flags canonical a entry reads no_execute =
    let e = or_flags-transform_flags table flags a in
    let made = or_flags table (transform_flags flags) in
    let present : is_present made ≡ true = e.2 ∙ ground arith in
    let high : (made / 2 ^ 63 == 0) ≡ false = e.5 ∙ ground arith in
    let bad : is_canonical (made / page_size * page_size) ≡ false =
      ground (arith, high, or_flags-transform_flags-le table flags a) in
    rw (canonical, entry, present, bad) refl
