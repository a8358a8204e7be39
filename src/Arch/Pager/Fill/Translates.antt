-- ===== src/Arch/Pager/Fill/Translates.antt =====
-- arch/x86_64/pager.c: an address without tables that is mapped, and how it and its neighbours
-- translate afterwards.
use h0r_net.Common.{
  ℕ, ◌+◌, ◌*◌, ◌%◌, ◌≤◌, ◌<◌, ◌≡◌, ◌≢◌, ◌⊎◌, refl, true, false, ◌==◌, ◌||◌, if◌then◌else◌, arith,
  ◌∙◌, ap, ok, inl, inr,
}
use h0r_net.Common.LittleEndian.{store_le_frame, store_le-IsBytes}
use h0r_net.Libk.Bitmap.{Bitmap}
use h0r_net.Libk.Memory.Laws.{in_area}
use h0r_net.Mm.Pmm.{page_size}
use h0r_net.Mm.Pmm.Pages.{locked, in_buffer}
use h0r_net.Mm.Heap.{Heap}
use h0r_net.Arch.Pager.{
  or_flags, transform_flags, get_addr, load_entry, store_entry, pml4_index, pml3_index, pml2_index,
  pml1_index, vmm_map_page, vmm_virt_to_phys,
}
use h0r_net.Arch.Pager.Entries.{
  PageAddress, Apart, place, or_flags-transform_flags, load_entry-store_entry-Apart,
}
use h0r_net.Arch.Pager.Walk.{Walk, Mapped, stored_address, Walk-store_entry, vmm_virt_to_phys-Walk}
use h0r_net.Arch.Pager.Fill.{table, TablePage, Apart-slots, locked_frame}
use h0r_net.Arch.Pager.Fill.Maps.{Paged, CanFill, Filled, last_table-Filled, used_ne}

pub place-Paged :
    {off : ℕ} {bm : Bitmap} {h : Heap} (t j : ℕ)
    → Paged off bm h
    → TablePage off bm t
    → j < 512
    → place h (table off t) j ≡ t * page_size + 8 * j
place-Paged t j p r lt = ground (arith, p.same_off, r.mapped)

pub Apart-Paged :
    {off : ℕ} {bm : Bitmap} {h : Heap} (t j u k : ℕ)
    → Paged off bm h
    → TablePage off bm t
    → TablePage off bm u
    → j < 512
    → k < 512
    → (u ≢ t) ⊎ (k ≢ j)
    → Apart (place h (table off t) j) (place h (table off u) k)
Apart-Paged t j u k p r r' lt lt' ne =
    rw (place-Paged t j p r lt, place-Paged u k p r' lt') (Apart-slots t j u k lt lt' ne)

-- An entry is stored outside the page bitmap.
pub store_entry-locked :
    {off : ℕ} {bm : Bitmap} {h : Heap} (t j entry i : ℕ)
    → Paged off bm h
    → TablePage off bm t
    → j < 512
    → i ≤ bm.size * 8
    → locked (store_entry (table off t) j entry h).pmm i ≡ locked h.pmm i
unfolding store_entry
store_entry-locked {off} {bm} {h} t j entry i p r lt le =
    let at = place-Paged t j p r lt in
    locked_frame h.pmm (store_entry (table off t) j entry h).pmm i refl
      (λ b inside.
        let bitmap : in_buffer bm b ≡ true = rw (← p.same_bmp) inside in
        let out : in_area (t * page_size) page_size b ≡ false = ground (arith, r.clear b, bitmap) in
        store_le_frame 8 h.pmm.memory (place h (table off t) j) entry b (ground (arith, at, out)))
      (rw p.same_bmp le)

pub store_entry-Paged :
    {off : ℕ} {bm : Bitmap} {h : Heap} (lvl index entry : ℕ)
    → Paged off bm h
    → Paged off bm (store_entry lvl index entry h)
unfolding store_entry
store_entry-Paged {off} {bm} {h} lvl index entry p = record {
  same_off = p.same_off;
  same_bmp = p.same_bmp;
  bytes = store_le-IsBytes 8 h.pmm.memory _ _ p.bytes;
}

-- The same three tables, and another entry in the last one.
pub record Neighbour (v vaddr : ℕ) : Type 0 where
  pub same_4 : pml4_index v ≡ pml4_index vaddr
  pub same_3 : pml3_index v ≡ pml3_index vaddr
  pub same_2 : pml2_index v ≡ pml2_index vaddr
  pub other_1 : pml1_index v ≢ pml1_index vaddr

Walk-Neighbour :
    {h : Heap} {pml4 vaddr pml3 pml2 pml1 : ℕ} (v : ℕ)
    → Neighbour v vaddr
    → Walk h pml4 vaddr pml3 pml2 pml1
    → Walk h pml4 v pml3 pml2 pml1
Walk-Neighbour v n w = record {
  to_pml3 = rw n.same_4 w.to_pml3;
  to_pml2 = rw n.same_3 w.to_pml2;
  to_pml1 = rw n.same_2 w.to_pml1;
}

module _ {h : Heap} {root vaddr i3 i2 i1 : ℕ} (c : CanFill h root vaddr i3 i2 i1) (flags : ℕ)
    (reads : flags % 2 ≡ 1) where
  module _ {h1 : Heap} (f : Filled c flags reads h1) (paddr : ℕ) (a : PageAddress paddr) where
    pub Filled-Mapped :
        Mapped h1
          (table h.hhdm_off root)
          vaddr
          (table h.hhdm_off i3)
          (table h.hhdm_off i2)
          (table h.hhdm_off i1)
    Filled-Mapped = record {
      walk = f.walk;
      clear = record {
        at_pml4 =
            Apart-Paged i1 _ root _ f.paged c.at_1 c.at_root (omega arith) (omega arith)
              (inl (used_ne c flags reads root i1 c.in_use c.free_1));
        at_pml3 =
            Apart-Paged i1 _ i3 _ f.paged c.at_1 c.at_3 (omega arith) (omega arith)
              (inl (λ e. omega (arith, c.order)));
        at_pml2 =
            Apart-Paged i1 _ i2 _ f.paged c.at_1 c.at_2 (omega arith) (omega arith)
              (inl (λ e. omega (arith, c.order)));
      };
    }

    abbrev mapping : ℕ
    mapping = or_flags paddr (transform_flags flags)

    abbrev with_mapping : Heap
    with_mapping = store_entry (table h.hhdm_off i1) (pml1_index vaddr) mapping h1

    here-paddr :
        vmm_virt_to_phys (table h.hhdm_off root) vaddr with_mapping ≡ ok (paddr, with_mapping)
    here-paddr =
        let e = or_flags-transform_flags paddr flags a in
        stored_address Filled-Mapped mapping e.1 ∙ ap (λ p. ok (p, with_mapping)) e.0

    Neighbour-none :
        (v : ℕ)
        → Neighbour v vaddr
        → vmm_virt_to_phys (table h.hhdm_off root) v with_mapping ≡ ok (0, with_mapping)
    Neighbour-none v n =
        let w =
          Walk-store_entry (table h.hhdm_off i1) (pml1_index vaddr) mapping f.walk
            Filled-Mapped.clear in
        let zero_entry : load_entry with_mapping (table h.hhdm_off i1) (pml1_index v) ≡ 0 =
          load_entry-store_entry-Apart h1 (table h.hhdm_off i1) (pml1_index vaddr) mapping
            (table h.hhdm_off i1) (pml1_index v)
            (Apart-Paged i1 _ i1 _ f.paged c.at_1 c.at_1 (omega arith) (omega arith)
              (inr n.other_1))
          ∙ f.zeros (pml1_index v) (omega arith) in
        vmm_virt_to_phys-Walk (Walk-Neighbour v n w)
        ∙ ap (λ e. ok (get_addr e, with_mapping)) zero_entry

  -- Mapping an address for which the page map has no table takes the first three free pages and no
  -- others. Afterwards the address translates to its page, the other addresses of the last table
  -- translate to 0, and every other entry of a table in a page that was locked is as before.
  pub vmm_virt_to_phys-fills :
      (paddr : ℕ)
      → PageAddress paddr
      → (h' : Heap) × (vmm_map_page (table h.hhdm_off root) vaddr paddr flags h ≡ ok (true, h'))
        × (vmm_virt_to_phys (table h.hhdm_off root) vaddr h' ≡ ok (paddr, h'))
        × ((v : ℕ) → Neighbour v vaddr → vmm_virt_to_phys (table h.hhdm_off root) v h' ≡ ok (0, h'))
        × ((j : ℕ)
            → j ≤ h.pmm.page_bmp.size * 8
            → locked h'.pmm j ≡ (if i3 == j || (i2 == j || i1 == j) then true else locked h.pmm j))
        × ((u j : ℕ)
            → TablePage h.hhdm_off h.pmm.page_bmp u
            → j < 512
            → locked h.pmm u ≡ true
            → (u ≢ root) ⊎ (j ≢ pml4_index vaddr)
            → load_entry h' (table h.hhdm_off u) j ≡ load_entry h (table h.hhdm_off u) j)
  unfolding vmm_map_page
  vmm_virt_to_phys-fills paddr a =
      let (h1, f) = last_table-Filled c flags reads in
      (
        with_mapping f paddr a,
        rw (f.runs) refl,
        here-paddr f paddr a,
        Neighbour-none f paddr a,
        λ j le.
            store_entry-locked i1 _ (mapping f paddr a) j f.paged c.at_1 (omega arith) le
            ∙ f.bits j le,
        λ u j r lt used apart.
            load_entry-store_entry-Apart h1 (table h.hhdm_off i1) (pml1_index vaddr)
              (mapping f paddr a) (table h.hhdm_off u) j
              (Apart-Paged i1 _ u _ f.paged c.at_1 r (omega arith) lt
                (inl (used_ne c flags reads u i1 used c.free_1)))
            ∙ f.others u j r lt used apart,
      )
