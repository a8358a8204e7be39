-- ===== src/Arch/Pager/Fill/Stretch.antt =====
-- arch/x86_64/pager.c, `vmm_map_range`, on addresses without tables.
use h0r_net.Common.{
  zero, suc, ◌&&◌, ◌>>=◌, ◌⊎◌, ◌≢◌, ◌||◌, ◌∙◌, ◌==◌, if◌then◌else◌, ℕ, ◌+◌, ◌*◌, ◌%◌, ◌^◌, ◌≤◌, ◌<◌,
  ◌≡◌, refl, arith, u64,
}
use h0r_net.Mm.Pmm.{page_size}
use h0r_net.Mm.Heap.{Heap}
use h0r_net.Arch.Pager.{
  load_entry, pml4_index, suc, get_addr, Bool, Outcome, true, ok, each_page, vmm_virt_to_phys,
  vmm_map_range, transform_flags, pml1_index, vmm_map_page,
}
use h0r_net.Arch.Pager.Entries.{or_flags-transform_flags, PageAddress}
use h0r_net.Arch.Pager.Walk.{vmm_virt_to_phys-Walk, last_table-Walk}
use h0r_net.Arch.Pager.Fill.{ap, TablePage, inl, locked, table}
use h0r_net.Arch.Pager.Fill.Maps.{last_table-Filled, Paged, CanFill, Filled, used_ne}
use h0r_net.Arch.Pager.Fill.Range.{step, each_page-Mapped, further, Walk-Further, Mapped, Rows}

-- `n` pages from `vaddr` have their entries in one table, and `paddr` is where they go.
pub record Stretch (vaddr paddr n : ℕ) : Type 0 where
  pub some_pages : 0 < n
  pub one_table : pml1_index vaddr + n ≤ 512
  pub word : vaddr < 2 ^ 64
  pub aligned : paddr % page_size ≡ 0
  pub top : paddr + 2 ^ 21 ≤ 2 ^ 52

-- Two states that the first round takes to the same one.
same_rounds :
    (op : ℕ → Heap → Outcome (Bool × Heap)) (h h1 : Heap) (n : ℕ)
    → 0 < n
    → op 0 h ≡ op 0 h1
    → each_page op 0 n true h ≡ each_page op 0 n true h1
unfolding each_page
same_rounds op h h1 zero lt e = absurd (omega arith)
same_rounds op h h1 (suc n) lt e =
    ap (λ o. o >>= λ (r : Bool × Heap). each_page op 1 n (true && r.0) r.1) e

module _ {h : Heap} {root vaddr i3 i2 i1 : ℕ} (c : CanFill h root vaddr i3 i2 i1) (flags : ℕ)
    (reads : flags % 2 ≡ 1) {paddr n : ℕ} (s : Stretch vaddr paddr n) where
  rows : Rows h.hhdm_off h.pmm.page_bmp root i3 i2 i1
  rows = record {
    at_root = c.at_root;
    at_3 = c.at_3;
    at_2 = c.at_2;
    at_1 = c.at_1;
    last = (
      used_ne c flags reads root i1 c.in_use c.free_1,
      λ e. omega (arith, c.order),
      λ e. omega (arith, c.order),
    );
  }

  address : PageAddress paddr
  address = (s.aligned, omega (arith, s.top))

  -- The first round makes the tables, after which it does what it would do with them.
  first_round :
      {h1 : Heap}
      → Filled c flags reads h1
      → vmm_map_page
          (table h.hhdm_off root)
          (u64 (vaddr + 0 * page_size))
          (u64 (paddr + 0 * page_size))
          flags
          h
        ≡ vmm_map_page
            (table h.hhdm_off root)
            (u64 (vaddr + 0 * page_size))
            (u64 (paddr + 0 * page_size))
            flags
            h1
  unfolding vmm_map_page
  first_round f =
      let v : u64 (vaddr + 0 * page_size) ≡ vaddr = omega (arith, s.word) in
      rw (v, f.runs, last_table-Walk (transform_flags flags) f.walk) refl

  -- What mapping the stretch leaves.
  pub record Stretched (h' : Heap) : Type 0 where
    pub paged : Paged h.hhdm_off h.pmm.page_bmp h'
    pub translates :
        (k : ℕ)
        → k < n
        → vmm_virt_to_phys (table h.hhdm_off root) (vaddr + k * page_size) h'
          ≡ ok (paddr + k * page_size, h')
    pub bits :
        (j : ℕ)
        → j ≤ h.pmm.page_bmp.size * 8
        → locked h'.pmm j ≡ (if i3 == j || (i2 == j || i1 == j) then true else locked h.pmm j)
    pub others :
        (u j : ℕ)
        → TablePage h.hhdm_off h.pmm.page_bmp u
        → j < 512
        → locked h.pmm u ≡ true
        → (u ≢ root) ⊎ (j ≢ pml4_index vaddr)
        → load_entry h' (table h.hhdm_off u) j ≡ load_entry h (table h.hhdm_off u) j

  Mapped-Stretched :
      (h1 h' : Heap)
      → Filled c flags reads h1
      → Mapped rows vaddr paddr flags address s.top s.word h1 h' 0 n
      → Stretched h'
  Mapped-Stretched h1 h' f m = record {
    paged = m.linked.paged;
    translates = λ k lt.
        let e =
          or_flags-transform_flags (paddr + k * page_size) flags
            (omega (arith, s.aligned), omega (arith, s.top, s.one_table)) in
        vmm_virt_to_phys-Walk (
          Walk-Further rows vaddr paddr flags address s.top s.word h' k m.linked
            (further vaddr k (omega (arith, s.one_table))))
        ∙ ap (λ x. ok (get_addr x, h'))
            (ap (load_entry h' (table h.hhdm_off i1))
                (further vaddr k (omega (arith, s.one_table))).next_1
              ∙ m.stores k (omega arith) (omega arith))
        ∙ ap (λ p. ok (p, h')) e.0;
    bits = λ j le. m.bits j le ∙ f.bits j le;
    others = λ u j r lt used apart.
        m.others u j r lt (inl (used_ne c flags reads u i1 used c.free_1))
        ∙ f.others u j r lt used apart;
  }

  -- Mapping one or more pages, with entries in one table, from an address for which the page map has
  -- no table, succeeds and takes the first three free pages and no others. Afterwards each address
  -- of the stretch translates to its page, and every other entry of a table in a page that was
  -- locked is as before.
  pub vmm_map_range-Stretched :
      (h' : Heap) × (vmm_map_range (table h.hhdm_off root) vaddr paddr n flags h ≡ ok (true, h'))
      × Stretched h'
  unfolding vmm_map_range each_page
  vmm_map_range-Stretched =
      let (h1, f) = last_table-Filled c flags reads in
      let (h', runs, m) =
        each_page-Mapped rows vaddr paddr flags address s.top s.word n 0 h1
          (record { paged = f.paged; walk = f.walk }) (omega (arith, s.one_table)) in
      (
        h',
        same_rounds (step rows vaddr paddr flags address s.top s.word) h h1 n s.some_pages
              (first_round f)
            ∙ runs,
        Mapped-Stretched h1 h' f m,
      )
