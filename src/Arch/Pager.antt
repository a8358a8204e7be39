-- ===== src/Arch/Pager.antt =====
-- arch/x86_64/pager.c: the four levels of page tables. A table is known by the pointer through which
-- the kernel reaches it; a mask and a shift to the right are a remainder and a quotient. Binding a
-- page map and dropping a translation from the processor's cache are left out.
pub mod Entries
pub mod Fresh
pub mod Walk
pub mod Levels
pub mod Create
pub mod Unmap
pub mod Fill
use h0r_net.Common.{
  ℕ, zero, suc, ◌+◌, ◌-◌, ◌*◌, ◌/◌, ◌%◌, ◌^◌, Bool, true, false, ltb, leb, ◌==◌, ◌!=◌, ◌&&◌, ◌||◌,
  if◌then◌else◌, u64, sub64, Mem, Outcome, ok, fault, ◌>>=◌,
}
use h0r_net.Common.LittleEndian.{load_le, store_le}
use h0r_net.Libk.Memory.{memset}
use h0r_net.Mm.Pmm.{page_size, request_pages}
use h0r_net.Mm.Heap.{Heap, phys, with_memory}

-- `x | (1 << k)`
abbrev pub or_bit : ℕ → ℕ → ℕ
or_bit k x = if x / 2 ^ k % 2 == 1 then x else x + 2 ^ k

-- `x | flags` for flags with no bits but 0, 1, 2 and 63, as those of `transform_flags` are.
unfoldable pub or_flags : ℕ → ℕ → ℕ
or_flags x flags =
    let present = if flags % 2 == 1 then or_bit 0 x else x in
    let writable = if flags / 2 % 2 == 1 then or_bit 1 present else present in
    let user = if flags / 4 % 2 == 1 then or_bit 2 writable else writable in
    if flags / 2 ^ 63 % 2 == 1 then or_bit 63 user else user

-- FLAGS_R, FLAGS_W, FLAGS_X and FLAGS_U are the bits 0 to 3 of what is asked for.
unfoldable pub transform_flags : ℕ → ℕ
transform_flags flags =
    (if flags % 2 == 1 then 1 else 0)
    + (if flags / 2 % 2 == 1 then 2 else 0)
    + (if flags / 8 % 2 == 1 then 4 else 0)
    + (if flags / 4 % 2 == 1 then 0 else 2 ^ 63)

-- PML4_GET_ADDR
abbrev pub get_addr : ℕ → ℕ
get_addr entry = entry % 2 ^ 52 / page_size * page_size

-- X86_PAGER_BITMASK_PRESENT
abbrev pub is_present : ℕ → Bool
is_present entry = entry % 2 == 1

-- The pointer to entry `index` of a table.
abbrev pub slot : ℕ → ℕ → ℕ
slot lvl index = u64 (lvl + 8 * index)

unfoldable pub load_entry : Heap → ℕ → ℕ → ℕ
load_entry h lvl index = load_le 8 h.pmm.memory (phys h.hhdm_off (slot lvl index))

unfoldable pub store_entry : ℕ → ℕ → ℕ → Heap → Heap
store_entry lvl index entry h =
    with_memory h (store_le 8 h.pmm.memory (phys h.hhdm_off (slot lvl index)) entry)

-- A page of zeros, by the pointer to it.
unfoldable pub new_table : Heap → Outcome (ℕ × Heap)
new_table h = do
  (page, p) ← request_pages 1 h.pmm
  let lvl = u64 (page + h.hhdm_off)
  let m = memset p.memory (phys h.hhdm_off lvl) 0 page_size
  ok (lvl, record h { pmm = record p { memory = m } })

-- A null pointer is 0.
unfoldable pub get_next_lvl : ℕ → ℕ → ℕ → Bool → Heap → Outcome (ℕ × Heap)
unfolding new_table
get_next_lvl lvl index flags alloc h =
    let entry = load_entry h lvl index in
    let made = (do
      (new_lvl, h') ← new_table h
      ok (new_lvl, store_entry lvl index (or_flags (sub64 new_lvl h'.hhdm_off) flags) h')) in
    if is_present entry
    then ok (u64 (get_addr entry + h.hhdm_off), h)
    else if alloc
    then made
    else ok (0, h)

-- The loop of `vmm_create_pagemap`, with `left` entries to copy from entry `i`.
pub copy_entries : ℕ → ℕ → ℕ → ℕ → Heap → Heap
copy_entries to from i zero h = h
copy_entries to from i (suc left) h =
    copy_entries to from (i + 1) left (store_entry to i (load_entry h from i) h)

-- `pagemap` is the bootloader's, by its physical address: its upper half is copied.
unfoldable pub vmm_create_pagemap : ℕ → Heap → Outcome (ℕ × Heap)
unfolding new_table copy_entries
vmm_create_pagemap pagemap h = do
  (pml4, h') ← new_table h
  ok (pml4, copy_entries pml4 (u64 (pagemap + h.hhdm_off)) 256 256 h')

-- The four indices in an address.
abbrev pub pml4_index : ℕ → ℕ
pml4_index vaddr = vaddr / 2 ^ 39 % 512

abbrev pub pml3_index : ℕ → ℕ
pml3_index vaddr = vaddr / 2 ^ 30 % 512

abbrev pub pml2_index : ℕ → ℕ
pml2_index vaddr = vaddr / 2 ^ 21 % 512

abbrev pub pml1_index : ℕ → ℕ
pml1_index vaddr = vaddr / 2 ^ 12 % 512

-- The three steps with which mapping, editing and translating begin.
unfoldable pub last_table : ℕ → ℕ → ℕ → Heap → Outcome (ℕ × Heap)
unfolding get_next_lvl
last_table pml4 vaddr flags h = do
  (pml3, h3) ← get_next_lvl pml4 (pml4_index vaddr) flags true h
  (pml2, h2) ← get_next_lvl pml3 (pml3_index vaddr) flags true h3
  get_next_lvl pml2 (pml2_index vaddr) flags true h2

unfoldable pub vmm_map_page : ℕ → ℕ → ℕ → ℕ → Heap → Outcome (Bool × Heap)
vmm_map_page pml4 vaddr paddr flags h = do
  let new_flags = transform_flags flags
  (pml1, h') ← last_table pml4 vaddr new_flags h
  ok (true, store_entry pml1 (pml1_index vaddr) (or_flags paddr new_flags) h')

unfoldable pub vmm_edit_flags : ℕ → ℕ → ℕ → Heap → Outcome (Bool × Heap)
vmm_edit_flags pml4 vaddr flags h = do
  let new_flags = transform_flags flags
  (pml1, h') ← last_table pml4 vaddr new_flags h
  let entry = load_entry h' pml1 (pml1_index vaddr)
  ok (true, store_entry pml1 (pml1_index vaddr) (or_flags (get_addr entry) new_flags) h')

-- The tables of an address without any are made here as well, with entries that have no flags.
unfoldable pub vmm_virt_to_phys : ℕ → ℕ → Heap → Outcome (ℕ × Heap)
vmm_virt_to_phys pml4 vaddr h = do
  (pml1, h') ← last_table pml4 vaddr 0 h
  ok (get_addr (load_entry h' pml1 (pml1_index vaddr)), h')

-- Both range functions: `op` on the pages from round `i`, with `left` rounds to go.
unfoldable pub each_page :
    (ℕ → Heap → Outcome (Bool × Heap)) → ℕ → ℕ → Bool → Heap → Outcome (Bool × Heap)
each_page op i zero success h = ok (success, h)
each_page op i (suc left) success h = do
  (done, h') ← op i h
  each_page op (i + 1) left (success && done) h'

unfoldable pub vmm_map_range : ℕ → ℕ → ℕ → ℕ → ℕ → Heap → Outcome (Bool × Heap)
unfolding each_page
vmm_map_range pml4 vaddr paddr npages flags h =
    each_page
      (λ i. vmm_map_page pml4 (u64 (vaddr + i * page_size)) (u64 (paddr + i * page_size)) flags) 0
      npages true h

-- An address that the processor takes: its upper 17 bits are equal. Any other access is a fault.
abbrev pub is_canonical : ℕ → Bool
is_canonical a = ltb a (2 ^ 47) || leb (2 ^ 64 - 2 ^ 47) a

abbrev pub checked : ℕ → Outcome ℕ
checked lvl = if is_canonical lvl then ok lvl else fault

-- The tables are used by their physical addresses, and bit 63 of an entry stays in the pointer.
unfoldable pub vmm_unmap_page : ℕ → ℕ → Heap → Outcome (Bool × Heap)
vmm_unmap_page pml4 vaddr h = do
  table ← checked pml4
  let entry4 = load_entry h table (pml4_index vaddr)
  (if is_present entry4
      then (do
        pml3 ← checked (entry4 / page_size * page_size)
        let entry3 = load_entry h pml3 (pml3_index vaddr)
        (if is_present entry3
            then (do
              pml2 ← checked (entry3 / page_size * page_size)
              let entry2 = load_entry h pml2 (pml2_index vaddr)
              (if is_present entry2
                  then (do
                    pml1 ← checked (entry2 / page_size * page_size)
                    ok (true, store_entry pml1 (pml1_index vaddr) 0 h))
                  else ok (false, h)))
            else ok (false, h)))
      else ok (false, h))

unfoldable pub vmm_unmap_range : ℕ → ℕ → ℕ → Heap → Outcome (Bool × Heap)
unfolding each_page
vmm_unmap_range pml4 vaddr npages h =
    each_page (λ i. vmm_unmap_page pml4 (u64 (vaddr + i * page_size))) 0 npages true h
