-- ===== src/Arch/Pager/Unmap.antt =====
-- arch/x86_64/pager.c, `vmm_unmap_page`: when it does what it means to.
use h0r_net.Common.{ℕ, ◌+◌, ◌*◌, ◌/◌, ◌^◌, ◌≤◌, ◌<◌, ◌≡◌, refl, true, u64, arith, ok}
use h0r_net.Mm.Pmm.{page_size}
use h0r_net.Mm.Heap.{Heap}
use h0r_net.Arch.Pager.{
  get_addr, is_canonical, load_entry, store_entry, vmm_unmap_page, vmm_virt_to_phys, pml4_index,
  pml3_index, pml2_index, pml1_index,
}
use h0r_net.Arch.Pager.Entries.{place}
use h0r_net.Arch.Pager.Walk.{Leads, Mapped, SameElsewhere, store-SameElsewhere, stored_address}

-- The tables of the address are there, and the entries that lead to them are below 2 ^ 47, so they
-- allow execution; the higher half begins at or above 2 ^ 47 and has room for 2 ^ 47 bytes.
pub record Unmappable (h : Heap) (pml4 vaddr pml3 pml2 pml1 : ℕ) : Type 0 where
  pub mapped : Mapped h pml4 vaddr pml3 pml2 pml1
  pub canonical : is_canonical pml4 ≡ true
  pub higher : 2 ^ 47 ≤ h.hhdm_off
  pub room : h.hhdm_off + 2 ^ 47 ≤ 2 ^ 64
  pub low4 : load_entry h pml4 (pml4_index vaddr) < 2 ^ 47
  pub low3 : load_entry h pml3 (pml3_index vaddr) < 2 ^ 47
  pub low2 : load_entry h pml2 (pml2_index vaddr) < 2 ^ 47

-- Through a low address and through its pointer the same entry is reached.
place_low :
    (h : Heap) (entry next index : ℕ)
    → 2 ^ 47 ≤ h.hhdm_off
    → h.hhdm_off + 2 ^ 47 ≤ 2 ^ 64
    → entry < 2 ^ 47
    → u64 (get_addr entry + h.hhdm_off) ≡ next
    → index < 512
    → place h (entry / page_size * page_size) index ≡ place h next index
place_low h entry next index higher room low e lt = ground arith

module _ {h : Heap} {pml4 vaddr pml3 pml2 pml1 : ℕ}
    (u : Unmappable h pml4 vaddr pml3 pml2 pml1) where
  reached :
      (lvl index next index' : ℕ)
      → Leads h lvl index next
      → load_entry h lvl index < 2 ^ 47
      → index' < 512
      → place h (load_entry h lvl index / page_size * page_size) index' ≡ place h next index'
  reached lvl index next index' l low lt =
      place_low h (load_entry h lvl index) next index' u.higher u.room low l.1 lt

  canonical_low : (entry : ℕ) → entry < 2 ^ 47 → is_canonical (entry / page_size * page_size) ≡ true
  canonical_low entry low = ground arith

  -- Where all tables of an address allow execution and lie low, unmapping it makes it translate to
  -- 0, and every address with other entries as before.
  pub vmm_virt_to_phys-unmap_page :
      (h' : Heap) × (vmm_unmap_page pml4 vaddr h ≡ ok (true, h'))
      × (vmm_virt_to_phys pml4 vaddr h' ≡ ok (0, h'))
      × SameElsewhere h h' (place h pml1 (pml1_index vaddr))
  unfolding vmm_unmap_page load_entry store_entry
  vmm_virt_to_phys-unmap_page =
      let w = u.mapped.walk in
      let to3 =
        reached pml4 (pml4_index vaddr) pml3 (pml3_index vaddr) w.to_pml3 u.low4 (omega arith) in
      let to2 =
        reached pml3 (pml3_index vaddr) pml2 (pml2_index vaddr) w.to_pml2 u.low3 (omega arith) in
      let to1 =
        reached pml2 (pml2_index vaddr) pml1 (pml1_index vaddr) w.to_pml1 u.low2 (omega arith) in
      (
        store_entry pml1 (pml1_index vaddr) 0 h,
        rw
            (
              u.canonical,
              w.to_pml3.0,
              canonical_low (load_entry h pml4 (pml4_index vaddr)) u.low4,
              to3,
              w.to_pml2.0,
              canonical_low (load_entry h pml3 (pml3_index vaddr)) u.low3,
              to2,
              w.to_pml1.0,
              canonical_low (load_entry h pml2 (pml2_index vaddr)) u.low2,
              to1,
            )
            refl,
        stored_address u.mapped 0 (omega arith),
        store-SameElsewhere u.mapped 0,
      )
