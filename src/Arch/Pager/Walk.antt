-- ===== src/Arch/Pager/Walk.antt =====
-- arch/x86_64/pager.c: mapping, editing and translating an address whose tables are there.
use h0r_net.Common.{◌/◌, ◌==◌, ◌%◌, ℕ, ◌+◌, ◌^◌, ◌<◌, ◌≡◌, Bool, true, u64, ◌∙◌, ap, ok}
use h0r_net.Mm.Heap.{Heap}
use h0r_net.Arch.Pager.{
  or_flags, transform_flags, get_addr, is_present, load_entry, store_entry, get_next_lvl,
  last_table, pml4_index, pml3_index, pml2_index, pml1_index, vmm_map_page, vmm_edit_flags,
  vmm_virt_to_phys,
}
use h0r_net.Arch.Pager.Entries.{
  PageAddress, or_flags-transform_flags, load_entry-store_entry, load_entry-store_entry-Apart,
  Apart, place, get_addr-PageAddress,
}

-- Entry `index` of a table leads to the table `next`.
abbrev pub Leads : Heap → ℕ → ℕ → ℕ → Type 0
Leads h lvl index next =
    (is_present (load_entry h lvl index) ≡ true)
    × (u64 (get_addr (load_entry h lvl index) + h.hhdm_off) ≡ next)

pub get_next_lvl-Leads :
    (h : Heap) (lvl index next flags : ℕ) (alloc : Bool)
    → Leads h lvl index next
    → get_next_lvl lvl index flags alloc h ≡ ok (next, h)
unfolding get_next_lvl
get_next_lvl-Leads h lvl index next flags alloc l = rw l.0 (ap (λ n. ok (n, h)) l.1)

-- The tables of an address.
pub record Walk (h : Heap) (pml4 vaddr pml3 pml2 pml1 : ℕ) : Type 0 where
  pub to_pml3 : Leads h pml4 (pml4_index vaddr) pml3
  pub to_pml2 : Leads h pml3 (pml3_index vaddr) pml2
  pub to_pml1 : Leads h pml2 (pml2_index vaddr) pml1

-- The entries that lead to them do not overlap the 8 bytes at `a`.
pub record Clear (h : Heap) (pml4 vaddr pml3 pml2 a : ℕ) : Type 0 where
  pub at_pml4 : Apart a (place h pml4 (pml4_index vaddr))
  pub at_pml3 : Apart a (place h pml3 (pml3_index vaddr))
  pub at_pml2 : Apart a (place h pml2 (pml2_index vaddr))

module _ {h : Heap} {pml4 vaddr pml3 pml2 pml1 : ℕ} where
  pub last_table-Walk :
      (flags : ℕ) → Walk h pml4 vaddr pml3 pml2 pml1 → last_table pml4 vaddr flags h ≡ ok (pml1, h)
  unfolding last_table
  last_table-Walk flags w = rw (
    get_next_lvl-Leads h pml4 (pml4_index vaddr) pml3 flags true w.to_pml3,
    get_next_lvl-Leads h pml3 (pml3_index vaddr) pml2 flags true w.to_pml2,
    get_next_lvl-Leads h pml2 (pml2_index vaddr) pml1 flags true w.to_pml1,
  )

  pub vmm_virt_to_phys-Walk :
      Walk h pml4 vaddr pml3 pml2 pml1
      → vmm_virt_to_phys pml4 vaddr h ≡ ok (get_addr (load_entry h pml1 (pml1_index vaddr)), h)
  unfolding vmm_virt_to_phys
  vmm_virt_to_phys-Walk w = rw (last_table-Walk 0 w)

Leads-store_entry :
    (h : Heap) (lvl index next lvl' index' entry : ℕ)
    → Leads h lvl index next
    → Apart (place h lvl' index') (place h lvl index)
    → Leads (store_entry lvl' index' entry h) lvl index next
unfolding store_entry
Leads-store_entry h lvl index next lvl' index' entry l apart =
    let same = load_entry-store_entry-Apart h lvl' index' entry lvl index apart in
    (ap is_present same ∙ l.0, ap (λ e. u64 (get_addr e + h.hhdm_off)) same ∙ l.1)

-- A store apart from the entries of a walk leaves the walk.
pub Walk-store_entry :
    {h : Heap} {pml4 vaddr pml3 pml2 pml1 : ℕ} (lvl index entry : ℕ)
    → Walk h pml4 vaddr pml3 pml2 pml1
    → Clear h pml4 vaddr pml3 pml2 (place h lvl index)
    → Walk (store_entry lvl index entry h) pml4 vaddr pml3 pml2 pml1
Walk-store_entry {h} {pml4} {vaddr} {pml3} {pml2} {pml1} lvl index entry w c = record {
  to_pml3 = Leads-store_entry h pml4 (pml4_index vaddr) pml3 lvl index entry w.to_pml3 c.at_pml4;
  to_pml2 = Leads-store_entry h pml3 (pml3_index vaddr) pml2 lvl index entry w.to_pml2 c.at_pml3;
  to_pml1 = Leads-store_entry h pml2 (pml2_index vaddr) pml1 lvl index entry w.to_pml1 c.at_pml2;
}

-- The setting of a write to an address's last table: its tables are there, and the entry that is
-- written is none of those that lead to it.
pub record Mapped (h : Heap) (pml4 vaddr pml3 pml2 pml1 : ℕ) : Type 0 where
  pub walk : Walk h pml4 vaddr pml3 pml2 pml1
  pub clear : Clear h pml4 vaddr pml3 pml2 (place h pml1 (pml1_index vaddr))

-- The entry lets a page be used as `flags` asks for it: bit 0 is to read, bit 1 to write, bit 3 to use
-- from outside the kernel, and bit 2 to execute, which bit 63 of the entry forbids.
abbrev pub Permits : ℕ → ℕ → Type 0
Permits entry flags =
    (is_present entry ≡ (flags % 2 == 1))
    × ((entry / 2 % 2 == 1) ≡ (flags / 2 % 2 == 1))
    × ((entry / 4 % 2 == 1) ≡ (flags / 8 % 2 == 1))
    × ((entry / 2 ^ 63 == 0) ≡ (flags / 4 % 2 == 1))

-- `h'` translates every address as `h` does whose own entries are apart from the one at `a`.
abbrev pub SameElsewhere : Heap → Heap → ℕ → Type 0
SameElsewhere h h' a =
    (pml4 vaddr pml3 pml2 pml1 : ℕ)
    → Walk h pml4 vaddr pml3 pml2 pml1
    → Clear h pml4 vaddr pml3 pml2 a
    → Apart a (place h pml1 (pml1_index vaddr))
    → (p : ℕ) × (vmm_virt_to_phys pml4 vaddr h ≡ ok (p, h))
      × (vmm_virt_to_phys pml4 vaddr h' ≡ ok (p, h'))

module _ {h : Heap} {pml4 vaddr pml3 pml2 pml1 : ℕ} (t : Mapped h pml4 vaddr pml3 pml2 pml1) where
  pub store-SameElsewhere :
      (entry : ℕ)
      → SameElsewhere h
          (store_entry pml1 (pml1_index vaddr) entry h)
          (place h pml1 (pml1_index vaddr))
  store-SameElsewhere entry q4 v q3 q2 q1 w c apart = (
    get_addr (load_entry h q1 (pml1_index v)),
    vmm_virt_to_phys-Walk w,
    vmm_virt_to_phys-Walk (Walk-store_entry pml1 (pml1_index vaddr) entry w c)
        ∙ ap (λ e. ok (get_addr e, store_entry pml1 (pml1_index vaddr) entry h))
            (load_entry-store_entry-Apart h pml1 (pml1_index vaddr) entry q1 (pml1_index v) apart),
  )

  pub stored_address :
      (entry : ℕ)
      → entry < 2 ^ 64
      → let h' = store_entry pml1 (pml1_index vaddr) entry h in
        vmm_virt_to_phys pml4 vaddr h' ≡ ok (get_addr entry, h')
  stored_address entry fits =
      let h' = store_entry pml1 (pml1_index vaddr) entry h in
      vmm_virt_to_phys-Walk (Walk-store_entry pml1 (pml1_index vaddr) entry t.walk t.clear)
      ∙ ap (λ e. ok (get_addr e, h')) (load_entry-store_entry h pml1 (pml1_index vaddr) entry fits)

  -- Where the tables of an address are there, mapping it to a page makes the address translate to
  -- that page, with each of the four permissions exactly as `flags` asks for it in its entry, and every address with other entries
  -- translate as before; no page is taken.
  pub vmm_virt_to_phys-map_page :
      (paddr flags : ℕ)
      → PageAddress paddr
      → (h' : Heap) × (vmm_map_page pml4 vaddr paddr flags h ≡ ok (true, h'))
        × (vmm_virt_to_phys pml4 vaddr h' ≡ ok (paddr, h'))
        × Permits (load_entry h' pml1 (pml1_index vaddr)) flags
        × SameElsewhere h h' (place h pml1 (pml1_index vaddr))
  unfolding vmm_map_page
  vmm_virt_to_phys-map_page paddr flags a =
      let entry = or_flags paddr (transform_flags flags) in
      let e = or_flags-transform_flags paddr flags a in
      let h' : Heap = store_entry pml1 (pml1_index vaddr) entry h in
      (
        h',
        rw (last_table-Walk (transform_flags flags) t.walk),
        stored_address entry e.1 ∙ ap (λ p. ok (p, h')) e.0,
        rw (load_entry-store_entry h pml1 (pml1_index vaddr) entry e.1) (e.2, e.3, e.4, e.5),
        store-SameElsewhere entry,
      )

  -- Changing the flags of an address changes no translation, its own included.
  pub vmm_virt_to_phys-edit_flags :
      (flags : ℕ)
      → (h' : Heap) × (p : ℕ) × (vmm_edit_flags pml4 vaddr flags h ≡ ok (true, h'))
        × (vmm_virt_to_phys pml4 vaddr h ≡ ok (p, h))
        × (vmm_virt_to_phys pml4 vaddr h' ≡ ok (p, h'))
        × SameElsewhere h h' (place h pml1 (pml1_index vaddr))
  unfolding vmm_edit_flags
  vmm_virt_to_phys-edit_flags flags =
      let p = get_addr (load_entry h pml1 (pml1_index vaddr)) in
      let entry = or_flags p (transform_flags flags) in
      let e =
        or_flags-transform_flags p flags
          (get_addr-PageAddress (load_entry h pml1 (pml1_index vaddr))) in
      let h' : Heap = store_entry pml1 (pml1_index vaddr) entry h in
      (
        h',
        p,
        rw (last_table-Walk (transform_flags flags) t.walk),
        vmm_virt_to_phys-Walk t.walk,
        stored_address entry e.1 ∙ ap (λ q. ok (q, h')) e.0,
        store-SameElsewhere entry,
      )
