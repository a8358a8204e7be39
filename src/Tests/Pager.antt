-- ===== src/Tests/Pager.antt =====
-- src/arch/x86_64/pager.c at concrete inputs: tables reached through the higher half at 2 ^ 47.
use h0r_net.Common.{inl, ℕ, ◌+◌, ◌*◌, ◌^◌, ◌≡◌, inr, refl, true, Mem, store8, ok, arith}
use h0r_net.Common.LittleEndian.{load_le, store_le}
use h0r_net.Mm.Pmm.{page_size}
use h0r_net.Mm.Heap.{Heap}
use h0r_net.Arch.Pager.{
  or_flags, transform_flags, load_entry, vmm_map_page, vmm_virt_to_phys, vmm_unmap_page,
}
use h0r_net.Arch.Pager.Entries.{place}
use h0r_net.Arch.Pager.Walk.{Mapped, Permits, SameElsewhere, vmm_virt_to_phys-map_page}
use h0r_net.Arch.Pager.Levels.{CanGrow}
use h0r_net.Arch.Pager.Fresh.{Fresh}
use h0r_net.Arch.Pager.Create.{CanCreate}
use h0r_net.Arch.Pager.Unmap.{Unmappable, vmm_virt_to_phys-unmap_page}
use h0r_net.Tests.Mm.{pmm, ready_one}
use h0r_net.Tests.Heap.{heap}

-- The pointer to page `i`.
abbrev at_page : ℕ → ℕ
at_page i = 2 ^ 47 + i * page_size

-- The tables of address 4096 in the pages 16, 17, 18 and 19, and a page that is mapped there.
abbrev linked : Mem
linked =
    store_le 8
      (store_le 8 (store_le 8 (store_le 8 (λ a. 0) 0x10000 0x11003) 0x11000 0x12003) 0x12000
        0x13003)
      0x13008 0x20003

abbrev paged : Heap
paged = record { pmm = record pmm { memory = linked }; hhdm_off = 2 ^ 47 }

mapped : Mapped paged (at_page 16) 4096 (at_page 17) (at_page 18) (at_page 19)
unfolding load_entry load_le store_le store8
mapped = record {
  walk = record { to_pml3 = (refl, refl); to_pml2 = (refl, refl); to_pml1 = (refl, refl) };
  clear = record {
    at_pml4 = inr (omega arith);
    at_pml3 = inr (omega arith);
    at_pml2 = inr (omega arith);
  };
}

vmm_virt_to_phys-map_page_example :
    (h' : Heap) × (vmm_map_page (at_page 16) 4096 0x30000 3 paged ≡ ok (true, h'))
    × (vmm_virt_to_phys (at_page 16) 4096 h' ≡ ok (0x30000, h'))
    × Permits (load_entry h' (at_page 19) 1) 3
    × SameElsewhere paged h' (place paged (at_page 19) 1)
vmm_virt_to_phys-map_page_example = vmm_virt_to_phys-map_page mapped 0x30000 3 (refl, omega arith)

fresh : Fresh heap 1
fresh = record { ready = ready_one; mapped = omega arith }

-- Entry 5 of an empty table in page 16, and page 1 free.
can_grow : CanGrow heap (at_page 16) 5 1
unfolding load_entry load_le
can_grow = record { absent = refl; fresh = fresh; address = omega arith }

-- The first table of address 4096, made for reading and writing.
abbrev guarded : Heap
guarded = record heap {
  pmm = record pmm { memory = store_le 8 (λ a. 0) 0x10000 (2 ^ 63 + 0x11003) };
}

guarded_entry : load_entry guarded 0x10000 0 ≡ or_flags 0x11000 (transform_flags 3)
unfolding load_entry load_le store_le store8 or_flags transform_flags
guarded_entry = refl

-- The same tables, the first one by its physical address.
unmappable : Unmappable paged 0x10000 4096 (at_page 17) (at_page 18) (at_page 19)
unfolding load_entry load_le store_le store8
unmappable = record {
  mapped = record {
    walk = record { to_pml3 = (refl, refl); to_pml2 = (refl, refl); to_pml1 = (refl, refl) };
    clear = record {
      at_pml4 = inr (omega arith);
      at_pml3 = inr (omega arith);
      at_pml2 = inr (omega arith);
    };
  };
  canonical = refl;
  higher = omega arith;
  room = omega arith;
  low4 = omega arith;
  low3 = omega arith;
  low2 = omega arith;
}

vmm_virt_to_phys-unmap_page_example :
    (h' : Heap) × (vmm_unmap_page 0x10000 4096 paged ≡ ok (true, h'))
    × (vmm_virt_to_phys 0x10000 4096 h' ≡ ok (0, h'))
    × SameElsewhere paged h' (place paged (at_page 19) 1)
vmm_virt_to_phys-unmap_page_example = vmm_virt_to_phys-unmap_page unmappable

can_create : CanCreate heap 1 0x10000
can_create = record {
  fresh = fresh;
  boot_mapped = omega arith;
  apart = inl (omega arith);
  clear = λ a inside. ground arith;
}
