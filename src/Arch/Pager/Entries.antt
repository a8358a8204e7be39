-- ===== src/Arch/Pager/Entries.antt =====
-- arch/x86_64/pager.c: the bits of an entry, and entries in memory.
use h0r_net.Common.{
  ℕ, ◌+◌, ◌/◌, ◌%◌, ◌^◌, ◌≤◌, ◌<◌, ◌≡◌, ◌⊎◌, Bool, true, false, ◌==◌, if◌then◌else◌, arith,
}
use h0r_net.Common.LittleEndian.{load_le-store_le, load_le_frame, store_le_frame}
use h0r_net.Mm.Pmm.{page_size}
use h0r_net.Mm.Heap.{Heap, phys}
use h0r_net.Arch.Pager.{
  or_flags, transform_flags, get_addr, is_present, slot, load_entry, store_entry,
}

-- A page-aligned physical address of the 52 bits that an entry has for it.
abbrev pub PageAddress : ℕ → Type 0
PageAddress a = (a % page_size ≡ 0) × (a < 2 ^ 52)

-- The flags with the permissions to read, write, use from outside the kernel, and execute.
abbrev bits : Bool → Bool → Bool → Bool → ℕ
bits r w u x =
    (if r then 1 else 0) + (if w then 2 else 0) + (if u then 4 else 0) + (if x then 0 else 2 ^ 63)

or_flags-bits :
    (paddr : ℕ) (r w u x : Bool)
    → PageAddress paddr
    → or_flags paddr (bits r w u x) ≡ paddr + bits r w u x
unfolding or_flags
or_flags-bits paddr true true true true a = ground arith
or_flags-bits paddr true true true false a = ground arith
or_flags-bits paddr true true false true a = ground arith
or_flags-bits paddr true true false false a = ground arith
or_flags-bits paddr true false true true a = ground arith
or_flags-bits paddr true false true false a = ground arith
or_flags-bits paddr true false false true a = ground arith
or_flags-bits paddr true false false false a = ground arith
or_flags-bits paddr false true true true a = ground arith
or_flags-bits paddr false true true false a = ground arith
or_flags-bits paddr false true false true a = ground arith
or_flags-bits paddr false true false false a = ground arith
or_flags-bits paddr false false true true a = ground arith
or_flags-bits paddr false false true false a = ground arith
or_flags-bits paddr false false false true a = ground arith
or_flags-bits paddr false false false false a = ground arith

-- The entry that is made from a page's address and the flags asked for: the processor reads that
-- address in it, and each permission exactly when it was asked for.
pub or_flags-transform_flags :
    (paddr flags : ℕ)
    → PageAddress paddr
    → let entry = or_flags paddr (transform_flags flags) in
      (get_addr entry ≡ paddr)
      × (entry < 2 ^ 64)
      × (is_present entry ≡ (flags % 2 == 1))
      × ((entry / 2 % 2 == 1) ≡ (flags / 2 % 2 == 1))
      × ((entry / 4 % 2 == 1) ≡ (flags / 8 % 2 == 1))
      × ((entry / 2 ^ 63 == 0) ≡ (flags / 4 % 2 == 1))
unfolding transform_flags
or_flags-transform_flags paddr flags a =
    rw
      (or_flags-bits paddr (flags % 2 == 1) (flags / 2 % 2 == 1) (flags / 8 % 2 == 1)
        (flags / 4 % 2 == 1) a)
      (ground arith)

-- An entry that is stored is loaded from its slot; the other slots are as before.
pub load_entry-store_entry :
    (h : Heap) (lvl index entry : ℕ)
    → entry < 2 ^ 64
    → load_entry (store_entry lvl index entry h) lvl index ≡ entry
unfolding load_entry store_entry
load_entry-store_entry h lvl index entry fits =
    load_le-store_le 8 h.pmm.memory _ entry (omega arith)

-- Two slots that do not overlap in memory.
abbrev pub Apart : ℕ → ℕ → Type 0
Apart a b = (a + 8 ≤ b) ⊎ (b + 8 ≤ a)

abbrev pub place : Heap → ℕ → ℕ → ℕ
place h lvl index = phys h.hhdm_off (slot lvl index)

pub load_entry-store_entry-Apart :
    (h : Heap) (lvl index entry lvl' index' : ℕ)
    → Apart (place h lvl index) (place h lvl' index')
    → load_entry (store_entry lvl index entry h) lvl' index' ≡ load_entry h lvl' index'
unfolding load_entry store_entry
load_entry-store_entry-Apart h lvl index entry lvl' index' apart =
    load_le_frame 8 h.pmm.memory _ (place h lvl' index')
      (λ b lo hi. store_le_frame 8 h.pmm.memory (place h lvl index) entry b (ground arith))

pub get_addr-PageAddress : (entry : ℕ) → PageAddress (get_addr entry)
get_addr-PageAddress entry = omega arith

pub or_flags-transform_flags-le :
    (paddr flags : ℕ)
    → PageAddress paddr
    → or_flags paddr (transform_flags flags) ≤ paddr + (2 ^ 63 + 7)
unfolding transform_flags
or_flags-transform_flags-le paddr flags a =
    rw
      (or_flags-bits paddr (flags % 2 == 1) (flags / 2 % 2 == 1) (flags / 8 % 2 == 1)
        (flags / 4 % 2 == 1) a)
      (ground arith)
