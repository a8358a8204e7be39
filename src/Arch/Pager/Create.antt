-- ===== src/Arch/Pager/Create.antt =====
-- arch/x86_64/pager.c, `vmm_create_pagemap`: what a new page map has.
use h0r_net.Mm.Pmm.Pages.{in_buffer}
use h0r_net.Common.{
  ℕ, zero, suc, ◌+◌, ◌*◌, ◌^◌, ◌≤◌, ◌<◌, ◌≡◌, ◌⊎◌, refl, true, false, u64, arith, ◌∙◌, ap, sym, ok,
  IsBytes, ltb, leb, ◌&&◌, if◌then◌else◌, ℕ_discrete, Mem,
}
use native.Mathlib.Nat.{pow-suc}
use h0r_net.Common.LittleEndian.{load_le, load_le_frame, store_le-IsBytes}
use h0r_net.Libk.Memory.Laws.{in_area, memset-get, memset-IsBytes}
use h0r_net.Mm.Pmm.{page_size}
use h0r_net.Mm.Pmm.Requests.{request_pages-MarkedRange}
use h0r_net.Mm.Heap.{Heap}
use h0r_net.Arch.Pager.{load_entry, store_entry, copy_entries, vmm_create_pagemap}
use h0r_net.Mm.Pmm.Pages.{in_buffer}
use h0r_net.Arch.Pager.Fresh.{Fresh, new_lvl, taken, with_table, new_table-Fresh}
use h0r_net.Arch.Pager.Entries.{place, load_entry-store_entry, load_entry-store_entry-Apart}

load_le-lt : (n : ℕ) (m : Mem) (a : ℕ) → IsBytes m → load_le n m a < 256 ^ n
unfolding load_le
load_le-lt zero m a bytes = omega arith
load_le-lt (suc n) m a bytes = omega (arith, bytes a, load_le-lt n m (a + 1) bytes, pow-suc 256 n)

pub load_le-zeros :
    (n : ℕ) (m : Mem) (a : ℕ) → ((b : ℕ) → a ≤ b → b < a + n → m b ≡ 0) → load_le n m a ≡ 0
unfolding load_le
load_le-zeros zero m a zeros = refl
load_le-zeros (suc n) m a zeros = omega (
  arith,
  zeros a (omega arith) (omega arith),
  load_le-zeros n m (a + 1) (λ b lo hi. zeros b (omega arith) (omega arith)),
)

-- The entries of the tables at `to` and `from` stand in a page each, at `p` and at `q`.
record Tables (h : Heap) (to from p q : ℕ) : Type 0 where
  at_to : (j : ℕ) → j < 512 → place h to j ≡ p + 8 * j
  at_from : (j : ℕ) → j < 512 → place h from j ≡ q + 8 * j
  apart : (p + page_size ≤ q) ⊎ (q + page_size ≤ p)
  bytes : IsBytes h.pmm.memory

-- The state after one round.
abbrev copied : ℕ → ℕ → ℕ → Heap → Heap
copied to from i h = store_entry to i (load_entry h from i) h

module _ {to from p q : ℕ} where
  copied-Tables :
      {h : Heap} (i : ℕ) → Tables h to from p q → Tables (copied to from i h) to from p q
  unfolding store_entry
  copied-Tables {h} i t = record {
    at_to = t.at_to;
    at_from = t.at_from;
    apart = t.apart;
    bytes = store_le-IsBytes 8 h.pmm.memory _ _ t.bytes;
  }

  copied-to :
      {h : Heap} (i j : ℕ)
      → Tables h to from p q
      → i < 512
      → j < 512
      → load_entry (copied to from i h) to j
        ≡ (if leb i j && leb j i then load_entry h from j else load_entry h to j)
  unfolding load_entry
  copied-to {h} i j t lt lt' = elim (ℕ_discrete i j) [
    | yes e ↦
        let word : load_entry h from i < 2 ^ 64 =
          load_le-lt 8 h.pmm.memory (place h from i) t.bytes in
        let here : (leb i j && leb j i) ≡ true = ground arith in
        rw here (
          ap (load_entry (copied to from i h) to) (sym e)
          ∙ load_entry-store_entry h to i (load_entry h from i) word
          ∙ ap (load_entry h from) e)
    | no ne ↦
        let other : (leb i j && leb j i) ≡ false = ground arith in
        rw other (
          load_entry-store_entry-Apart h to i (load_entry h from i) to j
            (omega (arith, t.at_to i lt, t.at_to j lt')))
  ]

  copied-from :
      {h : Heap} (i j : ℕ)
      → Tables h to from p q
      → i < 512
      → j < 512
      → load_entry (copied to from i h) from j ≡ load_entry h from j
  copied-from {h} i j t lt lt' =
      load_entry-store_entry-Apart h to i (load_entry h from i) from j
        (ground (arith, t.at_to i lt, t.at_from j lt', t.apart))

  -- The entries from `i` are copied, the others stay.
  copy_entries-to :
      (h : Heap) (i left j : ℕ)
      → Tables h to from p q
      → i + left ≤ 512
      → j < 512
      → load_entry (copy_entries to from i left h) to j
        ≡ (if leb i j && ltb j (i + left) then load_entry h from j else load_entry h to j)
  unfolding copy_entries
  copy_entries-to h i zero j t room lt = ground arith
  copy_entries-to h i (suc left) j t room lt =
      copy_entries-to (copied to from i h) (i + 1) left j (copied-Tables i t) (omega arith) lt
      ∙ ground (arith, copied-to i j t (omega arith) lt, copied-from i j t (omega arith) lt)

-- Page `i` is a new table, and the page of the boot loader's map at `pagemap` overlaps neither it nor
-- the bitmap of the pages.
pub record CanCreate (h : Heap) (i pagemap : ℕ) : Type 0 where
  pub fresh : Fresh h i
  pub boot_mapped : h.hhdm_off + pagemap + page_size ≤ 2 ^ 64
  pub apart : (i * page_size + page_size ≤ pagemap) ⊎ (pagemap + page_size ≤ i * page_size)
  pub clear : (a : ℕ) → in_area pagemap page_size a ≡ true → in_buffer h.pmm.page_bmp a ≡ false

module _ {h : Heap} {i pagemap : ℕ} (c : CanCreate h i pagemap) where
  abbrev boot : ℕ
  boot = h.hhdm_off + pagemap

  abbrev pml4 : ℕ
  pml4 = new_lvl c.fresh

  with_table-Tables : Tables (with_table c.fresh) pml4 boot (i * page_size) pagemap
  with_table-Tables = record {
    at_to = λ j lt. ground (arith, c.fresh.mapped);
    at_from = λ j lt. ground (arith, c.boot_mapped);
    apart = c.apart;
    bytes =
        memset-IsBytes (taken c.fresh).memory (i * page_size) 0 page_size
          (request_pages-MarkedRange c.fresh.ready).2.bytes;
  }

  -- The new table is empty, and the boot loader's is as before.
  with_table-to : (j : ℕ) → j < 512 → load_entry (with_table c.fresh) pml4 j ≡ 0
  unfolding load_entry
  with_table-to j lt =
      let at : place h pml4 j ≡ i * page_size + 8 * j = with_table-Tables.at_to j lt in
      load_le-zeros 8 (with_table c.fresh).pmm.memory (place h pml4 j) (λ b lo hi.
        memset-get (taken c.fresh).memory (i * page_size) 0 page_size b
        ∙ ground (arith, at, lo, hi))

  with_table-from : (j : ℕ) → j < 512 → load_entry (with_table c.fresh) boot j ≡ load_entry h boot j
  unfolding load_entry
  with_table-from j lt =
      let at : place h boot j ≡ pagemap + 8 * j = with_table-Tables.at_from j lt in
      load_le_frame 8 h.pmm.memory (with_table c.fresh).pmm.memory (place h boot j) (λ b lo hi.
        let outside : in_area (i * page_size) page_size b ≡ false =
          ground (arith, at, lo, hi, c.apart) in
        memset-get (taken c.fresh).memory (i * page_size) 0 page_size b
        ∙ rw outside (
            (request_pages-MarkedRange c.fresh.ready).2.frame b
              (c.clear b (ground (arith, at, lo, hi)))))

  -- A new page map is the first free page. Its lower half is empty, and each entry of its upper half
  -- is the one of the boot loader's map.
  pub vmm_create_pagemap-halves :
      (h' : Heap) × (vmm_create_pagemap pagemap h ≡ ok (h.hhdm_off + i * page_size, h'))
      × ((j : ℕ) → j < 256 → load_entry h' (h.hhdm_off + i * page_size) j ≡ 0)
      × ((j : ℕ)
          → 256 ≤ j
          → j < 512
          → load_entry h' (h.hhdm_off + i * page_size) j ≡ load_entry h (h.hhdm_off + pagemap) j)
  unfolding vmm_create_pagemap
  vmm_create_pagemap-halves =
      let word : u64 (pagemap + h.hhdm_off) ≡ boot = omega (arith, c.boot_mapped) in
      let copy =
        λ (j : ℕ). copy_entries-to (with_table c.fresh) 256 256 j with_table-Tables (omega arith) in
      (
        copy_entries pml4 boot 256 256 (with_table c.fresh),
        rw (new_table-Fresh c.fresh, word) refl,
        λ j low. copy j (omega arith) ∙ ground (arith, with_table-to j (omega arith)),
        λ j lo hi. copy j hi ∙ ground (arith, with_table-from j hi),
      )
