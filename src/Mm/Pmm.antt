-- ===== src/Mm/Pmm.antt =====
-- core/mm/pmm.c: the physical memory manager. Its globals are a record; `memory` is the physical
-- memory, where the page bitmap lies. `highest_block` is never used, and the log calls are left out.
pub mod Pages
pub mod Ranges
pub mod Search
pub mod Requests
pub mod Live
pub mod Boot
pub mod Map
use h0r_net.Common.{
  ◌-◌, ℕ, zero, suc, ◌+◌, ◌*◌, ◌/◌, Bool, true, false, ◌||◌, Option, none, some, List, [], ◌∷◌, ltb,
  ◌==◌, ◌!=◌, if◌then◌else◌, u64, sub64, Mem, Outcome, ok, halted, ◌>>=◌,
}
use h0r_net.Libk.Bitmap.{Bitmap, bitmap_get, bitmap_set, is_set}
use h0r_net.Libk.Memory.{memset}

abbrev pub page_size : ℕ
page_size = 4096

-- HN_ERR_OUT_OF_MEM
abbrev pub err_out_of_mem : ℕ
err_out_of_mem = 35

pub record Pmm : Type 0 where
  pub memory : Mem
  pub page_bmp : Bitmap
  pub total_mem : ℕ
  pub free_mem : ℕ
  pub used_mem : ℕ

-- The four operations on one page. `true` is also returned where there is nothing to do.
unfoldable pub lock_page : ℕ → Pmm → Bool × Pmm
lock_page addr p =
    let index = addr / page_size in
    if is_set p.memory p.page_bmp index
    then (true, p)
    else let (done, m) = bitmap_set p.memory p.page_bmp index 1 in
      if done
      then (
        true,
        record p {
          memory = m;
          free_mem = sub64 p.free_mem page_size;
          used_mem = u64 (p.used_mem + page_size);
        },
      )
      else (false, p)

unfoldable pub free_page : ℕ → Pmm → Bool × Pmm
free_page addr p =
    let index = addr / page_size in
    if bitmap_get p.memory p.page_bmp index == 0
    then (true, p)
    else let (done, m) = bitmap_set p.memory p.page_bmp index 0 in
      if done
      then (
        true,
        record p {
          memory = m;
          free_mem = u64 (p.free_mem + page_size);
          used_mem = sub64 p.used_mem page_size;
        },
      )
      else (false, p)

unfoldable pub reserve_page : ℕ → Pmm → Bool × Pmm
reserve_page addr p =
    let index = addr / page_size in
    if is_set p.memory p.page_bmp index
    then (true, p)
    else let (done, m) = bitmap_set p.memory p.page_bmp index 1 in
      if done then (true, record p { memory = m }) else (false, p)

unfoldable pub unreserve_page : ℕ → Pmm → Bool × Pmm
unreserve_page addr p =
    let index = addr / page_size in
    if bitmap_get p.memory p.page_bmp index == 0
    then (true, p)
    else let (done, m) = bitmap_set p.memory p.page_bmp index 0 in
      if done then (true, record p { memory = m }) else (false, p)

-- The loop of the four operations on `num` pages, with `left` rounds to go from round `i`.
unfoldable pub each_page : (ℕ → Pmm → Bool × Pmm) → ℕ → ℕ → ℕ → Pmm → Bool × Pmm
each_page op addr zero i p = (true, p)
each_page op addr (suc left) i p =
    let (done, p') = op (u64 (addr + i * page_size)) p in
    let rest = each_page op addr left (i + 1) p' in if done then rest else (false, p')

unfoldable pub lock_pages : ℕ → ℕ → Pmm → Bool × Pmm
unfolding each_page lock_page
lock_pages addr num p = each_page lock_page addr num 0 p

unfoldable pub free_pages : ℕ → ℕ → Pmm → Bool × Pmm
unfolding each_page free_page
free_pages addr num p = each_page free_page addr num 0 p

unfoldable pub reserve_pages : ℕ → ℕ → Pmm → Bool × Pmm
unfolding each_page reserve_page
reserve_pages addr num p = each_page reserve_page addr num 0 p

unfoldable pub unreserve_pages : ℕ → ℕ → Pmm → Bool × Pmm
unfolding each_page unreserve_page
unreserve_pages addr num p = each_page unreserve_page addr num 0 p

-- The inner loop of `find_free_range`, at `page`; the bit that it reads is `addr + page / PAGE_SIZE`.
pub fits_at : Mem → Bitmap → ℕ → ℕ → ℕ → ℕ → Bool
fits_at m bmp npages addr zero page = false
fits_at m bmp npages addr (suc left) page =
    let rest = fits_at m bmp npages addr left (page + 1) in
    if is_set m bmp (u64 (addr + page / page_size))
    then false
    else if page == npages
    then true
    else rest

-- The outer loop, over `addr <= page_bmp.size`.
pub find_from : Mem → Bitmap → ℕ → ℕ → ℕ → Option ℕ
find_from m bmp npages zero addr = none
find_from m bmp npages (suc left) addr =
    let rest = find_from m bmp npages left (addr + 1) in
    if fits_at m bmp npages addr (npages + 1) 0 then some (u64 (addr * page_size)) else rest

unfoldable pub find_free_range : ℕ → Pmm → Outcome ℕ
unfolding find_from fits_at
find_free_range npages p = elim (find_from p.memory p.page_bmp npages (p.page_bmp.size + 1) 0) [
  | none ↦ halted err_out_of_mem
  | some addr ↦ ok addr
]

-- `NULL` where `lock_pages` reports a failure; the pages that it had locked stay so.
unfoldable pub request_pages : ℕ → Pmm → Outcome (ℕ × Pmm)
unfolding find_free_range lock_pages
request_pages num p = do
  pp ← find_free_range num p
  let (done, p') = lock_pages pp num p
  ok (if done then pp else 0, p')

-- What is used of an entry of the bootloader's memory map, and the three types that are usable:
-- LIMINE_MEMMAP_USABLE, _ACPI_RECLAIMABLE and _BOOTLOADER_RECLAIMABLE.
pub record MemmapEntry : Type 0 where
  pub base : ℕ
  pub length : ℕ
  pub type : ℕ

unfoldable pub is_usable : MemmapEntry → Bool
is_usable e = e.type == 0 || (e.type == 5 || e.type == 2)

-- The first loop of `pmm_init`: the bitmap's size, the free memory and the largest segment.
pub record Totals : Type 0 where
  pub bmp_size : ℕ
  pub free : ℕ
  pub largest : ℕ
  pub largest_size : ℕ

unfoldable pub add_entry : Totals → MemmapEntry → Totals
add_entry t e =
    let grown = u64 (t.bmp_size + (e.length / (page_size * 8) + 1)) in
    if is_usable e
    then (let free = u64 (t.free + e.length) in
        if ltb t.largest_size e.length
        then record { bmp_size = grown; free = free; largest = e.base; largest_size = e.length }
        else record t { bmp_size = grown; free = free })
    else record t { bmp_size = grown }

unfoldable pub add_entries : Totals → List MemmapEntry → Totals
unfolding add_entry
add_entries t [] = t
add_entries t (e ∷ es) = add_entries (add_entry t e) es

-- The second loop: the pages of every usable entry are unreserved; its result is not looked at.
unfoldable pub unreserve_entries : List MemmapEntry → Pmm → Pmm
unfolding unreserve_pages
unreserve_entries [] p = p
unreserve_entries (e ∷ es) p =
    unreserve_entries es
      (if is_usable e then (unreserve_pages e.base (e.length / page_size) p).1 else p)

unfoldable pub align_up : ℕ → ℕ → ℕ
align_up x y = u64 (u64 (x + (y - 1)) / y * y)

-- The state between the two loops: the totals are set, and every bit of the bitmap, which is put at
-- the start of the largest segment, is one.
unfoldable pub all_reserved : Totals → Pmm → Pmm
unfolding align_up memset
all_reserved t p =
    let size = align_up t.bmp_size page_size in
    record {
      memory = memset p.memory t.largest 0xff size;
      page_bmp = record { size = size; buffer = t.largest };
      total_mem = t.free;
      free_mem = t.free;
      used_mem = p.used_mem;
    }

abbrev pub first_totals : Pmm → Totals
first_totals p = record { bmp_size = 0; free = p.free_mem; largest = 0; largest_size = 0 }

unfoldable pub pmm_init : List MemmapEntry → Pmm → Outcome Pmm
unfolding add_entries all_reserved unreserve_entries lock_pages
pmm_init entries p =
    let t = add_entries (first_totals p) entries in
    if ltb t.largest_size t.bmp_size
    then halted err_out_of_mem
    else (let q = unreserve_entries entries (all_reserved t p) in
        ok (lock_pages q.page_bmp.buffer (q.page_bmp.size / page_size) q).1)
