-- ===== src/Tests/Mm.antt =====
-- src/core/mm at concrete inputs: a bitmap of 16 bytes at address 0, whose page 0 is locked.
use h0r_net.Mm.Pmm.Boot.{pmm_init-Balanced, unreserved, usable_total, bitmap_locked}
use h0r_net.Common.{
  ◌+◌, ap, ◌<◌, ◌/◌, every-true, every, ℕ, ◌*◌, ◌≤◌, ◌≡◌, ◌↔◌, refl, true, false, List, [], ◌∷◌,
  Mem, IsBytes, store8, if◌then◌else◌, ◌==◌, arith, ok,
}
use h0r_net.Libk.Bitmap.{bitmap_get, bitmap_set}
use h0r_net.Libk.Memory.Laws.{in_area}
use h0r_net.Mm.Pmm.{
  unreserve_entries, all_reserved, add_entries, Pmm, request_pages, lock_pages, MemmapEntry,
  pmm_init, page_size, is_usable,
}
use h0r_net.Mm.Pmm.Pages.{locked, Balanced}
use h0r_net.Mm.Pmm.Ranges.{Covered, MarkedRange}
use h0r_net.Mm.Pmm.Map.{Aligned, InEntry, pmm_init_free_pages}
use h0r_net.Mm.Pmm.Search.{FirstFree}
use h0r_net.Mm.Pmm.Requests.{
  Ready, Exclusive, request_pages-MarkedRange, request_pages-Exclusive_iff,
}

abbrev pub memory : Mem
memory = λ a. if a == 0 then 1 else 0

abbrev pub pmm : Pmm
pmm = record {
  memory = memory;
  page_bmp = record { size = 16; buffer = 0 };
  total_mem = 65536;
  free_mem = 61440;
  used_mem = 4096;
}

pub memory-IsBytes : IsBytes memory
memory-IsBytes a = ground arith

first_free : FirstFree pmm 1
unfolding bitmap_get
first_free = record {
  below = λ j lt. (let zero_th : j ≡ 0 = omega arith in rw zero_th);
  here = refl;
  within = omega arith;
  word = omega arith;
}

ready : Ready pmm 1 2
ready = record {
  bytes = memory-IsBytes;
  small = omega arith;
  first = first_free;
  covered = record { no_wrap = omega arith; in_bitmap = omega arith };
}

pub ready_one : Ready pmm 1 1
ready_one = record {
  bytes = memory-IsBytes;
  small = omega arith;
  first = first_free;
  covered = record { no_wrap = omega arith; in_bitmap = omega arith };
}

request_pages-MarkedRange_example :
    (p' : Pmm) × (request_pages 2 pmm ≡ ok (4096, p')) × MarkedRange pmm p' 1 2 true
request_pages-MarkedRange_example = request_pages-MarkedRange ready

request_pages-Exclusive_iff_example :
    Exclusive 2 pmm ↔ ((j : ℕ) → in_area 1 2 j ≡ true → locked pmm j ≡ false)
request_pages-Exclusive_iff_example = request_pages-Exclusive_iff pmm 1 2 ready

-- With every bit set the kernel halts.
abbrev full : Pmm
full = record pmm { memory = λ a. 255 }

full-locked : (j : ℕ) → j ≤ 16 → locked full j ≡ true
unfolding bitmap_get
full-locked j le = every-true _ _ j (omega arith) checked
  where
    checked : every (λ i. locked full i) 17 ≡ true
    checked = unfold every in refl

-- A map of one usable entry, 16 pages from 0, and one that is reserved.
abbrev pub map_entries : List MemmapEntry
map_entries =
    record { base = 0; length = 65536; type = 0 }
    ∷ record { base = 65536; length = 4096; type = 1 }
    ∷ []

abbrev pub before_boot : Pmm
before_boot = record {
  memory = λ a. 0;
  page_bmp = record { size = 0; buffer = 0 };
  total_mem = 0;
  free_mem = 0;
  used_mem = 0;
}

abbrev pub booted : Pmm
booted = (bitmap_locked (unreserved map_entries before_boot)).1

pub boots : pmm_init map_entries before_boot ≡ ok booted
unfolding pmm_init is_usable add_entries
boots = refl

pmm_init-Balanced_example : Balanced booted × (booted.total_mem ≡ 65536)
unfolding usable_total is_usable
pmm_init-Balanced_example = pmm_init-Balanced map_entries before_boot boots refl

booted_bmp : booted.page_bmp ≡ record { size = 4096; buffer = 0 }
unfolding is_usable add_entries lock_pages unreserve_entries all_reserved bitmap_get store8
    bitmap_set
booted_bmp = refl

booted-Covered : Covered booted booted.page_bmp.buffer (booted.page_bmp.size / page_size)
booted-Covered = record {
  no_wrap = omega (arith, ap (λ b. b.size) booted_bmp, ap (λ b. b.buffer) booted_bmp);
  in_bitmap = omega (arith, ap (λ b. b.size) booted_bmp, ap (λ b. b.buffer) booted_bmp);
}

page_five : locked booted 5 ≡ false
unfolding is_usable add_entries lock_pages unreserve_entries all_reserved bitmap_get bitmap_set
    store8
page_five = refl

five_below : 5 < booted.page_bmp.size * 8
five_below = omega (arith, ap (λ b. b.size) booted_bmp)

map_entries-Aligned : Aligned map_entries
unfolding Aligned
map_entries-Aligned = (λ _. refl, (λ _. refl, tt))

pmm_init_free_pages_example :
    InEntry map_entries 5
    × ((a : ℕ)
        → 5 * page_size ≤ a
        → a < 5 * page_size + page_size
        → in_area booted.page_bmp.buffer booted.page_bmp.size a ≡ false)
pmm_init_free_pages_example =
    pmm_init_free_pages map_entries before_boot booted 5 (λ a. omega arith) (omega arith)
      map_entries-Aligned boots booted-Covered (omega (arith, ap (λ b. b.buffer) booted_bmp))
      (omega (arith, ap (λ b. b.size) booted_bmp)) five_below page_five
