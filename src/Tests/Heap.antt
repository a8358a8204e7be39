-- ===== src/Tests/Heap.antt =====
-- src/core/mm/heap.c at concrete inputs: pages reached through the higher half at 2 ^ 47.
use h0r_net.Common.{
  ℕ, ◌+◌, ◌*◌, ◌^◌, ◌≤◌, ◌<◌, ◌≡◌, ◌↔◌, refl, true, false, Mem, IsBytes, ok, arith, if◌then◌else◌,
  ◌==◌, ◌∙◌,
}
use h0r_net.Common.LittleEndian.{load_le}
use h0r_net.Libk.Bitmap.{bitmap_get}
use h0r_net.Libk.Memory.Laws.{in_area}
use h0r_net.Mm.Pmm.{page_size}
use h0r_net.Mm.Pmm.Pages.{locked}
use h0r_net.Mm.Heap.{Heap, malloc, free, realloc, size_of}
use h0r_net.Mm.Heap.Blocks.{block_at, Reachable, Allocated, malloc-Allocated, malloc_room_iff}
use h0r_net.Mm.Heap.Frees.{Live, free-MarkedRange, free-malloc, Movable, realloc-keeps}
use h0r_net.Tests.Mm.{pmm, ready_one}

abbrev pub heap : Heap
heap = record { pmm = pmm; hhdm_off = 2 ^ 47 }

reachable : Reachable heap 1 1
reachable = record { mapped = omega arith; clear = λ a inside. ground arith }

malloc-Allocated_example :
    (h' : Heap) × (malloc 100 heap ≡ ok (block_at (2 ^ 47) 1, h')) × Allocated heap h' 1 100
malloc-Allocated_example = malloc-Allocated heap 1 100 ready_one reachable (omega arith)

-- A block of 4090 bytes runs two bytes past its page.
malloc_room_iff_example :
    (block_at (2 ^ 47) 1 + 4090 ≤ 2 ^ 47 + (1 + 1) * page_size) ↔ (4090 ≤ 4088)
malloc_room_iff_example =
    let (h', e, a) = malloc-Allocated heap 1 4090 ready_one reachable (omega arith) in
    malloc_room_iff heap 1 4090 (block_at (2 ^ 47) 1) h' ready_one reachable (omega arith) e

free-malloc_example :
    (h' : Heap) × (malloc 100 heap ≡ ok (block_at (2 ^ 47) 1, h'))
    × ((j : ℕ)
        → j ≤ 128
        → locked (free (block_at (2 ^ 47) 1) h').pmm j
          ≡ (if in_area 1 1 j then false else locked pmm j))
free-malloc_example = free-malloc heap 1 100 ready_one reachable (omega arith)

-- Page 1 holds a block of 100 bytes.
abbrev used_memory : Mem
used_memory = λ a. if a == 0 then 3 else if a == 4096 then 100 else 0

used_memory-IsBytes : IsBytes used_memory
used_memory-IsBytes a = ground arith

abbrev used : Heap
used = record { pmm = record pmm { memory = used_memory }; hhdm_off = 2 ^ 47 }

live : Live used 1 100
unfolding size_of load_le
live = record {
  bytes = used_memory-IsBytes;
  header = refl;
  covered = record { no_wrap = omega arith; in_bitmap = omega arith };
  reachable = record { mapped = omega arith; clear = λ a inside. ground arith };
}

page_zero : locked used.pmm 0 ≡ true
unfolding bitmap_get
page_zero = refl

movable : Movable used 1 100 1 50
movable =
    let m = (free-MarkedRange used 1 100 live).1 in
    record {
      live = live;
      room = omega arith;
      ready = record {
        bytes = m.bytes;
        small = omega arith;
        first = record {
          below = λ j lt. (let z : j ≡ 0 = omega arith in rw z (m.bits 0 ∙ page_zero));
          here = m.bits 1;
          within = rw m.same_bmp (omega arith);
          word = omega arith;
        };
        covered = record { no_wrap = omega arith; in_bitmap = rw m.same_bmp (omega arith) };
      };
      reachable = record {
        mapped = omega (arith, (free-MarkedRange used 1 100 live).0);
        clear = λ a inside. rw m.same_bmp (live.reachable.clear a inside);
      };
      word = omega arith;
    }

realloc-keeps_example :
    (h' : Heap) × (realloc (block_at (2 ^ 47) 1) 50 used ≡ ok (block_at (2 ^ 47) 1, h'))
    × ((k : ℕ)
        → k < 100
        → k < 50
        → h'.pmm.memory (1 * page_size + 8 + k) ≡ used_memory (1 * page_size + 8 + k))
realloc-keeps_example = realloc-keeps used 1 100 1 50 movable
