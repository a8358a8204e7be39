-- ===== src/Tests/Exec.antt =====
-- src/arch/x86_64/pager.c and src/core/sys/krnlexec.c at concrete inputs: the heap of Tests/Heap, in
-- which page 0 holds the page bitmap and every other page is free.
use h0r_net.Common.{
  if◌then◌else◌, ◌==◌, ℕ_discrete, ℕ, ◌+◌, ◌^◌, ◌<◌, ◌≡◌, refl, true, false, arith, ok, inl,
}
use h0r_net.Libk.Bitmap.{bitmap_get}
use h0r_net.Common.LittleEndian.{load_le}
use h0r_net.Mm.Heap.{Heap}
use h0r_net.Arch.Pager.{load_entry, vmm_map_range}
use h0r_net.Arch.Pager.Fill.{TablePage}
use h0r_net.Arch.Pager.Fill.Maps.{CanFill}
use h0r_net.Arch.Pager.Fill.Stretch.{Stretch, Stretched, vmm_map_range-Stretched}
use h0r_net.Sys.Sched.{Sched, Process, is_ready}
use h0r_net.Sys.Sched.Switch.{Changed}
use h0r_net.Sys.Exec.{first_frame, execute}
use h0r_net.Sys.Exec.Prepared.{CanExecute}
use h0r_net.Sys.Exec.Process.{HasProcess, execute-HasProcess}
use h0r_net.Tests.Mm.{ready_one}
use h0r_net.Tests.Heap.{heap}
use h0r_net.Tests.Sys.{table}

table_page : (t : ℕ) → 0 < t → t < 32 → TablePage (2 ^ 47) heap.pmm.page_bmp t
table_page t lo hi = record { mapped = omega arith; clear = λ a inside. ground arith }

can_execute : CanExecute heap 0x10000 1 2 4 5 6
unfolding bitmap_get
can_execute = record {
  create = record {
    fresh = record { ready = ready_one; mapped = omega arith };
    boot_mapped = omega arith;
    apart = inl (omega arith);
    clear = λ a inside. ground arith;
  };
  at_root = table_page 1 (omega arith) (omega arith);
  at_3 = table_page 4 (omega arith) (omega arith);
  at_2 = table_page 5 (omega arith) (omega arith);
  at_1 = table_page 6 (omega arith) (omega arith);
  order = (omega arith, omega arith, omega arith, omega arith);
  bounds = (omega arith, omega arith, omega arith);
  free_s = refl;
  free_3 = refl;
  free_2 = refl;
  free_1 = refl;
  taken =
      λ j lt ne0 nes ne3 ne2. (let first : j ≡ 0 = omega (arith, nes.0, nes.1) in rw first refl);
  one_table = omega arith;
}

execute-HasProcess_example :
    (h' : Heap) × (t' : Sched) × (p : Process) × (execute 0x10000 7 0x200000 false heap table
      ≡ ok (h', t'))
    × HasProcess can_execute h'
    × Changed table t' 2 p
    × (is_ready p ≡ true)
    × (p.regs ≡ first_frame 0x200000 8192 false)
    × (p.pagemap ≡ 2 ^ 47 + 4096)
execute-HasProcess_example =
    execute-HasProcess can_execute 7 0x200000 false table refl (omega arith)

-- Page 1 is in use as well, for an empty page map.
abbrev with_map : Heap
with_map = record {
  pmm = record heap.pmm { memory = λ a. if a == 0 then 3 else 0 };
  hhdm_off = 2 ^ 47;
}

can_fill : CanFill with_map 1 0x400000 2 3 4
unfolding bitmap_get load_entry load_le
can_fill = record {
  bytes = λ a. ground arith;
  small = omega arith;
  at_root = table_page 1 (omega arith) (omega arith);
  at_3 = table_page 2 (omega arith) (omega arith);
  at_2 = table_page 3 (omega arith) (omega arith);
  at_1 = table_page 4 (omega arith) (omega arith);
  absent = refl;
  in_use = refl;
  order = (omega arith, omega arith);
  free_3 = refl;
  free_2 = refl;
  free_1 = refl;
  taken = λ j lt ne2 ne3. elim (ℕ_discrete j 0) [
    | yes e ↦ rw e refl
    | no ne ↦ (let one : j ≡ 1 = omega arith in rw one refl)
  ];
  within = omega arith;
  low = omega arith;
}

-- Three pages from 0x30000 on.
stretch : Stretch 0x400000 0x30000 3
stretch = record {
  some_pages = omega arith;
  one_table = omega arith;
  word = omega arith;
  aligned = refl;
  top = omega arith;
}

vmm_map_range-Stretched_example :
    (h' : Heap) × (vmm_map_range (2 ^ 47 + 4096) 0x400000 0x30000 3 3 with_map ≡ ok (true, h'))
    × Stretched can_fill 3 refl stretch h'
vmm_map_range-Stretched_example = vmm_map_range-Stretched can_fill 3 refl stretch
