-- ===== src/Sys/Exec/Process.antt =====
-- core/sys/krnlexec.c, `execute`: the process that it adds, with its page map and its stack.
use h0r_net.Common.{
  ℕ, ◌+◌, ◌*◌, ◌≤◌, ◌<◌, ◌≡◌, refl, Bool, true, ◌==◌, ◌||◌, if◌then◌else◌, arith, ◌∙◌, ap, ok, inr,
  length,
}
use h0r_net.Mm.Pmm.{request_pages, Pmm, page_size}
use h0r_net.Mm.Pmm.Pages.{locked}
use h0r_net.Mm.Pmm.Requests.{request_pages-MarkedRange}
use h0r_net.Mm.Heap.{Heap}
use h0r_net.Arch.Pager.{vmm_map_range, vmm_create_pagemap, load_entry, vmm_virt_to_phys}
use h0r_net.Arch.Pager.Fill.{table}
use h0r_net.Arch.Pager.Fill.Stretch.{Stretch, Stretched, vmm_map_range-Stretched}
use h0r_net.Arch.Pager.Fill.Copies.{vmm_create_pagemap-Created}
use h0r_net.Sys.Sched.{Sched, Process, is_ready, max_processes}
use h0r_net.Sys.Sched.Switch.{Changed, sched_add_process-ready}
use h0r_net.Sys.Exec.{sched_add_process, with_pmm, first_frame, execute}
use h0r_net.Sys.Exec.Prepared.{
  CanExecute, Prepared, facts, s_first, Prepared-requested, Prepared-CanFill,
}

-- The four calls of `execute`, one after the other.
execute-runs :
    (boot name func : ℕ) (user : Bool) (h : Heap) (t : Sched) {pagemap stack pid : ℕ}
    {mapped : Bool} {h1 h3 : Heap} {q : Pmm} {t' : Sched}
    → vmm_create_pagemap boot h ≡ ok (pagemap, h1)
    → request_pages 2 h1.pmm ≡ ok (stack, q)
    → vmm_map_range pagemap stack stack 2 11 (with_pmm h1 q) ≡ ok (mapped, h3)
    → sched_add_process name (first_frame func stack user) pagemap t ≡ ok (pid, t')
    → execute boot name func user h t ≡ ok (h3, t')
unfolding execute
execute-runs boot name func user h t creates requests maps adds =
    rw (creates, requests, maps, adds) refl

module _ {h : Heap} {boot p0 s i3 i2 i1 : ℕ} (c : CanExecute h boot p0 s i3 i2 i1) where
  stack : Stretch (s * page_size) (s * page_size) 2
  stack = record {
    some_pages = omega arith;
    one_table = (let few = c.one_table in omega arith);
    word = omega (arith, facts c);
    aligned = omega arith;
    top = omega (arith, facts c);
  }

  -- What `execute` leaves of the memory: the stack is where it is in physical memory, the upper half
  -- is the boot loader's, and at most six pages more are taken.
  pub record HasProcess (h3 : Heap) : Type 0 where
    pub stack_mapped :
        (k : ℕ)
        → k < 2
        → vmm_virt_to_phys (table h.hhdm_off p0) (s * page_size + k * page_size) h3
          ≡ ok (s * page_size + k * page_size, h3)
    pub upper :
        (j : ℕ)
        → 256 ≤ j
        → j < 512
        → load_entry h3 (table h.hhdm_off p0) j ≡ load_entry h (h.hhdm_off + boot) j
    pub bits :
        (j : ℕ)
        → j ≤ h.pmm.page_bmp.size * 8
        → locked h3.pmm j ≡ (
            if i3 == j || (i2 == j || i1 == j)
            then true
            else (if p0 == j || (s == j || (s + 1) == j) then true else locked h.pmm j))

  Stretched-HasProcess :
      (h2 h3 : Heap) (q : Prepared c h2)
      → Stretched (Prepared-CanFill c h2 q) 11 refl stack h3
      → HasProcess h3
  Stretched-HasProcess h2 h3 q t = record {
    stack_mapped = λ k lt. rw (← q.paged.same_off) (t.translates k lt);
    upper = λ j lo hi.
        let can = Prepared-CanFill c h2 q in
        let same : load_entry h3 (table h.hhdm_off p0) j ≡ load_entry h2 (table h.hhdm_off p0) j =
          rw (← q.paged.same_off)
            (t.others p0 j can.at_root hi can.in_use (inr (λ e. omega (arith, facts c)))) in
        same ∙ q.upper j lo hi;
    bits = λ j le. t.bits j (rw q.paged.same_bmp le) ∙ rw (q.bits j le);
  }

  map_stack :
      (h2 : Heap)
      → Prepared c h2
      → (h3 : Heap) × (vmm_map_range (table h.hhdm_off p0) (s * page_size) (s * page_size) 2 11 h2
          ≡ ok (true, h3))
        × HasProcess h3
  map_stack h2 q =
      let (h3, maps, stretched) = vmm_map_range-Stretched (Prepared-CanFill c h2 q) 11 refl stack in
      (h3, rw (← q.paged.same_off) maps, Stretched-HasProcess h2 h3 q stretched)

  -- `execute` with a slot free in the process table, and with pages free as `CanExecute` says, adds
  -- a ready process.
  pub execute-HasProcess :
      (name func : ℕ) (user : Bool) (t : Sched)
      → length t.processes ≡ max_processes
      → t.num_procs < max_processes
      → (h3 : Heap) × (t' : Sched) × (p : Process) × (execute boot name func user h t ≡ ok (h3, t'))
        × HasProcess h3
        × Changed t t' t.num_procs p
        × (is_ready p ≡ true)
        × (p.regs ≡ first_frame func (s * page_size) user)
        × (p.pagemap ≡ table h.hhdm_off p0)
  execute-HasProcess name func user t len room =
      let (h1, creates, created) = vmm_create_pagemap-Created c.create c.at_root in
      let first = s_first c h1 created in
      let size = ap (λ b. b.size) created.paged.same_bmp in
      let (q, requests, marked) = request_pages-MarkedRange {p = h1.pmm} {i = s} {num = 2} (record {
        bytes = created.paged.bytes;
        small = omega arith;
        first = first;
        covered = record {
          no_wrap = omega (arith, facts c);
          in_bitmap = omega (arith, size, facts c);
        };
      }) in
      let prepared = Prepared-requested c h1 q created marked in
      let (h3, maps, has) = map_stack (with_pmm h1 q) prepared in
      let (p, t', adds, changed, count, runs, frame, map_of) =
        sched_add_process-ready name (table h.hhdm_off p0) (first_frame func (s * page_size) user) t
          len room in
      (
        h3,
        t',
        p,
        execute-runs boot name func user h t creates requests maps adds,
        has,
        changed,
        runs,
        frame,
        map_of,
      )
