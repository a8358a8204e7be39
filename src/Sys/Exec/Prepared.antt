-- ===== src/Sys/Exec/Prepared.antt =====
-- core/sys/krnlexec.c, `execute`: the memory when the stack of the new process is to be mapped.
use h0r_net.Common.{
  ℕ_discrete, ℕ_discrete, ℕ, ◌+◌, ◌*◌, ◌%◌, ◌^◌, ◌≤◌, ◌<◌, ◌≡◌, ◌≢◌, true, false, ◌==◌, ◌||◌,
  if◌then◌else◌, arith, ◌∙◌, ap, sym,
}
use h0r_net.Libk.Bitmap.{Bitmap}
use h0r_net.Mm.Pmm.{Pmm, page_size}
use h0r_net.Mm.Pmm.Pages.{locked}
use h0r_net.Mm.Pmm.Ranges.{MarkedRange}
use h0r_net.Mm.Pmm.Search.{FirstFree}
use h0r_net.Mm.Heap.{Heap}
use h0r_net.Common.LittleEndian.{load_le_frame}
use h0r_net.Arch.Pager.{load_entry, is_present, pml4_index}
use h0r_net.Arch.Pager.Entries.{place}
use h0r_net.Arch.Pager.Create.{CanCreate}
use h0r_net.Arch.Pager.Fill.{table, TablePage}
use h0r_net.Arch.Pager.Fill.Maps.{Paged, CanFill}
use h0r_net.Arch.Pager.Fill.Translates.{place-Paged}
use h0r_net.Arch.Pager.Fill.Copies.{Created}
use h0r_net.Sys.Exec.{with_pmm}

-- Pages are taken from the page allocator.
requested :
    {off : ℕ} {bm : Bitmap} {h : Heap} (p : Pmm) (lo n : ℕ)
    → Paged off bm h
    → MarkedRange h.pmm p lo n true
    → Paged off bm (with_pmm h p)
requested p lo n paged m = record {
  same_off = paged.same_off;
  same_bmp = m.same_bmp ∙ paged.same_bmp;
  bytes = m.bytes;
}

requested-entry :
    {off : ℕ} {bm : Bitmap} {h : Heap} (p : Pmm) (lo n t j : ℕ)
    → Paged off bm h
    → MarkedRange h.pmm p lo n true
    → TablePage off bm t
    → j < 512
    → load_entry (with_pmm h p) (table off t) j ≡ load_entry h (table off t) j
unfolding load_entry
requested-entry {off} {bm} {h} p lo n t j paged m r lt =
    let at = place-Paged t j paged r lt in
    load_le_frame 8 h.pmm.memory p.memory (place h (table off t) j)
      (λ b l u. m.frame b (rw paged.same_bmp (r.clear b (ground (arith, at, l, u)))))

-- `p0` is the first free page, the stack begins in page `s`, and `i3`, `i2` and `i1` are the next
-- three that are free. Whether the second page of the stack is free does not matter.
pub record CanExecute (h : Heap) (boot p0 s i3 i2 i1 : ℕ) : Type 0 where
  pub create : CanCreate h p0 boot
  pub at_root : TablePage h.hhdm_off h.pmm.page_bmp p0
  pub at_3 : TablePage h.hhdm_off h.pmm.page_bmp i3
  pub at_2 : TablePage h.hhdm_off h.pmm.page_bmp i2
  pub at_1 : TablePage h.hhdm_off h.pmm.page_bmp i1
  pub order : (p0 < s) × (s + 1 < i3) × (i3 < i2) × (i2 < i1)
  pub bounds : (i1 ≤ h.pmm.page_bmp.size) × (h.pmm.page_bmp.size < 2 ^ 49) × (i1 < 2 ^ 35)
  pub free_s : locked h.pmm s ≡ false
  pub free_3 : locked h.pmm i3 ≡ false
  pub free_2 : locked h.pmm i2 ≡ false
  pub free_1 : locked h.pmm i1 ≡ false
  pub taken :
      (j : ℕ) → j < i1 → j ≢ p0 → (j ≢ s) × (j ≢ s + 1) → j ≢ i3 → j ≢ i2 → locked h.pmm j ≡ true
  pub one_table : s % 512 < 511

module _ {h : Heap} {boot p0 s i3 i2 i1 : ℕ} (c : CanExecute h boot p0 s i3 i2 i1) where
  abbrev pub off : ℕ
  off = h.hhdm_off

  abbrev pub bm : Bitmap
  bm = h.pmm.page_bmp

  abbrev pub facts :
      (p0 < s)
      × (s + 1 < i3)
      × (i3 < i2)
      × (i2 < i1)
      × (i1 ≤ h.pmm.page_bmp.size)
      × (h.pmm.page_bmp.size < 2 ^ 49)
      × (i1 < 2 ^ 35)
  facts = (c.order.0, c.order.1, c.order.2, c.order.3, c.bounds.0, c.bounds.1, c.bounds.2)

  pub s_first : (h' : Heap) → Created h h' p0 boot → FirstFree h'.pmm s
  s_first h' n =
      let size = ap (λ b. b.size) n.paged.same_bmp in
      record {
        below = λ j lt. elim (ℕ_discrete p0 j) [
          | yes e ↦ n.bits j (omega (arith, facts)) ∙ ground arith
          | no ne ↦
              n.bits j (omega (arith, facts))
              ∙ ground (
                arith,
                c.taken j (omega (arith, facts)) (λ e. ne (sym e))
                    (λ e. omega arith, λ e. omega arith) (λ e. omega (arith, facts))
                    (λ e. omega (arith, facts)),
              )
        ];
        here = n.bits s (omega (arith, facts)) ∙ ground (arith, facts, c.free_s);
        within = omega (arith, size, facts);
        word = omega (arith, facts);
      }

  -- The state when the mapping begins.
  pub record Prepared (h2 : Heap) : Type 0 where
    pub paged : Paged off bm h2
    pub bits :
        (j : ℕ)
        → j ≤ bm.size * 8
        → locked h2.pmm j ≡ (if p0 == j || (s == j || (s + 1) == j) then true else locked h.pmm j)
    pub lower : (j : ℕ) → j < 256 → load_entry h2 (table off p0) j ≡ 0
    pub upper :
        (j : ℕ) → 256 ≤ j → j < 512 → load_entry h2 (table off p0) j ≡ load_entry h (off + boot) j

  pub Prepared-requested :
      (h' : Heap) (p : Pmm)
      → Created h h' p0 boot
      → MarkedRange h'.pmm p s 2 true
      → Prepared (with_pmm h' p)
  Prepared-requested h' p n m = record {
    paged = requested p s 2 n.paged m;
    bits = λ j le. ground (arith, m.bits j, n.bits j le);
    lower = λ j lt. requested-entry p s 2 p0 j n.paged m c.at_root (omega arith) ∙ n.lower j lt;
    upper = λ j lo hi. requested-entry p s 2 p0 j n.paged m c.at_root hi ∙ n.upper j lo hi;
  }

  Prepared-taken :
      (h2 : Heap) → Prepared h2 → (j : ℕ) → j < i1 → j ≢ i3 → j ≢ i2 → locked h2.pmm j ≡ true
  Prepared-taken h2 q j lt ne3 ne2 =
      let bit = q.bits j (omega (arith, facts)) in
      elim (ℕ_discrete j p0) [
        | yes e ↦ bit ∙ ground arith
        | no ne ↦ elim (ℕ_discrete j s) [
          | yes e ↦ bit ∙ ground arith
          | no nes ↦ elim (ℕ_discrete j (s + 1)) [
            | yes e ↦ bit ∙ ground arith
            | no nes' ↦ bit ∙ ground (arith, c.taken j lt ne (nes, nes') ne3 ne2)
          ]
        ]
      ]

  pub Prepared-CanFill : (h2 : Heap) → Prepared h2 → CanFill h2 p0 (s * page_size) i3 i2 i1
  Prepared-CanFill h2 q =
      let size = ap (λ b. b.size) q.paged.same_bmp in
      record {
        bytes = q.paged.bytes;
        small = omega (arith, size, facts);
        at_root = rw (q.paged.same_off, q.paged.same_bmp) c.at_root;
        at_3 = rw (q.paged.same_off, q.paged.same_bmp) c.at_3;
        at_2 = rw (q.paged.same_off, q.paged.same_bmp) c.at_2;
        at_1 = rw (q.paged.same_off, q.paged.same_bmp) c.at_1;
        absent =
            ap (λ o. is_present (load_entry h2 (table o p0) (pml4_index (s * page_size))))
              q.paged.same_off
            ∙ ap is_present (q.lower (pml4_index (s * page_size)) (omega (arith, facts)));
        in_use = q.bits p0 (omega (arith, facts)) ∙ ground arith;
        order = (c.order.2, c.order.3);
        free_3 = q.bits i3 (omega (arith, facts)) ∙ ground (arith, facts, c.free_3);
        free_2 = q.bits i2 (omega (arith, facts)) ∙ ground (arith, facts, c.free_2);
        free_1 = q.bits i1 (omega (arith, facts)) ∙ ground (arith, facts, c.free_1);
        taken = Prepared-taken h2 q;
        within = omega (arith, size, facts);
        low = omega (arith, facts);
      }
