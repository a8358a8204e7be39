-- ===== src/Arch/Pager/Fill/Maps.antt =====
-- arch/x86_64/pager.c: mapping an address that has no tables yet.
use h0r_net.Common.{
  ◌||◌, ℕ, ◌*◌, ◌%◌, ◌^◌, ◌≤◌, ◌<◌, ◌≡◌, ◌≢◌, ◌⊎◌, refl, true, false, ◌==◌, if◌then◌else◌, arith,
  ◌∙◌, ap, sym, ok, IsBytes, inl, ℕ_discrete,
}
use h0r_net.Libk.Bitmap.{Bitmap}
use h0r_net.Mm.Pmm.Pages.{locked}
use h0r_net.Mm.Pmm.Search.{FirstFree}
use h0r_net.Mm.Heap.{Heap}
use h0r_net.Arch.Pager.{
  transform_flags, is_present, load_entry, get_next_lvl, last_table, pml4_index, pml3_index,
  pml2_index,
}
use h0r_net.Arch.Pager.Walk.{Leads, Walk}
use h0r_net.Arch.Pager.Levels.{CanGrow}
use h0r_net.Arch.Pager.Fill.{table, TablePage, Grown, get_next_lvl-Grown}

module _ (off : ℕ) (bm : Bitmap) where
  -- The higher half is at `off`, and the page bitmap is `bm`.
  pub record Paged (h : Heap) : Type 0 where
    pub same_off : h.hhdm_off ≡ off
    pub same_bmp : h.pmm.page_bmp ≡ bm
    pub bytes : IsBytes h.pmm.memory

  Grown-Paged : {h h' : Heap} {t index i : ℕ} → Grown off bm h h' t index i → Paged h'
  Grown-Paged g = record { same_off = g.same_off; same_bmp = g.same_bmp; bytes = g.bytes }

  grow :
      (h : Heap) (t index i flags : ℕ)
      → Paged h
      → bm.size < 2 ^ 49
      → index < 512
      → TablePage off bm t
      → TablePage off bm i
      → t ≢ i
      → is_present (load_entry h (table off t) index) ≡ false
      → FirstFree h.pmm i
      → i < 2 ^ 40
      → flags % 2 ≡ 1
      → (h' : Heap) × (get_next_lvl (table off t) index (transform_flags flags) true h
          ≡ ok (table off i, h'))
        × Grown off bm h h' t index i
  grow h t index i flags p small lt at_t at_i ne absent first low reads =
      let size : h.pmm.page_bmp.size ≡ bm.size = ap (λ b. b.size) p.same_bmp in
      let f = first.within in
      let reach : TablePage h.hhdm_off h.pmm.page_bmp i = rw (p.same_off, p.same_bmp) at_i in
      let reach_t : TablePage h.hhdm_off h.pmm.page_bmp t = rw (p.same_off, p.same_bmp) at_t in
      let can : CanGrow h (table h.hhdm_off t) index i = record {
        absent = ap (λ o. is_present (load_entry h (table o t) index)) p.same_off ∙ absent;
        fresh = record {
          ready = record {
            bytes = p.bytes;
            small = omega arith;
            first = first;
            covered = record { no_wrap = omega arith; in_bitmap = omega arith };
          };
          mapped = reach.mapped;
        };
        address = low;
      } in
      rw (← p.same_off, ← p.same_bmp) (get_next_lvl-Grown lt reach_t reach ne can flags reads)

Leads-keeps :
    (h h' : Heap) (lvl index next : ℕ)
    → h'.hhdm_off ≡ h.hhdm_off
    → load_entry h' lvl index ≡ load_entry h lvl index
    → Leads h lvl index next
    → Leads h' lvl index next
Leads-keeps h h' lvl index next same_off same l =
    (ap is_present same ∙ l.0, rw (same, same_off) (l.1))

-- The pages `i3`, `i2` and `i1` are the first three that are free, and the page map in page `root`
-- has no entry for the address.
pub record CanFill (h : Heap) (root vaddr i3 i2 i1 : ℕ) : Type 0 where
  pub bytes : IsBytes h.pmm.memory
  pub small : h.pmm.page_bmp.size < 2 ^ 49
  pub at_root : TablePage h.hhdm_off h.pmm.page_bmp root
  pub at_3 : TablePage h.hhdm_off h.pmm.page_bmp i3
  pub at_2 : TablePage h.hhdm_off h.pmm.page_bmp i2
  pub at_1 : TablePage h.hhdm_off h.pmm.page_bmp i1
  pub absent : is_present (load_entry h (table h.hhdm_off root) (pml4_index vaddr)) ≡ false
  pub in_use : locked h.pmm root ≡ true
  pub order : (i3 < i2) × (i2 < i1)
  pub free_3 : locked h.pmm i3 ≡ false
  pub free_2 : locked h.pmm i2 ≡ false
  pub free_1 : locked h.pmm i1 ≡ false
  pub taken : (j : ℕ) → j < i1 → j ≢ i3 → j ≢ i2 → locked h.pmm j ≡ true
  pub within : i1 ≤ h.pmm.page_bmp.size
  pub low : i1 < 2 ^ 40

module _ {h : Heap} {root vaddr i3 i2 i1 : ℕ} (c : CanFill h root vaddr i3 i2 i1) (flags : ℕ)
    (reads : flags % 2 ≡ 1) where
  abbrev off : ℕ
  off = h.hhdm_off

  abbrev bm : Bitmap
  bm = h.pmm.page_bmp

  abbrev in_order : (i3 < i2) × (i2 < i1) × (i1 ≤ bm.size) × (i1 < 2 ^ 40) × (bm.size < 2 ^ 49)
  in_order = (c.order.0, c.order.1, c.within, c.low, c.small)

  pub used_ne : (u i : ℕ) → locked h.pmm u ≡ true → locked h.pmm i ≡ false → u ≢ i
  used_ne u i used free e =
      let same : locked h.pmm u ≡ false = ap (locked h.pmm) e ∙ free in absurd cc

  -- The first table.
  abbrev Step3 : Heap → Type 0
  Step3 h3 = Grown off bm h h3 root (pml4_index vaddr) i3

  abbrev Step2 : Heap → Heap → Type 0
  Step2 h3 h2 = Grown off bm h3 h2 i3 (pml3_index vaddr) i2

  abbrev Step1 : Heap → Heap → Type 0
  Step1 h2 h1 = Grown off bm h2 h1 i2 (pml2_index vaddr) i1

  step_3 :
      (h3 : Heap) × (get_next_lvl (table off root) (pml4_index vaddr) (transform_flags flags) true h
        ≡ ok (table off i3, h3))
      × Step3 h3
  step_3 =
      grow off bm h root (pml4_index vaddr) i3 flags
        (record { same_off = refl; same_bmp = refl; bytes = c.bytes }) c.small (omega arith)
        c.at_root c.at_3 (used_ne root i3 c.in_use c.free_3) c.absent
        (record {
          below = λ j lt.
              c.taken j (omega (arith, in_order)) (λ e. omega arith) (λ e. omega (arith, in_order));
          here = c.free_3;
          within = omega (arith, in_order);
          word = omega (arith, in_order);
        })
        (omega (arith, in_order)) reads

  step_2 :
      (h3 : Heap)
      → Step3 h3
      → (h2 : Heap) × (get_next_lvl
            (table off i3)
            (pml3_index vaddr)
            (transform_flags flags)
            true
            h3
          ≡ ok (table off i2, h2))
        × Step2 h3 h2
  step_2 h3 g3 =
      grow off bm h3 i3 (pml3_index vaddr) i2 flags (Grown-Paged off bm g3) c.small (omega arith)
        c.at_3 c.at_2 (λ e. omega (arith, in_order))
        (ap is_present (g3.zeros (pml3_index vaddr) (omega arith)))
        (record {
          below = λ j lt. elim (ℕ_discrete i3 j) [
            | yes e ↦ g3.bits j (omega (arith, in_order)) ∙ ground arith
            | no ne ↦
                g3.bits j (omega (arith, in_order))
                ∙ ground (
                  arith,
                  c.taken j (omega (arith, in_order)) (λ e. ne (sym e)) (λ e. omega arith),
                )
          ];
          here = g3.bits i2 (omega (arith, in_order)) ∙ ground (arith, in_order, c.free_2);
          within = omega (arith, in_order, ap (λ b. b.size) g3.same_bmp);
          word = omega (arith, in_order);
        })
        (omega (arith, in_order)) reads

  -- The bits after the first two.
  bits_2 :
      (h3 h2 : Heap)
      → Step3 h3
      → Step2 h3 h2
      → (j : ℕ) → j ≤ bm.size * 8
      → locked h2.pmm j ≡ (if i3 == j || i2 == j then true else locked h.pmm j)
  bits_2 h3 h2 g3 g2 j le = ground (arith, g2.bits j le, g3.bits j le)

  step_1 :
      (h3 h2 : Heap)
      → Step3 h3
      → Step2 h3 h2
      → (h1 : Heap) × (get_next_lvl
            (table off i2)
            (pml2_index vaddr)
            (transform_flags flags)
            true
            h2
          ≡ ok (table off i1, h1))
        × Step1 h2 h1
  step_1 h3 h2 g3 g2 =
      grow off bm h2 i2 (pml2_index vaddr) i1 flags (Grown-Paged off bm g2) c.small (omega arith)
        c.at_2 c.at_1 (λ e. omega (arith, in_order))
        (ap is_present (g2.zeros (pml2_index vaddr) (omega arith)))
        (record {
          below = λ j lt. elim (ℕ_discrete i3 j) [
            | yes e ↦ bits_2 h3 h2 g3 g2 j (omega (arith, in_order)) ∙ ground arith
            | no ne ↦ elim (ℕ_discrete i2 j) [
              | yes e ↦ bits_2 h3 h2 g3 g2 j (omega (arith, in_order)) ∙ ground arith
              | no ne' ↦
                  bits_2 h3 h2 g3 g2 j (omega (arith, in_order))
                  ∙ ground (arith, c.taken j lt (λ e. ne (sym e)) (λ e. ne' (sym e)))
            ]
          ];
          here =
              bits_2 h3 h2 g3 g2 i1 (omega (arith, in_order)) ∙ ground (arith, in_order, c.free_1);
          within = omega (arith, in_order, ap (λ b. b.size) g2.same_bmp);
          word = omega (arith, in_order);
        })
        (omega (arith, in_order)) reads

  -- The three tables, one after the other.
  pub record Filled (h' : Heap) : Type 0 where
    pub runs : last_table (table off root) vaddr (transform_flags flags) h ≡ ok (table off i1, h')
    pub paged : Paged off bm h'
    pub walk : Walk h' (table off root) vaddr (table off i3) (table off i2) (table off i1)
    pub bits :
        (j : ℕ)
        → j ≤ bm.size * 8
        → locked h'.pmm j ≡ (if i3 == j || (i2 == j || i1 == j) then true else locked h.pmm j)
    pub zeros : (j : ℕ) → j < 512 → load_entry h' (table off i1) j ≡ 0
    pub others :
        (u j : ℕ)
        → TablePage off bm u
        → j < 512
        → locked h.pmm u ≡ true
        → (u ≢ root) ⊎ (j ≢ pml4_index vaddr)
        → load_entry h' (table off u) j ≡ load_entry h (table off u) j

  Walk-steps :
      (h3 h2 h1 : Heap)
      → Step3 h3
      → Step2 h3 h2
      → Step1 h2 h1
      → Walk h1 (table off root) vaddr (table off i3) (table off i2) (table off i1)
  Walk-steps h3 h2 h1 g3 g2 g1 =
      let ne3 = used_ne root i3 c.in_use c.free_3 in
      let ne2 = used_ne root i2 c.in_use c.free_2 in
      let ne1 = used_ne root i1 c.in_use c.free_1 in
      record {
        to_pml3 =
            Leads-keeps h3 h1 (table off root) (pml4_index vaddr) (table off i3)
              (g1.same_off ∙ sym g3.same_off)
              (g1.others root (pml4_index vaddr) c.at_root (omega arith) ne1 (inl ne2)
                ∙ g2.others root (pml4_index vaddr) c.at_root (omega arith) ne2 (inl ne3))
              g3.leads;
        to_pml2 =
            Leads-keeps h2 h1 (table off i3) (pml3_index vaddr) (table off i2)
              (g1.same_off ∙ sym g2.same_off)
              (g1.others i3 (pml3_index vaddr) c.at_3 (omega arith) (λ e. omega (arith, in_order))
                (inl (λ e. omega (arith, in_order))))
              g2.leads;
        to_pml1 = g1.leads;
      }

  pub last_table-Filled : (h' : Heap) × Filled h'
  unfolding last_table
  last_table-Filled =
      let (h3, run3, g3) = step_3 in
      let (h2, run2, g2) = step_2 h3 g3 in
      let (h1, run1, g1) = step_1 h3 h2 g3 g2 in
      (
        h1,
        record {
          runs = rw (run3, run2, run1) refl;
          paged = Grown-Paged off bm g1;
          walk = Walk-steps h3 h2 h1 g3 g2 g1;
          bits = λ j le. ground (arith, g1.bits j le, bits_2 h3 h2 g3 g2 j le);
          zeros = g1.zeros;
          others = λ u j r lt used apart.
              let ne3 = used_ne u i3 used c.free_3 in
              let ne2 = used_ne u i2 used c.free_2 in
              let ne1 = used_ne u i1 used c.free_1 in
              g1.others u j r lt ne1 (inl ne2)
              ∙ g2.others u j r lt ne2 (inl ne3)
              ∙ g3.others u j r lt ne3 apart;
        },
      )
