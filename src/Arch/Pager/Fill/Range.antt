-- ===== src/Arch/Pager/Fill/Range.antt =====
-- arch/x86_64/pager.c, `vmm_map_range`: pages one after the other whose entries stand in one table.
use h0r_net.Common.{
  ℕ, zero, suc, ◌+◌, ◌*◌, ◌/◌, ◌^◌, ◌≤◌, ◌<◌, ◌≡◌, ◌≢◌, ◌⊎◌, refl, Bool, true, arith, ◌∙◌, ok, inl,
  inr, u64, ℕ_discrete, Outcome,
}
use h0r_net.Libk.Bitmap.{Bitmap}
use h0r_net.Mm.Pmm.{page_size}
use h0r_net.Mm.Pmm.Pages.{locked}
use h0r_net.Mm.Heap.{Heap}
use h0r_net.Arch.Pager.{
  or_flags, transform_flags, load_entry, store_entry, pml4_index, pml3_index, pml2_index,
  pml1_index, vmm_map_page, each_page,
}
use h0r_net.Arch.Pager.Entries.{
  PageAddress, or_flags-transform_flags, load_entry-store_entry, load_entry-store_entry-Apart,
}
use h0r_net.Arch.Pager.Walk.{Walk, Walk-store_entry, last_table-Walk}
use h0r_net.Arch.Pager.Fill.{table, TablePage}
use h0r_net.Arch.Pager.Fill.Maps.{Paged}
use h0r_net.Arch.Pager.Fill.Translates.{Apart-Paged, store_entry-Paged, store_entry-locked}

-- The indices of an address `k` pages on, in the same last table.
pub record Further (vaddr k : ℕ) : Type 0 where
  pub same_4 : pml4_index (vaddr + k * page_size) ≡ pml4_index vaddr
  pub same_3 : pml3_index (vaddr + k * page_size) ≡ pml3_index vaddr
  pub same_2 : pml2_index (vaddr + k * page_size) ≡ pml2_index vaddr
  pub next_1 : pml1_index (vaddr + k * page_size) ≡ pml1_index vaddr + k

pub further : (vaddr k : ℕ) → pml1_index vaddr + k < 512 → Further vaddr k
further vaddr k lt =
    let same : (vaddr + k * page_size) / 2 ^ 21 ≡ vaddr / 2 ^ 21 = omega arith in
    record {
      same_4 = omega (arith, same);
      same_3 = omega (arith, same);
      same_2 = omega (arith, same);
      next_1 = omega arith;
    }

-- Outside the entries that are stored from round `i` on.
abbrev pub Outside : (t first i left u j : ℕ) → Type 0
Outside t first i left u j = (u ≢ t) ⊎ ((j < first + i) ⊎ (first + (i + left) ≤ j))

elsewhere :
    {t : ℕ} (u j first i left : ℕ)
    → Outside t first i (suc left) u j
    → Outside t first (i + 1) left u j
elsewhere u j first i left (inl ne) = inl ne
elsewhere u j first i left (inr out) = inr (omega arith)

not_here :
    {t : ℕ} (u j first i left : ℕ) → Outside t first i (suc left) u j → (u ≢ t) ⊎ (j ≢ first + i)
not_here u j first i left (inl ne) = inl ne
not_here u j first i left (inr out) = inr (λ e. omega arith)

-- The pages of the tables that lead to an address.
pub record Rows (off : ℕ) (bm : Bitmap) (root i3 i2 i1 : ℕ) : Type 0 where
  pub at_root : TablePage off bm root
  pub at_3 : TablePage off bm i3
  pub at_2 : TablePage off bm i2
  pub at_1 : TablePage off bm i1
  pub last : (root ≢ i1) × (i3 ≢ i1) × (i2 ≢ i1)

module _ {off : ℕ} {bm : Bitmap} {root i3 i2 i1 : ℕ} (rows : Rows off bm root i3 i2 i1)
    (vaddr paddr flags : ℕ) (a : PageAddress paddr) (top : paddr + 2 ^ 21 ≤ 2 ^ 52)
    (word : vaddr < 2 ^ 64) where
  -- The tables of the address are there.
  pub record Linked (h : Heap) : Type 0 where
    pub paged : Paged off bm h
    pub walk : Walk h (table off root) vaddr (table off i3) (table off i2) (table off i1)

  abbrev pub entry_of : ℕ → ℕ
  entry_of k = or_flags (paddr + k * page_size) (transform_flags flags)

  abbrev stored : ℕ → Heap → Heap
  stored k h = store_entry (table off i1) (pml1_index vaddr + k) (entry_of k) h

  stored-Linked : (h : Heap) (k : ℕ) → Linked h → pml1_index vaddr + k < 512 → Linked (stored k h)
  stored-Linked h k l lt = record {
    paged = store_entry-Paged (table off i1) (pml1_index vaddr + k) (entry_of k) l.paged;
    walk = Walk-store_entry (table off i1) (pml1_index vaddr + k) (entry_of k) l.walk (record {
      at_pml4 =
          Apart-Paged i1 _ root _ l.paged rows.at_1 rows.at_root lt (omega arith) (inl rows.last.0);
      at_pml3 =
          Apart-Paged i1 _ i3 _ l.paged rows.at_1 rows.at_3 lt (omega arith) (inl rows.last.1);
      at_pml2 =
          Apart-Paged i1 _ i2 _ l.paged rows.at_1 rows.at_2 lt (omega arith) (inl rows.last.2);
    });
  }

  -- The tables lead to every page on the way as well.
  pub Walk-Further :
      (h : Heap) (k : ℕ)
      → Linked h
      → Further vaddr k
      → Walk h (table off root) (vaddr + k * page_size) (table off i3) (table off i2) (table off i1)
  Walk-Further h k l f = record {
    to_pml3 = rw f.same_4 l.walk.to_pml3;
    to_pml2 = rw f.same_3 l.walk.to_pml2;
    to_pml1 = rw f.same_2 l.walk.to_pml1;
  }

  abbrev pub step : ℕ → Heap → Outcome (Bool × Heap)
  step k =
      vmm_map_page (table off root) (u64 (vaddr + k * page_size)) (u64 (paddr + k * page_size))
        flags

  step-stored :
      (h : Heap) (k : ℕ) → Linked h → pml1_index vaddr + k < 512 → step k h ≡ ok (true, stored k h)
  unfolding vmm_map_page
  step-stored h k l lt =
      let f = further vaddr k lt in
      let v : u64 (vaddr + k * page_size) ≡ vaddr + k * page_size = omega arith in
      let p : u64 (paddr + k * page_size) ≡ paddr + k * page_size = omega (arith, a) in
      rw (v, p, last_table-Walk (transform_flags flags) (Walk-Further h k l f), f.next_1) refl

  -- `h'` is `h` with the entries of the pages from `i` on stored.
  pub record Mapped (h h' : Heap) (i left : ℕ) : Type 0 where
    pub linked : Linked h'
    pub stores :
        (k : ℕ)
        → i ≤ k
        → k < i + left
        → load_entry h' (table off i1) (pml1_index vaddr + k) ≡ entry_of k
    pub others :
        (u j : ℕ)
        → TablePage off bm u
        → j < 512
        → Outside i1 (pml1_index vaddr) i left u j
        → load_entry h' (table off u) j ≡ load_entry h (table off u) j
    pub bits : (j : ℕ) → j ≤ bm.size * 8 → locked h'.pmm j ≡ locked h.pmm j

  entry_of-fits : (k : ℕ) → k < 512 → entry_of k < 2 ^ 64
  entry_of-fits k lt =
      (or_flags-transform_flags (paddr + k * page_size) flags
        (omega (arith, a), omega (arith, top))).1

  Mapped-stored :
      (h h' : Heap) (i left : ℕ)
      → Linked h
      → pml1_index vaddr + (i + suc left) ≤ 512
      → Mapped (stored i h) h' (i + 1) left
      → Mapped h h' i (suc left)
  Mapped-stored h h' i left l room m =
      let at_1 = rows.at_1 in
      record {
        linked = m.linked;
        stores = λ k lo hi. elim (ℕ_discrete k i) [
          | yes e ↦
              m.others i1 (pml1_index vaddr + k) at_1 (omega arith) (inr (inl (omega arith)))
              ∙ rw e (
                  load_entry-store_entry h (table off i1) (pml1_index vaddr + i) (entry_of i)
                    (entry_of-fits i (omega arith)))
          | no ne ↦ m.stores k (omega arith) (omega arith)
        ];
        others = λ u j r lt out.
            m.others u j r lt (elsewhere u j (pml1_index vaddr) i left out)
            ∙ load_entry-store_entry-Apart h (table off i1) (pml1_index vaddr + i) (entry_of i)
                (table off u) j
                (Apart-Paged i1 _ u _ l.paged at_1 r (omega arith) lt
                  (not_here u j (pml1_index vaddr) i left out));
        bits = λ j le.
            m.bits j le
            ∙ store_entry-locked i1 (pml1_index vaddr + i) (entry_of i) j l.paged at_1 (omega arith)
                le;
      }

  pub each_page-Mapped :
      (left i : ℕ) (h : Heap)
      → Linked h
      → pml1_index vaddr + (i + left) ≤ 512
      → (h' : Heap) × (each_page step i left true h ≡ ok (true, h')) × Mapped h h' i left
  unfolding each_page
  each_page-Mapped zero i h l room = (
    h,
    refl,
    record {
      linked = l;
      stores = λ k lo hi. absurd (omega arith);
      others = λ u j r lt out. refl;
      bits = λ j le. refl;
    },
  )
  each_page-Mapped (suc left) i h l room =
      let (h', runs, m) =
        each_page-Mapped left (i + 1) (stored i h) (stored-Linked h i l (omega arith))
          (omega arith) in
      (h', rw (step-stored h i l (omega arith)) runs, Mapped-stored h h' i left l room m)
