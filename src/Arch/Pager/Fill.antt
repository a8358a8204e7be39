-- ===== src/Arch/Pager/Fill.antt =====
-- arch/x86_64/pager.c, `get_next_lvl` on tables that stand in pages: what making a table changes.
pub mod Maps
pub mod Translates
pub mod Range
pub mod Stretch
pub mod Copies
use h0r_net.Common.{
  ℕ, zero, suc, ◌+◌, ◌*◌, ◌/◌, ◌%◌, ◌^◌, ◌≤◌, ◌<◌, ◌≡◌, ◌≢◌, ◌⊎◌, refl, Bool, true, false, ◌==◌,
  if◌then◌else◌, u64, arith, ◌∙◌, ap, sym, ok, IsBytes, Mem, inl, inr, ℕ_discrete,
}
use h0r_net.Common.LittleEndian.{load_le_frame, store_le_frame, store_le-IsBytes}
use h0r_net.Libk.Bitmap.{Bitmap, is_set, bitmap_get}
use h0r_net.Libk.Memory.Laws.{in_area, memset-get, memset-IsBytes}
use h0r_net.Mm.Pmm.{Pmm, page_size}
use h0r_net.Mm.Pmm.Pages.{locked, in_buffer}
use h0r_net.Mm.Pmm.Requests.{Ready, request_pages-MarkedRange}
use h0r_net.Mm.Heap.{Heap}
use h0r_net.Arch.Pager.{
  or_flags, transform_flags, get_addr, is_present, load_entry, store_entry, get_next_lvl,
}
use h0r_net.Arch.Pager.Entries.{
  or_flags-transform_flags, load_entry-store_entry, load_entry-store_entry-Apart, Apart, place,
}
use h0r_net.Arch.Pager.Fresh.{Fresh, new_lvl, taken, with_table}
use h0r_net.Arch.Pager.Create.{load_le-zeros}
use h0r_net.Arch.Pager.Levels.{CanGrow, grown, get_next_lvl-CanGrow}
use h0r_net.Arch.Pager.Walk.{Leads}

-- The pointer to the table in page `t`, with the higher half at `off`.
abbrev pub table : ℕ → ℕ → ℕ
table off t = off + t * page_size

-- The higher half reaches page `t`, and the page bitmap lies elsewhere.
pub record TablePage (off : ℕ) (bm : Bitmap) (t : ℕ) : Type 0 where
  pub mapped : off + (t + 1) * page_size ≤ 2 ^ 64
  pub clear : (a : ℕ) → in_area (t * page_size) page_size a ≡ true → in_buffer bm a ≡ false

pub place-table :
    (h : Heap) (t j : ℕ)
    → TablePage h.hhdm_off h.pmm.page_bmp t
    → j < 512
    → place h (table h.hhdm_off t) j ≡ t * page_size + 8 * j
place-table h t j r lt = ground (arith, r.mapped)

pub Apart-slots :
    (t index u j : ℕ)
    → index < 512
    → j < 512
    → (u ≢ t) ⊎ (j ≢ index)
    → Apart (t * page_size + 8 * index) (u * page_size + 8 * j)
Apart-slots t index u j lt low (inl ne) = omega arith
Apart-slots t index u j lt low (inr ne) = omega arith

-- A bit of the page bitmap depends on the bitmap's bytes only.
pub locked_frame :
    (p p' : Pmm) (j : ℕ)
    → p'.page_bmp ≡ p.page_bmp
    → ((a : ℕ) → in_buffer p.page_bmp a ≡ true → p'.memory a ≡ p.memory a)
    → j ≤ p.page_bmp.size * 8
    → locked p' j ≡ locked p j
unfolding bitmap_get
locked_frame p p' j bmp same le = rw (bmp, same (p.page_bmp.buffer + j / 8) (ground arith)) refl

-- `h'` is `h` with a new table in page `i`, to which entry `index` of the table in page `t` leads.
pub record Grown (off : ℕ) (bm : Bitmap) (h h' : Heap) (t index i : ℕ) : Type 0 where
  pub same_off : h'.hhdm_off ≡ off
  pub same_bmp : h'.pmm.page_bmp ≡ bm
  pub bytes : IsBytes h'.pmm.memory
  pub bits : (j : ℕ) → j ≤ bm.size * 8 → locked h'.pmm j ≡ (if i == j then true else locked h.pmm j)
  pub leads : Leads h' (table off t) index (table off i)
  pub zeros : (j : ℕ) → j < 512 → load_entry h' (table off i) j ≡ 0
  pub others :
      (u j : ℕ)
      → TablePage off bm u
      → j < 512
      → u ≢ i
      → (u ≢ t) ⊎ (j ≢ index)
      → load_entry h' (table off u) j ≡ load_entry h (table off u) j

module _ {h : Heap} {t index i : ℕ} (lt : index < 512)
    (at_t : TablePage h.hhdm_off h.pmm.page_bmp t) (at_i : TablePage h.hhdm_off h.pmm.page_bmp i)
    (ne : t ≢ i) (g : CanGrow h (table h.hhdm_off t) index i) (flags : ℕ)
    (reads : flags % 2 ≡ 1) where
  abbrev entry : ℕ
  entry = or_flags (i * page_size) (transform_flags flags)

  abbrev made : Heap
  made = with_table g.fresh

  -- The memory of the table's pages before its entry is stored.
  made_outside :
      (a : ℕ)
      → in_area (i * page_size) page_size a ≡ false
      → made.pmm.memory a ≡ (taken g.fresh).memory a
  made_outside a out = memset-get (taken g.fresh).memory (i * page_size) 0 page_size a ∙ rw out refl

  made_frame :
      (a : ℕ)
      → in_area (i * page_size) page_size a ≡ false
      → in_buffer h.pmm.page_bmp a ≡ false
      → made.pmm.memory a ≡ h.pmm.memory a
  made_frame a out clear =
      made_outside a out ∙ (request_pages-MarkedRange g.fresh.ready).2.frame a clear

  made-zeros : (j : ℕ) → j < 512 → load_entry made (table h.hhdm_off i) j ≡ 0
  unfolding load_entry
  made-zeros j low =
      let at = place-table h i j at_i low in
      load_le-zeros 8 made.pmm.memory (place h (table h.hhdm_off i) j) (λ b lo hi.
        memset-get (taken g.fresh).memory (i * page_size) 0 page_size b
        ∙ ground (arith, at, lo, hi))

  made-others :
      (u j : ℕ)
      → TablePage h.hhdm_off h.pmm.page_bmp u
      → j < 512
      → u ≢ i
      → load_entry made (table h.hhdm_off u) j ≡ load_entry h (table h.hhdm_off u) j
  unfolding load_entry
  made-others u j r low other =
      let at = place-table h u j r low in
      load_le_frame 8 h.pmm.memory made.pmm.memory (place h (table h.hhdm_off u) j) (λ b lo hi.
        made_frame b (ground (arith, at, lo, hi, other)) (r.clear b (ground (arith, at, lo, hi))))

  stored_apart :
      (u j : ℕ)
      → TablePage h.hhdm_off h.pmm.page_bmp u
      → j < 512
      → (u ≢ t) ⊎ (j ≢ index)
      → load_entry (store_entry (table h.hhdm_off t) index entry made) (table h.hhdm_off u) j
        ≡ load_entry made (table h.hhdm_off u) j
  stored_apart u j r low apart =
      let at = place-table h u j r low in
      let at' = place-table h t index at_t lt in
      load_entry-store_entry-Apart made (table h.hhdm_off t) index entry (table h.hhdm_off u) j
        (rw (at, at') (Apart-slots t index u j lt low apart))

  grown-bits :
      (j : ℕ)
      → j ≤ h.pmm.page_bmp.size * 8
      → locked (grown g (transform_flags flags)).pmm j ≡ (if i == j then true else locked h.pmm j)
  unfolding store_entry
  grown-bits j le =
      let m = (request_pages-MarkedRange g.fresh.ready).2 in
      let at' = place-table h t index at_t lt in
      locked_frame (taken g.fresh) (grown g (transform_flags flags)).pmm j refl
        (λ a inside.
          let bitmap : in_buffer h.pmm.page_bmp a ≡ true = rw (← m.same_bmp) inside in
          let out_t : in_area (t * page_size) page_size a ≡ false =
            ground (arith, at_t.clear a, bitmap) in
          let out_i : in_area (i * page_size) page_size a ≡ false =
            ground (arith, at_i.clear a, bitmap) in
          store_le_frame 8 made.pmm.memory (place h (table h.hhdm_off t) index) entry a
            (ground (arith, at', out_t))
          ∙ made_outside a out_i)
        (rw m.same_bmp le)
      ∙ m.bits j
      ∙ ground arith

  pub get_next_lvl-Grown :
      (h' : Heap) × (get_next_lvl (table h.hhdm_off t) index (transform_flags flags) true h
        ≡ ok (table h.hhdm_off i, h'))
      × Grown h.hhdm_off h.pmm.page_bmp h h' t index i
  unfolding store_entry
  get_next_lvl-Grown =
      let e = or_flags-transform_flags (i * page_size) flags (omega (arith, g.address)) in
      let m = (request_pages-MarkedRange g.fresh.ready).2 in
      let stored = load_entry-store_entry made (table h.hhdm_off t) index entry e.1 in
      let asked : (flags % 2 == 1) ≡ true = ground arith in
      (
        grown g (transform_flags flags),
        get_next_lvl-CanGrow g (transform_flags flags),
        record {
          same_off = refl;
          same_bmp = m.same_bmp;
          bytes =
              store_le-IsBytes 8 made.pmm.memory _ _
                (memset-IsBytes (taken g.fresh).memory (i * page_size) 0 page_size m.bytes);
          bits = grown-bits;
          leads = (
            ap is_present stored ∙ e.2 ∙ asked,
            ap (λ x. u64 (get_addr x + h.hhdm_off)) stored
                ∙ ap (λ x. u64 (x + h.hhdm_off)) e.0
                ∙ omega (arith, g.fresh.mapped),
          );
          zeros =
              λ j low. stored_apart i j at_i low (inl (λ same. ne (sym same))) ∙ made-zeros j low;
          others =
              λ u j r low other apart. stored_apart u j r low apart ∙ made-others u j r low other;
        },
      )
