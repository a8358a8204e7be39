-- ===== src/Mm/Pmm/Map.antt =====
-- core/mm/pmm.c, `pmm_init`: a page that is free afterwards belongs to a usable entry of the memory
-- map, and not to the page bitmap.
use h0r_net.Common.{
  ℕ, zero, suc, ◌+◌, ◌*◌, ◌/◌, ◌%◌, ◌^◌, ◌≤◌, ◌<◌, ◌≡◌, refl, Bool, true, false, ◌&&◌, ◌||◌, List,
  [], ◌∷◌, u64, arith, IsBytes, ok, ◌∙◌, Bool-cases, inl, inr, every, every-true, subst, ltb, ◌⊎◌,
}
use h0r_net.Common.Bits.{bit}
use h0r_net.Libk.Memory.{memset}
use h0r_net.Libk.Memory.Laws.{in_area, memset-get, memset-IsBytes}
use h0r_net.Libk.Bitmap.{Bitmap}
use h0r_net.Libk.Bitmap.Laws.{bitmap_set-out, is_set-eq-bit}
use h0r_net.Mm.Pmm.{
  Pmm, page_size, lock_page, lock_pages, unreserve_page, unreserve_pages, each_page, MemmapEntry,
  is_usable, Totals, unreserve_entries, align_up, pmm_init, all_reserved,
}
use h0r_net.Mm.Pmm.Pages.{locked, unreserve_page-Marked}
use h0r_net.Mm.Pmm.Ranges.{each_page_inv, Covered, lock_pages-MarkedRange}
use h0r_net.Mm.Pmm.Boot.{totals, pmm_init-ok, bitmap_locked}

-- Bits outside the `n` pages from page `lo` are as before.
record Loosened (q q' : Pmm) (lo n : ℕ) : Type 0 where
  same_bmp : q'.page_bmp ≡ q.page_bmp
  bytes : IsBytes q'.memory
  kept : (j : ℕ) → in_area lo n j ≡ false → locked q' j ≡ locked q j

Loosened-refl : (q : Pmm) (lo n : ℕ) → IsBytes q.memory → Loosened q q lo n
Loosened-refl q lo n bytes = record { same_bmp = refl; bytes = bytes; kept = λ j out. refl }

refused :
    (addr : ℕ) (q : Pmm)
    → ltb (u64 (q.page_bmp.size * 8)) (addr / page_size) ≡ true
    → (unreserve_page addr q).1 ≡ q
unfolding unreserve_page
refused addr q out =
    rw (bitmap_set-out q.memory q.page_bmp (addr / page_size) 0 (ground arith)) (ground arith)

unreserve_page-Loosened :
    (addr : ℕ) (q : Pmm)
    → IsBytes q.memory
    → Loosened q (unreserve_page addr q).1 (addr / page_size) 1
unreserve_page-Loosened addr q bytes =
    elim (Bool-cases (ltb (u64 (q.page_bmp.size * 8)) (addr / page_size))) [
      | inl out ↦ rw (refused addr q out) (Loosened-refl q _ 1 bytes)
      | inr fits ↦
          (let m = (unreserve_page-Marked addr q bytes (ground arith)).1 in
            record {
              same_bmp = m.same_bmp;
              bytes = m.bytes;
              kept = λ j out. ground (arith, m.bits j);
            })
    ]

unreserve_loop-Loosened :
    (addr left i : ℕ) (q : Pmm)
    → IsBytes q.memory
    → addr + (i + left) * page_size ≤ 2 ^ 64
    → Loosened q (each_page unreserve_page addr left i q).1 (addr / page_size + i) left
unfolding each_page
unreserve_loop-Loosened addr zero i q bytes wrap = Loosened-refl q _ 0 bytes
unreserve_loop-Loosened addr (suc left) i q bytes wrap =
    let index : u64 (addr + i * page_size) / page_size ≡ addr / page_size + i = omega arith in
    let one = unreserve_page-Loosened (u64 (addr + i * page_size)) q bytes in
    let rest = unreserve_loop-Loosened addr left (i + 1) _ one.bytes (omega arith) in
    elim (Bool-cases (unreserve_page (u64 (addr + i * page_size)) q).0) [
      | inl done ↦ rw done (record {
        same_bmp = rest.same_bmp ∙ one.same_bmp;
        bytes = rest.bytes;
        kept = λ j out. rest.kept j (ground arith) ∙ one.kept j (ground arith);
      })
      | inr stop ↦ rw stop (record {
        same_bmp = one.same_bmp;
        bytes = one.bytes;
        kept = λ j out. one.kept j (ground arith);
      })
    ]

unreserve_pages-Loosened :
    (addr num : ℕ) (q : Pmm)
    → IsBytes q.memory
    → addr + num * page_size ≤ 2 ^ 64
    → Loosened q (unreserve_pages addr num q).1 (addr / page_size) num
unfolding unreserve_pages
unreserve_pages-Loosened addr num q bytes wrap =
    let start : addr / page_size + 0 ≡ addr / page_size = omega arith in
    rw start at (unreserve_loop-Loosened addr num 0 q bytes (omega arith))

-- Page `j` is one of those that a usable entry is said to have: its base and its length are rounded
-- down to pages, whatever lies in them.
unfoldable pub in_usable : List MemmapEntry → ℕ → Bool
in_usable [] j = false
in_usable (e ∷ es) j =
    (is_usable e && in_area (e.base / page_size) (e.length / page_size) j) || in_usable es j

-- The entries are areas of the 64-bit address space.
abbrev pub InAddressSpace : List MemmapEntry → Type 0
InAddressSpace [] = Unit {0}
InAddressSpace (e ∷ es) = (e.base + e.length ≤ 2 ^ 64) × InAddressSpace es

-- The second loop clears no bit outside the usable entries.
record OnlyUsable (q q' : Pmm) (es : List MemmapEntry) : Type 0 where
  same_bmp : q'.page_bmp ≡ q.page_bmp
  bytes : IsBytes q'.memory
  kept : (j : ℕ) → in_usable es j ≡ false → locked q' j ≡ locked q j

unreserve_entries-OnlyUsable :
    (es : List MemmapEntry) (q : Pmm)
    → IsBytes q.memory
    → InAddressSpace es
    → OnlyUsable q (unreserve_entries es q) es
unfolding unreserve_entries in_usable
unreserve_entries-OnlyUsable [] q bytes space = record {
  same_bmp = refl;
  bytes = bytes;
  kept = λ j out. refl;
}
unreserve_entries-OnlyUsable (e ∷ es) q bytes space = elim (Bool-cases (is_usable e)) [
  | inl use_it ↦
      (let one = unreserve_pages-Loosened e.base (e.length / page_size) q bytes (omega arith) in
        let rest = unreserve_entries-OnlyUsable es _ one.bytes space.1 in
        rw use_it (record {
          same_bmp = rest.same_bmp ∙ one.same_bmp;
          bytes = rest.bytes;
          kept = λ j out. rest.kept j (ground arith) ∙ one.kept j (ground arith);
        }))
  | inr skip ↦
      (let rest = unreserve_entries-OnlyUsable es q bytes space.1 in
        rw skip (record {
          same_bmp = rest.same_bmp;
          bytes = rest.bytes;
          kept = λ j out. rest.kept j (ground arith);
        }))
]

full_byte : every (λ k. bit 255 k) 8 ≡ true
unfolding every
full_byte = refl

all_reserved-IsBytes : (t : Totals) (p : Pmm) → IsBytes p.memory → IsBytes (all_reserved t p).memory
unfolding all_reserved
all_reserved-IsBytes t p bytes =
    memset-IsBytes p.memory t.largest 255 (align_up t.bmp_size page_size) bytes

-- Before the second loop every page of the bitmap is locked.
all_reserved-locked :
    (t : Totals) (p : Pmm) (j : ℕ)
    → IsBytes p.memory
    → j < (all_reserved t p).page_bmp.size * 8
    → locked (all_reserved t p) j ≡ true
unfolding all_reserved
all_reserved-locked t p j bytes inside =
    let size = align_up t.bmp_size page_size in
    let m = memset p.memory t.largest 255 size in
    let full : m (t.largest + j / 8) ≡ 255 =
      memset-get p.memory t.largest 255 size (t.largest + j / 8) ∙ ground arith in
    let full_bytes = memset-IsBytes p.memory t.largest 255 size bytes in
    is_set-eq-bit m _ j full_bytes ∙ rw full (every-true _ _ (j % 8) (omega arith) full_byte)

-- Locking a page leaves the bitmap where it is.
lock_page_bmp :
    (b : Bitmap) (addr : ℕ) (q : Pmm) → q.page_bmp ≡ b → (lock_page addr q).1.page_bmp ≡ b
unfolding lock_page
lock_page_bmp b addr q h = ground arith

bitmap_locked_bmp : (q : Pmm) → (bitmap_locked q).1.page_bmp ≡ q.page_bmp
unfolding lock_pages
bitmap_locked_bmp q =
    each_page_inv lock_page (λ s. s.page_bmp ≡ q.page_bmp) (lock_page_bmp q.page_bmp) _ _ 0 q refl

-- The page is one of a usable entry's, and not one of the bitmap's, by their rounded numbers.
abbrev Usable : List MemmapEntry → Pmm → ℕ → Type 0
Usable es p j =
    (in_usable es j ≡ true)
    × (in_area (p.page_bmp.buffer / page_size) (p.page_bmp.size / page_size) j ≡ false)

locked_entries :
    (es : List MemmapEntry) (t : Totals) (p : Pmm) (j : ℕ)
    → IsBytes p.memory
    → InAddressSpace es
    → let q = unreserve_entries es (all_reserved t p) in
      let p' = (bitmap_locked q).1 in
      Covered p' p'.page_bmp.buffer (p'.page_bmp.size / page_size)
      → j < p'.page_bmp.size * 8
      → locked p' j ≡ false
      → Usable es p' j
locked_entries es t p j bytes space covered inside free =
    let q = unreserve_entries es (all_reserved t p) in
    let r =
      unreserve_entries-OnlyUsable es (all_reserved t p) (all_reserved-IsBytes t p bytes) space in
    let bmp = bitmap_locked_bmp q in
    let covered' : Covered q q.page_bmp.buffer (q.page_bmp.size / page_size) = record {
      no_wrap = rw (← bmp) covered.no_wrap;
      in_bitmap = rw (← bmp) covered.in_bitmap;
    } in
    let m = (lock_pages-MarkedRange _ _ q r.bytes covered').1 in
    let before = all_reserved-locked t p j bytes (rw (← r.same_bmp, ← bmp) inside) in
    rw bmp (ground (arith, m.bits j, r.kept j))

rounded_free_pages :
    (es : List MemmapEntry) (p p' : Pmm) (j : ℕ)
    → IsBytes p.memory
    → InAddressSpace es
    → pmm_init es p ≡ ok p'
    → Covered p' p'.page_bmp.buffer (p'.page_bmp.size / page_size)
    → j < p'.page_bmp.size * 8
    → locked p' j ≡ false
    → Usable es p' j
rounded_free_pages es p p' j bytes space e =
    subst
      (λ s.
        Covered s s.page_bmp.buffer (s.page_bmp.size / page_size)
        → j < s.page_bmp.size * 8
        → locked s j ≡ false
        → Usable es s j)
      (pmm_init-ok es p e) (locked_entries es (totals es p) p j bytes space)

-- Usable entries start at a page, as the boot loader promises for those of the usable type.
unfoldable pub Aligned : List MemmapEntry → Type 0
Aligned [] = Unit {0}
Aligned (e ∷ es) = (is_usable e ≡ true → e.base % page_size ≡ 0) × Aligned es

-- Every byte of page `j` belongs to one usable entry.
unfoldable pub InEntry : List MemmapEntry → ℕ → Type 0
InEntry [] j = ⊥
InEntry (e ∷ es) j =
    ((is_usable e ≡ true)
      × (e.base ≤ j * page_size)
      × (j * page_size + page_size ≤ e.base + e.length))
    ⊎ InEntry es j

in_usable-InEntry :
    (es : List MemmapEntry) (j : ℕ) → Aligned es → in_usable es j ≡ true → InEntry es j
unfolding in_usable Aligned InEntry
in_usable-InEntry [] j a h = absurd cc
in_usable-InEntry (e ∷ es) j a h =
    elim (Bool-cases (is_usable e && in_area (e.base / page_size) (e.length / page_size) j)) [
      | inl here ↦
          (let use_it : is_usable e ≡ true = ground (arith, here) in
            let area : in_area (e.base / page_size) (e.length / page_size) j ≡ true =
              ground (arith, here) in
            let start = a.0 use_it in
            inl (use_it, ground (arith, area, start), ground (arith, area, start)))
      | inr later ↦ inr (in_usable-InEntry es j a.1 (ground (arith, h, later)))
    ]

-- A page that is free after `pmm_init` lies with all its bytes in one usable entry, and holds no
-- byte of the page bitmap, if the entries lie in the address space, the usable ones start at a page,
-- and the bitmap starts at a page, has whole pages, and has a bit for each of its own pages.
pub pmm_init_free_pages :
    (es : List MemmapEntry) (p p' : Pmm) (j : ℕ)
    → IsBytes p.memory
    → InAddressSpace es
    → Aligned es
    → pmm_init es p ≡ ok p'
    → Covered p' p'.page_bmp.buffer (p'.page_bmp.size / page_size)
    → p'.page_bmp.buffer % page_size ≡ 0
    → p'.page_bmp.size % page_size ≡ 0
    → j < p'.page_bmp.size * 8
    → locked p' j ≡ false
    → InEntry es j
      × ((a : ℕ)
          → j * page_size ≤ a
          → a < j * page_size + page_size
          → in_area p'.page_bmp.buffer p'.page_bmp.size a ≡ false)
pmm_init_free_pages es p p' j bytes space aligned e covered start whole inside free =
    let (use_it, apart) = rounded_free_pages es p p' j bytes space e covered inside free in
    (in_usable-InEntry es j aligned use_it, λ a lo hi. ground (arith, apart, start, whole))
