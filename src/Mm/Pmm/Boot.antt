-- ===== src/Mm/Pmm/Boot.antt =====
-- core/mm/pmm.c, `pmm_init`: which pages are free once the memory map has been read.
use h0r_net.Common.{
  ℕ, ◌+◌, ◌/◌, ◌≡◌, refl, Bool, List, [], ◌∷◌, if◌then◌else◌, u64, arith, ok, ◌∙◌, Bool-cases, inl,
  inr, ap, subst,
}
use h0r_net.Mm.Pmm.{
  Pmm, page_size, lock_page, lock_pages, unreserve_page, unreserve_pages, MemmapEntry, is_usable,
  Totals, add_entry, add_entries, unreserve_entries, pmm_init, all_reserved, first_totals,
}
use h0r_net.Mm.Pmm.Pages.{Balanced, unreserve_page-Balanced}
use h0r_net.Mm.Pmm.Ranges.{each_page_inv, lock_pages-Balanced}

-- The memory that the usable entries add to `free`, in 64 bits.
unfoldable pub usable_total : ℕ → List MemmapEntry → ℕ
usable_total free [] = free
usable_total free (e ∷ es) = usable_total (if is_usable e then u64 (free + e.length) else free) es

add_entries-free :
    (t : Totals) (es : List MemmapEntry) → (add_entries t es).free ≡ usable_total t.free es
unfolding add_entries usable_total
add_entries-free t [] = refl
add_entries-free t (e ∷ es) =
    add_entries-free (add_entry t e) es ∙ ap (λ (f : ℕ). usable_total f es) (ground arith)

-- The operations leave `total_mem` alone.
abbrev HasTotal : ℕ → Pmm → Type 0
HasTotal n p = p.total_mem ≡ n

lock_page-HasTotal : (n addr : ℕ) (p : Pmm) → HasTotal n p → HasTotal n (lock_page addr p).1
unfolding lock_page
lock_page-HasTotal n addr p h = ground arith

unreserve_page-HasTotal :
    (n addr : ℕ) (p : Pmm) → HasTotal n p → HasTotal n (unreserve_page addr p).1
unfolding unreserve_page
unreserve_page-HasTotal n addr p h = ground arith

-- An invariant of `unreserve_page` is one of the second loop.
unreserve_entries_inv :
    (P : Pmm → Type 0) (es : List MemmapEntry) (p : Pmm)
    → ((addr : ℕ) (q : Pmm) → P q → P (unreserve_page addr q).1)
    → P p
    → P (unreserve_entries es p)
unfolding unreserve_entries
unreserve_entries_inv P [] p keep h = h
unreserve_entries_inv P (e ∷ es) p keep h = elim (Bool-cases (is_usable e)) [
  | inl use_it ↦ rw use_it (
      unreserve_entries_inv P es _ keep (
        unfold unreserve_pages in
        each_page_inv unreserve_page P keep e.base (e.length / page_size) 0 p h))
  | inr skip ↦ rw skip (unreserve_entries_inv P es p keep h)
]

-- The last call of `pmm_init`.
abbrev pub bitmap_locked : Pmm → Bool × Pmm
bitmap_locked q = lock_pages q.page_bmp.buffer (q.page_bmp.size / page_size) q

module _ (es : List MemmapEntry) (p : Pmm) where
  abbrev pub totals : Totals
  totals = add_entries (first_totals p) es

  abbrev pub unreserved : Pmm
  unreserved = unreserve_entries es (all_reserved totals p)

  pub pmm_init-ok : {p' : Pmm} → pmm_init es p ≡ ok p' → (bitmap_locked unreserved).1 ≡ p'
  unfolding pmm_init
  pmm_init-ok e = ground arith

  -- Where nothing was in use before, the counters add up after `pmm_init`, and the total is the
  -- memory of the usable entries.
  pub pmm_init-Balanced :
      {p' : Pmm}
      → pmm_init es p ≡ ok p'
      → p.used_mem ≡ 0
      → Balanced p' × (p'.total_mem ≡ usable_total p.free_mem es)
  unfolding all_reserved
  pmm_init-Balanced e none_used =
      let q = all_reserved totals p in
      let balanced : Balanced q = ground arith in
      let total : HasTotal (usable_total p.free_mem es) q = add_entries-free (first_totals p) es in
      subst (λ s. Balanced s × HasTotal (usable_total p.free_mem es) s) (pmm_init-ok e)
        (
          lock_pages-Balanced _ _ _
              (unreserve_entries_inv Balanced es q unreserve_page-Balanced balanced),
          (unfold lock_pages in
              each_page_inv lock_page _ (lock_page-HasTotal _) _ _ 0 _
                (unreserve_entries_inv _ es q (unreserve_page-HasTotal _) total)),
        )
