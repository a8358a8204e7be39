-- ===== src/Mm/Pmm/Search.antt =====
-- core/mm/pmm.c, `find_free_range`: which bits it reads and which page it returns.
use native.Mathlib.Numerals.{add-one}
use h0r_net.Common.{
  ◌⊎◌, halted, ok, ap, ℕ_discrete, inr, inl, Bool-cases, ◌↔◌, ℕ, zero, suc, ◌+◌, ◌*◌, ◌/◌, ◌^◌, ◌≤◌,
  ◌<◌, ◌≡◌, refl, true, false, not, some, none, ◌==◌, u64, Mem, arith,
}
use h0r_net.Libk.Bitmap.{Bitmap, is_set}
use h0r_net.Mm.Pmm.{Pmm, page_size, fits_at, find_from, find_free_range, err_out_of_mem}
use h0r_net.Mm.Pmm.Pages.{locked}

module _ (m : Mem) (bmp : Bitmap) (npages addr : ℕ) where
  -- The bits that the inner loop reads are `addr + d / PAGE_SIZE` for `d` up to `npages`.
  pub fits_at_iff :
      (left page : ℕ)
      → page + suc left ≡ npages + 1
      → (fits_at m bmp npages addr (suc left) page ≡ true)
        ↔ ((d : ℕ) → page ≤ d → d ≤ npages → is_set m bmp (u64 (addr + d / page_size)) ≡ false)
  unfolding fits_at
  fits_at_iff zero page e =
      let last : page ≡ npages = omega arith in
      let found : (page == npages) ≡ true = ground arith in
      elim (Bool-cases (is_set m bmp (u64 (addr + page / page_size)))) [
        | inl taken ↦ rw taken (λ f. cc, λ all. cc (all page (omega arith) (omega arith)))
        | inr free ↦
            rw (free, found)
              (λ t d lo hi. (let here : d ≡ page = omega arith in rw here free), λ all. refl)
      ]
  fits_at_iff (suc left) page e =
      let later : (page == npages) ≡ false = ground arith in
      let rest = fits_at_iff left (page + 1) (omega arith) in
      elim (Bool-cases (is_set m bmp (u64 (addr + page / page_size)))) [
        | inl taken ↦ rw taken (λ f. cc, λ all. cc (all page (omega arith) (omega arith)))
        | inr free ↦
            rw (free, later)
              (
                λ t d lo hi. elim (ℕ_discrete d page) [
                  | yes here ↦ rw here free
                  | no ne ↦ rest.0 t d (omega arith) hi
                ],
                λ all. rest.1 (λ d lo hi. all d (omega arith) hi),
              )
      ]

  -- For fewer than `PAGE_SIZE` pages that is one and the same bit.
  fits_one :
      (left page : ℕ)
      → npages < page_size
      → addr < 2 ^ 64
      → page + suc left ≡ npages + 1
      → fits_at m bmp npages addr (suc left) page ≡ not (is_set m bmp addr)
  unfolding fits_at
  fits_one zero page small word e =
      let here : u64 (addr + page / page_size) ≡ addr = omega arith in rw here (ground arith)
  fits_one (suc left) page small word e =
      let here : u64 (addr + page / page_size) ≡ addr = omega arith in
      rw here (ground (arith, fits_one left (page + 1) small word (omega arith)))

  -- So a request below `PAGE_SIZE` pages asks of one page only whether it is free.
  pub fits_at-one :
      npages < page_size
      → addr < 2 ^ 64
      → fits_at m bmp npages addr (npages + 1) 0 ≡ not (is_set m bmp addr)
  fits_at-one small word = rw add-one (fits_one npages 0 small word (omega arith))

-- `i` is the first page whose bit is clear, and lies where `find_free_range` looks.
pub record FirstFree (p : Pmm) (i : ℕ) : Type 0 where
  pub below : (j : ℕ) → j < i → locked p j ≡ true
  pub here : locked p i ≡ false
  pub within : i ≤ p.page_bmp.size
  pub word : i < 2 ^ 52

module _ (p : Pmm) (npages i : ℕ) (small : npages < page_size) (f : FirstFree p i) where
  find_from-first :
      (left addr : ℕ)
      → addr ≤ i
      → i < addr + left
      → find_from p.memory p.page_bmp npages left addr ≡ some (i * page_size)
  unfolding find_from
  find_from-first zero addr lo hi = absurd (omega arith)
  find_from-first (suc left) addr lo hi =
      let word : addr < 2 ^ 64 = omega (arith, f.word) in
      rw (fits_at-one p.memory p.page_bmp npages addr small word) (elim (ℕ_discrete addr i) [
        | yes e ↦ rw (e, f.here) (ap some (omega (arith, f.word)))
        | no ne ↦
            rw (f.below addr (omega arith))
              (find_from-first left (addr + 1) (omega arith) (omega arith))
      ])

  -- A search for fewer than `PAGE_SIZE` pages returns the first page that is free, however many
  -- of the pages behind it are.
  pub find_free_range-first : find_free_range npages p ≡ ok (i * page_size)
  unfolding find_free_range
  find_free_range-first = rw (
    find_from-first (p.page_bmp.size + 1) 0 (omega arith) (omega (arith, f.within)),
    find_free_range,
  )

module _ (p : Pmm) (npages : ℕ) (small : npages < page_size) where
  find_from-none :
      (left addr : ℕ)
      → addr + left ≤ 2 ^ 64
      → ((j : ℕ) → j < addr + left → locked p j ≡ true)
      → find_from p.memory p.page_bmp npages left addr ≡ none
  unfolding find_from
  find_from-none zero addr word all = refl
  find_from-none (suc left) addr word all =
      rw (fits_at-one p.memory p.page_bmp npages addr small (omega arith), all addr (omega arith))
        (find_from-none left (addr + 1) (omega arith) (λ j lt. all j (omega arith)))

  -- With every page up to `page_bmp.size` taken the kernel halts with `HN_ERR_OUT_OF_MEM`, although
  -- the bitmap has eight times as many bits.
  pub find_free_range-halted :
      p.page_bmp.size < 2 ^ 64
      → ((j : ℕ) → j ≤ p.page_bmp.size → locked p j ≡ true)
      → find_free_range npages p ≡ halted err_out_of_mem
  unfolding find_free_range
  find_free_range-halted word all = rw (
    find_from-none (p.page_bmp.size + 1) 0 (omega arith) (λ j lt. all j (omega arith)),
    find_free_range,
  )

-- Among the pages from `lo` to the bitmap's size a free one comes first, or there is none.
FirstFree-from :
    (p : Pmm) (left lo : ℕ)
    → lo + left ≡ p.page_bmp.size + 1
    → p.page_bmp.size < 2 ^ 52
    → ((j : ℕ) → j < lo → locked p j ≡ true)
    → ((i : ℕ) × FirstFree p i) ⊎ ((j : ℕ) → j ≤ p.page_bmp.size → locked p j ≡ true)
FirstFree-from p zero lo e word below = inr (λ j le. below j (omega arith))
FirstFree-from p (suc left) lo e word below = elim (Bool-cases (locked p lo)) [
  | inr free ↦
      inl (lo, record { below = below; here = free; within = omega arith; word = omega arith })
  | inl taken ↦
      FirstFree-from p left (suc lo) (omega arith) word
        (λ j lt. elim (ℕ_discrete j lo) [ yes e ↦ rw e taken | no ne ↦ below j (omega arith) ])
]

pub FirstFree-cases :
    (p : Pmm)
    → p.page_bmp.size < 2 ^ 52
    → ((i : ℕ) × FirstFree p i) ⊎ ((j : ℕ) → j ≤ p.page_bmp.size → locked p j ≡ true)
FirstFree-cases p word =
    FirstFree-from p (p.page_bmp.size + 1) 0 (omega arith) word (λ j lt. absurd (omega arith))
