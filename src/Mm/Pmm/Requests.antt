-- ===== src/Mm/Pmm/Requests.antt =====
-- core/mm/pmm.c, `request_pages`: what a caller gets, when it has the pages to itself, and giving
-- a page back.
use h0r_net.Common.{
  ap, inr, inl, Bool-cases, sub64, ℕ, ◌+◌, ◌*◌, ◌/◌, ◌^◌, ◌≤◌, ◌<◌, ◌≡◌, Bool, true, false,
  if◌then◌else◌, u64, arith, IsBytes, ok, ◌∙◌, ◌↔◌,
}
use h0r_net.Libk.Memory.Laws.{in_area}
use h0r_net.Mm.Pmm.{
  each_page, Pmm, page_size, request_pages, lock_pages, free_pages, lock_page, free_page,
}
use h0r_net.Mm.Pmm.Pages.{locked}
use h0r_net.Mm.Pmm.Ranges.{MarkedRange, Covered, lock_pages-MarkedRange, free_pages-MarkedRange}
use h0r_net.Mm.Pmm.Search.{FirstFree, find_free_range-first}

-- What holds before a request that can be met at page `i`: fewer than `PAGE_SIZE` pages are asked
-- for, `i` is the first free page, and the pages from it have an address and a bit each.
pub record Ready (p : Pmm) (i num : ℕ) : Type 0 where
  pub bytes : IsBytes p.memory
  pub small : num < page_size
  pub first : FirstFree p i
  pub covered : Covered p (i * page_size) num

module _ {p : Pmm} {i num : ℕ} (r : Ready p i num) where
  lock-MarkedRange :
      ((lock_pages (i * page_size) num p).0 ≡ true)
      × MarkedRange p (lock_pages (i * page_size) num p).1 i num true
  lock-MarkedRange =
      let index : i * page_size / page_size ≡ i = omega arith in
      rw index at (lock_pages-MarkedRange (i * page_size) num p r.bytes r.covered)

  request-ok : request_pages num p ≡ ok (i * page_size, (lock_pages (i * page_size) num p).1)
  unfolding request_pages
  request-ok = rw (find_free_range-first p num i r.small r.first, lock-MarkedRange.0)

  -- A request returns the first free page; afterwards the `num` pages from it are locked, and no
  -- other page has changed.
  pub request_pages-MarkedRange :
      (p' : Pmm) × (request_pages num p ≡ ok (i * page_size, p')) × MarkedRange p p' i num true
  request_pages-MarkedRange = ((lock_pages (i * page_size) num p).1, request-ok, lock-MarkedRange.1)

-- Every page that a request returns was free before it.
abbrev pub Exclusive : ℕ → Pmm → Type 0
Exclusive num p =
    (pp : ℕ) (p' : Pmm)
    → request_pages num p ≡ ok (pp, p')
    → (j : ℕ) → in_area (pp / page_size) num j ≡ true
    → locked p j ≡ false

-- A request has its pages to itself exactly when all of them happen to be free: only the first
-- one is looked at, so a page that is in use is handed out again.
pub request_pages-Exclusive_iff :
    (p : Pmm) (i num : ℕ)
    → Ready p i num
    → Exclusive num p ↔ ((j : ℕ) → in_area i num j ≡ true → locked p j ≡ false)
request_pages-Exclusive_iff p i num r = (
  λ x j inside.
      (let index : i * page_size / page_size ≡ i = omega arith in
        x (i * page_size) _ (request-ok r) j (rw index inside)),
  λ free pp p' e j inside.
      (let address : pp ≡ i * page_size = cc (request-ok r) in
        let index : pp / page_size ≡ i = omega arith in free j (rw index at inside)),
)

-- Of two requests with no `free` between them, the second one's pages lie behind the first one's.
pub request_pages_twice :
    (p : Pmm) (i num : ℕ) (p' : Pmm) (j num' : ℕ)
    → Ready p i num
    → request_pages num p ≡ ok (i * page_size, p')
    → Ready p' j num'
    → (p'' : Pmm) × (request_pages num' p' ≡ ok (j * page_size, p'')) × (i + num ≤ j)
request_pages_twice p i num p' j num' r e r' =
    let (q, first, marked) = request_pages-MarkedRange r in
    let same : q ≡ p' = cc in
    let after : locked p' j ≡ (if in_area i num j then true else locked p j) =
      rw (← same) (marked.bits j) in
    let (q', second, _) = request_pages-MarkedRange r' in
    (q', second, ground (arith, after, r'.first.here, r.first.below j))

-- What `lock_page` and `free_page` do to the two counters of a page that changes hands.
lock_page-counters :
    (addr : ℕ) (p : Pmm)
    → locked p (addr / page_size) ≡ false
    → (lock_page addr p).0 ≡ true
    → ((lock_page addr p).1.free_mem ≡ sub64 p.free_mem page_size)
      × ((lock_page addr p).1.used_mem ≡ u64 (p.used_mem + page_size))
unfolding lock_page
lock_page-counters addr p free done = ground arith

free_page-counters :
    (addr : ℕ) (p : Pmm)
    → locked p (addr / page_size) ≡ true
    → (free_page addr p).0 ≡ true
    → ((free_page addr p).1.free_mem ≡ u64 (p.free_mem + page_size))
      × ((free_page addr p).1.used_mem ≡ sub64 p.used_mem page_size)
unfolding free_page
free_page-counters addr p taken done = ground arith

one_page :
    (op : ℕ → Pmm → Bool × Pmm) (addr : ℕ) (p : Pmm)
    → addr < 2 ^ 64
    → each_page op addr 1 0 p ≡ op addr p
unfolding each_page
one_page op addr p word =
    let here : u64 (addr + 0 * page_size) ≡ addr = omega arith in
    rw here (elim (Bool-cases (op addr p).0) [ inl done ↦ rw done | inr stop ↦ rw stop ])

-- One page requested and freed: no bit has changed, and the counters are as before.
pub free-request_page :
    (p : Pmm) (i : ℕ)
    → Ready p i 1
    → p.free_mem < 2 ^ 64
    → p.used_mem < 2 ^ 64
    → (p' p'' : Pmm) × (request_pages 1 p ≡ ok (i * page_size, p'))
      × (free_pages (i * page_size) 1 p' ≡ (true, p''))
      × ((j : ℕ) → locked p'' j ≡ locked p j)
      × (p''.free_mem ≡ p.free_mem)
      × (p''.used_mem ≡ p.used_mem)
free-request_page p i r free used =
    let a = i * page_size in
    let index : a / page_size ≡ i = omega arith in
    let word : a < 2 ^ 64 = omega (arith, r.first.word) in
    let p' = (lock_pages a 1 p).1 in
    let (locks, marked) = lock-MarkedRange r in
    let covered : Covered p' a 1 = record {
      no_wrap = r.covered.no_wrap;
      in_bitmap = rw marked.same_bmp r.covered.in_bitmap;
    } in
    let (frees, unmarked) = free_pages-MarkedRange a 1 p' marked.bytes covered in
    let lock_one : lock_pages a 1 p ≡ lock_page a p =
      unfold lock_pages in one_page lock_page a p word in
    let free_one : free_pages a 1 p' ≡ free_page a p' =
      unfold free_pages in one_page free_page a p' word in
    let down = lock_page-counters a p (rw index r.first.here) (rw (← lock_one) locks) in
    let up =
      free_page-counters a p' (rw index (marked.bits i ∙ ground arith)) (rw (← free_one) frees) in
    (
      p',
      (free_pages a 1 p').1,
      request-ok r,
      λ k. (frees k, (free_pages a 1 p').1),
      λ j. ground (arith, unmarked.bits j, marked.bits j, r.first.here, index),
      omega (
        arith,
        up.0,
        down.0,
        ap (λ (q : Bool × Pmm). q.1.free_mem) lock_one,
        ap (λ (q : Bool × Pmm). q.1.free_mem) free_one,
      ),
      omega (
        arith,
        up.1,
        down.1,
        ap (λ (q : Bool × Pmm). q.1.used_mem) lock_one,
        ap (λ (q : Bool × Pmm). q.1.used_mem) free_one,
      ),
    )
