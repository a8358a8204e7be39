-- ===== src/Mm/Pmm/Live/Safety.antt =====
-- core/mm/pmm.c over time: the pages that are held, and what is locked.
use h0r_net.Common.{
  ◌||◌, ℕ, ◌+◌, ◌*◌, ◌/◌, ◌^◌, ◌≤◌, ◌<◌, ◌≡◌, ◌≢◌, refl, ap, ◌∙◌, Bool, true, false, [], ◌∷◌,
  IsBytes, ok, inl, inr, ℕ_discrete, arith, store8, store8_ne, store8-IsBytes, halted,
}
use h0r_net.Libk.Bitmap.{bitmap_get}
use h0r_net.Mm.Pmm.{err_out_of_mem, Pmm, page_size, request_pages, free_pages}
use h0r_net.Mm.Pmm.Pages.{locked, in_buffer}
use h0r_net.Mm.Pmm.Ranges.{MarkedRange, free_pages-MarkedRange}
use h0r_net.Mm.Pmm.Search.{FirstFree, FirstFree-cases, find_free_range-halted}
use h0r_net.Mm.Pmm.Requests.{Ready, request_pages-MarkedRange}
use h0r_net.Mm.Pmm.Live.{
  Owned, Step, request, free, write, Reach, none_held, after, held, without, Owns, held-without,
  Distinct-without,
}

request-stops :
    (p : Pmm)
    → p.page_bmp.size < 2 ^ 64
    → ((j : ℕ) → j ≤ p.page_bmp.size → locked p j ≡ true)
    → request_pages 1 p ≡ halted err_out_of_mem
unfolding request_pages
request-stops p word all =
    let full = find_free_range-halted p 1 (omega arith) word all in rw full refl

request-full :
    (p : Pmm) (pp : ℕ) (p' : Pmm)
    → p.page_bmp.size < 2 ^ 64
    → ((j : ℕ) → j ≤ p.page_bmp.size → locked p j ≡ true)
    → request_pages 1 p ≢ ok (pp, p')
request-full p pp p' word all e = let stops = request-stops p word all in absurd cc

locked-store8 :
    (p : Pmm) (a v j : ℕ)
    → p.page_bmp.buffer + j / 8 ≢ a
    → locked (record p { memory = store8 p.memory a v }) j ≡ locked p j
unfolding bitmap_get
locked-store8 p a v j ne = rw (store8_ne p.memory a v (p.page_bmp.buffer + j / 8) ne) refl

-- In a bitmap of this size every page that a search finds has an address.
module _ (p : Pmm) (bytes : IsBytes p.memory) (small : p.page_bmp.size < 2 ^ 49) where
  Owns-none_held : Owns p (record { pmm = p; live = [] })
  Owns-none_held = record {
    same_bmp = refl;
    bytes = bytes;
    distinct = tt;
    were_free = λ j h. absurd cc;
    within = λ j h. absurd cc;
    exact = λ j le. ground arith;
  }

  first-Ready : (s : Owned) → Owns p s → (i : ℕ) → FirstFree s.pmm i → Ready s.pmm i 1
  first-Ready s o i f =
      let within : i ≤ s.pmm.page_bmp.size = f.within in
      let size : s.pmm.page_bmp.size < 2 ^ 49 = rw o.same_bmp small in
      record {
        bytes = o.bytes;
        small = omega arith;
        first = f;
        covered = record { no_wrap = omega arith; in_bitmap = omega arith };
      }

  Owns-marked :
      (s : Owned) (i : ℕ) (p' : Pmm)
      → Owns p s
      → FirstFree s.pmm i
      → MarkedRange s.pmm p' i 1 true
      → Owns p (record { pmm = p'; live = i ∷ s.live })
  Owns-marked s i p' o f m =
      let low : i ≤ p.page_bmp.size = omega (arith, f.within, ap (λ b. b.size) o.same_bmp) in
      let before = o.exact i (omega arith) in
      record {
        same_bmp = m.same_bmp ∙ o.same_bmp;
        bytes = m.bytes;
        distinct = (ground (arith, before, f.here), o.distinct);
        were_free = λ j h. elim (ℕ_discrete i j) [
          | yes e ↦ ground (arith, before, f.here, e)
          | no ne ↦ o.were_free j (ground arith)
        ];
        within = λ j h. elim (ℕ_discrete i j) [
          | yes e ↦ omega arith
          | no ne ↦ o.within j (ground arith)
        ];
        exact = λ j le. ground (arith, m.bits j, o.exact j le);
      }

  Owns-request :
      (s : Owned) (pp : ℕ) (p' : Pmm)
      → Owns p s
      → request_pages 1 s.pmm ≡ ok (pp, p')
      → Owns p (record { pmm = p'; live = pp / page_size ∷ s.live })
  Owns-request s pp p' o e = elim (FirstFree-cases s.pmm (rw o.same_bmp (omega arith))) [
    | inl (i, f) ↦
        (let (q, runs, marked) = request_pages-MarkedRange (first-Ready s o i f) in
          let same : q ≡ p' = cc in
          let address : pp ≡ i * page_size = cc in
          let index : pp / page_size ≡ i = omega arith in
          rw index (Owns-marked s i p' o f (rw (← same) marked)))
    | inr all ↦ absurd (request-full s.pmm pp p' (rw o.same_bmp (omega arith)) all e)
  ]

  Owns-unmarked :
      (s : Owned) (page : ℕ) (p' : Pmm)
      → Owns p s
      → held page s.live ≡ true
      → MarkedRange s.pmm p' page 1 false
      → Owns p (record { pmm = p'; live = without page s.live })
  Owns-unmarked s page p' o h m =
      let left = λ (j : ℕ). held-without page j s.live o.distinct in
      record {
        same_bmp = m.same_bmp ∙ o.same_bmp;
        bytes = m.bytes;
        distinct = Distinct-without page s.live o.distinct;
        were_free = λ j h'. o.were_free j (ground (arith, left j));
        within = λ j h'. o.within j (ground (arith, left j));
        exact = λ j le. elim (ℕ_discrete page j) [
          | yes e ↦ ground (arith, m.bits j, left j, o.were_free page h, e)
          | no ne ↦ ground (arith, m.bits j, left j, o.exact j le)
        ];
      }

  Owns-free :
      (s : Owned) (page : ℕ) (done : Bool) (p' : Pmm)
      → Owns p s
      → held page s.live ≡ true
      → free_pages (page * page_size) 1 s.pmm ≡ (done, p')
      → Owns p (record { pmm = p'; live = without page s.live })
  Owns-free s page done p' o h e =
      let within = o.within page h in
      let index : page * page_size / page_size ≡ page = omega arith in
      let (frees, unmarked) =
        free_pages-MarkedRange (page * page_size) 1 s.pmm o.bytes
          (record { no_wrap = omega arith; in_bitmap = rw (o.same_bmp, index) (omega arith) }) in
      let same : (free_pages (page * page_size) 1 s.pmm).1 ≡ p' = ap (λ r. r.1) e in
      rw (← same) (Owns-unmarked s page _ o h (rw index at unmarked))

  Owns-write :
      (s : Owned) (a v : ℕ)
      → Owns p s
      → v < 256
      → in_buffer s.pmm.page_bmp a ≡ false
      → Owns p (record s { pmm = record s.pmm { memory = store8 s.pmm.memory a v } })
  Owns-write s a v o lt out = record {
    same_bmp = o.same_bmp;
    bytes = store8-IsBytes s.pmm.memory a v o.bytes lt;
    distinct = o.distinct;
    were_free = o.were_free;
    within = o.within;
    exact = λ j le.
        locked-store8 s.pmm a v j
          (λ e. (let size = ap (λ b. b.size) o.same_bmp in ground (arith, out)))
        ∙ o.exact j le;
  }

  Step-Owns : (s s' : Owned) → Owns p s → Step s s' → Owns p s'
  Step-Owns s s' o (request {pp} {p'} e) = Owns-request s pp p' o e
  Step-Owns s s' o (free page {done} {p'} h e) = Owns-free s page done p' o h e
  Step-Owns s s' o (write a v lt out) = Owns-write s a v o lt out

  -- After any sequence of requests of one page, frees of a page by one that holds it, and writes
  -- outside the page bitmap: no page is held twice, every page held was free at the start, and the
  -- locked pages are exactly those locked at the start and those held, if the page bitmap has fewer
  -- than 2 ^ 49 bytes.
  pub Reach-Owns : (s : Owned) → Reach p s → Owns p s
  Reach-Owns s none_held = Owns-none_held
  Reach-Owns s (after {s = s0} r step) = Step-Owns s0 s (Reach-Owns s0 r) step

  request-first :
      (s : Owned)
      → Reach p s
      → Owns p s
      → (i : ℕ) → FirstFree s.pmm i
      → (page : ℕ) × (p' : Pmm) × (request_pages 1 s.pmm ≡ ok (page * page_size, p'))
        × (locked p page ≡ false)
        × (held page s.live ≡ false)
        × Reach p (record { pmm = p'; live = page ∷ s.live })
  request-first s reach o i f =
      let (q, runs, marked) = request_pages-MarkedRange (first-Ready s o i f) in
      let index : i * page_size / page_size ≡ i = omega arith in
      let before = o.exact i (omega (arith, f.within, ap (λ b. b.size) o.same_bmp)) in
      (
        i,
        q,
        runs,
        ground (arith, before, f.here),
        ground (arith, before, f.here),
        rw index at (after reach (request runs)),
      )

  -- A request of one page in a state that requests, frees and writes lead to: if some page up to the
  -- bitmap's size in bytes was free at the start and is not held, the request returns such a page;
  -- if none is, the kernel halts out of memory.
  pub request_pages_complete :
      (s : Owned)
      → Reach p s
      → ((j : ℕ)
          → j ≤ p.page_bmp.size
          → locked p j ≡ false
          → held j s.live ≡ false
          → (page : ℕ) × (p' : Pmm) × (request_pages 1 s.pmm ≡ ok (page * page_size, p'))
            × (locked p page ≡ false)
            × (held page s.live ≡ false)
            × Reach p (record { pmm = p'; live = page ∷ s.live }))
        × (((j : ℕ) → j ≤ p.page_bmp.size → (locked p j || held j s.live) ≡ true)
            → request_pages 1 s.pmm ≡ halted err_out_of_mem)
  request_pages_complete s reach =
      let o = Reach-Owns s reach in
      let size : s.pmm.page_bmp.size ≡ p.page_bmp.size = ap (λ b. b.size) o.same_bmp in
      (
        λ j le free unheld. elim (FirstFree-cases s.pmm (omega (arith, size))) [
          | inl (i, f) ↦ request-first s reach o i f
          | inr all ↦
              (let taken = all j (omega (arith, size)) in
                let exact = o.exact j (omega arith) in absurd (ground arith))
        ],
        λ none.
            request-stops s.pmm (omega (arith, size))
              (λ j le. o.exact j (omega (arith, size)) ∙ none j (omega (arith, size))),
      )
