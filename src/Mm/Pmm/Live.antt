-- ===== src/Mm/Pmm/Live.antt =====
-- core/mm/pmm.c over time: pages that are requested one at a time, written to and freed, in any
-- order, and what the bitmap says of them.
pub mod Safety
use h0r_net.Common.{
  ℕ, ◌+◌, ◌*◌, ◌/◌, ◌^◌, ◌≤◌, ◌<◌, ◌≡◌, ◌≢◌, refl, sym, ap, ◌∙◌, Bool, true, false, ◌||◌, List, [],
  ◌∷◌, ◌==◌, if◌then◌else◌, IsBytes, ok, inl, inr, ℕ_discrete, arith, store8, store8_ne,
  store8-IsBytes, halted,
}
use h0r_net.Libk.Bitmap.{bitmap_get}
use h0r_net.Mm.Pmm.{err_out_of_mem, Pmm, page_size, request_pages, free_pages}
use h0r_net.Mm.Pmm.Pages.{locked, in_buffer}
use h0r_net.Mm.Pmm.Ranges.{MarkedRange, free_pages-MarkedRange}
use h0r_net.Mm.Pmm.Search.{FirstFree, FirstFree-cases, find_free_range-halted}
use h0r_net.Mm.Pmm.Requests.{Ready, request_pages-MarkedRange}

-- The pages, by number, that have been given out and not been freed.
pub record Owned : Type 0 where
  pub pmm : Pmm
  pub live : List ℕ

abbrev pub held : ℕ → List ℕ → Bool
held i [] = false
held i (j ∷ live) = (j == i) || held i live

abbrev pub without : ℕ → List ℕ → List ℕ
without i [] = []
without i (j ∷ live) = if j == i then live else (j ∷ without i live)

-- A page is freed by one that holds it, and what is written lies outside the page bitmap.
pub data Step (s : Owned) : Owned → Type 0 where
  request :
      {pp : ℕ} {p' : Pmm}
      → request_pages 1 s.pmm ≡ ok (pp, p')
      → Step s (record { pmm = p'; live = pp / page_size ∷ s.live })
  free :
      (page : ℕ) {done : Bool} {p' : Pmm}
      → held page s.live ≡ true
      → free_pages (page * page_size) 1 s.pmm ≡ (done, p')
      → Step s (record { pmm = p'; live = without page s.live })
  write :
      (a v : ℕ)
      → v < 256
      → in_buffer s.pmm.page_bmp a ≡ false
      → Step s (record s { pmm = record s.pmm { memory = store8 s.pmm.memory a v } })

pub data Reach (p : Pmm) : Owned → Type 0 where
  none_held : Reach p (record { pmm = p; live = [] })
  after : {s s' : Owned} → Reach p s → Step s s' → Reach p s'

-- No page is there twice.
abbrev pub Distinct : List ℕ → Type 0
Distinct [] = Unit {0}
Distinct (i ∷ live) = (held i live ≡ false) × Distinct live

-- Since `p` the bits have changed by exactly the pages that are held.
pub record Owns (p : Pmm) (s : Owned) : Type 0 where
  pub same_bmp : s.pmm.page_bmp ≡ p.page_bmp
  pub bytes : IsBytes s.pmm.memory
  pub distinct : Distinct s.live
  pub were_free : (j : ℕ) → held j s.live ≡ true → locked p j ≡ false
  pub within : (j : ℕ) → held j s.live ≡ true → j ≤ p.page_bmp.size
  pub exact : (j : ℕ) → j ≤ p.page_bmp.size * 8 → locked s.pmm j ≡ (locked p j || held j s.live)

held-first :
    (i j k : ℕ) (live : List ℕ)
    → k ≡ i
    → held k live ≡ false
    → held j live ≡ (if i == j then false else ((k == j) || held j live))
held-first i j k live e d = elim (ℕ_discrete i j) [
  | yes here ↦
      (let it : (i == j) ≡ true = ground arith in
        let same : j ≡ k = sym (e ∙ here) in rw it (ap (λ x. held x live) same ∙ d))
  | no ne ↦ ground arith
]

pub held-without :
    (i j : ℕ) (live : List ℕ)
    → Distinct live
    → held j (without i live) ≡ (if i == j then false else held j live)
held-without i j [] d = ground arith
held-without i j (k ∷ live) d = elim (ℕ_discrete k i) [
  | yes e ↦ (let it : (k == i) ≡ true = ground arith in rw it (held-first i j k live e d.0))
  | no ne ↦
      (let not_it : (k == i) ≡ false = ground arith in
        rw not_it (ground (arith, held-without i j live d.1)))
]

pub Distinct-without : (i : ℕ) (live : List ℕ) → Distinct live → Distinct (without i live)
Distinct-without i [] d = tt
Distinct-without i (k ∷ live) d = elim (ℕ_discrete k i) [
  | yes e ↦ (let it : (k == i) ≡ true = ground arith in rw it d.1)
  | no ne ↦
      (let not_it : (k == i) ≡ false = ground arith in
        let other : (i == k) ≡ false = ground arith in
        rw not_it (rw (held-without i k live d.1, other) (d.0), Distinct-without i live d.1))
]
