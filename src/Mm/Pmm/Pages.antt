-- ===== src/Mm/Pmm/Pages.antt =====
-- core/mm/pmm.c on one page: the four operations change the one bit of the page and, for locking
-- and freeing, move one page between the two counters.
use h0r_net.Common.{
  ℕ_discrete, not, ℕ, ◌+◌, ◌/◌, ◌<◌, ◌≡◌, refl, Bool, true, false, ◌==◌, ◌!=◌, if◌then◌else◌, u64,
  IsBytes, Bool-cases, inl, inr, arith,
}
use h0r_net.Libk.Bitmap.{is_set}
use h0r_net.Libk.Memory.Laws.{in_area}
use h0r_net.Common.{store8_ne}
use h0r_net.Libk.Bitmap.{Bitmap}
use h0r_net.Libk.Bitmap.Laws.{InBitmap, written, bitmap_set-in, is_set-written, written-IsBytes}
use h0r_net.Mm.Pmm.{Pmm, page_size, lock_page, free_page, reserve_page, unreserve_page}

abbrev pub locked : Pmm → ℕ → Bool
locked p i = is_set p.memory p.page_bmp i

-- The bytes of the bitmap, and one more, which `bitmap_set` lets through.
abbrev pub in_buffer : Bitmap → ℕ → Bool
in_buffer bm a = in_area bm.buffer (bm.size + 1) a

-- `p'` is `p` with bit `i` equal to `b`; the bitmap stays where it is, and so does other memory.
pub record Marked (p p' : Pmm) (i : ℕ) (b : Bool) : Type 0 where
  pub same_bmp : p'.page_bmp ≡ p.page_bmp
  pub same_total : p'.total_mem ≡ p.total_mem
  pub bytes : IsBytes p'.memory
  pub bits : (j : ℕ) → locked p' j ≡ (if i == j then b else locked p j)
  pub frame : (a : ℕ) → in_buffer p.page_bmp a ≡ false → p'.memory a ≡ p.memory a

-- Free and used memory add up to the total, in 64 bits.
abbrev pub Balanced : Pmm → Type 0
Balanced p = u64 (p.free_mem + p.used_mem) ≡ u64 p.total_mem

Marked-same : (p : Pmm) (i : ℕ) (b : Bool) → IsBytes p.memory → locked p i ≡ b → Marked p p i b
Marked-same p i b bytes h = record {
  same_bmp = refl;
  same_total = refl;
  bytes = bytes;
  bits = λ j. elim (ℕ_discrete i j) [
    | yes e ↦ (let hit : (i == j) ≡ true = ground arith in rw hit (rw (← e) h))
    | no ne ↦ (let miss : (i == j) ≡ false = ground arith in rw miss)
  ];
  frame = λ a out. refl;
}

abbrev rewritten : Pmm → (i s free used : ℕ) → Pmm
rewritten p i s free used = record p {
  memory = written p.memory p.page_bmp i s;
  free_mem = free;
  used_mem = used;
}

Marked-written :
    (p : Pmm) (i s free used : ℕ)
    → IsBytes p.memory
    → s < 2
    → InBitmap p.page_bmp i
    → Marked p (rewritten p i s free used) i (s == 1)
Marked-written p i s free used bytes hs fits = record {
  same_bmp = refl;
  same_total = refl;
  bytes = written-IsBytes p.memory p.page_bmp i s i bytes hs;
  bits = λ j. is_set-written p.memory p.page_bmp i s j bytes hs;
  frame = λ a out. store8_ne p.memory _ _ a (ground arith);
}

not_zero : (n : ℕ) → (n == 0) ≡ not (n != 0)
not_zero n = ground arith

module _ (addr : ℕ) (p : Pmm) (bytes : IsBytes p.memory)
    (fits : InBitmap p.page_bmp (addr / page_size)) where
  pub lock_page-Marked :
      ((lock_page addr p).0 ≡ true) × Marked p (lock_page addr p).1 (addr / page_size) true
  unfolding lock_page
  lock_page-Marked = elim (Bool-cases (locked p (addr / page_size))) [
    | inl old ↦ rw old (refl, Marked-same p _ true bytes old)
    | inr new ↦
        rw (new, bitmap_set-in p.memory p.page_bmp (addr / page_size) 1 fits)
          (refl, Marked-written p _ 1 _ _ bytes (omega arith) fits)
  ]

  pub free_page-Marked :
      ((free_page addr p).0 ≡ true) × Marked p (free_page addr p).1 (addr / page_size) false
  unfolding free_page
  free_page-Marked = rw not_zero (elim (Bool-cases (locked p (addr / page_size))) [
    | inr old ↦ rw old (refl, Marked-same p _ false bytes old)
    | inl new ↦
        rw (new, bitmap_set-in p.memory p.page_bmp (addr / page_size) 0 fits)
          (refl, Marked-written p _ 0 _ _ bytes (omega arith) fits)
  ])

  pub reserve_page-Marked :
      ((reserve_page addr p).0 ≡ true) × Marked p (reserve_page addr p).1 (addr / page_size) true
  unfolding reserve_page
  reserve_page-Marked = elim (Bool-cases (locked p (addr / page_size))) [
    | inl old ↦ rw old (refl, Marked-same p _ true bytes old)
    | inr new ↦
        rw (new, bitmap_set-in p.memory p.page_bmp (addr / page_size) 1 fits)
          (refl, Marked-written p _ 1 _ _ bytes (omega arith) fits)
  ]

  pub unreserve_page-Marked :
      ((unreserve_page addr p).0 ≡ true)
      × Marked p (unreserve_page addr p).1 (addr / page_size) false
  unfolding unreserve_page
  unreserve_page-Marked = rw not_zero (elim (Bool-cases (locked p (addr / page_size))) [
    | inr old ↦ rw old (refl, Marked-same p _ false bytes old)
    | inl new ↦
        rw (new, bitmap_set-in p.memory p.page_bmp (addr / page_size) 0 fits)
          (refl, Marked-written p _ 0 _ _ bytes (omega arith) fits)
  ])

-- The counters stay balanced, also where the bitmap refuses the page.
pub lock_page-Balanced : (addr : ℕ) (p : Pmm) → Balanced p → Balanced (lock_page addr p).1
unfolding lock_page
lock_page-Balanced addr p h = ground arith

pub free_page-Balanced : (addr : ℕ) (p : Pmm) → Balanced p → Balanced (free_page addr p).1
unfolding free_page
free_page-Balanced addr p h = ground arith

pub unreserve_page-Balanced : (addr : ℕ) (p : Pmm) → Balanced p → Balanced (unreserve_page addr p).1
unfolding unreserve_page
unreserve_page-Balanced addr p h = ground arith
