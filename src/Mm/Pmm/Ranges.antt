-- ===== src/Mm/Pmm/Ranges.antt =====
-- core/mm/pmm.c on a range of pages: what the loops over `lock_page` and its siblings do.
use Prim.Native.Nat.add
use h0r_net.Common.{
  Bool-cases, inl, inr, ℕ, zero, suc, ◌+◌, ◌*◌, ◌/◌, ◌^◌, ◌≤◌, ◌≡◌, refl, Bool, true, false,
  if◌then◌else◌, u64, IsBytes, ◌∙◌, arith,
}
use h0r_net.Libk.Bitmap.Laws.{InBitmap}
use h0r_net.Libk.Memory.Laws.{in_area}
use h0r_net.Mm.Pmm.{
  Pmm, page_size, lock_page, free_page, reserve_page, unreserve_page, each_page, lock_pages,
  free_pages, reserve_pages, unreserve_pages,
}
use h0r_net.Mm.Pmm.Pages.{
  in_buffer, locked, Marked, Balanced, lock_page-Marked, free_page-Marked, unreserve_page-Marked,
  reserve_page-Marked, lock_page-Balanced, free_page-Balanced, unreserve_page-Balanced,
}

-- `p'` is `p` with the `n` bits from `lo` equal to `b`.
pub record MarkedRange (p p' : Pmm) (lo n : ℕ) (b : Bool) : Type 0 where
  pub same_bmp : p'.page_bmp ≡ p.page_bmp
  pub same_total : p'.total_mem ≡ p.total_mem
  pub bytes : IsBytes p'.memory
  pub bits : (j : ℕ) → locked p' j ≡ (if in_area lo n j then b else locked p j)
  pub frame : (a : ℕ) → in_buffer p.page_bmp a ≡ false → p'.memory a ≡ p.memory a

-- The `num` pages from `addr` have an address and a bit each.
pub record Covered (p : Pmm) (addr num : ℕ) : Type 0 where
  pub no_wrap : addr + num * page_size ≤ 2 ^ 64
  pub in_bitmap : addr / page_size + num ≤ u64 (p.page_bmp.size * 8) + 1

module _ (op : ℕ → Pmm → Bool × Pmm) (b : Bool)
    (marks : (addr : ℕ) (p : Pmm)
      → IsBytes p.memory
      → InBitmap p.page_bmp (addr / page_size)
      → ((op addr p).0 ≡ true) × Marked p (op addr p).1 (addr / page_size) b) where
  each_page-MarkedRange :
      (addr left i : ℕ) (p : Pmm)
      → IsBytes p.memory
      → addr + (i + left) * page_size ≤ 2 ^ 64
      → addr / page_size + i + left ≤ u64 (p.page_bmp.size * 8) + 1
      → ((each_page op addr left i p).0 ≡ true)
        × MarkedRange p (each_page op addr left i p).1 (addr / page_size + i) left b
  unfolding each_page
  each_page-MarkedRange addr zero i p bytes wrap fits = (
    refl,
    record {
      same_bmp = refl;
      same_total = refl;
      bytes = bytes;
      frame = λ a out. refl;
      bits = λ j. ground arith;
    },
  )
  each_page-MarkedRange addr (suc left) i p bytes wrap fits =
      let index : u64 (addr + i * page_size) / page_size ≡ addr / page_size + i = omega arith in
      let (done, m) = marks (u64 (addr + i * page_size)) p bytes (rw index (omega arith)) in
      let (all, r) =
        each_page-MarkedRange addr left (i + 1) (op (u64 (addr + i * page_size)) p).1 m.bytes
          (omega arith) (rw m.same_bmp (omega arith)) in
      rw done (
        all,
        record {
          same_bmp = r.same_bmp ∙ m.same_bmp;
          same_total = r.same_total ∙ m.same_total;
          bytes = r.bytes;
          bits = λ j. ground (arith, r.bits j, m.bits j);
          frame = λ a out. r.frame a (rw m.same_bmp out) ∙ m.frame a out;
        },
      )

  pub from_start :
      (addr num : ℕ) (p : Pmm)
      → IsBytes p.memory
      → Covered p addr num
      → ((each_page op addr num 0 p).0 ≡ true)
        × MarkedRange p (each_page op addr num 0 p).1 (addr / page_size) num b
  from_start addr num p bytes c =
      let start : addr / page_size + 0 ≡ addr / page_size = omega arith in
      rw start at
        (each_page-MarkedRange addr num 0 p bytes (rw add.zero c.no_wrap) (rw start c.in_bitmap))

module _ (op : ℕ → Pmm → Bool × Pmm) (P : Pmm → Type 0)
    (keep : (addr : ℕ) (p : Pmm) → P p → P (op addr p).1) where
  pub each_page_inv : (addr left i : ℕ) (p : Pmm) → P p → P (each_page op addr left i p).1
  unfolding each_page
  each_page_inv addr zero i p h = h
  each_page_inv addr (suc left) i p h = elim (Bool-cases (op (u64 (addr + i * page_size)) p).0) [
    | inl done ↦ rw done (each_page_inv addr left (i + 1) _ (keep _ p h))
    | inr stop ↦ rw stop (keep _ p h)
  ]

module _ (addr num : ℕ) (p : Pmm) (bytes : IsBytes p.memory) (c : Covered p addr num) where
  pub lock_pages-MarkedRange :
      ((lock_pages addr num p).0 ≡ true)
      × MarkedRange p (lock_pages addr num p).1 (addr / page_size) num true
  unfolding lock_pages
  lock_pages-MarkedRange = from_start lock_page true lock_page-Marked addr num p bytes c

  pub free_pages-MarkedRange :
      ((free_pages addr num p).0 ≡ true)
      × MarkedRange p (free_pages addr num p).1 (addr / page_size) num false
  unfolding free_pages
  free_pages-MarkedRange = from_start free_page false free_page-Marked addr num p bytes c

  pub reserve_pages-MarkedRange :
      ((reserve_pages addr num p).0 ≡ true)
      × MarkedRange p (reserve_pages addr num p).1 (addr / page_size) num true
  unfolding reserve_pages
  reserve_pages-MarkedRange = from_start reserve_page true reserve_page-Marked addr num p bytes c

  pub unreserve_pages-MarkedRange :
      ((unreserve_pages addr num p).0 ≡ true)
      × MarkedRange p (unreserve_pages addr num p).1 (addr / page_size) num false
  unfolding unreserve_pages
  unreserve_pages-MarkedRange =
      from_start unreserve_page false unreserve_page-Marked addr num p bytes c

-- Locking a run of pages keeps the sum of free and used memory equal to the total, whether it succeeds or
-- fails on the way.
pub lock_pages-Balanced : (addr num : ℕ) (p : Pmm) → Balanced p → Balanced (lock_pages addr num p).1
unfolding lock_pages
lock_pages-Balanced addr num p h =
    each_page_inv lock_page Balanced lock_page-Balanced addr num 0 p h

-- Freeing a run of pages keeps the sum of free and used memory equal to the total, whether it succeeds or
-- fails on the way.
pub free_pages-Balanced : (addr num : ℕ) (p : Pmm) → Balanced p → Balanced (free_pages addr num p).1
unfolding free_pages
free_pages-Balanced addr num p h =
    each_page_inv free_page Balanced free_page-Balanced addr num 0 p h

pub unreserve_pages-Balanced :
    (addr num : ℕ) (p : Pmm) → Balanced p → Balanced (unreserve_pages addr num p).1
unfolding unreserve_pages
unreserve_pages-Balanced addr num p h =
    each_page_inv unreserve_page Balanced unreserve_page-Balanced addr num 0 p h
