-- ===== src/Arch/Pager/Fresh.antt =====
-- arch/x86_64/pager.c: the page of zeros with which every new table begins.
use h0r_net.Common.{ℕ, ◌+◌, ◌*◌, ◌^◌, ◌≤◌, ◌≡◌, refl, u64, arith, ok}
use h0r_net.Libk.Memory.{memset}
use h0r_net.Mm.Pmm.{Pmm, page_size}
use h0r_net.Mm.Pmm.Requests.{Ready, request_pages-MarkedRange}
use h0r_net.Mm.Heap.{Heap, phys}
use h0r_net.Arch.Pager.{new_table}

-- Page `i` is the first free one, and the higher half reaches it.
pub record Fresh (h : Heap) (i : ℕ) : Type 0 where
  pub ready : Ready h.pmm i 1
  pub mapped : h.hhdm_off + (i + 1) * page_size ≤ 2 ^ 64

module _ {h : Heap} {i : ℕ} (g : Fresh h i) where
  -- The pointer to page `i`.
  abbrev pub new_lvl : ℕ
  new_lvl = h.hhdm_off + i * page_size

  -- The memory after `request_pages`, and with the new table in it.
  abbrev pub taken : Pmm
  taken = (request_pages-MarkedRange g.ready).0

  abbrev pub with_table : Heap
  with_table = record h {
    pmm = record taken { memory = memset taken.memory (i * page_size) 0 page_size };
  }

  pub new_table-Fresh : new_table h ≡ ok (new_lvl, with_table)
  unfolding new_table
  new_table-Fresh =
      let (p, e, m) = request_pages-MarkedRange g.ready in
      let word : u64 (i * page_size + h.hhdm_off) ≡ new_lvl = omega (arith, g.mapped) in
      let at : phys h.hhdm_off new_lvl ≡ i * page_size = ground arith in rw (e, word, at) refl
