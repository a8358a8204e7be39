-- ===== src/Tests/Live.antt =====
-- src/core/mm/pmm.c over time, at concrete inputs: the bitmap of Tests/Mm.
use h0r_net.Common.{ℕ, ◌*◌, ◌≤◌, ◌≡◌, true, false, ◌||◌, [], ◌∷◌, arith, ok, halted}
use h0r_net.Mm.Pmm.{Pmm, page_size, request_pages, err_out_of_mem}
use h0r_net.Mm.Pmm.Pages.{locked}
use h0r_net.Mm.Pmm.Requests.{request_pages-MarkedRange}
use h0r_net.Mm.Pmm.Live.{Owned, Reach, none_held, after, request, held, Owns}
use h0r_net.Mm.Pmm.Live.Safety.{Reach-Owns, request_pages_complete}
use h0r_net.Tests.Mm.{pmm, memory-IsBytes, ready_one}

-- Page 1 is requested, its first byte is written, and it is freed.
abbrev requested : Pmm
requested = (request_pages-MarkedRange ready_one).0

abbrev one_held : Owned
one_held = record { pmm = requested; live = 1 ∷ [] }

reach : Reach pmm one_held
reach = after none_held (request (request_pages-MarkedRange ready_one).1)

Reach-Owns_example : Owns pmm one_held
Reach-Owns_example = Reach-Owns pmm memory-IsBytes (omega arith) one_held reach

request_pages_complete_example :
    ((j : ℕ)
      → j ≤ 16
      → locked pmm j ≡ false
      → held j (1 ∷ []) ≡ false
      → (page : ℕ) × (p' : Pmm) × (request_pages 1 requested ≡ ok (page * page_size, p'))
        × (locked pmm page ≡ false)
        × (held page (1 ∷ []) ≡ false)
        × Reach pmm (record { pmm = p'; live = page ∷ 1 ∷ [] }))
    × (((j : ℕ) → j ≤ 16 → (locked pmm j || held j (1 ∷ [])) ≡ true)
        → request_pages 1 requested ≡ halted err_out_of_mem)
request_pages_complete_example =
    request_pages_complete pmm memory-IsBytes (omega arith) one_held reach
