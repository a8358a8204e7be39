-- ===== src/Tar/Walk.antt =====
-- libk/tar.c, `parse_tar`: its loop ends, whatever the vector's blocks do to the memory.
pub mod Archive
use h0r_net.Common.{
  Option, none, some, subst, u64, ltb, ◌>>=◌, subst, u64, ltb, Option, true, ℕ, zero, suc, ◌+◌, ◌*◌,
  ◌^◌, ◌≤◌, ◌<◌, ◌≡◌, ◌≢◌, refl, sub64, arith, ◌==◌, ◌||◌, leb, Outcome, ok, halted, fault,
  out_of_fuel, ◌>>=◌, Bool-cases, inl, inr,
}
use h0r_net.Common.LittleEndian.{store_le}
use h0r_net.Libk.Vector.{Vector, elem_size, element, vector_init, vector_reserve, vector_push_back}
use h0r_net.Mm.Heap.{Heap, with_memory, malloc, realloc, move_block, free}
use h0r_net.Mm.Pmm.{Pmm, err_out_of_mem, find_from, request_pages, find_free_range}
use h0r_net.Tar.{tar_loop, parse_tar, parse_size, next_header, size_field}
use h0r_net.Tar.Sizes.{parse_size-lt}

-- The code gets to a result, halts or faults.
abbrev pub Ends {ℓ} : {A : Type ℓ} → Outcome A → Type 0
Ends (ok a) = Unit
Ends (halted e) = Unit
Ends fault = Unit
Ends out_of_fuel = ⊥

Ends->>= :
    {A B : Type 0} (o : Outcome A) (g : A → Outcome B)
    → Ends o
    → ((a : A) → Ends (g a))
    → Ends (o >>= g)
Ends->>= (ok a) g e all = all a
Ends->>= (halted x) g e all = tt
Ends->>= fault g e all = tt
Ends->>= out_of_fuel g e all = absurd e

found-Ends :
    (e : ℕ) (o : Option ℕ)
    → Ends (elim o as (λ x. Outcome ℕ) [ none ↦ halted e | some addr ↦ ok addr ])
found-Ends e none = tt
found-Ends e (some addr) = tt

find_free_range-Ends : (n : ℕ) (p : Pmm) → Ends (find_free_range n p)
unfolding find_free_range
find_free_range-Ends n p =
    found-Ends err_out_of_mem (find_from p.memory p.page_bmp n (p.page_bmp.size + 1) 0)

request_pages-Ends : (n : ℕ) (p : Pmm) → Ends (request_pages n p)
unfolding request_pages
request_pages-Ends n p = Ends->>= (find_free_range n p) _ (find_free_range-Ends n p) (λ pp. tt)

malloc-Ends : (size : ℕ) (h : Heap) → Ends (malloc size h)
unfolding malloc
malloc-Ends size h = Ends->>= (request_pages _ h.pmm) _ (request_pages-Ends _ h.pmm) (λ r. tt)

realloc-Ends : (block size : ℕ) (h : Heap) → Ends (realloc block size h)
unfolding realloc move_block
realloc-Ends block size h =
    Ends->>= (malloc size (free block h)) _ (malloc-Ends size (free block h)) (λ r. tt)

vector_init-Ends : (h : Heap) → Ends (vector_init h)
unfolding vector_init
vector_init-Ends h = Ends->>= (malloc 500 h) _ (malloc-Ends 500 h) (λ r. tt)

vector_reserve-Ends : (v : Vector) (h : Heap) → Ends (vector_reserve v h)
unfolding vector_reserve
vector_reserve-Ends v h = elim (Bool-cases (ltb v.cap (u64 (v.len * elem_size)))) [
  | inl grows ↦ rw grows (
      Ends->>= (realloc v.block _ h) (λ r. ok (record v { cap = _; block = r.0 }, r.1))
        (realloc-Ends v.block _ h) (λ r. tt))
  | inr fits ↦ rw fits tt
]

vector_push_back-Ends : (elem : ℕ) (v : Vector) (h : Heap) → Ends (vector_push_back elem v h)
unfolding vector_push_back
vector_push_back-Ends elem v h =
    let longer : Vector = record v { len = u64 (v.len + 1) } in
    Ends->>= {B = Vector × Heap} (vector_reserve longer h)
      (λ r.
        ok (
          r.0,
          with_memory r.1 (store_le 8 r.1.pmm.memory (element r.1 r.0 (sub64 r.0.len 1)) elem),
        ))
      (vector_reserve-Ends longer h) (λ r. tt)

next_header-bounds :
    (header size : ℕ)
    → size < 2 ^ 32
    → header + 2 ^ 33 < 2 ^ 64
    → (header + 512 ≤ next_header header size) × (next_header header size ≤ header + 2 ^ 33)
unfolding next_header
next_header-bounds header size small room = (ground arith, ground arith)

-- With the archive below `2 ^ 64 - 2 ^ 34` and fuel for every block of 512 bytes, the loop ends,
-- whatever the memory holds in each round.
tar_loop-Ends :
    (f start file_size header i : ℕ) (v : Vector) (h : Heap)
    → start + file_size + 2 ^ 34 < 2 ^ 64
    → start ≤ header
    → header ≤ start + file_size + 2 ^ 33
    → start + file_size ≤ header + f * 512
    → Ends (tar_loop (suc f) start file_size header i v h)
unfolding tar_loop
tar_loop-Ends zero start file_size header i v h room lo hi fuel =
    let stop : (h.pmm.memory header == 0 || leb file_size (sub64 header start)) ≡ true =
      ground arith in
    rw stop tt
tar_loop-Ends (suc f) start file_size header i v h room lo hi fuel =
    let size = parse_size h.pmm.memory (header + size_field) in
    elim (Bool-cases (h.pmm.memory header == 0 || leb file_size (sub64 header start))) [
      | inl stop ↦ rw stop tt
      | inr go ↦
          let within : header < start + file_size = ground arith in
          let (above, below) =
            next_header-bounds header size (parse_size-lt h.pmm.memory (header + size_field))
              (omega arith) in
          rw go (
            Ends->>= (vector_push_back _ v h) _ (vector_push_back-Ends _ v h) (λ r.
              tar_loop-Ends f start file_size (next_header header size) _ r.0 r.1 room (omega arith)
                (omega arith) (omega arith)))
    ]

-- `parse_tar` ends on every archive, however broken, within one round for each block of 512 bytes:
-- with that much fuel it gets to a result, halts for want of memory, or faults.
pub parse_tar-ends :
    (f : ℕ) (h : Heap) (header file_size : ℕ)
    → header + file_size + 2 ^ 34 < 2 ^ 64
    → file_size ≤ f * 512
    → parse_tar (suc f) h header file_size ≢ out_of_fuel
unfolding parse_tar
parse_tar-ends f h header file_size room fuel e = subst Ends e (
    Ends->>= (vector_init h) (λ r. tar_loop (suc f) header file_size header 0 r.0 r.1)
      (vector_init-Ends h)
      (λ r.
        tar_loop-Ends f header file_size header 0 r.0 r.1 room (omega arith) (omega arith)
          (omega arith)))
