-- ===== src/Libk/Vector.antt =====
-- libk/vector.h: vectors of pointers, the only ones that the sources make, in blocks of the heap.
pub mod Elements
use h0r_net.Common.{
  ℕ, zero, suc, ◌+◌, ◌-◌, ◌*◌, Bool, true, false, ltb, ◌==◌, if◌then◌else◌, u64, sub64, Outcome, ok,
  ◌>>=◌,
}
use h0r_net.Common.LittleEndian.{load_le, store_le}
use h0r_net.Libk.Memory.{memcpy}
use h0r_net.Mm.Heap.{Heap, phys, with_memory, malloc, realloc, free}

-- `block` is the field `data`.
pub record Vector : Type 0 where
  pub len : ℕ
  pub cap : ℕ
  pub block : ℕ

-- sizeof of a pointer
abbrev pub elem_size : ℕ
elem_size = 8

unfoldable pub vector_init : Heap → Outcome (Vector × Heap)
vector_init h = do
  (new_block, h') ← malloc 500 h
  ok (record { len = 0; cap = 500; block = new_block }, h')

-- The address of element `index`.
abbrev pub element : Heap → Vector → ℕ → ℕ
element h v index = phys h.hhdm_off (u64 (v.block + elem_size * index))

unfoldable pub vector_at : Heap → Vector → ℕ → ℕ
vector_at h v index = load_le 8 h.pmm.memory (element h v index)

-- The capacity is in bytes.
unfoldable pub vector_reserve : Vector → Heap → Outcome (Vector × Heap)
vector_reserve v h =
    if ltb v.cap (u64 (v.len * elem_size))
    then (do
      let cap = u64 (v.len * elem_size * 4)
      (new_block, h') ← realloc v.block cap h
      ok (record v { cap = cap; block = new_block }, h'))
    else ok (v, h)

unfoldable pub vector_push_back : ℕ → Vector → Heap → Outcome (Vector × Heap)
unfolding vector_reserve
vector_push_back elem v h = do
  (v', h') ← vector_reserve (record v { len = u64 (v.len + 1) }) h
  let at = element h' v' (sub64 v'.len 1)
  ok (v', with_memory h' (store_le 8 h'.pmm.memory at elem))

-- The number of bytes is `sizeof * len - index - 1`, without the brackets that it wants.
unfoldable pub vector_erase : ℕ → Vector → Heap → Vector × Heap
vector_erase index v h =
    let bytes = sub64 (sub64 (u64 (elem_size * v.len)) index) 1 in
    (
      record v { len = sub64 v.len 1 },
      with_memory h (memcpy h.pmm.memory (element h v index) (element h v (u64 (index + 1))) bytes),
    )

unfoldable pub vector_erase_all : Vector → Heap → Vector × Heap
vector_erase_all v h =
    (record { len = 0; cap = 0; block = 0 }, if v.block == 0 then h else free v.block h)

-- The loop from element `i`, with `left` elements to go.
unfoldable pub erase_loop : ℕ → ℕ → ℕ → Vector → Heap → Vector × Heap
unfolding vector_erase vector_at
erase_loop val i zero v h = (v, h)
erase_loop val i (suc left) v h =
    let rest = erase_loop val (i + 1) left v h in
    if vector_at h v i == val then vector_erase i v h else rest

unfoldable pub vector_erase_val : ℕ → Vector → Heap → Vector × Heap
unfolding erase_loop
vector_erase_val val v h = erase_loop val 0 v.len v h
