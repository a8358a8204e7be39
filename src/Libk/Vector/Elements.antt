-- ===== src/Libk/Vector/Elements.antt =====
-- libk/vector.h: the elements of a vector after an element is added or taken out.
use h0r_net.Common.{
  ℕ, zero, suc, ◌+◌, ◌-◌, ◌*◌, ◌^◌, ◌≤◌, ◌<◌, ◌≡◌, refl, ap, ◌∙◌, true, false, ltb, u64, sub64, ok,
  arith, Mem, inl,
}
use h0r_net.Common.LittleEndian.{load_le, store_le, load_le-store_le, load_le_frame, store_le_frame}
use h0r_net.Libk.Memory.{memcpy}
use h0r_net.Libk.Memory.Laws.{in_area, memcpy-get}
use h0r_net.Mm.Heap.{Heap, with_memory}
use h0r_net.Libk.Vector.{Vector, elem_size, element, vector_at, vector_push_back, vector_erase}

-- The higher half reaches the block, which is large enough for the elements.
pub record InBlock (h : Heap) (v : Vector) : Type 0 where
  pub reached : h.hhdm_off ≤ v.block
  pub word : v.block + v.cap < 2 ^ 64
  pub room : v.len * elem_size ≤ v.cap

element_at :
    (h : Heap) (v : Vector) (i : ℕ)
    → h.hhdm_off ≤ v.block
    → v.block + elem_size * i < 2 ^ 64
    → element h v i ≡ v.block - h.hhdm_off + elem_size * i
element_at h v i reached word = ground arith

-- Adding an element for which the block has room stores it behind the others.
pub vector_push_back-room :
    (h : Heap) (v : Vector) (elem : ℕ)
    → InBlock h v
    → (v.len + 1) * elem_size ≤ v.cap
    → vector_push_back elem v h
      ≡ ok (
        record v { len = v.len + 1 },
        with_memory h (store_le 8 h.pmm.memory (v.block - h.hhdm_off + elem_size * v.len) elem),
      )
unfolding vector_push_back
vector_push_back-room h v elem b fits =
    let next : u64 (v.len + 1) ≡ v.len + 1 = omega (arith, b.word, fits) in
    let enough : ltb v.cap (u64 ((v.len + 1) * elem_size)) ≡ false = ground (arith, b.word, fits) in
    let last : sub64 (v.len + 1) 1 ≡ v.len = omega (arith, b.word, fits) in
    rw
      (
        next,
        enough,
        last,
        element_at h (record v { len = v.len + 1 }) v.len b.reached (omega (arith, b.word, fits)),
      )
      refl

-- Adding an element for which the block has room: it is the last one, the elements before it are as
-- they were, and the vector is one longer in the same block.
pub vector_at-push_back :
    (h : Heap) (v : Vector) (elem : ℕ)
    → InBlock h v
    → (v.len + 1) * elem_size ≤ v.cap
    → elem < 2 ^ 64
    → (v' : Vector) × (h' : Heap) × (vector_push_back elem v h ≡ ok (v', h'))
      × (v'.len ≡ v.len + 1)
      × (v'.block ≡ v.block)
      × (vector_at h' v' v.len ≡ elem)
      × ((i : ℕ) → i < v.len → vector_at h' v' i ≡ vector_at h v i)
unfolding vector_push_back vector_at
vector_at-push_back h v elem b fits word =
    let longer : Vector = record v { len = u64 (v.len + 1) } in
    let at = v.block - h.hhdm_off + elem_size * v.len in
    let enough : ltb v.cap (u64 (u64 (v.len + 1) * elem_size)) ≡ false =
      ground (arith, b.word, fits) in
    let last : sub64 (u64 (v.len + 1)) 1 ≡ v.len = omega (arith, b.word, fits) in
    let place : element h longer v.len ≡ at =
      element_at h longer v.len b.reached (omega (arith, b.word, fits)) in
    let h' : Heap = with_memory h (store_le 8 h.pmm.memory at elem) in
    (
      longer,
      h',
      rw (enough, last, place) refl,
      omega (arith, b.word, fits),
      refl,
      rw place (load_le-store_le 8 h.pmm.memory at elem word),
      λ i lt.
          (let here : element h longer i ≡ v.block - h.hhdm_off + elem_size * i =
              element_at h longer i b.reached (omega (arith, b.word, fits)) in
            rw here (
              load_le_frame 8 h.pmm.memory (store_le 8 h.pmm.memory at elem) _
                (λ x lo hi. store_le_frame 8 h.pmm.memory at elem x (ground arith)))),
    )

load_le_shift :
    (n d : ℕ) (m m' : Mem) (a : ℕ)
    → ((b : ℕ) → a ≤ b → b < a + n → m' b ≡ m (b + d))
    → load_le n m' a ≡ load_le n m (a + d)
unfolding load_le
load_le_shift zero d m m' a same = refl
load_le_shift (suc n) d m m' a same =
    let next : a + 1 + d ≡ a + d + 1 = omega arith in
    let later = load_le_shift n d m m' (a + 1) (λ b lo hi. same b (omega arith) (omega arith)) in
    omega (arith, same a (omega arith) (omega arith), later ∙ ap (load_le n m) next)

-- The bytes of element `i` after the move.
moved_below :
    (m : Mem) (p index n i : ℕ)
    → i < index
    → (x : ℕ) → p + elem_size * i ≤ x
    → x < p + elem_size * i + 8
    → memcpy m (p + elem_size * index) (p + elem_size * (index + 1)) n x ≡ m x
moved_below m p index n i low x lo hi =
    memcpy-get m (p + elem_size * index) (p + elem_size * (index + 1)) n x (inl (omega arith))
    ∙ ground arith

moved_up :
    (m : Mem) (p index n i : ℕ)
    → index ≤ i
    → elem_size * (i + 1) ≤ n + elem_size * index
    → (x : ℕ) → p + elem_size * i ≤ x
    → x < p + elem_size * i + 8
    → memcpy m (p + elem_size * index) (p + elem_size * (index + 1)) n x ≡ m (x + elem_size)
moved_up m p index n i lo room x low high =
    let inside : in_area (p + elem_size * index) n x ≡ true = ground arith in
    let source : p + elem_size * (index + 1) + (x - (p + elem_size * index)) ≡ x + elem_size =
      omega arith in
    memcpy-get m (p + elem_size * index) (p + elem_size * (index + 1)) n x (inl (omega arith))
    ∙ rw inside (ap m source)

-- Taking an element out: those before it stay, and those behind it move up by one.
pub vector_at-erase :
    (h : Heap) (v : Vector) (index : ℕ)
    → InBlock h v
    → index < v.len
    → let v' = (vector_erase index v h).0 in
      let h' = (vector_erase index v h).1 in
      (v'.len ≡ v.len - 1)
      × ((i : ℕ) → i < index → vector_at h' v' i ≡ vector_at h v i)
      × ((i : ℕ) → index ≤ i → i + 1 < v.len → vector_at h' v' i ≡ vector_at h v (i + 1))
unfolding vector_erase vector_at
vector_at-erase h v index b lt =
    let word : (v.block + v.cap < 2 ^ 64) × (v.len * elem_size ≤ v.cap) = (b.word, b.room) in
    let p = v.block - h.hhdm_off in
    let n = elem_size * v.len - index - 1 in
    let m' = memcpy h.pmm.memory (p + elem_size * index) (p + elem_size * (index + 1)) n in
    let to : element h v index ≡ p + elem_size * index =
      element_at h v index b.reached (omega (arith, word)) in
    let next : u64 (index + 1) ≡ index + 1 = omega (arith, word) in
    let from : element h v (index + 1) ≡ p + elem_size * (index + 1) =
      element_at h v (index + 1) b.reached (omega (arith, word)) in
    let bytes : sub64 (sub64 (u64 (elem_size * v.len)) index) 1 ≡ n = omega (arith, word) in
    let shorter : Vector = record v { len = sub64 v.len 1 } in
    let at = λ (i : ℕ) (low : i < v.len). element_at h v i b.reached (omega (arith, word)) in
    rw (next, to, from, bytes)
      (
        omega (arith, word),
        λ i low. rw (at i (omega arith)) (
            load_le_frame 8 h.pmm.memory m' (p + elem_size * i)
              (moved_below h.pmm.memory p index n i low)),
        λ i lo hi.
            rw (at i (omega arith), at (i + 1) hi)
              (load_le_shift 8 elem_size h.pmm.memory m' (p + elem_size * i)
                  (moved_up h.pmm.memory p index n i lo (omega arith))
                ∙ ap (load_le 8 h.pmm.memory) (omega arith)),
      )
