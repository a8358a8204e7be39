-- ===== src/Tar/Walk/Archive.antt =====
-- libk/tar.c, `parse_tar`: what it collects of an archive.
use h0r_net.Common.{
  dec_lt, ℕ, zero, suc, ◌+◌, ◌-◌, ◌*◌, ◌/◌, ◌^◌, ◌≤◌, ◌<◌, ◌≡◌, ◌≢◌, refl, ◌∙◌, ap, sub64, u8, u32,
  u64, Mem, arith, List, [], ◌∷◌, true, false, ◌==◌, ◌||◌, leb, ok, length, ◌⊎◌, IsBytes, inl, inr,
}
use h0r_net.Common.LittleEndian.{load_le, store_le, load_le-store_le, load_le_frame, store_le_frame}
use h0r_net.Libk.Memory.Laws.{in_area}
use h0r_net.Libk.Vector.{Vector, vector_init, vector_push_back}
use h0r_net.Libk.Vector.Elements.{InBlock, vector_push_back-room}
use h0r_net.Mm.Heap.{Heap, phys, with_memory, malloc}
use h0r_net.Tar.{tar_loop, parse_tar, parse_size, next_header, pointers, size_field}
use h0r_net.Tar.Sizes.{octal, parse_size-octal, parse_size-frame}

-- Behind a header come the bytes of its file, in whole blocks of 512 bytes; then the next header.
unfoldable pub behind : ℕ → ℕ → ℕ
behind header size = header + 512 * (1 + (size + 511) / 512)

next_header-behind :
    (header size : ℕ)
    → size < 2 ^ 32
    → header + 2 ^ 34 < 2 ^ 64
    → next_header header size ≡ behind header size
unfolding next_header behind
next_header-behind header size small room = ground arith

-- The size field of a header has eleven octal digits, which write `size`.
pub record HasSize (m : Mem) (header size : ℕ) : Type 0 where
  pub digits : (i : ℕ) → i < 11 → 48 ≤ m (header + size_field + i)
  pub value : octal m (header + size_field) 11 ≡ size
  pub small : size < 2 ^ 32

-- From `header` the archive has files of these sizes, each with its header below `limit`, and then a
-- header without a name, or the limit.
abbrev pub Archive : Mem → ℕ → ℕ → List ℕ → Type 0
Archive m limit header [] = (m header ≡ 0) ⊎ (limit ≤ header)
Archive m limit header (n ∷ ns) =
    (m header ≢ 0) × (header < limit) × HasSize m header n × Archive m limit (behind header n) ns

-- The places of the headers.
unfoldable pub headers_from : ℕ → List ℕ → List ℕ
headers_from header [] = []
headers_from header (n ∷ ns) = header ∷ headers_from (behind header n) ns

behind-bounds :
    (header size : ℕ)
    → size < 2 ^ 32
    → (header ≤ behind header size) × (behind header size ≤ header + 2 ^ 33)
unfolding behind
behind-bounds header size small = (omega arith, omega arith)

-- Where the archive and the block of the vector lie: both in the mapping of physical memory, and the
-- block apart from the archive.
pub record Apart (off start file_size block : ℕ) : Type 0 where
  pub archive_room : start + file_size + off + 2 ^ 34 < 2 ^ 64
  pub reached : off ≤ block
  pub word : block + 500 < 2 ^ 64
  pub apart : (block + 500 ≤ off + start) ⊎ (off + start + file_size + 136 ≤ block)

-- In the archive and the header at its end the memory is as in `m`.
abbrev Same : Mem → Mem → ℕ → ℕ → Type 0
Same m m' start limit = (a : ℕ) → start ≤ a → a < limit + 136 → m' a ≡ m a

-- The vector with `i` pointers in its first block.
abbrev vec : ℕ → ℕ → Vector
vec block i = record { len = i; cap = 500; block = block }

size_at :
    (m m' : Mem) (start limit header n : ℕ)
    → IsBytes m
    → Same m m' start limit
    → start ≤ header
    → header < limit
    → HasSize m header n
    → parse_size m' (header + size_field) ≡ n
size_at m m' start limit header n bytes same lo hi s =
    parse_size-frame m m' (header + size_field)
      (λ i lt. same (header + size_field + i) (omega arith) (omega arith))
    ∙ parse_size-octal m (header + size_field) bytes s.digits
    ∙ omega (arith, s.value, s.small)

module _ (m : Mem) (off start file_size block : ℕ) (bytes : IsBytes m)
    (l : Apart off start file_size block) where
  -- The loop has counted the headers that it added, stored their places in the free slots of the
  -- block, and changed no other byte.
  record Collected (h h' : Heap) (header i : ℕ) (sizes : List ℕ) : Type 0 where
    same_off : h'.hhdm_off ≡ off
    array : pointers h'.pmm.memory off (block + 8 * i) (length sizes) ≡ headers_from header sizes
    frame :
        (a : ℕ)
        → in_area (block - off + 8 * i) (8 * length sizes) a ≡ false
        → h'.pmm.memory a ≡ h.pmm.memory a

  stops :
      (m' : Mem) (header i : ℕ)
      → start ≤ header
      → header ≤ start + file_size + 2 ^ 33
      → (header < start + file_size + 136 → m' header ≡ m header)
      → Archive m (start + file_size) header []
      → (m' header == 0 || leb file_size (sub64 header start)) ≡ true
  stops m' header i lo hi at (inl nameless) =
      let big = l.archive_room in
      elim (dec_lt header (start + file_size + 136)) [
        | yes near ↦ (let zero_there = at near in ground arith)
        | no far ↦ ground arith
      ]
  stops m' header i lo hi at (inr ends) = let big = l.archive_room in ground arith

  first_pointer :
      (m' : Mem) (header i n : ℕ) (rest : List ℕ)
      → 8 * i + 8 ≤ 500
      → header < start + file_size
      → load_le 8 m' (block - off + 8 * i) ≡ header + off
      → pointers m' off (block + 8 * (i + 1)) n ≡ rest
      → pointers m' off (block + 8 * i) (suc n) ≡ header ∷ rest
  unfolding pointers
  first_pointer m' header i n rest fits below at others =
      let (room, reached, word) : (start + file_size + off + 2 ^ 34 < 2 ^ 64)
          × (off ≤ block)
          × (block + 500 < 2 ^ 64) =
        (l.archive_room, l.reached, l.word) in
      let place : phys off (block + 8 * i) ≡ block - off + 8 * i = ground arith in
      let next : u64 (block + 8 * i + 8) ≡ block + 8 * (i + 1) = omega arith in
      let header_at : phys off (header + off) ≡ header = ground arith in
      rw (place, at, next, header_at, others) refl

  tar_loop-Archive :
      (f header i : ℕ) (h : Heap) (sizes : List ℕ)
      → h.hhdm_off ≡ off
      → start ≤ header
      → header ≤ start + file_size + 2 ^ 33
      → Same m h.pmm.memory start (start + file_size)
      → Archive m (start + file_size) header sizes
      → (i + length sizes) * 8 ≤ 500
      → length sizes < f
      → (h' : Heap) × (tar_loop f start file_size header i (vec block i) h
          ≡ ok (record { hdr_num = i + length sizes; headers = block }, h'))
        × Collected h h' header i sizes
  unfolding tar_loop headers_from pointers
  tar_loop-Archive zero header i h sizes e lo hi same a room fuel = absurd (omega arith)
  tar_loop-Archive (suc f) header i h [] e lo hi same a room fuel =
      let big = l.archive_room in
      let count : u8 i ≡ i + 0 = omega arith in
      let at = same header lo in
      let stop : (h.pmm.memory header == 0 || leb file_size (sub64 header start)) ≡ true =
        stops h.pmm.memory header i lo hi at a in
      (h, rw (stop, count) refl, record { same_off = e; array = refl; frame = λ b out. refl })
  tar_loop-Archive (suc f) header i h (n ∷ ns) e lo hi same a room fuel =
      let (big, reached) : (start + file_size + off + 2 ^ 34 < 2 ^ 64) × (off ≤ block) =
        (l.archive_room, l.reached) in
      let at_header = same header lo (omega (arith, a.1)) in
      let go : (h.pmm.memory header == 0 || leb file_size (sub64 header start)) ≡ false =
        ground (arith, at_header, a.0, a.1) in
      let size = size_at m h.pmm.memory start (start + file_size) header n bytes same lo a.1 a.2 in
      let next = next_header-behind header n a.2.small (omega (arith, a.1)) in
      let pointer : u64 (header + h.hhdm_off) ≡ header + off = omega (arith, a.1) in
      let counted : u32 (i + 1) ≡ i + 1 = omega arith in
      let slot = block - off + 8 * i in
      let slot_at : block - h.hhdm_off + 8 * i ≡ slot = omega arith in
      let stored : Heap = with_memory h (store_le 8 h.pmm.memory slot (header + off)) in
      let in_block : InBlock h (vec block i) = record {
        reached = omega arith;
        word = l.word;
        room = omega arith;
      } in
      let pushed : vector_push_back (header + off) (vec block i) h
          ≡ ok (vec block (i + 1), stored) =
        vector_push_back-room h (vec block i) (header + off) in_block (omega arith)
        ∙ ap (λ p. ok (vec block (i + 1), with_memory h (store_le 8 h.pmm.memory p (header + off))))
            slot_at in
      let unrolled : tar_loop (suc f) start file_size header i (vec block i) h
          ≡ tar_loop f start file_size (behind header n) (i + 1) (vec block (i + 1)) stored =
        rw (go, size, next, pointer, pushed, counted) refl in
      let (above, below) = behind-bounds header n a.2.small in
      let still : Same m stored.pmm.memory start (start + file_size) = λ b low high.
        store_le_frame 8 h.pmm.memory slot (header + off) b (ground (arith, l.apart))
        ∙ same b low high in
      let (h', run, c) =
        tar_loop-Archive f (behind header n) (i + 1) stored ns e (omega arith) (omega (arith, a.1))
          still a.3 (omega arith) (omega arith) in
      let loaded : load_le 8 h'.pmm.memory slot ≡ header + off =
        load_le_frame 8 stored.pmm.memory h'.pmm.memory slot
          (λ b low high. c.frame b (ground arith))
        ∙ load_le-store_le 8 h.pmm.memory slot (header + off) (omega (arith, a.1)) in
      (
        h',
        unrolled ∙ run ∙ ap (λ k. ok (record { hdr_num = k; headers = block }, h')) (omega arith),
        record {
          same_off = c.same_off;
          array =
              first_pointer h'.pmm.memory header i (length ns) _ (omega arith) a.1 loaded c.array;
          frame = λ b out.
              c.frame b (ground arith)
              ∙ store_le_frame 8 h.pmm.memory slot (header + off) b (ground arith);
        },
      )

-- Of an archive of at most 62 files, the pointers to whose headers fit into the vector's first block,
-- `parse_tar` gives the number of files and an array that points to all headers in order: each
-- header stands where the bytes of the file before it end, filled up to blocks of 512 bytes. Behind
-- what `vector_init` does to the heap, no byte outside the array changes.
pub parse_tar-Archive :
    (f : ℕ) (h h1 : Heap) (header file_size block : ℕ) (sizes : List ℕ)
    → malloc 500 h ≡ ok (block, h1)
    → IsBytes h1.pmm.memory
    → Apart h1.hhdm_off header file_size block
    → Archive h1.pmm.memory (header + file_size) header sizes
    → length sizes ≤ 62
    → length sizes < f
    → (h' : Heap) × (parse_tar f h header file_size
        ≡ ok (record { hdr_num = length sizes; headers = block }, h'))
      × (pointers h'.pmm.memory h1.hhdm_off block (length sizes) ≡ headers_from header sizes)
      × ((a : ℕ)
          → in_area (block - h1.hhdm_off) (8 * length sizes) a ≡ false
          → h'.pmm.memory a ≡ h1.pmm.memory a)
unfolding parse_tar vector_init
parse_tar-Archive f h h1 header file_size block sizes made bytes l a few fuel =
    let (h', run, c) =
      tar_loop-Archive h1.pmm.memory h1.hhdm_off header file_size block bytes l f header 0 h1 sizes
        refl (omega arith) (omega arith) (λ b lo hi. refl) a (omega arith) fuel in
    let first : block + 8 * 0 ≡ block = omega arith in
    let none_before : 0 + length sizes ≡ length sizes = omega arith in
    (
      h',
      rw made (run ∙ ap (λ k. ok (record { hdr_num = k; headers = block }, h')) none_before),
      rw first at c.array,
      λ b out. c.frame b (ground arith),
    )
