-- ===== src/Tar/Lookup.antt =====
-- libk/tar.c, `find_file`, and the reads and writes of drivers/filesys/tar.c.
use h0r_net.Common.{
  ◌∙◌, some, ℕ, ◌+◌, ◌-◌, ◌%◌, ◌≤◌, ◌<◌, ◌≡◌, refl, ap, u8, Mem, arith, List, [], ◌∷◌,
  if◌then◌else◌, ok, length, ◌>>=◌, map, ◌⊎◌,
}
use h0r_net.Libk.Memory.{Sign, same, plus, minus, memcpy}
use h0r_net.Libk.Memory.Laws.{in_area, memcpy-get}
use h0r_net.Libk.Text.Strings.{Holds, text_order}
use h0r_net.Libk.Text.Reads.{strcmp-text_order}
use h0r_net.Tar.{TarContents, pointers, compared, find_loop, find_file, copied_size, tar_read}

-- A header and the name that stands in it.
pub record Named : Type 0 where
  pub header : ℕ
  pub text : List ℕ

-- Each name is a terminated text, shorter than the fuel.
abbrev pub AllNamed : ℕ → Mem → List Named → Type 0
AllNamed f m [] = Unit {0}
AllNamed f m (n ∷ ns) = Holds m n.header n.text × (length n.text < f) × AllNamed f m ns

abbrev pub chosen : ℕ → Sign → ℕ → ℕ
chosen header same rest = header
chosen header plus rest = rest
chosen header minus rest = rest

-- The header of the first file with the name, or 0.
unfoldable pub lookup : List ℕ → List Named → ℕ
lookup name [] = 0
lookup name (n ∷ ns) = chosen n.header (text_order n.text name) (lookup name ns)

abbrev pub header_of : Named → ℕ
header_of n = n.header

compared-chosen :
    (header : ℕ) (o : Sign) (rest : ℕ)
    → compared (some o) header (ok rest) ≡ ok (chosen header o rest)
compared-chosen header same rest = refl
compared-chosen header plus rest = refl
compared-chosen header minus rest = refl

find_loop-lookup :
    (f : ℕ) (m : Mem) (path : ℕ) (name : List ℕ) (files : List Named)
    → Holds m path name
    → AllNamed f m files
    → find_loop f m path (length files) (map header_of files) ≡ ok (lookup name files)
unfolding find_loop lookup
find_loop-lookup f m path name [] h all = refl
find_loop-lookup f m path name (n ∷ ns) h all =
    ap (λ o. compared o n.header (find_loop f m path (length ns) (map header_of ns)))
      (strcmp-text_order f m n.header path n.text name all.0 h all.1)
    ∙ ap (compared (some (text_order n.text name)) n.header)
        (find_loop-lookup f m path name ns h all.2)
    ∙ compared-chosen n.header (text_order n.text name) (lookup name ns)

-- In an archive of fewer than 256 files `find_file` returns the header of the first file of that
-- name, and the null pointer if there is none.
pub find_file-lookup :
    (f : ℕ) (m : Mem) (off path block : ℕ) (name : List ℕ) (files : List Named)
    → Holds m path name
    → AllNamed f m files
    → length files < 256
    → pointers m off block (length files) ≡ map header_of files
    → find_file f m off (record { hdr_num = u8 (length files); headers = block }) path
      ≡ ok (lookup name files)
unfolding find_file
find_file-lookup f m off path block name files h all few array =
    let count : u8 (length files) ≡ length files = omega arith in
    rw (count, array) (find_loop-lookup f m path name files h all)

-- With a multiple of 256 files it finds none of them: their number is kept in eight bits.
pub find_file-wrapped :
    (f : ℕ) (m : Mem) (off path block n : ℕ)
    → n % 256 ≡ 0
    → find_file f m off (record { hdr_num = u8 n; headers = block }) path ≡ ok 0
unfolding find_file find_loop
find_file-wrapped f m off path block n wraps = rw wraps refl

module _ (f : ℕ) (m : Mem) (off : ℕ) (contents : TarContents) (path offset buffer size header : ℕ)
    (found : find_file f m off contents path ≡ ok header) where
  -- A read of a file that is found fills the buffer with the bytes from the offset, as many as are
  -- asked for but no more than the file's whole size, and changes nothing else.
  pub tar_read-get :
      (buffer ≤ header + 512 + offset)
        ⊎ (header + 512 + offset + copied_size m header size ≤ buffer)
      → (m' : Mem) × (tar_read f off contents path offset buffer size m ≡ ok m')
        × ((a : ℕ)
            → m' a ≡ (
                if in_area buffer (copied_size m header size) a
                then m (header + 512 + offset + (a - buffer))
                else m a))
  unfolding tar_read
  tar_read-get apart = (
    memcpy m buffer (header + 512 + offset) (copied_size m header size),
    ap (λ o. o >>= λ h. ok (memcpy m buffer (h + 512 + offset) (copied_size m h size))) found,
    λ a. memcpy-get m buffer (header + 512 + offset) (copied_size m header size) a apart,
  )
