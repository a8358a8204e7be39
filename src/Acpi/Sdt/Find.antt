-- ===== src/Acpi/Sdt/Find.antt =====
-- drivers/ACPI/SDT.c, `find_nth_SDT`: the search as an index into the tables of the signature.
use h0r_net.Common.{
  ℕ, zero, suc, ◌+◌, ◌*◌, u64, ◌≡◌, refl, ◌∙◌, ap, false, ◌==◌, if◌then◌else◌, List, [], ◌∷◌,
  Option, none, some, Mem, arith, get_elem?, Bool-cases, inl, inr,
}
use h0r_net.Common.LittleEndian.{load_le}
use h0r_net.Libk.Text.{strncmp}
use h0r_net.Acpi.Sdt.{
  Acpi, entries_offset, entry_pointer, entry_count, has_signature, is_same, find_loop,
  find_nth_table, find_nth_sdt,
}

-- The pointers of a root table from entry `i`, with entries of `size` bytes from offset `first` on.
pub tables_from : Mem → (off root first size : ℕ) → ℕ → ℕ → List ℕ
tables_from m off root first size i zero = []
tables_from m off root first size i (suc left) =
    u64 (load_le size m (root + first + size * i) + off)
    ∷ tables_from m off root first size (i + 1) left

-- Those with the signature, in their order.
pub with_signature : Mem → ℕ → List ℕ → List ℕ
with_signature m signature [] = []
with_signature m signature (t ∷ ts) =
    let rest = with_signature m signature ts in
    if has_signature m signature t then t ∷ rest else rest

-- A null pointer where there are too few.
abbrev pub or_null : Option ℕ → ℕ
or_null none = 0
or_null (some t) = t

-- The root table that is in use, with the size of its entries.
abbrev pub root_tables : Mem → ℕ → Acpi → List ℕ
root_tables m off s =
    if s.use_xsdt
    then tables_from m off s.xsdt 40 8 0 (entry_count m s.xsdt 8)
    else tables_from m off s.rsdt 36 4 0 (entry_count m s.rsdt 4)

pick :
    (f : ℕ → ℕ) (t n more : ℕ) (ts : List ℕ)
    → ((k : ℕ) → f (n + 1 + k) ≡ or_null (get_elem? ts k))
    → (if n == n + more then t else f (n + more)) ≡ or_null (get_elem? (t ∷ ts) more)
pick f t n zero ts ih = ground arith
pick f t n (suc more) ts ih =
    let later : (n == n + suc more) ≡ false = ground arith in
    rw later (ap f (omega arith) ∙ ih more)

find_loop-with_signature :
    (m : Mem) (off root size signature i left n more : ℕ)
    → find_loop m off root size signature (n + more) i left n
      ≡ or_null (
          get_elem?
            (with_signature m signature (tables_from m off root (entries_offset size) size i left))
            more)
unfolding find_loop with_signature tables_from
find_loop-with_signature m off root size signature i zero n more = refl
find_loop-with_signature m off root size signature i (suc left) n more =
    let t = entry_pointer m off root size i in
    elim (Bool-cases (has_signature m signature t)) [
      | inl found ↦ rw found (
          pick (λ k. find_loop m off root size signature k (i + 1) left (n + 1)) t n more _
            (find_loop-with_signature m off root size signature (i + 1) left (n + 1)))
      | inr other ↦
          rw other (find_loop-with_signature m off root size signature (i + 1) left n more)
    ]

-- `find_nth_SDT` for a signature other than "DSDT" returns the table at the index among those of
-- the signature in the root table, in their order there, and a null pointer where there are fewer.
-- The entries are those that the code reads: from offset 36 in an RSDT, and from offset 40 in an
-- XSDT.
pub find_nth_sdt-with_signature :
    (m : Mem) (off dsdt facp : ℕ) (s : Acpi) (signature index : ℕ)
    → is_same (strncmp m dsdt signature 4) ≡ false
    → find_nth_sdt m off dsdt facp s signature index
      ≡ or_null (get_elem? (with_signature m signature (root_tables m off s)) index)
unfolding find_nth_sdt find_nth_table
find_nth_sdt-with_signature m off dsdt facp s signature index other =
    let start : index ≡ 0 + index = omega arith in
    let in_root = λ (root size : ℕ).
      ap (λ k. find_loop m off root size signature k 0 (entry_count m root size) 0) start
      ∙ find_loop-with_signature m off root size signature 0 (entry_count m root size) 0 index in
    rw other (elim (Bool-cases s.use_xsdt) [
      | inl x ↦ ground (arith, in_root s.xsdt 8)
      | inr r ↦ ground (arith, in_root s.rsdt 4)
    ])
