-- ===== src/Acpi/Madt/Entries.antt =====
-- arch/x86_64/ACPI/MADT.c, `recurse_table`: it ends on any table, and what it keeps.
use h0r_net.Common.{
  ℕ, zero, suc, ◌+◌, ◌≤◌, ◌<◌, ◌≡◌, ◌⊎◌, inl, inr, refl, ◌∙◌, sym, ap, true, false, ◌||◌, leb, ltb,
  List, [], ◌∷◌, some, Mem, ok, fault, get_elem?, set, length, length-set, get_elem?-lt,
  get_elem?-ge, get_elem?-set_self, get_elem?-set_ne, arith, Bool-cases, u16,
}
use h0r_net.Acpi.Madt.{Madt, max_entries, entry_length, recurse_table}

-- The state with one entry more.
abbrev with_entry : ℕ → Madt → Madt
with_entry ptr s = record s {
  entry_ptrs = set s.entry_ptrs s.num_madt_entries ptr;
  num_madt_entries = u16 (s.num_madt_entries + 1);
}

-- The recursion ends on every table, an entry of length 0 included: with fuel for 65 entries it
-- gives a state or writes behind `entry_ptrs`, and never wants more fuel.
pub recurse_table-ends :
    (f : ℕ) (m : Mem) (end_addr ptr : ℕ) (s : Madt)
    → length s.entry_ptrs ≡ max_entries
    → s.num_madt_entries ≤ max_entries
    → max_entries < s.num_madt_entries + f
    → (recurse_table f m end_addr ptr s ≡ fault)
      ⊎ ((s' : Madt) × (recurse_table f m end_addr ptr s ≡ ok s'))
unfolding recurse_table
recurse_table-ends zero m end_addr ptr s len few fuel = absurd (omega arith)
recurse_table-ends (suc f) m end_addr ptr s len few fuel =
    elim (Bool-cases (leb end_addr ptr || ltb max_entries s.num_madt_entries)) [
      | inl stop ↦ rw stop (inr (s, refl))
      | inr go ↦ rw go (elim (Bool-cases (ltb s.num_madt_entries max_entries)) [
        | inl room ↦
            let (old, at) = get_elem?-lt s.entry_ptrs s.num_madt_entries (ground arith) in
            rw at (
              recurse_table-ends f m end_addr (ptr + entry_length m ptr) (with_entry ptr s)
                (length-set s.entry_ptrs s.num_madt_entries ptr ∙ len) (ground arith)
                (ground arith))
        | inr full ↦ rw (get_elem?-ge s.entry_ptrs s.num_madt_entries (ground arith)) (inl refl)
      ])
    ]

-- From `ptr` to the end of the table stand the entries at `ptrs`.
abbrev pub Chain : Mem → ℕ → ℕ → List ℕ → Type 0
Chain m end_addr ptr [] = end_addr ≤ ptr
Chain m end_addr ptr (p ∷ ps) =
    (ptr < end_addr) × (p ≡ ptr) × Chain m end_addr (ptr + entry_length m ptr) ps

-- `s'` is `s` with the entries added.
pub record Collected (s s' : Madt) (ptrs : List ℕ) : Type 0 where
  pub count : s'.num_madt_entries ≡ s.num_madt_entries + length ptrs
  pub kept : (j : ℕ) → j < s.num_madt_entries → get_elem? s'.entry_ptrs j ≡ get_elem? s.entry_ptrs j
  pub added :
      (j : ℕ)
      → j < length ptrs
      → get_elem? s'.entry_ptrs (s.num_madt_entries + j) ≡ get_elem? ptrs j

added :
    (s s' : Madt) (p : ℕ) (ps : List ℕ) (ptr : ℕ)
    → (s.num_madt_entries < length s.entry_ptrs)
      × (u16 (s.num_madt_entries + 1) ≡ suc s.num_madt_entries)
    → p ≡ ptr
    → Collected (with_entry ptr s) s' ps
    → (j : ℕ) → j < length (p ∷ ps)
    → get_elem? s'.entry_ptrs (s.num_madt_entries + j) ≡ get_elem? (p ∷ ps) j
added s s' p ps ptr room e d zero lt =
    ap (get_elem? s'.entry_ptrs) (omega arith)
    ∙ d.kept s.num_madt_entries (omega arith)
    ∙ get_elem?-set_self s.entry_ptrs s.num_madt_entries ptr room.0
    ∙ ap some (sym e)
added s s' p ps ptr room e d (suc j) lt =
    ap (get_elem? s'.entry_ptrs) (omega arith) ∙ d.added j (omega arith)

recurse_table-Collected :
    (f : ℕ) (m : Mem) (end_addr ptr : ℕ) (s : Madt) (ptrs : List ℕ)
    → length s.entry_ptrs ≡ max_entries
    → Chain m end_addr ptr ptrs
    → s.num_madt_entries + length ptrs ≤ max_entries
    → length ptrs < f
    → (s' : Madt) × (recurse_table f m end_addr ptr s ≡ ok s') × Collected s s' ptrs
unfolding recurse_table
recurse_table-Collected zero m end_addr ptr s ptrs len c room fuel = absurd (omega arith)
recurse_table-Collected (suc f) m end_addr ptr s [] len c room fuel =
    let stop : (leb end_addr ptr || ltb max_entries s.num_madt_entries) ≡ true = ground arith in
    rw stop (
      s,
      refl,
      record { count = omega arith; kept = λ j lt. refl; added = λ j lt. absurd (omega arith) },
    )
recurse_table-Collected (suc f) m end_addr ptr s (p ∷ ps) len c room fuel =
    let go : (leb end_addr ptr || ltb max_entries s.num_madt_entries) ≡ false =
      ground (arith, c.0) in
    let n = s.num_madt_entries in
    let (old, at) = get_elem?-lt s.entry_ptrs n (omega arith) in
    let next : u16 (n + 1) ≡ suc n = omega arith in
    let (s', e, d) =
      recurse_table-Collected f m end_addr (ptr + entry_length m ptr) (with_entry ptr s) ps
        (length-set s.entry_ptrs n ptr ∙ len) c.2 (omega arith) (omega arith) in
    rw (go, at)
      (
        s',
        e,
        record {
          count = omega (arith, d.count);
          kept = λ j lt.
              d.kept j (omega arith) ∙ get_elem?-set_ne s.entry_ptrs n j ptr (λ e. omega arith);
          added = λ j lt. added s s' p ps ptr (omega arith) c.1 d j lt;
        },
      )

recurse_table-many :
    (f : ℕ) (m : Mem) (end_addr ptr : ℕ) (s : Madt) (ptrs : List ℕ)
    → length s.entry_ptrs ≡ max_entries
    → Chain m end_addr ptr ptrs
    → s.num_madt_entries ≤ max_entries
    → max_entries < s.num_madt_entries + length ptrs
    → max_entries < s.num_madt_entries + f
    → recurse_table f m end_addr ptr s ≡ fault
unfolding recurse_table
recurse_table-many zero m end_addr ptr s ptrs len c few many fuel = absurd (omega arith)
recurse_table-many (suc f) m end_addr ptr s [] len c few many fuel = absurd (omega arith)
recurse_table-many (suc f) m end_addr ptr s (p ∷ ps) len c few many fuel =
    let go : (leb end_addr ptr || ltb max_entries s.num_madt_entries) ≡ false =
      ground (arith, c.0) in
    rw go (elim (Bool-cases (ltb s.num_madt_entries max_entries)) [
      | inl room ↦
          let (old, at) = get_elem?-lt s.entry_ptrs s.num_madt_entries (ground arith) in
          rw at (
            recurse_table-many f m end_addr (ptr + entry_length m ptr) (with_entry ptr s) ps
              (length-set s.entry_ptrs s.num_madt_entries ptr ∙ len) c.2 (ground arith)
              (ground arith) (ground arith))
      | inr full ↦ rw (get_elem?-ge s.entry_ptrs s.num_madt_entries (ground arith)) refl
    ])

-- A table of at most 64 entries is collected in order; one of more writes behind `entry_ptrs`.
pub recurse_table-Chain :
    (f : ℕ) (m : Mem) (end_addr ptr : ℕ) (s : Madt) (ptrs : List ℕ)
    → length s.entry_ptrs ≡ max_entries
    → s.num_madt_entries ≡ 0
    → Chain m end_addr ptr ptrs
    → max_entries < f
    → (length ptrs ≤ max_entries
        → (s' : Madt) × (recurse_table f m end_addr ptr s ≡ ok s') × Collected s s' ptrs)
      × (max_entries < length ptrs → recurse_table f m end_addr ptr s ≡ fault)
recurse_table-Chain f m end_addr ptr s ptrs len none_yet c fuel = (
  λ few. recurse_table-Collected f m end_addr ptr s ptrs len c (omega arith) (omega arith),
  λ many.
      recurse_table-many f m end_addr ptr s ptrs len c (omega arith) (omega arith) (omega arith),
)
