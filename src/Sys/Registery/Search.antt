-- ===== src/Sys/Registery/Search.antt =====
-- core/sys/resman/registery.c, `read_key` and `read_entry`: which key and which entry they find.
use h0r_net.Common.{
  sym, ℕ, zero, suc, ◌+◌, ◌*◌, ◌^◌, ◌<◌, ◌≡◌, refl, ap, ◌∙◌, true, false, Bool, ◌==◌, ◌||◌, ◌&&◌,
  if◌then◌else◌, List, [], ◌∷◌, length, some, Mem, ok, arith, ltb, u64,
}
use h0r_net.Common.LittleEndian.{load_le}
use h0r_net.Libk.Memory.{Sign, same, plus, minus}
use h0r_net.Libk.Text.Strings.{Holds, text_order}
use h0r_net.Libk.Text.Reads.{strcmp-text_order}
use h0r_net.Tar.Lookup.{chosen, Named, lookup}
use h0r_net.Sys.Registery.{
  key_magic, hive_header_size, key_header_size, entry_header_size, load_be32, name_found, key_loop,
  read_key, entry_loop, read_entry,
}

abbrev pub is_same : Sign → Bool
is_same same = true
is_same plus = false
is_same minus = false

name_found-is_same :
    (o : Sign) (item rest : ℕ)
    → name_found (some o) item (ok rest) ≡ ok (if is_same o then item else rest)
name_found-is_same same item rest = refl
name_found-is_same plus item rest = refl
name_found-is_same minus item rest = refl

-- The key at `pointer` is one, and has the name.
abbrev pub is_key : Mem → ℕ → List ℕ → List ℕ → Bool
is_key m pointer text name = load_le 4 m pointer == key_magic && is_same (text_order text name)

module _ (f : ℕ) (m : Mem) (path : ℕ) (text name : List ℕ) (path_holds : Holds m path name)
    (short : length text < f) where
  key_loop-first :
      (left pointer : ℕ)
      → Holds m (pointer + 12) text
      → key_loop f m path left pointer
        ≡ ok (if ltb 0 left && is_key m pointer text name then pointer else 0)
  unfolding key_loop
  key_loop-first zero pointer h = refl
  key_loop-first (suc left) pointer h =
      let order = strcmp-text_order f m (pointer + 12) path text name h path_holds short in
      let named =
        ap (λ o. name_found o pointer (key_loop f m path left pointer)) order
        ∙ ap (name_found (some (text_order text name)) pointer) (key_loop-first left pointer h)
        ∙ name_found-is_same (text_order text name) pointer
            (if ltb 0 left && is_key m pointer text name then pointer else 0) in
      ground (arith, named)

-- `read_key` finds a key exactly when there is one, the first key of the hive is one, and its name is
-- the one that is asked for: the other keys are never looked at, however many there are.
pub read_key-first :
    (f : ℕ) (m : Mem) (hive path : ℕ) (text name : List ℕ)
    → (hive == 0 || path == 0) ≡ false
    → Holds m path name
    → Holds m (hive + hive_header_size + 12) text
    → length text < f
    → read_key f m hive path
      ≡ ok (
          if ltb 0 (load_be32 m (hive + 4)) && is_key m (hive + hive_header_size) text name
          then hive + hive_header_size
          else 0)
unfolding read_key
read_key-first f m hive path text name there path_holds h short = rw there (
    key_loop-first f m path text name path_holds short (load_be32 m (hive + 4))
      (hive + hive_header_size) h)

-- The names of the entries, each behind the one before as far as the source's step goes.
abbrev pub Entries : ℕ → Mem → ℕ → List Named → Type 0
Entries f m entry [] = entry ≡ entry
Entries f m entry (n ∷ ns) =
    (n.header ≡ entry)
    × Holds m entry n.text
    × (length n.text < f)
    × Entries f m (u64 (entry + entry_header_size + m (entry + 65) * 2 ^ 24)) ns

chosen-is_same :
    (o : Sign) (header entry rest : ℕ)
    → header ≡ entry
    → (if is_same o then entry else rest) ≡ chosen header o rest
chosen-is_same same header entry rest e = sym e
chosen-is_same plus header entry rest e = refl
chosen-is_same minus header entry rest e = refl

entry_loop-lookup :
    (f : ℕ) (m : Mem) (path : ℕ) (name : List ℕ) (entry : ℕ) (ns : List Named)
    → Holds m path name
    → Entries f m entry ns
    → entry_loop f m path (length ns) entry ≡ ok (lookup name ns)
unfolding entry_loop lookup
entry_loop-lookup f m path name entry [] h e = refl
entry_loop-lookup f m path name entry (n ∷ ns) h e =
    let next = u64 (entry + entry_header_size + m (entry + 65) * 2 ^ 24) in
    ap (λ o. name_found o entry (entry_loop f m path (length ns) next))
      (strcmp-text_order f m entry path n.text name e.1 h e.2)
    ∙ ap (name_found (some (text_order n.text name)) entry)
        (entry_loop-lookup f m path name next ns h e.3)
    ∙ name_found-is_same (text_order n.text name) entry (lookup name ns)
    ∙ ap ok (chosen-is_same (text_order n.text name) n.header entry (lookup name ns) e.0)

-- `read_entry` finds the first entry of the name among as many as the key counts, where each entry
-- stands behind the one before by the source's step, which is 2 ^ 24 times the length of its value.
pub read_entry-lookup :
    (f : ℕ) (m : Mem) (key path : ℕ) (name : List ℕ) (ns : List Named)
    → (key == 0 || path == 0) ≡ false
    → Holds m path name
    → load_be32 m (key + 4) ≡ length ns
    → Entries f m (key + key_header_size) ns
    → read_entry f m key path ≡ ok (lookup name ns)
unfolding read_entry
read_entry-lookup f m key path name ns there h count e =
    rw (there, count) (entry_loop-lookup f m path name (key + key_header_size) ns h e)
