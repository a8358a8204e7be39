-- ===== src/Tests/Registery.antt =====
-- src/core/sys/resman/registery.c at concrete inputs: a hive at 4096 with the key "a", and a key at
-- 8192 with the entry "b".
use h0r_net.Common.{ℕ, ◌≡◌, refl, ◌==◌, if◌then◌else◌, List, [], ◌∷◌, Mem, ok, arith}
use h0r_net.Tar.Lookup.{Named, lookup}
use h0r_net.Sys.Registery.{read_entry}
use h0r_net.Sys.Registery.Search.{read_entry-lookup}

abbrev memory : Mem
memory = λ a.
    if a == 100
    then 97
    else if a == 200
    then 98
    else if a == 4103
    then 2
    else if a == 4169
    then 0x66
    else if a == 4170
    then 6
    else if a == 4171
    then 0x42
    else if a == 4172
    then 0x69
    else if a == 4181
    then 97
    else if a == 8199
    then 1
    else if a == 8268
    then 98
    else 0

abbrev a_text : List ℕ
a_text = 97 ∷ []

abbrev b_text : List ℕ
b_text = 98 ∷ []

abbrev entries : List Named
entries = record { header = 8268; text = b_text } ∷ []

read_entry-lookup_example : read_entry 5 memory 8192 200 ≡ ok (lookup b_text entries)
read_entry-lookup_example =
    read_entry-lookup 5 memory 8192 200 b_text entries refl (omega arith) refl
      (refl, omega arith, omega arith, refl)
