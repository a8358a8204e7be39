-- ===== src/Tests/Libk.antt =====
-- src/libk at concrete inputs.
use h0r_net.Common.{
  ok, inr, ◌-◌, ◌+◌, ◌^◌, ◌<◌, ◌≤◌, ◌==◌, if◌then◌else◌, ℕ, ◌≡◌, refl, List, [], ◌∷◌, some, Mem,
  IsBytes, store8, arith,
}
use h0r_net.Libk.Bitmap.{Bitmap}
use h0r_net.Libk.Numbers.{atoi, atoi-place_value}
use h0r_net.Libk.Vector.{Vector, vector_at, vector_erase}
use h0r_net.Libk.Vector.Elements.{InBlock, vector_at-erase}
use h0r_net.Tests.Heap.{heap}
use h0r_net.Libk.Text.{strcmp, strtok}
use h0r_net.Libk.Text.Strings.{text_order, Holds}
use h0r_net.Libk.Text.Reads.{strcmp-text_order}

-- "ab" at 10, "cd" at 20, zeros elsewhere.
abbrev memory : Mem
memory = store8 (store8 (store8 (store8 (λ a. 0) 10 97) 11 98) 20 99) 21 100

abbrev ab : List ℕ
ab = 97 ∷ 98 ∷ []

abbrev cd : List ℕ
cd = 99 ∷ 100 ∷ []

ab-Holds : Holds memory 10 ab
unfolding store8
ab-Holds = omega arith

cd-Holds : Holds memory 20 cd
unfolding store8
cd-Holds = omega arith

-- `strtok` of "ab" at the separator "b" gives "a", and a later call nothing.
first_token :
    strtok 5 0 0 memory (some 10) 11
    ≡ some (record { memory = store8 memory 11 0; save = 12; token = some 10 })
unfolding strtok store8
first_token = refl

zeros-IsBytes : IsBytes (λ a. 0)
zeros-IsBytes a = omega arith

abbrev bitmap : Bitmap
bitmap = record { size = 2; buffer = 100 }

strcmp-text_order_example : strcmp 3 memory 10 20 ≡ some (text_order ab cd)
strcmp-text_order_example = strcmp-text_order 3 memory 10 20 ab cd ab-Holds cd-Holds (omega arith)

-- "42x" at 10.
abbrev number_text : Mem
number_text = λ a. if a == 10 then 52 else if a == 11 then 50 else 120

atoi-place_value_example : atoi 3 number_text 10 ≡ ok 42
atoi-place_value_example =
    atoi-place_value 3 number_text 10 (4 ∷ 2 ∷ [])
      (refl, omega arith, (refl, omega arith, inr (omega arith))) (omega arith) (omega arith)

-- A vector of three elements at 0x1008.
abbrev vector : Vector
vector = record { len = 3; cap = 500; block = 2 ^ 47 + 0x1008 }

in_block : InBlock heap vector
in_block = record { reached = omega arith; word = omega arith; room = omega arith }

vector_at-erase_example :
    let v' = (vector_erase 1 vector heap).0 in
    let h' = (vector_erase 1 vector heap).1 in
    (v'.len ≡ 3 - 1)
    × ((i : ℕ) → i < 1 → vector_at h' v' i ≡ vector_at heap vector i)
    × ((i : ℕ) → 1 ≤ i → i + 1 < 3 → vector_at h' v' i ≡ vector_at heap vector (i + 1))
vector_at-erase_example = vector_at-erase heap vector 1 in_block (omega arith)
