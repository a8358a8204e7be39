-- ===== src/Libk/Text/Reads.antt =====
-- The routines of libk/string.c that only read their strings.
use h0r_net.Common.{ℕ, zero, suc, ◌+◌, ◌<◌, ◌≡◌, ◌↔◌, List, [], ◌∷◌, some, length, Mem, arith, ap}
use h0r_net.Libk.Memory.{same}
use h0r_net.Libk.Text.{end_of, strlen, strcmp}
use h0r_net.Libk.Text.Strings.{Holds, text_order, text_order-same, text_order_refl}

pub end_of-Holds :
    (f : ℕ) (m : Mem) (s : ℕ) (xs : List ℕ)
    → Holds m s xs
    → length xs < f
    → end_of f m s ≡ some (s + length xs)
unfolding end_of
end_of-Holds zero m s xs h fuel = absurd (omega arith)
end_of-Holds (suc f) m s [] h fuel = ground arith
end_of-Holds (suc f) m s (x ∷ xs) h fuel = ground (arith, end_of-Holds f m (s + 1) xs h.2)

-- `strlen` of a string is its number of bytes, given fuel for each of them and the terminator.
pub strlen-length :
    (f : ℕ) (m : Mem) (s : ℕ) (xs : List ℕ)
    → Holds m s xs
    → length xs < f
    → strlen f m s ≡ some (length xs)
unfolding strlen
strlen-length f m s xs h fuel = rw (end_of-Holds f m s xs h fuel) (ap some (omega arith))

-- `strcmp` computes the order of the two texts.
pub strcmp-text_order :
    (f : ℕ) (m : Mem) (s1 s2 : ℕ) (xs ys : List ℕ)
    → Holds m s1 xs
    → Holds m s2 ys
    → length xs < f
    → strcmp f m s1 s2 ≡ some (text_order xs ys)
unfolding strcmp text_order
strcmp-text_order zero m s1 s2 xs ys h k fuel = absurd (omega arith)
strcmp-text_order (suc f) m s1 s2 [] [] h k fuel = ground arith
strcmp-text_order (suc f) m s1 s2 [] (y ∷ ys) h k fuel = ground arith
strcmp-text_order (suc f) m s1 s2 (x ∷ xs) [] h k fuel = ground arith
strcmp-text_order (suc f) m s1 s2 (x ∷ xs) (y ∷ ys) h k fuel =
    ground (arith, strcmp-text_order f m (s1 + 1) (s2 + 1) xs ys h.2 k.2)

-- It returns 0 exactly for equal texts.
pub strcmp-same_iff :
    (f : ℕ) (m : Mem) (s1 s2 : ℕ) (xs ys : List ℕ)
    → Holds m s1 xs
    → Holds m s2 ys
    → length xs < f
    → (strcmp f m s1 s2 ≡ some same) ↔ (xs ≡ ys)
strcmp-same_iff f m s1 s2 xs ys h k fuel =
    rw (strcmp-text_order f m s1 s2 xs ys h k fuel)
      (λ e. text_order-same xs ys (ground arith), λ e. rw e (ap some (text_order_refl ys)))
