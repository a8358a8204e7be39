-- ===== src/Libk/Numbers.antt =====
-- libk/stdlib.c, `atoi`. An `int` that overflows is undefined, which is a `fault`. `hcf` and `hlt` are
-- special instructions.
use native.Mathlib.Nat.{pow-suc}
use h0r_net.Common.{
  ℕ, zero, suc, ◌+◌, ◌-◌, ◌*◌, ◌^◌, ◌≤◌, ◌<◌, ◌≡◌, ◌⊎◌, ap, ◌∙◌, true, false, List, [], ◌∷◌, ltb,
  leb, ◌&&◌, Bool, if◌then◌else◌, Mem, Outcome, ok, fault, out_of_fuel, arith, length,
}

abbrev is_digit : ℕ → Bool
is_digit c = leb 48 c && leb c 57

unfoldable pub atoi_loop : ℕ → Mem → ℕ → ℕ → Outcome ℕ
atoi_loop zero m s n = out_of_fuel
atoi_loop (suc f) m s n =
    let rest = atoi_loop f m (s + 1) (10 * n + (m s - 48)) in
    if is_digit (m s) then (if ltb (10 * n + (m s - 48)) (2 ^ 31) then rest else fault) else ok n

unfoldable pub atoi : ℕ → Mem → ℕ → Outcome ℕ
unfolding atoi_loop
atoi f m s = atoi_loop f m s 0

-- The digits stand from `s` on, and something else behind them.
abbrev pub Digits : Mem → ℕ → List ℕ → Type 0
Digits m s [] = (m s < 48) ⊎ (57 < m s)
Digits m s (d ∷ ds) = (m s ≡ 48 + d) × (d < 10) × Digits m (s + 1) ds

-- Each digit by its place.
abbrev pub place_value : List ℕ → ℕ
place_value [] = 0
place_value (d ∷ ds) = d * 10 ^ length ds + place_value ds

power-pos : (n : ℕ) → 0 < 10 ^ n
power-pos zero = omega arith
power-pos (suc n) = omega (arith, power-pos n, pow-suc 10 n)

le_times : (a p : ℕ) → 0 < p → a ≤ a * p
le_times zero p h = omega arith
le_times (suc a) p h = omega (arith, le_times a p h)

shifted : (n d p : ℕ) → (10 * n + d) * p ≡ n * (p * 10) + d * p
shifted n d p = grind arith

atoi_loop-place_value :
    (f : ℕ) (m : Mem) (s n : ℕ) (ds : List ℕ)
    → Digits m s ds
    → n * 10 ^ length ds + place_value ds < 2 ^ 31
    → length ds < f
    → atoi_loop f m s n ≡ ok (n * 10 ^ length ds + place_value ds)
unfolding atoi_loop
atoi_loop-place_value zero m s n ds h small fuel = absurd (omega arith)
atoi_loop-place_value (suc f) m s n [] h small fuel =
    let stops : is_digit (m s) ≡ false = ground (arith, h) in rw stops (ap ok (omega arith))
atoi_loop-place_value (suc f) m s n (d ∷ ds) h small fuel =
    let digit : is_digit (m s) ≡ true = ground (arith, h.0, h.1) in
    let next : 10 * n + (m s - 48) ≡ 10 * n + d = omega (arith, h.0) in
    let p : 10 ^ suc (length ds) ≡ 10 ^ length ds * 10 = pow-suc 10 (length ds) in
    let n_times : n * 10 ^ suc (length ds) ≡ n * (10 ^ length ds * 10) = ap (λ q. n * q) p in
    let same : (10 * n + d) * 10 ^ length ds + place_value ds
        ≡ n * 10 ^ suc (length ds) + (d * 10 ^ length ds + place_value ds) =
      ap (λ q. q + place_value ds) (shifted n d (10 ^ length ds)) ∙ omega (arith, n_times) in
    let fits : ltb (10 * n + d) (2 ^ 31) ≡ true =
      ground (arith, small, same, le_times (10 * n + d) (10 ^ length ds) (power-pos (length ds))) in
    rw (digit, next, fits)
      (atoi_loop-place_value f m (s + 1) (10 * n + d) ds h.2 (omega (arith, same, small))
          (omega arith)
        ∙ ap ok same)

-- `atoi` of a text of decimal digits, with something else behind them, is the number that they
-- write, if it fits an `int`.
pub atoi-place_value :
    (f : ℕ) (m : Mem) (s : ℕ) (ds : List ℕ)
    → Digits m s ds
    → place_value ds < 2 ^ 31
    → length ds < f
    → atoi f m s ≡ ok (place_value ds)
unfolding atoi
atoi-place_value f m s ds h small fuel =
    atoi_loop-place_value f m s 0 ds h (omega arith) fuel ∙ ap ok (omega arith)
