-- ===== src/Arch/Keyboard/Keys.antt =====
-- arch/x86_64/io/PS2.c and input.c: what each key prints.
use h0r_net.Common.{
  every-true, ◌∙◌, ◌<◌, ap, sym, arith, ℕ, ◌≡◌, refl, Bool, true, false, List, [], ◌∷◌, ◌==◌, ◌&&◌,
  ◌||◌, if◌then◌else◌, Outcome, ok, fault, halted, out_of_fuel, every,
}
use h0r_net.Arch.Keyboard.{Keyboard, handler, texts_from, same_text}

-- The characters of a key, without and with the shift key; 0 stands for none.
pub record Key : Type 0 where
  pub scancode : ℕ
  pub plain : ℕ
  pub shifted : ℕ

abbrev key : ℕ → ℕ → ℕ → Key
key scancode plain shifted = record { scancode = scancode; plain = plain; shifted = shifted }

-- The letters but M; M, which prints an N; "`" and the digits from 1 to 4; 5, which prints with
-- the shift key nothing that comes to an end; the keys from 6 on, which print with it what the next
-- key should; and the two shift keys, which print something themselves.
abbrev pub key_map : List Key
key_map =
    key 0x1e 97 65
    ∷ key 0x30 98 66
    ∷ key 0x2e 99 67
    ∷ key 0x20 100 68
    ∷ key 0x12 101 69
    ∷ key 0x21 102 70
    ∷ key 0x22 103 71
    ∷ key 0x23 104 72
    ∷ key 0x17 105 73
    ∷ key 0x24 106 74
    ∷ key 0x25 107 75
    ∷ key 0x26 108 76
    ∷ key 0x32 110 78
    ∷ key 0x18 111 79
    ∷ key 0x19 112 80
    ∷ key 0x10 113 81
    ∷ key 0x13 114 82
    ∷ key 0x1f 115 83
    ∷ key 0x14 116 84
    ∷ key 0x16 117 85
    ∷ key 0x2f 118 86
    ∷ key 0x11 119 87
    ∷ key 0x2d 120 88
    ∷ key 0x15 121 89
    ∷ key 0x2c 122 90
    ∷ key 0x29 96 0
    ∷ key 0x2 49 33
    ∷ key 0x3 50 64
    ∷ key 0x4 51 35
    ∷ key 0x5 52 36
    ∷ key 0x6 53 0
    ∷ key 0x7 54 38
    ∷ key 0x8 55 42
    ∷ key 0x9 56 40
    ∷ key 0xa 57 41
    ∷ key 0xb 48 95
    ∷ key 0xc 45 43
    ∷ key 0xd 61 123
    ∷ key 0x2a 125 125
    ∷ key 0x36 58 58
    ∷ []

abbrev pub character : ℕ → List ℕ
character c = if c == 0 then [] else c ∷ []

-- What a scan code prints, by whether the shift key is held.
pub typed : List Key → Bool → ℕ → List ℕ
typed [] shift scancode = []
typed (k ∷ ks) shift scancode =
    if k.scancode == scancode
    then character (if shift then k.shifted else k.plain)
    else typed ks shift scancode

-- Whether the shift key is held after a scan code.
abbrev pub held_after : Bool → ℕ → Bool
held_after shift scancode =
    if scancode == 0x2a || scancode == 0x36 then true else if scancode == 0xaa then false else shift

-- Between two keys: no key is waiting to be printed, and caps lock is off.
pub record AtRest (k : Keyboard) : Type 0 where
  pub no_key : k.kb_state ≡ []
  pub no_caps : k.capspoint ≡ false

abbrev same_bool : Bool → Bool → Bool
same_bool true b = b
same_bool false true = false
same_bool false false = true

-- The outcome is as described, to be evaluated.
abbrev as_typed : Bool → ℕ → Outcome (List ℕ × Keyboard) → Bool
as_typed shift c (ok r) =
    same_text r.0 (typed key_map shift c)
    && (same_text r.1.kb_state []
        && (same_bool r.1.capspoint false && same_bool r.1.shiftpoint (held_after shift c)))
as_typed shift c (fault) = false
as_typed shift c (halted e) = false
as_typed shift c (out_of_fuel) = false

abbrev resting : Bool → Bool → Bool → Keyboard
resting shift caps_state shift_state = record {
  shiftpoint = shift;
  capspoint = false;
  kb_state = [];
  kb_caps_state = caps_state;
  kb_shift_state = shift_state;
}

plain_keys : (a b : Bool) → every (λ c. as_typed false c (handler c (resting false a b))) 256 ≡ true
unfolding every handler typed texts_from
plain_keys a b = refl

shifted_keys :
    (a b : Bool) → every (λ c. c == 6 || as_typed true c (handler c (resting true a b))) 256 ≡ true
unfolding every handler typed texts_from
shifted_keys a b = refl

overflow : (a b : Bool) → handler 6 (resting true a b) ≡ fault
unfolding handler texts_from
overflow a b = refl

same_text-≡ : (xs ys : List ℕ) → same_text xs ys ≡ true → xs ≡ ys
same_text-≡ [] [] e = refl
same_text-≡ [] (y ∷ ys) e = absurd cc
same_text-≡ (x ∷ xs) [] e = absurd cc
same_text-≡ (x ∷ xs) (y ∷ ys) e =
    let heads : x ≡ y = ground (arith, e) in
    let tails : xs ≡ ys = same_text-≡ xs ys (ground (arith, e)) in cc

same_bool-≡ : (a b : Bool) → same_bool a b ≡ true → a ≡ b
same_bool-≡ true b e = sym e
same_bool-≡ false true e = e
same_bool-≡ false false e = refl

and-left : (a b : Bool) → (a && b) ≡ true → a ≡ true
and-left a b e = ground (arith, e)

and-right : (a b : Bool) → (a && b) ≡ true → b ≡ true
and-right a b e = ground (arith, e)

-- `c` prints what the map says, and leaves the keyboard at rest.
abbrev pub Typed : Bool → ℕ → Outcome (List ℕ × Keyboard) → Type 0
Typed shift c o =
    (k' : Keyboard) × (o ≡ ok (typed key_map shift c, k'))
    × AtRest k'
    × (k'.shiftpoint ≡ held_after shift c)

as_typed-Typed :
    (shift : Bool) (c : ℕ) (o : Outcome (List ℕ × Keyboard))
    → as_typed shift c o ≡ true
    → Typed shift c o
as_typed-Typed shift c (ok r) e =
    let later = and-right _ _ e in
    let last = and-right _ _ later in
    (
      r.1,
      ap (λ out. ok (out, r.1)) (same_text-≡ r.0 (typed key_map shift c) (and-left _ _ e)),
      record {
        no_key = same_text-≡ r.1.kb_state [] (and-left _ _ later);
        no_caps = same_bool-≡ r.1.capspoint false (and-left _ _ last);
      },
      same_bool-≡ r.1.shiftpoint (held_after shift c) (and-right _ _ last),
    )
as_typed-Typed shift c (fault) e = absurd cc
as_typed-Typed shift c (halted x) e = absurd cc
as_typed-Typed shift c (out_of_fuel) e = absurd cc

AtRest-resting :
    (k : Keyboard) → AtRest k → k ≡ resting k.shiftpoint k.kb_caps_state k.kb_shift_state
AtRest-resting k r =
    ap (λ t. record k { kb_state = t }) r.no_key
    ∙ ap (λ c. record k { kb_state = []; capspoint = c }) r.no_caps

handler-resting :
    (shift a b : Bool) (c : ℕ)
    → c < 256
    → (((shift && c == 6) ≡ false) → Typed shift c (handler c (resting shift a b)))
      × ((shift && c == 6) ≡ true → handler c (resting shift a b) ≡ fault)
handler-resting true a b c lt = (
  λ other.
      as_typed-Typed true c (handler c (resting true a b))
        (let checked = every-true _ 256 c lt (shifted_keys a b) in rw other at checked),
  λ five. (let here : c ≡ 6 = ground (arith, five) in rw here (overflow a b)),
)
handler-resting false a b c lt = (
  λ other.
      as_typed-Typed false c (handler c (resting false a b))
        (every-true _ 256 c lt (plain_keys a b)),
  λ five. absurd cc,
)

-- A scan code that comes to a keyboard at rest prints what the map of keys says, and leaves the
-- keyboard at rest, with the shift key held as that key says; caps lock never comes on. The one
-- exception is key 5 with the shift key, which writes behind the two bytes of KB_STATE.
pub handler-Typed :
    (k : Keyboard) (c : ℕ)
    → c < 256
    → AtRest k
    → ((k.shiftpoint && c == 6) ≡ false → Typed k.shiftpoint c (handler c k))
      × ((k.shiftpoint && c == 6) ≡ true → handler c k ≡ fault)
handler-Typed k c lt r =
    rw (AtRest-resting k r) (handler-resting k.shiftpoint k.kb_caps_state k.kb_shift_state c lt)
