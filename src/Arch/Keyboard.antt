-- ===== src/Arch/Keyboard.antt =====
-- arch/x86_64/io/PS2.c and arch/x86_64/io/input.c: what a key does. A text is the list of its
-- characters, without the terminator, and what is printed is an output.
pub mod Keys
use h0r_net.Common.{
  ℕ, zero, suc, ◌+◌, ◌-◌, Bool, true, false, List, [], ◌∷◌, ◌++◌, ltb, leb, ◌==◌, ◌!=◌, ◌&&◌, ◌||◌,
  if◌then◌else◌, Outcome, ok, fault, ◌>>=◌, at_index, get_elem?, length, none, some,
}

-- The letters from `c` on, one text each.
pub texts_from : ℕ → ℕ → List (List ℕ)
texts_from c zero = []
texts_from c (suc n) = (c ∷ []) ∷ texts_from (c + 1) n

abbrev pub texts : List ℕ → List (List ℕ)
texts [] = []
texts (c ∷ cs) = (c ∷ []) ∷ texts cs

-- "`" "1" to "9" "0" "-" "="
abbrev pub digit_keys : List (List ℕ)
digit_keys = texts (96 ∷ 49 ∷ 50 ∷ 51 ∷ 52 ∷ 53 ∷ 54 ∷ 55 ∷ 56 ∷ 57 ∷ 48 ∷ 45 ∷ 61 ∷ [])

-- KB_KEY
abbrev pub kb_key : List (List ℕ)
kb_key = texts_from 65 26 ++ digit_keys

-- KB_KEY_SHIFT: the comma that is missing between "%" and "^" makes one text of them.
abbrev pub kb_key_shift : List (List ℕ)
kb_key_shift =
    texts (126 ∷ 33 ∷ 64 ∷ 35 ∷ 36 ∷ [])
    ++ ((37 ∷ 94 ∷ []) ∷ [])
    ++ texts (38 ∷ 42 ∷ 40 ∷ 41 ∷ 95 ∷ 43 ∷ 123 ∷ 125 ∷ 58 ∷ 34 ∷ 60 ∷ 62 ∷ 63 ∷ 124 ∷ [])

-- KB_SCANCODE
abbrev pub kb_scancode : List ℕ
kb_scancode =
    0x1e ∷ 0x30 ∷ 0x2e ∷ 0x20 ∷ 0x12 ∷ 0x21 ∷ 0x22 ∷ 0x23 ∷ 0x17 ∷ 0x24 ∷ 0x25 ∷ 0x26 ∷ 0x32 ∷ 0x32
    ∷ 0x18 ∷ 0x19 ∷ 0x10 ∷ 0x13 ∷ 0x1f ∷ 0x14 ∷ 0x16 ∷ 0x2f ∷ 0x11 ∷ 0x2d ∷ 0x15 ∷ 0x2c ∷ 0x29 ∷ 0x2
    ∷ 0x3 ∷ 0x4 ∷ 0x5 ∷ 0x6 ∷ 0x7 ∷ 0x8 ∷ 0x9 ∷ 0xa ∷ 0xb ∷ 0xc ∷ 0xd ∷ 0x2a ∷ 0x36 ∷ 0xaa ∷ 0x3a
    ∷ []

-- CAPS_LETTERS, CHARS, SHIFT_CHARS and IDS
abbrev pub caps_letters : List (List ℕ)
caps_letters = texts_from 65 26

abbrev pub chars : List (List ℕ)
chars = texts_from 97 26 ++ digit_keys ++ texts (45 ∷ 61 ∷ [])

abbrev pub shift_chars : List (List ℕ)
shift_chars = texts (
    126 ∷ 33 ∷ 64 ∷ 35 ∷ 36 ∷ 37 ∷ 94 ∷ 38 ∷ 42 ∷ 40 ∷ 41 ∷ 95 ∷ 43 ∷ 123 ∷ 125 ∷ 58 ∷ 34 ∷ 60 ∷ 62
    ∷ 63 ∷ 124 ∷ [])

abbrev pub ids : List (List ℕ)
ids = kb_key ++ shift_chars

-- `shiftpoint`, `capspoint`, KB_STATE, KB_CAPS_STATE and KB_SHIFT_STATE; the numbers are 0 or 1.
pub record Keyboard : Type 0 where
  pub shiftpoint : Bool
  pub capspoint : Bool
  pub kb_state : List ℕ
  pub kb_caps_state : Bool
  pub kb_shift_state : Bool

-- KB_STATE has two bytes: a text of two characters is written behind it.
abbrev pub store_key : Bool → Bool → List ℕ → Keyboard → Outcome Keyboard
store_key caps shift key k =
    if ltb (length key) 2
    then ok (record k { kb_state = key; kb_caps_state = caps; kb_shift_state = shift })
    else fault

-- Scan code `i` of the table is not the one that came.
abbrev pub differs : ℕ → ℕ → Bool
differs scancode i = elim (get_elem? kb_scancode i) [ none ↦ true | some c ↦ scancode != c ]

-- The test on both branches, which is true of every scan code.
abbrev pub no_modifier : ℕ → Bool
no_modifier scancode = differs scancode 41 || (differs scancode 39 || differs scancode 40)

-- Key `i` was pressed.
unfoldable pub pressed : ℕ → ℕ → Keyboard → Outcome Keyboard
pressed scancode i k =
    if k.shiftpoint
    then (if ltb 26 i
        then (if no_modifier scancode
            then (at_index (get_elem? kb_key_shift (i - 26)) >>= λ key. store_key false true key k)
            else ok k)
        else if ltb i 26
        then (at_index (get_elem? kb_key i) >>= λ key. store_key true false key k)
        else ok k)
    else if no_modifier scancode
    then (if ltb 38 i
        then ok (record k { kb_state = [] })
        else if k.capspoint
        then (at_index (get_elem? kb_key i) >>= λ key. store_key (ltb i 26) false key k)
        else (at_index (get_elem? kb_key i) >>= λ key. store_key false false key k))
    else ok k

-- The scan code is not that of key `i`.
abbrev pub not_pressed : ℕ → Keyboard → Keyboard
not_pressed scancode k =
    if differs scancode 39 && differs scancode 40
    then (if differs scancode 41
        then (if differs scancode 42
            then k
            else record k { capspoint = if k.capspoint then false else true })
        else record k { shiftpoint = false })
    else record k { shiftpoint = true }

-- The loop of `handler` from key `i`, with `left` rounds to go.
unfoldable pub keys_loop : ℕ → ℕ → ℕ → Keyboard → Outcome Keyboard
unfolding pressed
keys_loop scancode i zero k = ok k
keys_loop scancode i (suc left) k = do
  k' ← (if differs scancode i then ok (not_pressed scancode k) else pressed scancode i k)
  keys_loop scancode (i + 1) left k'

abbrev pub same_text : List ℕ → List ℕ → Bool
same_text [] [] = true
same_text [] (d ∷ ds) = false
same_text (c ∷ cs) [] = false
same_text (c ∷ cs) (d ∷ ds) = c == d && same_text cs ds

-- What is printed for the key with number `i`.
abbrev pub printed : ℕ → Keyboard → Outcome (List ℕ)
printed i k =
    if k.kb_caps_state
    then at_index (get_elem? caps_letters i)
    else if k.kb_shift_state
    then (if ltb i 39 then fault else at_index (get_elem? shift_chars (i - 39)))
    else at_index (get_elem? chars i)

-- The loop of `input_init` over the numbers from `i`, with `left` to go.
pub input_loop : ℕ → ℕ → Keyboard → Outcome (List ℕ)
input_loop i zero k = ok []
input_loop i (suc left) k = do
  id ← at_index (get_elem? ids i)
  out ← (if same_text k.kb_state id then printed i k else ok [])
  rest ← input_loop (i + 1) left k
  ok (out ++ rest)

unfoldable pub input_init : Keyboard → Outcome (List ℕ)
unfolding input_loop
input_init k = input_loop 0 59 k

-- What is printed, and the state afterwards. The interrupt is acknowledged in any case.
unfoldable pub handler : ℕ → Keyboard → Outcome (List ℕ × Keyboard)
unfolding keys_loop input_init
handler scancode k = do
  k' ← keys_loop scancode 0 42 k
  out ← input_init k'
  ok (out, record k' { kb_state = [] })
