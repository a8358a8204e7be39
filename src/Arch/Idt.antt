-- ===== src/Arch/Idt.antt =====
-- arch/x86_64/interrupts/IDT.c. A mask and a shift to the right are a remainder and a quotient.
use h0r_net.Common.{
  ℕ, ◌+◌, ◌*◌, ◌/◌, ◌%◌, ◌^◌, ◌<◌, ◌≡◌, ◌≢◌, refl, List, some, u16, u32, Outcome, ok, ◌>>=◌,
  at_index, get_elem?, set, length, get_elem?-lt, get_elem?-set_self, get_elem?-set_ne, arith,
}

pub record Gate : Type 0 where
  pub offset_low : ℕ
  pub selector : ℕ
  pub ist : ℕ
  pub types_attr : ℕ
  pub offset_mid : ℕ
  pub offset_high : ℕ
  pub zero_field : ℕ

abbrev pub make_gate : ℕ → ℕ → ℕ → Gate
make_gate base selector flags = record {
  offset_low = u16 base;
  selector = selector;
  ist = 0;
  types_attr = flags;
  offset_mid = base / 2 ^ 16 % 2 ^ 16;
  offset_high = u32 (base / 2 ^ 32);
  zero_field = 0;
}

unfoldable pub set_gate : ℕ → ℕ → ℕ → ℕ → List Gate → Outcome (List Gate)
set_gate interrupt base selector flags idt = do
  old ← at_index (get_elem? idt interrupt)
  ok (set idt interrupt (make_gate base selector flags))

-- The address that the processor reads from the three parts of the offset.
abbrev pub handler_of : Gate → ℕ
handler_of g = g.offset_low + 2 ^ 16 * g.offset_mid + 2 ^ 32 * g.offset_high

-- In a table that has the vector, `SetGate` puts a gate there from whose parts the processor
-- assembles the whole 64-bit address of the handler, with the selector and flags given and no
-- interrupt stack, and leaves every other vector alone.
pub set_gate-handler :
    (interrupt base selector flags : ℕ) (idt : List Gate)
    → interrupt < length idt
    → base < 2 ^ 64
    → (idt' : List Gate) × (g : Gate) × (set_gate interrupt base selector flags idt ≡ ok idt')
      × (get_elem? idt' interrupt ≡ some g)
      × (handler_of g ≡ base)
      × (g.selector ≡ selector)
      × (g.types_attr ≡ flags)
      × (g.ist ≡ 0)
      × ((i : ℕ) → interrupt ≢ i → get_elem? idt' i ≡ get_elem? idt i)
unfolding set_gate
set_gate-handler interrupt base selector flags idt lt word =
    let (old, at) = get_elem?-lt idt interrupt lt in
    let gate : Gate = make_gate base selector flags in
    (
      set idt interrupt gate,
      gate,
      rw at refl,
      get_elem?-set_self idt interrupt gate lt,
      omega arith,
      refl,
      refl,
      refl,
      λ i ne. get_elem?-set_ne idt interrupt i gate ne,
    )
