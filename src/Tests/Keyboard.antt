-- ===== src/Tests/Keyboard.antt =====
-- src/arch/x86_64/io/PS2.c at concrete inputs.
use h0r_net.Common.{◌≡◌, refl, true, false, ◌==◌, ◌&&◌, [], fault, arith}
use h0r_net.Arch.Keyboard.{Keyboard, handler}
use h0r_net.Arch.Keyboard.Keys.{AtRest, Typed, handler-Typed}

-- The shift key is held, and no other.
abbrev held : Keyboard
held = record {
  shiftpoint = true;
  capspoint = false;
  kb_state = [];
  kb_caps_state = false;
  kb_shift_state = false;
}

held-AtRest : AtRest held
held-AtRest = record { no_key = refl; no_caps = refl }

handler-Typed_example :
    ((true && 30 == 6) ≡ false → Typed true 30 (handler 30 held))
    × ((true && 30 == 6) ≡ true → handler 30 held ≡ fault)
handler-Typed_example = handler-Typed held 30 (omega arith) held-AtRest
