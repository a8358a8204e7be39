-- ===== src/Utils/Log.antt =====
-- utils/log.c: which serial port a message goes to. Its text is made by the vendored printf, and is
-- an argument, as are the readings of the port's status.
use h0r_net.Common.{ℕ, suc, List, [], ◌∷◌, ◌++◌, Outcome, ok, ◌>>=◌, at_index, get_elem?}
use h0r_net.Arch.Cereal.{PortWrite, cereal_write}

-- Each level has the first serial port.
abbrev pub level_ports : List ℕ
level_ports = 0x3f8 ∷ 0x3f8 ∷ 0x3f8 ∷ 0x3f8 ∷ 0x3f8 ∷ 0x3f8 ∷ []

-- The text's bytes before the terminator, one after the other; `statuses i` are the readings of the
-- status while byte `i` waits.
unfoldable pub write_text : (ℕ → List ℕ) → ℕ → ℕ → List ℕ → Outcome (List PortWrite)
write_text statuses port i [] = ok []
write_text statuses port i (c ∷ cs) = do
  first ← cereal_write c port (statuses i)
  rest ← write_text statuses port (suc i) cs
  ok (first ++ rest)

unfoldable pub log : (ℕ → List ℕ) → (level : ℕ) → (fulbuf : List ℕ) → Outcome (List PortWrite)
unfolding write_text
log statuses level fulbuf = do
  port ← at_index (get_elem? level_ports level)
  write_text statuses port 0 fulbuf
