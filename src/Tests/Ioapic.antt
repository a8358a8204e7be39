-- ===== src/Tests/Ioapic.antt =====
-- src/arch/x86_64/IOAPIC.c at concrete inputs: one controller at 0xfec00000 whose highest entry is 23.
use h0r_net.Common.{ℕ, ◌^◌, ◌≡◌, refl, [], ◌∷◌, Mem, if◌then◌else◌, ◌==◌}
use h0r_net.Common.LittleEndian.{load_le}
use h0r_net.Arch.Ioapic.{Ioapic}

-- The entry of the controller stands at 64.
abbrev memory : Mem
memory = λ a.
    if a == 64
    then 1
    else if a == 65
    then 12
    else if a == 70
    then 0xc0
    else if a == 71
    then 0xfe
    else 0

abbrev version : ℕ → ℕ
version at = 0x170011

abbrev before : Ioapic
before = record { ioapicaddr = 0; vector_count = 0; entries = 64 ∷ [] }

address : load_le 4 memory 68 ≡ 0xfec00000
unfolding load_le
address = refl

abbrev after : Ioapic
after = record { ioapicaddr = 2 ^ 47; vector_count = 23; entries = 64 ∷ [] }
