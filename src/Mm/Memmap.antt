-- ===== src/Mm/Memmap.antt =====
-- core/mm/mem.c: the boot loader's memory map. The names of its types are for messages.
use h0r_net.Common.{ℕ, List, [], ◌∷◌, Option, none, some, ◌==◌, if◌then◌else◌}
use h0r_net.Mm.Pmm.{MemmapEntry}

-- The first entry of the type; `none` is the null pointer.
unfoldable pub get_memmap_entry_of_type : ℕ → List MemmapEntry → Option MemmapEntry
get_memmap_entry_of_type type [] = none
get_memmap_entry_of_type type (e ∷ es) =
    let rest = get_memmap_entry_of_type type es in if e.type == type then some e else rest
