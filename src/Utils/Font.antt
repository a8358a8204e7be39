-- ===== src/Utils/Font.antt =====
-- utils/psf2.c: the font that the boot loader loads. The screen's library, which is handed the glyphs
-- and their size, is an argument.
use h0r_net.Common.{ℕ, ◌+◌, Bool, ◌!=◌, ◌||◌, if◌then◌else◌, u64, Mem}
use h0r_net.Common.LittleEndian.{load_le}

-- The fields of `psf2Hdr`, at the address of the file.
abbrev pub header_size_field : ℕ
header_size_field = 8

abbrev pub height_field : ℕ
height_field = 24

abbrev pub width_field : ℕ
width_field = 28

abbrev pub bad_magic : Mem → ℕ → Bool
bad_magic m file =
    m file != 0x72 || (m (file + 1) != 0xb5 || (m (file + 2) != 0x4a || m (file + 3) != 0x86))

-- `fb_init` is `uterus_fb_init` for the screen, with the glyphs, the width and the height of a font;
-- 0 is the null pointer.
unfoldable pub init_uterus_with_psf2_font : (ℕ → ℕ → ℕ → ℕ) → Mem → ℕ → ℕ
init_uterus_with_psf2_font fb_init m file =
    if bad_magic m file
    then 0
    else fb_init (u64 (file + load_le 4 m (file + header_size_field)))
        (load_le 4 m (file + width_field)) (load_le 4 m (file + height_field))
