-- ===== src/Tests/Utils.antt =====
-- src/utils/error.c and src/arch/x86_64/x86_64.c at concrete inputs.
use h0r_net.Libk.Text.Strings.{Holds}
use h0r_net.Common.{
  ◌≢◌, ℕ, length, ap, ◌+◌, ◌^◌, ◌≡◌, refl, List, true, [], ◌∷◌, some, map, ◌==◌, if◌then◌else◌, Mem,
  ok, arith, store8,
}
use h0r_net.Common.LittleEndian.{load_le, store_le}
use h0r_net.Sys.Sched.{Registers, zero_registers}
use h0r_net.Utils.Psod.{
  ErrorName, Line, background, halt, title, details, faulting_address, dump, backtrace,
  return_address, trigger_psod,
}
use h0r_net.Utils.Psod.Backtrace.{is_error, Frames, trigger_psod-Frames}
use h0r_net.Arch.Entry.{HnData, Screen, Paths, load_limine_modules}
use h0r_net.Arch.Entry.Modules.{
  self_of, NamedFile, file_of, font_of, last_named, load_limine_modules-last_named,
}

-- Two frames at 0x1000 and 0x1010, of which the second ends the chain.
abbrev stack : Mem
stack = store_le 8 (store_le 8 (λ a. 0) 0x1000 (2 ^ 47 + 0x1010)) 0x1008 (2 ^ 47 + 0x20)

abbrev regs : Registers
regs = record zero_registers { rbp = 2 ^ 47 + 0x1000 }

frames : Frames stack (2 ^ 47) (2 ^ 47 + 0x1000) ((2 ^ 47 + 0x20) ∷ [])
unfolding load_le store_le store8
frames = (refl, omega arith, omega arith)

abbrev no_text : ℕ
no_text = 0

abbrev page_fault : ℕ
page_fault = 14

trigger_psod-Frames_example :
    let trace = backtrace ∷ return_address (2 ^ 47 + 0x20) ∷ [] in
    let shows = λ (lines : List Line).
      trigger_psod 2 stack (2 ^ 47) 0x30 zero_registers 14 0 (some regs) ≡ ok lines in
    (name : ErrorName) × (is_error name 14 ≡ true)
    × (no_text ≡ 0 → page_fault ≢ 14 → shows (halt ∷ title name ∷ dump regs ∷ trace))
    × (no_text ≡ 0
        → page_fault ≡ 14
        → shows (halt ∷ title name ∷ faulting_address 0x30 ∷ dump regs ∷ trace))
    × (no_text ≢ 0
        → page_fault ≢ 14
        → shows (background ∷ halt ∷ title name ∷ details 0 ∷ dump regs ∷ trace))
    × (no_text ≢ 0
        → page_fault ≡ 14
        → shows (
            background ∷ halt ∷ title name ∷ details 0 ∷ faulting_address 0x30 ∷ dump regs ∷ trace))
trigger_psod-Frames_example =
    trigger_psod-Frames 2 stack (2 ^ 47) 0x30 zero_registers regs 14 0 (some regs)
      ((2 ^ 47 + 0x20) ∷ []) (omega arith) refl (omega arith) frames (omega arith)

-- The texts "k" and "ar" at 10 and at 20.
abbrev texts : Mem
texts = λ a. if a == 10 then 107 else if a == 20 then 97 else if a == 21 then 114 else 0

abbrev font : List ℕ
font = 107 ∷ []

abbrev archive : List ℕ
archive = 97 ∷ 114 ∷ []

at_font : Holds texts 10 font
at_font = omega arith

at_archive : Holds texts 20 archive
at_archive = omega arith

different : font ≢ archive
different e =
    let same_length : length font ≡ length archive = ap length e in
    absurd (omega (arith, same_length))

abbrev screen : Screen
screen = record { fb_init = λ fb glyphs width height. fb + glyphs; simple_init = λ fb. fb }

abbrev paths : Paths
paths = record { kfont = 10; archive = 20 }

-- Two archives and no font.
abbrev archives : List NamedFile
archives =
    record { file = record { self = 100; path = 20; address = 0x1000 }; text = archive }
    ∷ record { file = record { self = 200; path = 20; address = 0x2000 }; text = archive }
    ∷ []

abbrev before : HnData
before = record { ut_ctx = 0; initramfs = 0; framebuffer = 7; hhdm_off = 2 ^ 47 }

load_limine_modules-last_named_example :
    (d' : HnData) × (load_limine_modules 3 texts screen paths (map file_of archives) before ≡ ok d')
    × (d'.initramfs ≡ last_named archive self_of 0 archives)
    × (d'.ut_ctx ≡ (
        let ctx = last_named font (font_of screen texts 7) 0 archives in
        if ctx == 0 then 7 else ctx))
    × (d'.framebuffer ≡ 7)
    × (d'.hhdm_off ≡ 2 ^ 47)
load_limine_modules-last_named_example =
    load_limine_modules-last_named 3 texts screen paths font archive at_font at_archive different
      archives before (at_archive, omega arith, (at_archive, omega arith, tt))
