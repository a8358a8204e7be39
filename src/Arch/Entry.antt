-- ===== src/Arch/Entry.antt =====
-- arch/x86_64/x86_64.c: what the entry takes from the boot loader's answers. The screen's library is
-- an argument, and the calls of special instructions are left out.
pub mod Modules
use h0r_net.Common.{
  ℕ, Bool, true, false, List, [], ◌∷◌, Option, none, some, ◌==◌, if◌then◌else◌, Mem, Outcome, ok,
  halted, out_of_fuel, ◌>>=◌,
}
use h0r_net.Libk.Memory.{Sign}
use h0r_net.Libk.Text.{strcmp}
use h0r_net.Acpi.Sdt.{is_same}
use h0r_net.Utils.Font.{init_uterus_with_psf2_font}

-- A file of the boot loader: the pointer to it, and two of its fields.
pub record LimineFile : Type 0 where
  pub self : ℕ
  pub path : ℕ
  pub address : ℕ

-- What `load_limine_modules` and `limine_initialize_globals` set of `hn_data`; 0 is the null pointer.
pub record HnData : Type 0 where
  pub ut_ctx : ℕ
  pub initramfs : ℕ
  pub framebuffer : ℕ
  pub hhdm_off : ℕ

-- `uterus_fb_init` and `uterus_fb_simple_init` of the screen's library, for a framebuffer.
pub record Screen : Type 0 where
  pub fb_init : ℕ → ℕ → ℕ → ℕ → ℕ
  pub simple_init : ℕ → ℕ

-- Where the two paths "/boot/kfont.psf" and "/boot/initramfs.tar" stand.
pub record Paths : Type 0 where
  pub kfont : ℕ
  pub archive : ℕ

abbrev pub known_text : Option Sign → Outcome Bool
known_text none = out_of_fuel
known_text (some s) = ok (is_same s)

unfoldable pub load_module : ℕ → Mem → Screen → Paths → LimineFile → HnData → Outcome HnData
load_module f m screen paths file d = do
  font ← known_text (strcmp f m file.path paths.kfont)
  (if font
      then ok (record d {
        ut_ctx = init_uterus_with_psf2_font (screen.fb_init d.framebuffer) m file.address;
      })
      else (do
        archive ← known_text (strcmp f m file.path paths.archive)
        ok (if archive then (record d { initramfs = file.self }) else d)))

unfoldable pub load_loop : ℕ → Mem → Screen → Paths → List LimineFile → HnData → Outcome HnData
unfolding load_module
load_loop f m screen paths [] d = ok d
load_loop f m screen paths (file ∷ files) d =
    load_module f m screen paths file d >>= load_loop f m screen paths files

-- Without a font of its own the screen gets the library's.
abbrev pub with_screen : Screen → HnData → HnData
with_screen screen d =
    if d.ut_ctx == 0 then (record d { ut_ctx = screen.simple_init d.framebuffer }) else d

unfoldable pub load_limine_modules :
    ℕ → Mem → Screen → Paths → List LimineFile → HnData → Outcome HnData
unfolding load_loop
load_limine_modules f m screen paths files d = do
  d' ← load_loop f m screen paths files d
  ok (with_screen screen d')

-- HN_ERR_NO_FB
abbrev pub err_no_fb : ℕ
err_no_fb = 34

-- The first of the framebuffers; `none` is a null pointer in place of the answer.
abbrev pub first_framebuffer : Option (List ℕ) → Outcome ℕ
first_framebuffer none = halted err_no_fb
first_framebuffer (some []) = halted err_no_fb
first_framebuffer (some (fb ∷ fbs)) = ok fb

unfoldable pub limine_initialize_globals :
    ℕ
    → Mem
    → Screen
    → Paths
    → Option (List ℕ)
    → (offset : ℕ) → List LimineFile
    → HnData
    → Outcome HnData
unfolding load_limine_modules
limine_initialize_globals f m screen paths framebuffers offset files d = do
  fb ← first_framebuffer framebuffers
  load_limine_modules f m screen paths files (record d { framebuffer = fb; hhdm_off = offset })
