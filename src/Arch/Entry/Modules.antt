-- ===== src/Arch/Entry/Modules.antt =====
-- arch/x86_64/x86_64.c: which of the boot loader's files become the font and the archive.
use h0r_net.Common.{
  ℕ, ◌<◌, ◌≡◌, ◌≢◌, refl, ap, ◌∙◌, sym, Bool, true, false, List, [], ◌∷◌, if◌then◌else◌, Mem, ok,
  ◌>>=◌, length, map, Bool-cases, inl, inr, ◌==◌,
}
use h0r_net.Libk.Memory.{Sign, same, plus, minus}
use h0r_net.Libk.Text.Strings.{Holds, text_order, text_order-same}
use h0r_net.Libk.Text.Reads.{strcmp-text_order}
use h0r_net.Acpi.Sdt.{is_same}
use h0r_net.Utils.Font.{init_uterus_with_psf2_font}
use h0r_net.Arch.Entry.{
  LimineFile, HnData, Screen, Paths, load_module, load_loop, load_limine_modules, with_screen,
}

-- A file of the boot loader and the text of its path.
pub record NamedFile : Type 0 where
  pub file : LimineFile
  pub text : List ℕ

abbrev pub file_of : NamedFile → LimineFile
file_of n = n.file

abbrev pub AllPaths : ℕ → Mem → List NamedFile → Type 0
AllPaths f m [] = Unit {0}
AllPaths f m (n ∷ ns) = Holds m n.file.path n.text × (length n.text < f) × AllPaths f m ns

abbrev pub is_text : List ℕ → NamedFile → Bool
is_text text n = is_same (text_order n.text text)

-- What the last file with the path gives, and `d` where there is none.
unfoldable pub last_named : List ℕ → (NamedFile → ℕ) → ℕ → List NamedFile → ℕ
last_named text f d [] = d
last_named text f d (n ∷ ns) = last_named text f (if is_text text n then f n else d) ns

is_same-same : (s : Sign) → is_same s ≡ true → s ≡ same
is_same-same same e = refl
is_same-same plus e = absurd cc
is_same-same minus e = absurd cc

-- The screen with the font that a file holds, and the pointer to a file.
abbrev pub font_of : Screen → Mem → ℕ → NamedFile → ℕ
font_of screen m fb n = init_uterus_with_psf2_font (screen.fb_init fb) m n.file.address

abbrev pub self_of : NamedFile → ℕ
self_of n = n.file.self

module _ (f : ℕ) (m : Mem) (screen : Screen) (paths : Paths) (font archive : List ℕ)
    (at_font : Holds m paths.kfont font) (at_archive : Holds m paths.archive archive)
    (ne : font ≢ archive) where
  not_both : (n : NamedFile) → is_text font n ≡ true → is_text archive n ≡ false
  not_both n it = elim (Bool-cases (is_text archive n)) [
    | inr no_archive ↦ no_archive
    | inl both ↦
        let a = text_order-same n.text font (is_same-same _ it) in
        let b = text_order-same n.text archive (is_same-same _ both) in absurd (ne (sym a ∙ b))
  ]

  abbrev after : HnData → NamedFile → HnData
  after d n = record d {
    ut_ctx = if is_text font n then font_of screen m d.framebuffer n else d.ut_ctx;
    initramfs = if is_text archive n then self_of n else d.initramfs;
  }

  load_module-after :
      (n : NamedFile) (d : HnData)
      → Holds m n.file.path n.text
      → length n.text < f
      → load_module f m screen paths n.file d ≡ ok (after d n)
  unfolding load_module
  load_module-after n d h fuel =
      let first = strcmp-text_order f m n.file.path paths.kfont n.text font h at_font fuel in
      let second =
        strcmp-text_order f m n.file.path paths.archive n.text archive h at_archive fuel in
      elim (Bool-cases (is_text font n)) [
        | inl it ↦ rw (first, it, not_both n it) refl
        | inr other ↦ elim (Bool-cases (is_text archive n)) [
          | inl it ↦ rw (first, other, second, it) refl
          | inr none_of ↦ rw (first, other, second, none_of) refl
        ]
      ]

  load_loop-last_named :
      (ns : List NamedFile) (d : HnData)
      → AllPaths f m ns
      → load_loop f m screen paths (map file_of ns) d
        ≡ ok (record d {
          ut_ctx = last_named font (font_of screen m d.framebuffer) d.ut_ctx ns;
          initramfs = last_named archive self_of d.initramfs ns;
        })
  unfolding load_loop last_named
  load_loop-last_named [] d all = refl
  load_loop-last_named (n ∷ ns) d all =
      rw (load_module-after n d all.0 all.1) (load_loop-last_named ns (after d n) all.2)

  with_screen-fields :
      (d : HnData)
      → ((with_screen screen d).initramfs ≡ d.initramfs)
        × ((with_screen screen d).ut_ctx
            ≡ (if d.ut_ctx == 0 then screen.simple_init d.framebuffer else d.ut_ctx))
        × ((with_screen screen d).framebuffer ≡ d.framebuffer)
        × ((with_screen screen d).hhdm_off ≡ d.hhdm_off)
  with_screen-fields d = elim (Bool-cases (d.ut_ctx == 0)) [
    | inl it ↦ rw it (refl, refl, refl, refl)
    | inr not_it ↦ rw not_it (refl, refl, refl, refl)
  ]

  -- The archive is the last of the boot loader's files with the path of the archive, or stays what it
  -- was; the screen is that of the last font, or the library's own where there is no font or a bad
  -- one.
  pub load_limine_modules-last_named :
      (ns : List NamedFile) (d : HnData)
      → AllPaths f m ns
      → (d' : HnData) × (load_limine_modules f m screen paths (map file_of ns) d ≡ ok d')
        × (d'.initramfs ≡ last_named archive self_of d.initramfs ns)
        × (d'.ut_ctx ≡ (
            let ctx = last_named font (font_of screen m d.framebuffer) d.ut_ctx ns in
            if ctx == 0 then screen.simple_init d.framebuffer else ctx))
        × (d'.framebuffer ≡ d.framebuffer)
        × (d'.hhdm_off ≡ d.hhdm_off)
  unfolding load_limine_modules
  load_limine_modules-last_named ns d all =
      let ctx = last_named font (font_of screen m d.framebuffer) d.ut_ctx ns in
      let loaded : HnData = record d {
        ut_ctx = ctx;
        initramfs = last_named archive self_of d.initramfs ns;
      } in
      let (a, b, c, e) = with_screen-fields loaded in
      (
        with_screen screen loaded,
        ap (λ o. o >>= λ d'. ok (with_screen screen d')) (load_loop-last_named ns d all),
        a,
        b,
        c,
        e,
      )
