-- ===== src/Utils/Psod/Backtrace.antt =====
-- utils/error.c: the frames of a stack, and what the error screen prints of them.
use h0r_net.Common.{
  ℕ, zero, suc, ◌≤◌, ◌<◌, ◌≡◌, ◌≢◌, refl, ap, ◌∙◌, Bool, ◌&&◌, ◌||◌, ◌==◌, ◌!=◌, ◌+◌, none, true,
  false, List, [], ◌∷◌, Option, some, map, leb, ltb, Mem, ok, out_of_fuel, arith, length, get_elem?,
  get_elem?-lt,
}
use h0r_net.Sys.Sched.{Registers}
use h0r_net.Utils.Psod.{
  Line, ErrorName, errors, background, halt, title, details, faulting_address, dump, backtrace,
  return_address, frame_rbp, frame_rip, one_before, back_loop, chosen_registers, trigger_psod,
  err_de, err_db, err_nmi, err_bp, err_of, err_br, err_ud, err_nm, err_df, err_depricated, err_ts,
  err_np, err_ss, err_gp, err_pf, err_reserved, err_mf, err_ac, err_mc, err_xm, err_ve, err_cp,
  err_hv, err_vc, err_sx, err_kernel_exited, err_no_acpi, err_no_fb, err_out_of_mem, err_lai_panic,
  err_no_fs,
}

-- A chain of frames with these return addresses, up to the first that is not of the higher half.
abbrev pub Frames : Mem → ℕ → ℕ → List ℕ → Type 0
Frames m off frame [] = frame_rip m off frame ≤ off
Frames m off frame (rip ∷ rips) =
    (frame_rip m off frame ≡ rip) × (off < rip) × Frames m off (frame_rbp m off frame) rips

back_loop-Frames :
    (f : ℕ) (m : Mem) (off frame : ℕ) (rips : List ℕ)
    → Frames m off frame rips
    → length rips < f
    → back_loop f m off frame ≡ ok rips
unfolding back_loop
back_loop-Frames zero m off frame rips h fuel = absurd (omega arith)
back_loop-Frames (suc f) m off frame [] h fuel =
    let ends : leb (frame_rip m off frame) off ≡ true = ground arith in rw ends refl
back_loop-Frames (suc f) m off frame (rip ∷ rips) h fuel =
    let on : leb (frame_rip m off frame) off ≡ false = ground arith in
    rw on (
      ap (one_before (frame_rip m off frame))
        (back_loop-Frames f m off (frame_rbp m off frame) rips h.2 (omega arith))
      ∙ ap (λ r. ok (r ∷ rips)) h.0)

-- A frame that is its own caller, with a return address of the higher half, is printed for ever.
pub back_loop-spins :
    (f : ℕ) (m : Mem) (off frame : ℕ)
    → frame_rbp m off frame ≡ frame
    → off < frame_rip m off frame
    → back_loop f m off frame ≡ out_of_fuel
unfolding back_loop
back_loop-spins zero m off frame same high = refl
back_loop-spins (suc f) m off frame same high =
    let on : leb (frame_rip m off frame) off ≡ false = ground arith in
    rw (on, same, back_loop-spins f m off frame same high) refl

-- The error of a number: the exceptions have the numbers of the processor's manual, and the kernel's own
-- those of utils/error.h; the others up to 31 are reserved.
unfoldable pub is_error : ErrorName → ℕ → Bool
is_error err_de code = code == 0
is_error err_db code = code == 1
is_error err_nmi code = code == 2
is_error err_bp code = code == 3
is_error err_of code = code == 4
is_error err_br code = code == 5
is_error err_ud code = code == 6
is_error err_nm code = code == 7
is_error err_df code = code == 8
is_error err_depricated code = code == 9
is_error err_ts code = code == 10
is_error err_np code = code == 11
is_error err_ss code = code == 12
is_error err_gp code = code == 13
is_error err_pf code = code == 14
is_error err_reserved code = code == 15 || ((leb 22 code && leb code 27) || code == 31)
is_error err_mf code = code == 16
is_error err_ac code = code == 17
is_error err_mc code = code == 18
is_error err_xm code = code == 19
is_error err_ve code = code == 20
is_error err_cp code = code == 21
is_error err_hv code = code == 28
is_error err_vc code = code == 29
is_error err_sx code = code == 30
is_error err_kernel_exited code = code == 32
is_error err_no_acpi code = code == 33
is_error err_no_fb code = code == 34
is_error err_out_of_mem code = code == 35
is_error err_lai_panic code = code == 36
is_error err_no_fs code = code == 37

-- The names are those of the numbers from `code` on.
are_errors : List ErrorName → ℕ → Bool
are_errors [] code = true
are_errors (name ∷ names) code = is_error name code && are_errors names (code + 1)

are_errors-get :
    (names : List ErrorName) (code i : ℕ) (name : ErrorName)
    → are_errors names code ≡ true
    → get_elem? names i ≡ some name
    → is_error name (code + i) ≡ true
unfolding are_errors
are_errors-get [] code i name all at = absurd cc
are_errors-get (n ∷ ns) code zero name all at =
    let here : is_error n code ≡ true = ground (arith, all) in
    let same : n ≡ name = cc in let start : code + 0 ≡ code = omega arith in rw (start, ← same) here
are_errors-get (n ∷ ns) code (suc i) name all at =
    let rest : are_errors ns (code + 1) ≡ true = ground (arith, all) in
    let next : code + suc i ≡ code + 1 + i = omega arith in
    rw next (are_errors-get ns (code + 1) i name rest at)

errors_lem : are_errors errors 0 ≡ true
unfolding are_errors is_error
errors_lem = refl

-- The registers that are shown: those of the frame where there is one.
abbrev pub Shown : Option Registers → Registers → Registers → Type 0
Shown none own regs = own ≡ regs
Shown (some saved) own regs = saved ≡ regs

chosen_registers-Shown :
    (frame : Option Registers) (own regs : Registers)
    → Shown frame own regs
    → chosen_registers frame own ≡ regs
chosen_registers-Shown none own regs shown = shown
chosen_registers-Shown (some saved) own regs shown = shown

-- The error screen for one of the kernel's 38 errors, with a chain of frames in the higher half from
-- `rbp` on: the name of the error with that number, the details if there are any, which also fill
-- the background, the address of the fault for a page fault only, the registers, and the return
-- addresses of the chain in order.
pub trigger_psod-Frames :
    (f : ℕ) (m : Mem) (off cr2 : ℕ) (own regs : Registers) (error_code text : ℕ)
    (frame : Option Registers) (rips : List ℕ)
    → error_code < 38
    → Shown frame own regs
    → off ≤ regs.rbp
    → Frames m off regs.rbp rips
    → length rips < f
    → let trace = backtrace ∷ map return_address rips in
      let shows =
        λ (lines : List Line). trigger_psod f m off cr2 own error_code text frame ≡ ok lines in
      (name : ErrorName) × (is_error name error_code ≡ true)
      × (text ≡ 0 → error_code ≢ 14 → shows (halt ∷ title name ∷ dump regs ∷ trace))
      × (text ≡ 0
          → error_code ≡ 14
          → shows (halt ∷ title name ∷ faulting_address cr2 ∷ dump regs ∷ trace))
      × (text ≢ 0
          → error_code ≢ 14
          → shows (background ∷ halt ∷ title name ∷ details text ∷ dump regs ∷ trace))
      × (text ≢ 0
          → error_code ≡ 14
          → shows (
              background
              ∷ halt
              ∷ title name
              ∷ details text
              ∷ faulting_address cr2
              ∷ dump regs
              ∷ trace))
unfolding trigger_psod
trigger_psod-Frames f m off cr2 own regs error_code text frame rips known shown high h fuel =
    let (name, at) = get_elem?-lt errors error_code known in
    let inside : ltb regs.rbp off ≡ false = ground arith in
    let back = back_loop-Frames f m off regs.rbp rips h fuel in
    let start : 0 + error_code ≡ error_code = omega arith in
    let right : is_error name error_code ≡ true =
      rw start at (are_errors-get errors 0 error_code name errors_lem at) in
    let same = chosen_registers-Shown frame own regs shown in
    (
      name,
      right,
      λ on_text on_code.
          (let b : (text != 0) ≡ false = ground arith in
            let c : (error_code == 14) ≡ false = ground arith in
            rw (at, same, inside, back, b, c) refl),
      λ on_text on_code.
          (let b : (text != 0) ≡ false = ground arith in
            let c : (error_code == 14) ≡ true = ground arith in
            rw (at, same, inside, back, b, c) refl),
      λ on_text on_code.
          (let b : (text != 0) ≡ true = ground arith in
            let c : (error_code == 14) ≡ false = ground arith in
            rw (at, same, inside, back, b, c) refl),
      λ on_text on_code.
          (let b : (text != 0) ≡ true = ground arith in
            let c : (error_code == 14) ≡ true = ground arith in
            rw (at, same, inside, back, b, c) refl),
    )
