-- ===== src/Utils/Psod.antt =====
-- utils/error.c: the error screen. What it shows is an output; the serial port gets the same but for
-- the background and the heading. The registers of the processor, and the address of a page fault,
-- are arguments; stopping the timer is left out.
pub mod Backtrace
use h0r_net.Common.{
  ℕ, zero, suc, ◌+◌, Bool, true, false, List, [], ◌∷◌, ◌++◌, Option, none, some, map, ltb, leb,
  ◌==◌, ◌!=◌, if◌then◌else◌, u64, Mem, Outcome, ok, out_of_fuel, ◌>>=◌, at_index, get_elem?,
}
use h0r_net.Common.LittleEndian.{load_le}
use h0r_net.Mm.Heap.{phys}
use h0r_net.Sys.Sched.{Registers}

-- HN_ERR_DE and so on.
pub data ErrorName : Type 0 where
  err_de err_db err_nmi err_bp err_of err_br err_ud err_nm err_df err_depricated err_ts err_np
        err_ss :
      ErrorName
  err_gp err_pf err_reserved err_mf err_ac err_mc err_xm err_ve err_cp err_hv err_vc err_sx :
      ErrorName
  err_kernel_exited err_no_acpi err_no_fb err_out_of_mem err_lai_panic err_no_fs : ErrorName

abbrev pub errors : List ErrorName
errors =
    err_de ∷ err_db ∷ err_nmi ∷ err_bp ∷ err_of ∷ err_br ∷ err_ud ∷ err_nm ∷ err_df ∷ err_depricated
    ∷ err_ts ∷ err_np ∷ err_ss ∷ err_gp ∷ err_pf ∷ err_reserved ∷ err_mf ∷ err_ac ∷ err_mc ∷ err_xm
    ∷ err_ve ∷ err_cp ∷ err_reserved ∷ err_reserved ∷ err_reserved ∷ err_reserved ∷ err_reserved
    ∷ err_reserved ∷ err_hv ∷ err_vc ∷ err_sx ∷ err_reserved ∷ err_kernel_exited ∷ err_no_acpi
    ∷ err_no_fb ∷ err_out_of_mem ∷ err_lai_panic ∷ err_no_fs ∷ []

-- `details` is the pointer that is printed as text.
pub data Line : Type 0 where
  background halt : Line
  title : ErrorName → Line
  details : ℕ → Line
  faulting_address : ℕ → Line
  dump : Registers → Line
  no_backtrace backtrace : Line
  return_address : ℕ → Line

-- The fields of `stackframe64_t`.
abbrev pub frame_rbp : Mem → ℕ → ℕ → ℕ
frame_rbp m off frame = load_le 8 m (phys off frame)

abbrev pub frame_rip : Mem → ℕ → ℕ → ℕ
frame_rip m off frame = load_le 8 m (phys off (u64 (frame + 8)))

abbrev pub one_before : ℕ → Outcome (List ℕ) → Outcome (List ℕ)
one_before rip (ok rips) = ok (rip ∷ rips)
one_before rip o = o

-- Only the return address of a frame is compared with anything, not the pointer to the next frame.
unfoldable pub back_loop : ℕ → Mem → ℕ → ℕ → Outcome (List ℕ)
back_loop zero m off frame = out_of_fuel
back_loop (suc f) m off frame =
    let rest = back_loop f m off (frame_rbp m off frame) in
    if leb (frame_rip m off frame) off then ok [] else one_before (frame_rip m off frame) rest

-- The background is painted only where there are details.
abbrev pub header_lines : ErrorName → ℕ → List Line
header_lines name text =
    (if text != 0 then (background ∷ halt ∷ []) else (halt ∷ []))
    ++ (title name ∷ (if text != 0 then (details text ∷ []) else []))

abbrev pub fault_lines : ℕ → ℕ → List Line
fault_lines error_code cr2 = if error_code == 14 then (faulting_address cr2 ∷ []) else []

abbrev pub chosen_registers : Option Registers → Registers → Registers
chosen_registers none own = own
chosen_registers (some regs) own = regs

-- There is none where `rbp` lies below the higher half.
abbrev pub trace_lines : Option (List ℕ) → List Line
trace_lines none = no_backtrace ∷ []
trace_lines (some rips) = backtrace ∷ map return_address rips

-- What is printed before the kernel halts. `own` are the registers of the processor, which are used
-- where there is no frame; fields that are not read there are left open.
unfoldable pub trigger_psod :
    ℕ
    → Mem
    → ℕ
    → (cr2 : ℕ) → (own : Registers) → (error_code text : ℕ) → Option Registers
    → Outcome (List Line)
unfolding back_loop
trigger_psod f m off cr2 own error_code text frame = do
  let regs = chosen_registers frame own
  name ← at_index (get_elem? errors error_code)
  let first = header_lines name text ++ (fault_lines error_code cr2 ++ (dump regs ∷ []))
  rips ← (if ltb regs.rbp off then ok none else (back_loop f m off regs.rbp >>= λ r. ok (some r)))
  ok (first ++ trace_lines rips)
