-- ===== src/Arch/Isr.antt =====
-- arch/x86_64/interrupts/ISR.c and arch/x86_64/constant_isrs.c: the gates of all vectors, and the
-- handlers that the common entry calls. The entry stubs are assembly: their addresses are an
-- argument. Loading the kernel's page map is left out.
pub mod Laws
use h0r_net.Common.{
  ℕ, zero, suc, ◌+◌, Bool, true, false, List, Option, none, some, ltb, if◌then◌else◌, Outcome, ok,
  halted, ◌>>=◌, at_index, get_elem?, set,
}
use h0r_net.Arch.Idt.{Gate, set_gate}
use h0r_net.Sys.Sched.{Registers, schedule}
use h0r_net.Sys.Events.Fire.{Kernel, syscall}

-- The gate of vector `i`: the kernel's code segment, and a present interrupt gate of ring 0.
abbrev pub isr_gate : (ℕ → ℕ) → ℕ → List Gate → Outcome (List Gate)
isr_gate stub i idt = set_gate i (stub i) 8 0x8e idt

-- The calls of `SetGate` in `init_ISR` from vector `i` on.
pub set_gates : (ℕ → ℕ) → ℕ → ℕ → List Gate → Outcome (List Gate)
set_gates stub i zero idt = ok idt
set_gates stub i (suc left) idt = isr_gate stub i idt >>= set_gates stub (i + 1) left

unfoldable pub init_isr : (ℕ → ℕ) → List Gate → Outcome (List Gate)
unfolding set_gates
init_isr stub idt = set_gates stub 0 256 idt

-- A handler works on the frame, which it may change, and on the kernel's state.
abbrev pub Handler : Type 0
Handler = Registers → Kernel → Outcome (Registers × Kernel)

-- `ISRHandlers`, a null pointer being `none`.
abbrev pub Handlers : Type 0
Handlers = List (Option Handler)

unfoldable pub isr_register_handler : ℕ → Handler → Handlers → Outcome Handlers
isr_register_handler irq handler handlers = do
  old ← at_index (get_elem? handlers irq)
  ok (set handlers irq (some handler))

-- Nothing but a message where there is no handler.
abbrev pub call_handler : Option Handler → Handler
call_handler none regs k = ok (regs, k)
call_handler (some handler) regs k = handler regs k

-- The first 32 interrupts are the processor's exceptions, and end behind the error screen.
unfoldable pub isr_handler : Handlers → Handler
isr_handler handlers regs k =
    if ltb regs.interrupt 32
    then halted regs.interrupt
    else (do handler ← at_index (get_elem? handlers regs.interrupt); call_handler handler regs k)

-- `schedule` on the kernel's state, with fuel for `next_process`.
unfoldable pub schedule_handler : ℕ → Handler
schedule_handler f regs k = do
  (regs', pagemap, s) ← schedule f regs k.sched
  ok (regs', record k { sched = s })

unfoldable pub syscall_handler : Bool → Handler
syscall_handler resizes regs k = do
  (result, k') ← syscall resizes regs.rax regs.rdi regs.rsi k
  ok (record regs { rax = result }, k')

unfoldable pub cisrs_register : ℕ → Bool → Handlers → Outcome Handlers
unfolding isr_register_handler
cisrs_register f resizes handlers =
    isr_register_handler 32 (schedule_handler f) handlers
    >>= isr_register_handler 128 (syscall_handler resizes)
