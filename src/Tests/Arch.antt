-- ===== src/Tests/Arch.antt =====
-- src/arch/x86_64 at concrete inputs.
use h0r_net.Common.{
  fault, ◌≤◌, ◌*◌, halted, refl, ◌%◌, [], none, set, ◌<◌, ◌+◌, ℕ, ◌≡◌, ◌≢◌, ok, some, true, List,
  replicate, get_elem?, arith,
}
use h0r_net.Arch.Idt.{Gate, make_gate, handler_of}
use h0r_net.Arch.Isr.{
  init_isr, Handlers, isr_handler, schedule_handler, syscall_handler, cisrs_register,
}
use h0r_net.Arch.Isr.Laws.{init_isr-handler_of, isr_handler-dispatch}
use h0r_net.Sys.Sched.{Registers, zero_registers}
use h0r_net.Sys.Events.Fire.{Kernel}
use h0r_net.Tests.Sys.{table}
use h0r_net.Tests.Siv.{event_table}

abbrev idt : List Gate
idt = replicate 256 (make_gate 0 0 0)

-- Stubs of 16 bytes each.
abbrev stub : ℕ → ℕ
stub i = 0xffffffff80000000 + i % 256 * 16

init_isr-handler_of_example :
    (idt' : List Gate) × (init_isr stub idt ≡ ok idt')
    × ((i : ℕ)
        → i < 256
        → (g : Gate) × (get_elem? idt' i ≡ some g)
          × (handler_of g ≡ stub i)
          × (g.selector ≡ 8)
          × (g.types_attr ≡ 0x8e))
init_isr-handler_of_example = init_isr-handler_of stub idt refl (λ i. omega arith)

abbrev handlers : Handlers
handlers =
    set (set (replicate 255 none) 32 (some (schedule_handler 65))) 128 (some (syscall_handler true))

registered : cisrs_register 65 true (replicate 255 none) ≡ ok handlers
unfolding cisrs_register
registered = refl

abbrev page_fault : Registers
page_fault = record zero_registers { interrupt = 14 }

abbrev kernel : Kernel
kernel = record { sched = table; events = event_table; interrupts = 0; stores = [] }

isr_handler-dispatch_example :
    (14 < 32 → isr_handler handlers page_fault kernel ≡ halted 14)
    × (page_fault.interrupt ≡ 32
        → isr_handler handlers page_fault kernel ≡ schedule_handler 65 page_fault kernel)
    × (page_fault.interrupt ≡ 128
        → isr_handler handlers page_fault kernel ≡ syscall_handler true page_fault kernel)
    × (32 < 14
        → 14 < 255
        → page_fault.interrupt ≢ 128
        → isr_handler handlers page_fault kernel ≡ ok (page_fault, kernel))
    × (255 ≤ 14 → isr_handler handlers page_fault kernel ≡ fault)
isr_handler-dispatch_example = isr_handler-dispatch 65 true handlers registered page_fault kernel
