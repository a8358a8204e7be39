-- ===== src/Arch/Isr/Laws.antt =====
-- arch/x86_64/interrupts/ISR.c: the table that `init_ISR` fills, and what an interrupt leads to.
use h0r_net.Common.{
  ℕ, zero, suc, ◌+◌, ◌≤◌, ◌<◌, ◌^◌, ◌≡◌, ◌≢◌, refl, sym, ap, ◌∙◌, Bool, true, false, List, Option,
  none, some, ltb, ok, halted, fault, get_elem?, set, length, length-set, get_elem?-lt,
  get_elem?-ge, get_elem?-set_self, get_elem?-set_ne, arith, ℕ_discrete, replicate,
}
use h0r_net.Arch.Idt.{Gate, make_gate, set_gate, handler_of}
use h0r_net.Sys.Sched.{Registers}
use h0r_net.Sys.Events.Fire.{Kernel}
use h0r_net.Arch.Isr.{
  set_gates, init_isr, Handler, Handlers, isr_handler, call_handler, schedule_handler,
  syscall_handler, cisrs_register,
}

module _ (stub : ℕ → ℕ) where
  abbrev pub gate_of : ℕ → Gate
  gate_of i = make_gate (stub i) 8 0x8e

  -- The table from vector `i` on is filled, and the part before it kept.
  set_gates-filled :
      (i left : ℕ) (idt : List Gate)
      → i + left ≡ length idt
      → (idt' : List Gate) × (set_gates stub i left idt ≡ ok idt')
        × ((j : ℕ) → j < i → get_elem? idt' j ≡ get_elem? idt j)
        × ((j : ℕ) → i ≤ j → j < i + left → get_elem? idt' j ≡ some (gate_of j))
  unfolding set_gates set_gate
  set_gates-filled i zero idt e = (idt, refl, λ j lt. refl, λ j lo hi. absurd (omega arith))
  set_gates-filled i (suc left) idt e =
      let (old, at) = get_elem?-lt idt i (omega arith) in
      let (idt', runs, before, after) =
        set_gates-filled (i + 1) left (set idt i (gate_of i))
          (omega (arith, length-set idt i (gate_of i))) in
      (
        idt',
        rw at runs,
        λ j lt. before j (omega arith) ∙ get_elem?-set_ne idt i j (gate_of i) (λ e. omega arith),
        λ j lo hi. elim (ℕ_discrete j i) [
          | yes here ↦
              rw here (before i (omega arith) ∙ get_elem?-set_self idt i (gate_of i) (omega arith))
          | no ne ↦ after j (omega arith) (omega arith)
        ],
      )

  -- After `init_ISR` each of the 256 vectors has a gate, from which the processor assembles the
  -- address of that vector's own stub, in the kernel's code segment, as a present interrupt gate of
  -- ring 0.
  pub init_isr-handler_of :
      (idt : List Gate)
      → length idt ≡ 256
      → ((i : ℕ) → stub i < 2 ^ 64)
      → (idt' : List Gate) × (init_isr stub idt ≡ ok idt')
        × ((i : ℕ)
            → i < 256
            → (g : Gate) × (get_elem? idt' i ≡ some g)
              × (handler_of g ≡ stub i)
              × (g.selector ≡ 8)
              × (g.types_attr ≡ 0x8e))
  unfolding init_isr
  init_isr-handler_of idt len words =
      let (idt', runs, before, after) = set_gates-filled 0 256 idt (omega arith) in
      (
        idt',
        runs,
        λ i lt.
            (gate_of i, after i (omega arith) (omega arith), omega (arith, words i), refl, refl),
      )

module _ (handlers : Handlers) (regs : Registers) (k : Kernel) where
  isr_handler-early : regs.interrupt < 32 → isr_handler handlers regs k ≡ halted regs.interrupt
  unfolding isr_handler
  isr_handler-early lt = let early : ltb regs.interrupt 32 ≡ true = ground arith in rw early refl

  isr_handler-late :
      (o : Option Handler)
      → 32 ≤ regs.interrupt
      → get_elem? handlers regs.interrupt ≡ some o
      → isr_handler handlers regs k ≡ call_handler o regs k
  unfolding isr_handler
  isr_handler-late o ge at =
      let late : ltb regs.interrupt 32 ≡ false = ground arith in rw (late, at) refl

  isr_handler-out :
      32 ≤ regs.interrupt
      → length handlers ≡ 255
      → 255 ≤ regs.interrupt
      → isr_handler handlers regs k ≡ fault
  unfolding isr_handler
  isr_handler-out ge len out =
      let late : ltb regs.interrupt 32 ≡ false = ground arith in
      rw (late, get_elem?-ge handlers regs.interrupt (omega arith)) refl

get_elem?-replicate : {A : Type 0} (n i : ℕ) (a : A) → i < n → get_elem? (replicate n a) i ≡ some a
get_elem?-replicate zero i a lt = absurd (omega arith)
get_elem?-replicate (suc n) zero a lt = refl
get_elem?-replicate (suc n) (suc i) a lt = get_elem?-replicate n i a (omega arith)

-- The table after `cisrs_register` on an empty one.
module _ (f : ℕ) (resizes : Bool) (handlers : Handlers)
    (registered : cisrs_register f resizes (replicate 255 none) ≡ ok handlers) where
  abbrev table : Handlers
  table =
      set (set (replicate 255 none) 32 (some (schedule_handler f))) 128
        (some (syscall_handler resizes))

  handlers-table : handlers ≡ table
  unfolding cisrs_register
  handlers-table = cc

  table-none : (i : ℕ) → 32 < i → i < 255 → i ≢ 128 → get_elem? table i ≡ some none
  table-none i lo hi ne =
      get_elem?-set_ne (set (replicate 255 none) 32 (some (schedule_handler f))) 128 i
        (some (syscall_handler resizes)) (λ e. ne (sym e))
      ∙ get_elem?-set_ne (replicate 255 none) 32 i (some (schedule_handler f)) (λ e. omega arith)
      ∙ get_elem?-replicate 255 i none hi

  -- Once the kernel's own handlers are registered in an empty table, an interrupt is handled by its
  -- number: an exception halts the kernel with that number, 32 switches processes, 128 does the
  -- system call, every other number below 255 changes nothing, and 255 reads behind the table.
  pub isr_handler-dispatch :
      (regs : Registers) (k : Kernel)
      → (regs.interrupt < 32 → isr_handler handlers regs k ≡ halted regs.interrupt)
        × (regs.interrupt ≡ 32 → isr_handler handlers regs k ≡ schedule_handler f regs k)
        × (regs.interrupt ≡ 128 → isr_handler handlers regs k ≡ syscall_handler resizes regs k)
        × (32 < regs.interrupt
            → regs.interrupt < 255
            → regs.interrupt ≢ 128
            → isr_handler handlers regs k ≡ ok (regs, k))
        × (255 ≤ regs.interrupt → isr_handler handlers regs k ≡ fault)
  isr_handler-dispatch regs k =
      let late = λ (o : Option Handler). isr_handler-late handlers regs k o in
      (
        isr_handler-early handlers regs k,
        λ e.
            late (some (schedule_handler f)) (omega arith)
              (ap (get_elem? handlers) e ∙ ap (λ t. get_elem? t 32) handlers-table),
        λ e.
            late (some (syscall_handler resizes)) (omega arith)
              (ap (get_elem? handlers) e ∙ ap (λ t. get_elem? t 128) handlers-table),
        λ lo hi ne. late none (omega arith) (
            ap (λ t. get_elem? t regs.interrupt) handlers-table
            ∙ table-none regs.interrupt lo hi ne),
        λ ge. isr_handler-out handlers regs k (omega arith) (ap length handlers-table ∙ refl) ge,
      )
