-- ===== src/Arch/Gdt.antt =====
-- arch/x86_64/gdt.c. A mask and a shift to the right are a remainder and a quotient; the parameters
-- `limit` and `base` of `set_gdt_entry` have 16 bits. Loading the tables into the processor is left
-- out.
use h0r_net.Common.{
  ℕ, ◌-◌, ◌+◌, ◌*◌, ◌/◌, ◌%◌, ◌^◌, List, u8, u16, u32, Outcome, ok, ◌>>=◌, at_index, get_elem?, set,
}

pub record GdtEntry : Type 0 where
  pub limit0 : ℕ
  pub base0 : ℕ
  pub base1 : ℕ
  pub access : ℕ
  pub limit1_flags : ℕ
  pub base2 : ℕ

pub record TssEntry : Type 0 where
  pub length : ℕ
  pub base : ℕ
  pub base1 : ℕ
  pub flags : ℕ
  pub flags1 : ℕ
  pub base2 : ℕ
  pub base3 : ℕ
  pub resv : ℕ

pub record GdtPointer : Type 0 where
  pub size : ℕ
  pub offset : ℕ

-- The tables, and the one field of the task state that is not zero.
pub record Gdt : Type 0 where
  pub gdt_entries : List GdtEntry
  pub tss_entry : TssEntry
  pub gdtr : GdtPointer
  pub rsp0 : ℕ

-- The two high parts of the base and the high part of the limit are shifted out of 16 bits.
abbrev pub make_entry : ℕ → ℕ → ℕ → ℕ → GdtEntry
make_entry limit base access flags = record {
  limit0 = u16 limit;
  base0 = u16 base;
  base1 = u8 (u16 base / 2 ^ 16);
  access = access;
  limit1_flags = u16 limit / 2 ^ 16 % 16 + u8 flags / 16 * 16;
  base2 = u8 (u16 base / 2 ^ 24);
}

unfoldable pub set_gdt_entry : ℕ → ℕ → ℕ → ℕ → ℕ → Gdt → Outcome Gdt
set_gdt_entry i limit base access flags g = do
  old ← at_index (get_elem? g.gdt_entries i)
  ok (record g { gdt_entries = set g.gdt_entries i (make_entry limit base access flags) })

-- `sizeof(tss)` is that of the parameter, which hides the type.
abbrev pub make_tss_entry : ℕ → TssEntry
make_tss_entry tss = record {
  length = 8;
  base = u16 tss;
  base1 = u8 (tss / 2 ^ 16);
  flags = 0x89;
  flags1 = 0;
  base2 = u8 (tss / 2 ^ 24);
  base3 = u32 (tss / 2 ^ 32);
  resv = 0;
}

unfoldable pub set_tss_gate : ℕ → Gdt → Gdt
set_tss_gate tss g = record g { tss_entry = make_tss_entry tss }

unfoldable pub init_tss : ℕ → Gdt → Gdt
init_tss rsp0 g = record g { rsp0 = rsp0 }

unfoldable pub set_kernel_stack : ℕ → Gdt → Gdt
set_kernel_stack stack g = record g { rsp0 = stack }

-- `sizeof(gdt)`: nine entries of 8 bytes and one of 16.
abbrev pub gdt_size : ℕ
gdt_size = 88

-- The addresses of the task state and of the table are arguments; the offset of `gdtr` has 32 bits.
unfoldable pub gdt_init : ℕ → ℕ → ℕ → Gdt → Outcome Gdt
unfolding set_gdt_entry set_tss_gate init_tss
gdt_init tss table rsp0 g = do
  g0 ← set_gdt_entry 0 0 0 0 0 g
  g1 ← set_gdt_entry 1 0 0 0x9a 0xa0 g0
  g2 ← set_gdt_entry 2 0 0 0x92 0xc0 g1
  g3 ← set_gdt_entry 3 0 0 0xba 0xa0 g2
  g4 ← set_gdt_entry 4 0 0 0xb2 0xc0 g3
  g5 ← set_gdt_entry 5 0 0 0xda 0xa0 g4
  g6 ← set_gdt_entry 6 0 0 0xd2 0xc0 g5
  g7 ← set_gdt_entry 7 0 0 0xfa 0xa0 g6
  g8 ← set_gdt_entry 8 0 0 0xf2 0xc0 g7
  let g9 = set_tss_gate tss g8
  ok (init_tss rsp0 (record g9 { gdtr = record { size = gdt_size - 1; offset = u32 table } }))
