-- ===== src/Acpi/Hpet.antt =====
-- drivers/ACPI/HPET.c: the event timer. Its running counter is an argument: the values that one
-- reading after another gives.
use h0r_net.Common.{
  ℕ, suc, ◌+◌, ◌*◌, ◌/◌, ◌^◌, Bool, true, false, List, [], ◌∷◌, ltb, ◌==◌, if◌then◌else◌, u64, Mem,
  Outcome, ok, fault, out_of_fuel,
}
use h0r_net.Common.LittleEndian.{load_le, store_le}
use h0r_net.Acpi.Sdt.{Acpi, find_sdt}

-- The fields of `hpet_header` and `hpet_regs`.
abbrev pub addr_field : ℕ
addr_field = 44

abbrev pub general_config_field : ℕ
general_config_field = 16

abbrev pub counter_val_field : ℕ
counter_val_field = 240

-- The literal "HPET" stands at `hpet`. The result is whether there is a table, the pointer to the
-- registers, and the memory.
unfoldable pub hpet_init : Mem → ℕ → (dsdt facp hpet : ℕ) → Acpi → Bool × ℕ × Mem
unfolding find_sdt
hpet_init m off dsdt facp hpet acpi =
    let table = find_sdt m off dsdt facp acpi hpet in
    let regs = u64 (load_le 8 m (table + addr_field) + off) in
    if table == 0 then (false, 0, m) else (
      true,
      regs,
      store_le 8 (store_le 8 m (regs + counter_val_field) 0) (regs + general_config_field) 1,
    )

-- One reading more.
abbrev pub waited : Outcome ℕ → Outcome ℕ
waited (ok n) = ok (suc n)
waited o = o

-- The loop of `hpet_usleep`: how many readings it makes. It waits on when the readings end.
pub wait_loop : ℕ → List ℕ → Outcome ℕ
wait_loop target [] = out_of_fuel
wait_loop target (reading ∷ readings) =
    let rest = wait_loop target readings in if ltb reading target then waited rest else ok 1

-- The first reading sets the target; a clock period of 0 divides by 0.
unfoldable pub hpet_usleep : ℕ → ℕ → ℕ → List ℕ → Outcome ℕ
unfolding wait_loop
hpet_usleep capabilities us now readings =
    let clock_period = capabilities / 2 ^ 32 in
    if clock_period == 0
    then fault
    else wait_loop (u64 (now + us * (1000000000 / clock_period))) readings
