-- ===== src/Arch/Rtc.antt =====
-- arch/x86_64/rtc.c: what the clock's registers say. A register is a function of its number; turning
-- interrupts off around an access is left out.
use h0r_net.Common.{
  ℕ, ◌+◌, ◌*◌, ◌/◌, ◌%◌, ◌<◌, ◌≡◌, Bool, true, List, [], ◌∷◌, if◌then◌else◌, u8, bit_and, bit_or,
  ◌==◌, arith,
}

-- The registers' numbers.
abbrev pub rtc_status : ℕ
rtc_status = 0x0b

pub record RtcTimePoint : Type 0 where
  pub seconds : ℕ
  pub minutes : ℕ
  pub hours : ℕ
  pub day_of_week : ℕ
  pub day_of_month : ℕ
  pub month : ℕ
  pub year : ℕ
  pub full : List ℕ

unfoldable pub bcd2bin : Bool → ℕ → ℕ
bcd2bin bcd in_bcd = if bcd then u8 (in_bcd / 16 * 10 + in_bcd % 16) else in_bcd

unfoldable pub time_get : Bool → (ℕ → ℕ) → RtcTimePoint
unfolding bcd2bin
time_get bcd register =
    let seconds = bcd2bin bcd (register 0x00) in
    let minutes = bcd2bin bcd (register 0x02) in
    let hours = bcd2bin bcd (register 0x04) in
    let day = bcd2bin bcd (register 0x07) in
    let month = bcd2bin bcd (register 0x08) in
    let year = bcd2bin bcd (register 0x09) in
    record {
      seconds = seconds;
      minutes = minutes;
      hours = hours;
      day_of_week = bcd2bin bcd (register 0x06);
      day_of_month = day;
      month = month;
      year = year;
      full = seconds ∷ minutes ∷ hours ∷ day ∷ month ∷ year ∷ [];
    }

-- The value written to the status register, and whether the clock counts in BCD.
unfoldable pub rtc_init : ℕ → ℕ × Bool
rtc_init status =
    let set = bit_and (bit_and (bit_or (bit_or status 0x02) 0x10) 0xdf) 0xbf in
    (set, bit_and set 0x04 == 0)

-- A number below 100 that is written as two BCD digits comes out of `bcd2bin` as itself.
pub bcd2bin-digits : (n : ℕ) → n < 100 → bcd2bin true (n / 10 * 16 + n % 10) ≡ n
unfolding bcd2bin
bcd2bin-digits n small = omega arith
