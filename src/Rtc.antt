-- ===== src/Rtc.antt =====
-- hal/rtc.c: the real time clock. The clock is a parameter: what its registers hold. A write goes to
-- the register; reading a register is reading the clock.
pub mod Date
mod Tests
use os_learn.Base.{
  ℕ, zero, suc, ◌+◌, ◌-◌, ◌*◌, ◌/◌, ◌%◌, ◌^◌, Bool, true, false, ◌&&◌, not, u8, u32, bit_and,
  bit_or, Option, some, none, ltb, leb, ◌==◌, if◌then◌else◌, update,
}

abbrev pub with_nmi_disabled : ℕ
with_nmi_disabled = 0x80

-- The CMOS: the register that is selected, and the registers. Bit 7 of the index port is the mask of
-- the non-maskable interrupt and selects no register.
pub record Cmos : Type 0 where
  pub index : ℕ
  pub regs : ℕ → ℕ

pub rtc_read_reg : ℕ → Cmos → ℕ × Cmos
rtc_read_reg reg_selector c = (c.regs (reg_selector % 128), record c { index = reg_selector })

pub rtc_write_reg : ℕ → ℕ → Cmos → Cmos
rtc_write_reg reg_selector val c = record {
  index = reg_selector;
  regs = update c.regs (reg_selector % 128) (u8 val);
}

pub rtc_enable_timer : Cmos → Cmos
unfolding rtc_read_reg rtc_write_reg
rtc_enable_timer c =
    let (reg_b, c') = rtc_read_reg (bit_or 0xb with_nmi_disabled) c in
    rtc_write_reg (bit_or 0xb with_nmi_disabled) (bit_or reg_b 0x40) c'

pub rtc_disable_timer : Cmos → Cmos
unfolding rtc_read_reg rtc_write_reg
rtc_disable_timer c =
    let (reg_b, c') = rtc_read_reg (bit_or 0xb with_nmi_disabled) c in
    rtc_write_reg (bit_or 0xb with_nmi_disabled) (bit_and reg_b 0xffff_ffbf) c'

pub rtc_init : Cmos → Cmos
unfolding rtc_disable_timer
rtc_init c =
    let (reg_a, c') = rtc_read_reg (bit_or 0xa with_nmi_disabled) c in
    let reg_a' = u8 (bit_or (bit_or (bit_and reg_a 0xffff_ff80) 6) 0x20) in
    rtc_disable_timer (rtc_write_reg (bit_or 0xa with_nmi_disabled) reg_a' c')

pub bcd2dec : ℕ → ℕ
bcd2dec bcd = u8 (bit_and bcd 0xf0 / 2 + bit_and bcd 0xf0 / 8 + bit_and bcd 0xf)

-- `datetime_t`
pub record Datetime : Type 0 where
  pub year : ℕ
  pub month : ℕ
  pub day : ℕ
  pub weekday : ℕ
  pub hour : ℕ
  pub minute : ℕ
  pub second : ℕ

pub rtc_date_same : Datetime → Datetime → Bool
rtc_date_same a b =
    (a.year == b.year)
    && (a.month == b.month)
    && (a.day == b.day)
    && (a.weekday == b.weekday)
    && (a.minute == b.minute)
    && (a.second == b.second)

-- The conversions after the registers are read stably, with the value of register B.
pub decode_bcd : ℕ → Datetime → Datetime
unfolding bcd2dec
decode_bcd regbv d =
    if bit_and regbv 4 == 0
    then (record {
      year = bcd2dec (u8 d.year);
      month = bcd2dec d.month;
      day = bcd2dec d.day;
      weekday = d.weekday;
      hour = bcd2dec d.hour;
      minute = bcd2dec d.minute;
      second = bcd2dec d.second;
    })
    else d

pub decode_hour : ℕ → Datetime → Datetime
decode_hour regbv d =
    if (bit_and regbv 2 == 0) && not (d.hour / 2 ^ 7 == 0)
    then record d { hour = bit_and (12 + d.hour) 0x80 }
    else d

pub decode : ℕ → Datetime → Datetime
unfolding decode_bcd decode_hour
decode regbv d =
    let e = decode_hour regbv (decode_bcd regbv d) in record e { year = u32 (e.year + 20 * 100) }

-- The `do` loop of time_getdatetime: round `k` reads `readings k` from the registers, until it is the
-- same as what the buffer held before. The wait for the end of an update is inside a reading.
pub read_stable : ℕ → ℕ → (ℕ → Datetime) → Datetime → Option Datetime
unfolding rtc_date_same
read_stable zero k readings current = none
read_stable (suc fuel) k readings current = elim (rtc_date_same (readings k) current) [
  | true ↦ some (readings k)
  | false ↦ read_stable fuel (k + 1) readings (readings k)
]

pub time_getdatetime : ℕ → (ℕ → Datetime) → ℕ → Datetime → Option Datetime
unfolding read_stable decode
time_getdatetime fuel readings regbv datetime = elim (read_stable fuel 0 readings datetime) [
  | none ↦ none
  | some d ↦ some (decode regbv d)
]
