-- ===== src/Rtc/Date.antt =====
-- hal/rtc.c: the decoding of the clock's registers, and the timer's bit of register B.
use os_learn.Base.{
  ℕ, ◌+◌, ◌*◌, ◌/◌, ◌%◌, ◌^◌, ◌≤◌, ◌<◌, ◌≡◌, ◌≢◌, ne→==, bit, ap, sym, ◌∙◌, Bool-cases, inl, inr,
  ◌-◌, some, zero, suc, bit_and-pow, true, false, arith, ◌==◌, if◌then◌else◌, bit_and,
  bit_and-high_mask, bit_and-low_mask,
}
use os_learn.Rtc.{
  Datetime, bcd2dec, decode, decode_bcd, decode_hour, rtc_date_same, read_stable, time_getdatetime,
}

-- bcd2dec of the byte with two digits is ten times the one plus the other.
pub bcd2dec_lem : (hi lo : ℕ) → hi < 16 → lo < 16 → bcd2dec (hi * 16 + lo) ≡ hi * 10 + lo
unfolding bcd2dec
bcd2dec_lem hi lo h l = omega (
  arith,
  bit_and-high_mask 4 15 (hi * 16 + lo),
  bit_and-low_mask 4 (hi * 16 + lo),
  bit_and-low_mask 4 ((hi * 16 + lo) / 16),
)

bit7 : (x : ℕ) → 128 ≤ x → x < 256 → bit x 7 ≡ 1
unfolding bit
bit7 x l u = omega (arith, l, u)

-- In the 12-hour format an afternoon hour h, which the clock gives with bit 7 set, is never decoded
-- to 12 + h: in binary it becomes 128, and in BCD 80 + h.
pub pm_hour :
    (regbv h : ℕ) (d : Datetime)
    → 1 ≤ h
    → h ≤ 12
    → bit_and regbv 2 ≡ 0
    → (bit_and regbv 4 ≢ 0 → d.hour ≡ 128 + h → (decode regbv d).hour ≡ 128)
      × (bit_and regbv 4 ≡ 0
          → d.hour ≡ 128 + (h / 10 * 16 + h % 10)
          → (decode regbv d).hour ≡ 80 + h)
unfolding decode decode_bcd decode_hour
pm_hour regbv h d low high twelve = (
  λ binary e.
      let m : bit_and (12 + d.hour) 0x80 ≡ 128 = omega (
        arith,
        bit_and-pow 7 (12 + d.hour),
        bit7 (12 + d.hour) (omega (arith, e)) (omega (arith, e)),
      ) in
      let late : (d.hour / 2 ^ 7 == 0) ≡ false = ground (arith, e) in
      rw (twelve, ne→== (bit_and regbv 4) 0 binary, late) m,
  λ bcd e.
      (let dec : bcd2dec d.hour ≡ 80 + h =
          ap bcd2dec (omega (arith, e))
          ∙ bcd2dec_lem (8 + h / 10) (h % 10) (omega arith) (omega arith)
          ∙ omega arith in
        let early : (bcd2dec d.hour / 2 ^ 7 == 0) ≡ true = ground (arith, dec) in
        rw (twelve, bcd, early) dec),
)

-- What the buffer held before round `j`.
abbrev pub before : (ℕ → Datetime) → Datetime → ℕ → Datetime
before readings datetime j = if j == 0 then datetime else readings (j - 1)

before-next :
    (readings : ℕ → Datetime) (datetime : Datetime) (i : ℕ)
    → before readings datetime (i + 1) ≡ readings i
before-next readings datetime i = rw (ne→== (i + 1) 0 (omega arith)) (ap readings (omega arith))

read_next :
    (fuel i : ℕ) (readings : ℕ → Datetime) (current next d : Datetime)
    → rtc_date_same (readings i) current ≡ false
    → next ≡ readings i
    → read_stable fuel (i + 1) readings next ≡ some d
    → read_stable (suc fuel) i readings current ≡ some d
unfolding read_stable
read_next fuel i readings current next d more e r =
    rw (more, read_stable) (ap (read_stable fuel (i + 1) readings) (sym e) ∙ r)

stable :
    (fuel i : ℕ) (readings : ℕ → Datetime) (datetime : Datetime) (k : ℕ)
    → rtc_date_same (readings (k + 1)) (readings k) ≡ true
    → i ≤ k + 1
    → k + 1 < i + fuel
    → (j : ℕ) × (j ≤ k + 1)
      × (read_stable fuel i readings (before readings datetime i) ≡ some (readings j))
      × (rtc_date_same (readings j) (before readings datetime j) ≡ true)
unfolding read_stable
stable zero i readings datetime k same le enough = absurd (omega arith)
stable (suc fuel) i readings datetime k same le enough =
    elim (Bool-cases (rtc_date_same (readings i) (before readings datetime i))) [
      | inl here ↦ (i, le, rw (here, read_stable), here)
      | inr more ↦
          (let (j, l, e, s) =
              stable fuel (i + 1) readings datetime k same (omega (arith, later more))
                (omega arith) in
            (
              j,
              l,
              read_next fuel i readings (before readings datetime i)
                  (before readings datetime (i + 1)) (readings j) more
                  (before-next readings datetime i) e,
              s,
            ))
    ]
  where
    later : rtc_date_same (readings i) (before readings datetime i) ≡ false → i ≢ k + 1
    later more e =
        let here = ap (λ q. rtc_date_same (readings q) (before readings datetime q)) e in
        let there = ap (rtc_date_same (readings (k + 1))) (before-next readings datetime k) in cc

decoded :
    (fuel regbv : ℕ) (readings : ℕ → Datetime) (datetime d : Datetime)
    → read_stable fuel 0 readings datetime ≡ some d
    → time_getdatetime fuel readings regbv datetime ≡ some (decode regbv d)
unfolding time_getdatetime
decoded fuel regbv readings datetime d e = rw (e, time_getdatetime)

-- time_getdatetime returns as soon as two readings in a row are the same to rtc_date_same, with
-- enough rounds to see them; what it returns is the decoding of a reading that is the same as the
-- one before it, or as what the buffer held before the first.
pub getdatetime-stable :
    (fuel k regbv : ℕ) (readings : ℕ → Datetime) (datetime : Datetime)
    → rtc_date_same (readings (k + 1)) (readings k) ≡ true
    → k + 1 < fuel
    → (j : ℕ) × (j ≤ k + 1)
      × (time_getdatetime fuel readings regbv datetime ≡ some (decode regbv (readings j)))
      × (rtc_date_same (readings j) (before readings datetime j) ≡ true)
getdatetime-stable fuel k regbv readings datetime same enough =
    let (j, l, e, s) = stable fuel 0 readings datetime k same (omega arith) (omega arith) in
    (j, l, decoded fuel regbv readings datetime (readings j) e, s)
