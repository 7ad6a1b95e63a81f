-- ===== src/Rtc/Tests.antt =====
-- hal/rtc.c: a date, and the theorems at it.
use os_learn.Base.{
  ℕ, ◌+◌, ◌*◌, ◌/◌, ◌%◌, ◌≡◌, ◌≢◌, ◌≤◌, refl, true, arith, bit_and, if◌then◌else◌, ltb, some,
}
use os_learn.Rtc.{Datetime, decode, rtc_date_same, time_getdatetime}
use os_learn.Rtc.Date.{pm_hour, before, getdatetime-stable}

abbrev evening : Datetime
evening = record { year = 22; month = 3; day = 7; weekday = 2; hour = 137; minute = 15; second = 0 }

-- The second changes once.
abbrev readings : ℕ → Datetime
readings k = if ltb k 1 then evening else record evening { second = 1 }

pm_hour_run :
    (bit_and 4 4 ≢ 0 → evening.hour ≡ 128 + 9 → (decode 4 evening).hour ≡ 128)
    × (bit_and 4 4 ≡ 0
        → evening.hour ≡ 128 + (9 / 10 * 16 + 9 % 10)
        → (decode 4 evening).hour ≡ 80 + 9)
pm_hour_run = pm_hour 4 9 evening (omega arith) (omega arith) refl

same_second : rtc_date_same (readings 2) (readings 1) ≡ true
unfolding rtc_date_same
same_second = refl

getdatetime-stable_example :
    (j : ℕ) × (j ≤ 2)
    × (time_getdatetime 5 readings 6 evening ≡ some (decode 6 (readings j)))
    × (rtc_date_same (readings j) (before readings evening j) ≡ true)
getdatetime-stable_example = getdatetime-stable 5 1 6 readings evening same_second (omega arith)
