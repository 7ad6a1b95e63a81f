-- ===== src/Timer/Frequency.antt =====
-- kernel/timer.c: the calibration in timer_init.
use os_learn.Base.{
  ℕ, zero, suc, ◌+◌, ◌*◌, ◌/◌, ◌^◌, ◌≤◌, ◌<◌, ◌≡◌, ◌≢◌, refl, ap, ◌∙◌, List, [], ◌∷◌, some, arith,
  u32, ◌==◌, if◌then◌else◌, inl, inr, Bool-cases, eq→==,
}
use native.Mathlib.Nat.{div-le_self, mul-div-le, lt-div-mul-add}
use os_learn.Interrupts.{Subscribers, intr_subscribe, intr_unsubscribe}
use os_learn.Timer.{
  Tick, rtc_tick, apic_tick, on_tick, Calibration, Routines, rtc_tick_routine, apic_timer_routine,
  wait_until_done, start_calibration, start_ticking, calibrate,
}

-- `n` ticks of the clock, and then the interrupt of the timer.
unfoldable pub ticks_then_done : ℕ → List Tick
ticks_then_done zero = apic_tick ∷ []
ticks_then_done (suc n) = rtc_tick ∷ ticks_then_done n

-- The state after so many ticks.
after_ticks : ℕ → Calibration → Calibration
after_ticks zero c = c
after_ticks (suc n) c = after_ticks n (rtc_tick_routine c)

wait-ticks :
    (n : ℕ) (c : Calibration)
    → c.apic_timer_done ≡ 0
    → wait_until_done (ticks_then_done n) c ≡ some (apic_timer_routine (after_ticks n c))
unfolding wait_until_done ticks_then_done after_ticks on_tick apic_timer_routine rtc_tick_routine
wait-ticks zero c e = rw (eq→== c.apic_timer_done 0 e)
wait-ticks (suc n) c e = rw (eq→== c.apic_timer_done 0 e) (wait-ticks n (rtc_tick_routine c) e)

-- What the ticks leave.
record Ticked (n : ℕ) (c c' : Calibration) : Type 0 where
  counted : c.rtc_counter + n < 2 ^ 32 → c'.rtc_counter ≡ c.rtc_counter + n
  apic : c'.apic ≡ c.apic
  subscribers : c'.subscribers ≡ c.subscribers

after_ticks-Ticked : (n : ℕ) (c : Calibration) → Ticked n c (after_ticks n c)
unfolding after_ticks rtc_tick_routine
after_ticks-Ticked zero c = record { counted = λ s. omega arith; apic = refl; subscribers = refl }
after_ticks-Ticked (suc n) c =
    let r = after_ticks-Ticked n (rtc_tick_routine c) in
    record {
      counted = λ s. r.counted (omega (arith, s)) ∙ omega (arith, s);
      apic = r.apic;
      subscribers = r.subscribers;
    }

-- 0x100000 counts in `n` ticks.
measured :
    (n : ℕ)
    → 0 < n
    → (u32 (0x10_0000 / n * 1024) * n ≤ 0x10_0000 * 1024)
      × (0x10_0000 * 1024 < u32 (0x10_0000 / n * 1024) * n + 1024 * n)
measured n pos =
    let few : 0x10_0000 / n ≤ 0x10_0000 = div-le_self 0x10_0000 n in
    let whole : u32 (0x10_0000 / n * 1024) ≡ 0x10_0000 / n * 1024 = omega (arith, few) in
    let whole_n = ap (λ (q : ℕ). q * n) whole in
    (
      omega (arith, whole_n, mul-div-le 0x10_0000 n),
      omega (arith, whole_n, lt-div-mul-add {a = 0x10_0000} {b = n} pos),
    )

-- The subscribers after timer_init.
unfoldable pub subscribed : Routines → ℕ → Subscribers → ℕ
subscribed r v s = if 202 == v then r.update_routine else if 210 == v then 0 else s.table v

-- The table with the two routines taken off and the update put on.
tables :
    (r : Routines) (s : Subscribers) (v : ℕ)
    → (intr_subscribe 202 r.update_routine (
          intr_unsubscribe 210 r.rtc_routine (
            intr_unsubscribe 202 r.apic_routine
              (intr_subscribe 210 r.rtc_routine (intr_subscribe 202 r.apic_routine s))))).table
        v
      ≡ subscribed r v s
unfolding intr_subscribe intr_unsubscribe subscribed
tables r s v =
    rw (eq→== r.apic_routine r.apic_routine refl, eq→== r.rtc_routine r.rtc_routine refl)
      (elim (Bool-cases (202 == v)) [
        | inl a ↦ rw a refl
        | inr a ↦ elim (Bool-cases (210 == v)) [ inl b ↦ rw (a, b) refl | inr b ↦ rw (a, b) refl ]
      ])

-- timer_init, when `n` ticks of the clock come before the interrupt of the timer: it does not wait any
-- longer; the frequency lies below the true one, 0x100000 counts in n / 1024 seconds, by less than
-- 1024; the timer runs periodically with its interval, the frequency by the one asked for; its vector
-- has the update, that of the clock none, and every other what it had.
pub calibrate_lem :
    (r : Routines) (frequency n : ℕ) (c : Calibration)
    → 0 < n
    → n < 2 ^ 32
    → frequency ≢ 0
    → (c' : Calibration) × (calibrate r frequency (ticks_then_done n) c ≡ some c')
      × (c'.ctx.base_frequency * n ≤ 0x10_0000 * 1024)
      × (0x10_0000 * 1024 < c'.ctx.base_frequency * n + 1024 * n)
      × (c'.apic 0x320 ≡ 0x2_00ca)
      × (c'.apic 0x3e0 ≡ 9)
      × (c'.apic 0x380 ≡ c'.ctx.base_frequency / frequency)
      × (c'.ctx.tick_interval ≡ c'.ctx.base_frequency / frequency)
      × ((v : ℕ) → c'.subscribers.table v ≡ subscribed r v c.subscribers)
unfolding calibrate start_ticking start_calibration subscribed apic_timer_routine
calibrate_lem r frequency n c pos small nf =
    let k = after_ticks-Ticked n (start_calibration r c) in
    let counted : (after_ticks n (start_calibration r c)).rtc_counter ≡ n =
      k.counted (omega (arith, small)) ∙ omega arith in
    let (low, high) = measured n pos in
    rw (wait-ticks n (start_calibration r c) refl, calibrate)
      (
        _,
        refl,
        rw counted low,
        rw counted high,
        refl,
        ap (λ (f : ℕ → ℕ). f 0x3e0) k.apic,
        refl,
        refl,
        λ v. rw k.subscribers (tables r c.subscribers v),
      )
