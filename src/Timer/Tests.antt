-- ===== src/Timer/Tests.antt =====
-- kernel/timer.c: two timers on a list, the theorems at them, and runs.
use os_learn.Base.{ℕ, ◌≡◌, ◌≤◌, ◌<◌, ◌+◌, ◌*◌, ◌/◌, refl, arith, [], ◌∷◌, some, if◌then◌else◌, ◌==◌}
use os_learn.Llist.Ring.{Walk, Fresh}
use os_learn.Timer.{Timers, TimerContext, timer_run, timer_update, Calibration, Routines, calibrate}
use os_learn.Timer.Update.{Periodic, calls, visit, timer_update-visit}
use os_learn.Timer.Periodic.{updates, timer_run-calls}
use os_learn.Timer.Frequency.{ticks_then_done, subscribed, calibrate_lem}

-- The head at 100, and a periodic timer at 200 that fires every third time.
abbrev context : TimerContext
context = record {
  active_timers = 100;
  base_frequency = 0x10_0000;
  running_frequency = 2048;
  tick_interval = 512;
}

abbrev timers : Timers
timers = record {
  links = record {
    prev = λ p. if p == 100 then 200 else 100;
    next = λ p. if p == 100 then 200 else 100;
  };
  deadline = λ p. 3;
  counter = λ p. 1;
  payload = λ p. 7;
  callback = λ p. 0x5000;
  flags = λ p. 1;
  events = [];
}

timers-Walk : Walk timers.links 100 100 (200 ∷ [])
unfolding Walk
timers-Walk = (refl, omega arith, refl)

timers-Periodic : Periodic timers (200 ∷ [])
unfolding Periodic
timers-Periodic = (refl, tt)

timer_update-visit_run : timer_update 2 context timers ≡ some (visit (200 ∷ []) timers)
timer_update-visit_run =
    timer_update-visit 2 context timers (200 ∷ []) (omega arith) timers-Periodic timers-Walk

timer_run-calls_example :
    (now : Timers) × (updates 3 5 context (timer_run 300 2 0x6000 9 1 context timers).1 ≡ some now)
    × (calls 300 now.events * 2 ≤ 5)
    × (5 < calls 300 now.events * 2 + 2)
    × Walk now.links 100 100 (300 ∷ 200 ∷ [])
unfolding Fresh calls
timer_run-calls_example =
    timer_run-calls 300 2 0x6000 9 3 5 context timers (200 ∷ []) (omega arith) (omega arith)
      (omega arith) (omega arith) (omega arith) (omega arith) (omega arith, tt) timers-Periodic
      timers-Walk refl

abbrev calibration : Calibration
calibration = record {
  apic = λ r. 0;
  cmos = record { index = 0; regs = λ r. 0 };
  subscribers = record { table = λ v. 0; fallback = 0x4000 };
  rtc_counter = 0;
  apic_timer_done = 0;
  ctx = context;
}

abbrev routines : Routines
routines = record { apic_routine = 0x1000; rtc_routine = 0x2000; update_routine = 0x3000 }

calibrate_lem_example :
    (c' : Calibration) × (calibrate routines 2048 (ticks_then_done 3) calibration ≡ some c')
    × (c'.ctx.base_frequency * 3 ≤ 0x10_0000 * 1024)
    × (0x10_0000 * 1024 < c'.ctx.base_frequency * 3 + 1024 * 3)
    × (c'.apic 0x320 ≡ 0x2_00ca)
    × (c'.apic 0x3e0 ≡ 9)
    × (c'.apic 0x380 ≡ c'.ctx.base_frequency / 2048)
    × (c'.ctx.tick_interval ≡ c'.ctx.base_frequency / 2048)
    × ((v : ℕ) → c'.subscribers.table v ≡ subscribed routines v calibration.subscribers)
calibrate_lem_example =
    calibrate_lem routines 2048 3 calibration (omega arith) (omega arith) (omega arith)
