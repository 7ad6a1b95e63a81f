-- ===== src/Timer.antt =====
-- kernel/timer.c: the timers on their list, the update at each tick, and the calibration of the local
-- interrupt controller's timer against the clock. A timer is at an address, which is that of its link;
-- its fields are functions of the address, and 0 is the null pointer. lxmalloc gives the addresses, as
-- arguments. What a callback does is not modelled; that it is called with its payload is an event, and
-- so is that a timer is given back by lxfree.
pub mod Update
pub mod Periodic
pub mod Frequency
mod Tests
use os_learn.Base.{
  ℕ, zero, suc, ◌+◌, ◌-◌, ◌*◌, ◌/◌, ◌%◌, ◌^◌, Bool, true, false, not, List, [], ◌∷◌, ◌++◌, Option,
  some, none, u8, u32, bit_and, bit_or, ◌==◌, if◌then◌else◌, update,
}
use os_learn.Llist.{Links, llist_init_head, llist_append, llist_delete}
use os_learn.Rtc.{Cmos, rtc_read_reg, rtc_enable_timer, rtc_disable_timer}
use os_learn.Interrupts.{Subscribers, intr_subscribe, intr_unsubscribe}

pub data TimerEvent : Type 0 where
  -- the timer, its callback and the payload
  fired : ℕ → ℕ → ℕ → TimerEvent
  released : ℕ → TimerEvent

-- `struct lx_timer` at each address, and what has happened.
pub record Timers : Type 0 where
  pub links : Links
  pub deadline : ℕ → ℕ
  pub counter : ℕ → ℕ
  pub payload : ℕ → ℕ
  pub callback : ℕ → ℕ
  pub flags : ℕ → ℕ
  pub events : List TimerEvent

-- `struct lx_timer_context`
pub record TimerContext : Type 0 where
  pub active_timers : ℕ
  pub base_frequency : ℕ
  pub running_frequency : ℕ
  pub tick_interval : ℕ

abbrev pub timer_mode_periodic : ℕ
timer_mode_periodic = 1

-- `head` is what lxmalloc gives for the head of the list.
pub timer_init_context : ℕ → TimerContext → Timers → TimerContext × Timers
timer_init_context head ctx t =
    (record ctx { active_timers = head }, record t { links = llist_init_head head t.links })

-- `timer` is what lxmalloc gives.
pub timer_run : ℕ → ℕ → ℕ → ℕ → ℕ → TimerContext → Timers → Bool × Timers
timer_run timer ticks callback payload flags ctx t = if timer == 0 then (false, t) else (
  true,
  record {
    links = llist_append ctx.active_timers timer t.links;
    deadline = update t.deadline timer ticks;
    counter = update t.counter timer ticks;
    payload = update t.payload timer payload;
    callback = update t.callback timer callback;
    flags = update t.flags timer (u8 flags);
    events = t.events;
  },
)

pub timer_run_second : ℕ → ℕ → ℕ → ℕ → ℕ → TimerContext → Timers → Bool × Timers
timer_run_second timer second callback payload flags ctx t =
    timer_run timer (u32 (second * ctx.running_frequency)) callback payload flags ctx t

-- `pos->callback ? pos->callback(pos->payload) : 1;`
pub call_back : ℕ → Timers → Timers
call_back pos t =
    if t.callback pos == 0
    then t
    else record t { events = t.events ++ (fired pos (t.callback pos) (t.payload pos) ∷ []) }

-- What follows the callback: a periodic timer starts again, another is taken off and given back.
pub restart : ℕ → Timers → Timers
restart pos t =
    if bit_and (t.flags pos) timer_mode_periodic == 0
    then record t { links = llist_delete pos t.links; events = t.events ++ (released pos ∷ []) }
    else record t { counter = update t.counter pos (t.deadline pos) }

-- One round of the loop in timer_update, for the timer `pos`.
pub update_timer : ℕ → Timers → Timers
update_timer pos t =
    let left = u32 (t.counter pos + 2 ^ 32 - 1) in
    let t1 = record t { counter = update t.counter pos left } in
    if left == 0 then restart pos (call_back pos t1) else t1

-- `llist_for_each` from `pos`, where `n` is the one after it; `none` when the fuel is used up.
pub update_from : ℕ → ℕ → ℕ → ℕ → Timers → Option Timers
update_from zero head pos n t = none
update_from (suc fuel) head pos n t =
    let t' = update_timer pos t in
    elim (pos == head) [ true ↦ some t | false ↦ update_from fuel head n (t'.links.next n) t' ]

pub timer_update : ℕ → TimerContext → Timers → Option Timers
timer_update fuel ctx t =
    let head = ctx.active_timers in
    let pos = t.links.next head in update_from fuel head pos (t.links.next pos) t

-- The state of timer_init: the registers of the local interrupt controller, the clock, the table of
-- subscribers, the two counters, and the context.
pub record Calibration : Type 0 where
  pub apic : ℕ → ℕ
  pub cmos : Cmos
  pub subscribers : Subscribers
  pub rtc_counter : ℕ
  pub apic_timer_done : ℕ
  pub ctx : TimerContext

abbrev pub apic_timer_lvt : ℕ
apic_timer_lvt = 0x320

abbrev pub apic_timer_icr : ℕ
apic_timer_icr = 0x380

abbrev pub apic_timer_dcr : ℕ
apic_timer_dcr = 0x3e0

abbrev pub apic_timer_iv : ℕ
apic_timer_iv = 202

abbrev pub rtc_timer_iv : ℕ
rtc_timer_iv = 210

abbrev pub lvt_timer_periodic : ℕ
lvt_timer_periodic = 2 ^ 17

abbrev pub apic_calibration_const : ℕ
apic_calibration_const = 0x10_0000

-- `LVT_ENTRY_TIMER(vector, mode)`
abbrev pub lvt_entry_timer : ℕ → ℕ → ℕ
lvt_entry_timer vector mode = bit_or mode vector

-- `apic_write_reg(reg, val)`
abbrev pub apic_write_reg : ℕ → ℕ → Calibration → Calibration
apic_write_reg reg val c = record c { apic = update c.apic reg val }

pub rtc_tick_routine : Calibration → Calibration
rtc_tick_routine c = record c {
  rtc_counter = u32 (c.rtc_counter + 1);
  cmos = (rtc_read_reg 0xc c.cmos).1;
}

-- The division traps for a counter of 0; the theorems ask for another.
pub apic_timer_routine : Calibration → Calibration
apic_timer_routine c = record c {
  ctx = record c.ctx { base_frequency = u32 (apic_calibration_const / c.rtc_counter * 1024) };
  apic_timer_done = 1;
  cmos = rtc_disable_timer c.cmos;
}

-- The interrupts that timer_init waits for.
pub data Tick : Type 0 where
  rtc_tick : Tick
  apic_tick : Tick

pub on_tick : Tick → Calibration → Calibration
on_tick rtc_tick c = rtc_tick_routine c
on_tick apic_tick c = apic_timer_routine c

-- `wait_until(apic_timer_done)` while the interrupts arrive; `none` while it still waits.
pub wait_until_done : List Tick → Calibration → Option Calibration
wait_until_done [] c = if c.apic_timer_done == 0 then none else some c
wait_until_done (i ∷ is) c =
    let later = wait_until_done is (on_tick i c) in if c.apic_timer_done == 0 then later else some c

-- Where the linker puts the three routines.
pub record Routines : Type 0 where
  pub apic_routine : ℕ
  pub rtc_routine : ℕ
  pub update_routine : ℕ

-- timer_init up to the wait.
pub start_calibration : Routines → Calibration → Calibration
start_calibration r c =
    let c1 = apic_write_reg apic_timer_lvt (lvt_entry_timer apic_timer_iv 0) c in
    let c2 = apic_write_reg apic_timer_dcr 0b1001 c1 in
    let c3 = record c2 {
      ctx = record c2.ctx { base_frequency = 0 };
      rtc_counter = 0;
      apic_timer_done = 0;
      subscribers =
          intr_subscribe rtc_timer_iv r.rtc_routine
            (intr_subscribe apic_timer_iv r.apic_routine c2.subscribers);
      cmos = rtc_enable_timer c2.cmos;
    } in
    apic_write_reg apic_timer_icr apic_calibration_const c3

-- timer_init after the wait.
pub start_ticking : Routines → ℕ → Calibration → Calibration
start_ticking r frequency c =
    let interval = c.ctx.base_frequency / frequency in
    let c1 = record c {
      ctx = record c.ctx { running_frequency = frequency; tick_interval = interval };
      subscribers =
          intr_unsubscribe rtc_timer_iv r.rtc_routine
            (intr_unsubscribe apic_timer_iv r.apic_routine c.subscribers);
    } in
    let c2 = apic_write_reg apic_timer_lvt (lvt_entry_timer apic_timer_iv lvt_timer_periodic) c1 in
    let c3 = record c2 {
      subscribers = intr_subscribe apic_timer_iv r.update_routine c2.subscribers;
    } in
    apic_write_reg apic_timer_icr interval c3

-- timer_init after timer_init_context.
pub calibrate : Routines → ℕ → List Tick → Calibration → Option Calibration
calibrate r frequency ticks c = elim (wait_until_done ticks (start_calibration r c)) [
  | some c' ↦ some (start_ticking r frequency c')
  | none ↦ none
]
