-- ===== src/Interrupts.antt =====
-- kernel/asm/x86/interrupts.c and intr_routines.c: the table of subscribers and the dispatch of an
-- interrupt. A subscriber is the address of a function, and 0 is the null pointer; what a handler
-- does is not modelled, that it is called is an event.
pub mod Dispatch
mod Tests
use os_learn.Base.{
  ℕ, ◌+◌, Bool, true, false, ◌&&◌, not, List, [], ◌∷◌, ◌++◌, ltb, leb, ◌==◌, if◌then◌else◌, update,
}

pub data Event : Type 0 where
  called : ℕ → Event
  panicked : ℕ → Event
  serviced : Event

pub record Subscribers : Type 0 where
  pub table : ℕ → ℕ
  pub fallback : ℕ

unfoldable pub intr_subscribe : ℕ → ℕ → Subscribers → Subscribers
intr_subscribe vector subscriber s = record s { table = update s.table vector subscriber }

unfoldable pub intr_unsubscribe : ℕ → ℕ → Subscribers → Subscribers
intr_unsubscribe vector subscriber s =
    if s.table vector == subscriber then record s { table = update s.table vector 0 } else s

pub intr_set_fallback_handler : ℕ → Subscribers → Subscribers
intr_set_fallback_handler subscribers s = record s { fallback = subscribers }

abbrev pub ex_interrupt_begin : ℕ
ex_interrupt_begin = 200

abbrev pub apic_error_iv : ℕ
apic_error_iv = 200

abbrev pub apic_spiv_iv : ℕ
apic_spiv_iv = 203

abbrev pub awa_sys_panic : ℕ
awa_sys_panic = 32

-- What follows the label `done`.
unfoldable pub end_of_interrupt : ℕ → List Event
end_of_interrupt vector =
    if leb ex_interrupt_begin vector && not (vector == apic_spiv_iv) then serviced ∷ [] else []

-- The subscriber of the vector, else the fallback, else a panic.
pub handle : ℕ → Subscribers → Event
handle vector s =
    if leb vector 255 && not (s.table vector == 0)
    then called (s.table vector)
    else if not (s.fallback == 0)
    then called s.fallback
    else panicked vector

pub intr_handler : ℕ → Subscribers → List Event
unfolding end_of_interrupt handle
intr_handler vector s = handle vector s ∷ end_of_interrupt vector

-- The functions that intr_routine_init registers; where the linker puts them is a parameter.
pub data Routine : Type 0 where
  divide_zero : Routine
  general_protection : Routine
  page_fault : Routine
  sys_panic : Routine
  apic_spi : Routine
  apic_error : Routine
  fallback_routine : Routine
  set_fallback_handler : Routine

module _ (address : Routine → ℕ) where
  pub intr_routine_init : Subscribers → Subscribers
  unfolding intr_subscribe intr_set_fallback_handler
  intr_routine_init s =
      let s1 = intr_subscribe 0 (address divide_zero) s in
      let s2 = intr_subscribe 13 (address general_protection) s1 in
      let s3 = intr_subscribe 14 (address page_fault) s2 in
      let s4 = intr_subscribe awa_sys_panic (address sys_panic) s3 in
      let s5 = intr_subscribe apic_spiv_iv (address apic_spi) s4 in
      let s6 = intr_subscribe apic_error_iv (address apic_error) s5 in
      intr_set_fallback_handler (address set_fallback_handler) s6
