-- ===== src/Interrupts/Tests.antt =====
-- kernel/asm/x86/interrupts.c: a table, and the theorems at it.
use os_learn.Base.{ℕ, ◌≡◌, ◌≢◌, refl, arith, [], ◌∷◌, ◌==◌, if◌then◌else◌, not}
use os_learn.Interrupts.{
  Subscribers, called, serviced, intr_subscribe, intr_unsubscribe, intr_handler, end_of_interrupt,
  panicked, Routine, divide_zero, general_protection, page_fault, sys_panic, apic_spi, apic_error,
  fallback_routine, set_fallback_handler, intr_routine_init,
}
use os_learn.Interrupts.Dispatch.{subscribe-handler, unsubscribe-handler, init-fallback}

abbrev at_start : Subscribers
at_start = record { table = λ v. if v == 202 then 0x1000 else 0; fallback = 0 }

abbrev address : Routine → ℕ
address divide_zero = 0x100
address general_protection = 0x200
address page_fault = 0x300
address sys_panic = 0x400
address apic_spi = 0x500
address apic_error = 0x600
address fallback_routine = 0x700
address set_fallback_handler = 0x800

subscribe-handler_example :
    intr_handler 210 (intr_subscribe 210 0x2000 at_start) ≡ called 0x2000 ∷ serviced ∷ []
subscribe-handler_example = subscribe-handler 210 0x2000 210 at_start (omega arith) (omega arith)

unsubscribe-handler_run :
    (at_start.table 202 ≡ 0x1000
      → intr_handler 202 (intr_unsubscribe 202 0x1000 at_start)
        ≡ (if not (at_start.fallback == 0) then called at_start.fallback else panicked 202)
          ∷ end_of_interrupt 202)
    × (at_start.table 202 ≢ 0x1000 → intr_unsubscribe 202 0x1000 at_start ≡ at_start)
unsubscribe-handler_run = unsubscribe-handler 202 0x1000 at_start

init-fallback_run : intr_handler 77 (intr_routine_init address at_start) ≡ called 0x800 ∷ []
init-fallback_run =
    init-fallback address 77 at_start (omega arith) refl (omega arith) (omega arith) (omega arith)
      (omega arith) (omega arith)
