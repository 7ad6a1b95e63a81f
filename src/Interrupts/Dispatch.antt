-- ===== src/Interrupts/Dispatch.antt =====
-- kernel/asm/x86/interrupts.c: who is called for an interrupt.
use os_learn.Base.{
  ℕ, ◌≤◌, ◌<◌, ◌≡◌, ◌≢◌, inl, inr, true, false, ◌&&◌, not, arith, [], ◌∷◌, leb, ◌==◌, if◌then◌else◌,
  ap, ==→eq, ne→==, eq→==, Bool-cases,
}
use os_learn.Interrupts.{
  called, panicked, serviced, Subscribers, intr_subscribe, intr_unsubscribe, end_of_interrupt,
  handle, intr_handler, Routine, set_fallback_handler, intr_routine_init,
}

-- After intr_subscribe of a function that is not null for a vector of the table, an interrupt of that vector calls
-- the function and then, from vector 200 on but for the spurious one, ends the interrupt; an
-- interrupt of any other vector does what it did before.
pub subscribe-handler :
    (vector f w : ℕ) (s : Subscribers)
    → vector ≤ 255
    → f ≢ 0
    → intr_handler w (intr_subscribe vector f s) ≡ (
        if w == vector
        then called f ∷ (if leb 200 vector && not (vector == 203) then serviced ∷ [] else [])
        else intr_handler w s)
unfolding intr_handler handle end_of_interrupt intr_subscribe
subscribe-handler vector f w s h ne = elim (Bool-cases (w == vector)) [
  | inl same ↦
      (let back : (vector == w) ≡ true = ground (arith, same) in
        let inside : leb w 255 ≡ true = ground (arith, same) in
        let e : w ≡ vector = ==→eq w vector same in
        rw (same, back, inside, ne→== f 0 ne) (ap (λ v. called f ∷ end_of_interrupt v) e))
  | inr other ↦ (let back : (vector == w) ≡ false = ground (arith, other) in rw (other, back))
]

-- intr_unsubscribe of the function that is subscribed frees the vector, whose interrupts then go to
-- the fallback, or to a panic if there is none; of any other function it changes nothing.
pub unsubscribe-handler :
    (vector f : ℕ) (s : Subscribers)
    → (s.table vector ≡ f
        → intr_handler vector (intr_unsubscribe vector f s)
          ≡ (if not (s.fallback == 0) then called s.fallback else panicked vector)
            ∷ end_of_interrupt vector)
      × (s.table vector ≢ f → intr_unsubscribe vector f s ≡ s)
unfolding intr_handler handle intr_unsubscribe
unsubscribe-handler vector f s = (
  λ e.
      let self : (vector == vector) ≡ true = ground arith in
      rw (eq→== (s.table vector) f e, self, none_left),
  λ ne. rw (ne→== (s.table vector) f ne),
)
  where
    none_left : (leb vector 255 && not (0 == 0)) ≡ false
    none_left = ground arith

-- After intr_routine_init, an interrupt below 200 of a vector that was not subscribed and is none of
-- the registered ones calls intr_set_fallback_handler.
pub init-fallback :
    (address : Routine → ℕ) (vector : ℕ) (s : Subscribers)
    → address set_fallback_handler ≢ 0
    → s.table vector ≡ 0
    → vector < 200
    → vector ≢ 0
    → vector ≢ 13
    → vector ≢ 14
    → vector ≢ 32
    → intr_handler vector (intr_routine_init address s) ≡ called (address set_fallback_handler) ∷ []
unfolding intr_handler handle intr_routine_init end_of_interrupt
init-fallback address vector s there free low a b c d =
    let outside : leb 200 vector ≡ false = ground (arith, low) in
    rw (
      ne→== 200 vector (omega (arith, low)),
      ne→== 203 vector (omega (arith, low)),
      ne→== 32 vector (omega (arith, d)),
      ne→== 14 vector (omega (arith, c)),
      ne→== 13 vector (omega (arith, b)),
      ne→== 0 vector (omega (arith, a)),
      free,
      none_left,
      ne→== (address set_fallback_handler) 0 there,
      outside,
    )
  where
    none_left : (leb vector 255 && not (0 == 0)) ≡ false
    none_left = ground arith
