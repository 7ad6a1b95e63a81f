-- ===== src/Timer/Update.antt =====
-- kernel/timer.c: what timer_update does to one timer, and its walk over periodic timers.
use os_learn.Base.{
  ℕ, zero, suc, ◌+◌, ◌-◌, ◌^◌, ◌<◌, ◌≡◌, ◌≢◌, refl, sym, ap, ◌∙◌, false, List, [], ◌∷◌, ◌++◌, some,
  arith, u32, bit_and, ◌==◌, if◌then◌else◌, length, inl, inr, Bool-cases, ne→==, eq→==,
}
use os_learn.Llist.{Links}
use os_learn.Llist.Ring.{Walk}
use os_learn.Timer.{
  TimerEvent, fired, released, Timers, TimerContext, call_back, restart, update_timer, update_from,
  timer_update,
}

abbrev pub IsPeriodic : Timers → ℕ → Type 0
IsPeriodic t x = (bit_and (t.flags x) 1 == 0) ≡ false

-- The timers are all periodic.
unfoldable pub Periodic : Timers → List ℕ → Type 0
Periodic t [] = Unit {0}
Periodic t (x ∷ xs) = IsPeriodic t x × Periodic t xs

-- How often a timer was called.
unfoldable pub calls : ℕ → List TimerEvent → ℕ
calls x [] = 0
calls x (fired y callback payload ∷ es) = (if y == x then 1 else 0) + calls x es
calls x (released y ∷ es) = calls x es

pub calls-append : (x : ℕ) (es fs : List TimerEvent) → calls x (es ++ fs) ≡ calls x es + calls x fs
unfolding calls
calls-append x [] fs = omega arith
calls-append x (fired y callback payload ∷ es) fs = omega (arith, calls-append x es fs)
calls-append x (released y ∷ es) fs = calls-append x es fs

-- What stays of a timer in all that timer_update does to periodic timers.
pub record Kept (t t' : Timers) : Type 0 where
  pub links : t'.links ≡ t.links
  pub flags : t'.flags ≡ t.flags
  pub deadline : t'.deadline ≡ t.deadline
  pub callback : t'.callback ≡ t.callback

pub Kept-trans : {t t' t'' : Timers} → Kept t t' → Kept t' t'' → Kept t t''
Kept-trans k k' = record {
  links = k'.links ∙ k.links;
  flags = k'.flags ∙ k.flags;
  deadline = k'.deadline ∙ k.deadline;
  callback = k'.callback ∙ k.callback;
}

pub update_timer-Kept : (x : ℕ) (t : Timers) → IsPeriodic t x → Kept t (update_timer x t)
unfolding update_timer restart call_back
update_timer-Kept x t p = elim (Bool-cases (u32 (t.counter x + 2 ^ 32 - 1) == 0)) [
  | inl zero_left ↦ elim (Bool-cases (t.callback x == 0)) [
    | inl null ↦
        rw (zero_left, null, p)
          (record { links = refl; flags = refl; deadline = refl; callback = refl })
    | inr some_callback ↦
        rw (zero_left, some_callback, p)
          (record { links = refl; flags = refl; deadline = refl; callback = refl })
  ]
  | inr more ↦ rw more (record { links = refl; flags = refl; deadline = refl; callback = refl })
]

-- One round of the update after another, in the order of the list.
unfoldable pub visit : List ℕ → Timers → Timers
visit [] t = t
visit (x ∷ xs) t = visit xs (update_timer x t)

pub Periodic-same :
    (t t' : Timers) (xs : List ℕ) → t'.flags ≡ t.flags → Periodic t xs → Periodic t' xs
unfolding Periodic
Periodic-same t t' [] e p = p
Periodic-same t t' (x ∷ xs) e (q, p) = (rw e q, Periodic-same t t' xs e p)

pub visit-Kept : (xs : List ℕ) (t : Timers) → Periodic t xs → Kept t (visit xs t)
unfolding visit Periodic
visit-Kept [] t p = record { links = refl; flags = refl; deadline = refl; callback = refl }
visit-Kept (x ∷ xs) t (q, p) =
    let k = update_timer-Kept x t q in
    Kept-trans k
      (visit-Kept xs (update_timer x t) (Periodic-same t (update_timer x t) xs k.flags p))

update_from-round :
    (fuel head x n : ℕ) (t : Timers)
    → x ≢ head
    → update_from (suc fuel) head x n t
      ≡ update_from fuel head n ((update_timer x t).links.next n) (update_timer x t)
unfolding update_from
update_from-round fuel head x n t ne = rw (ne→== x head ne, update_from)

update_from-visit :
    (fuel head p : ℕ) (xs : List ℕ) (t : Timers)
    → length xs < fuel
    → Periodic t xs
    → Walk t.links head p xs
    → update_from fuel head (t.links.next p) (t.links.next (t.links.next p)) t ≡ some (visit xs t)
unfolding update_from visit Periodic Walk
update_from-visit zero head p xs t lt per w = absurd (omega (arith, lt))
update_from-visit (suc fuel) head p [] t lt per w = rw (eq→== (t.links.next p) head w, update_from)
update_from-visit (suc fuel) head p (x ∷ xs) t lt (q, per) (e, ne, w) =
    let k = update_timer-Kept x t q in
    let rest =
      update_from-visit fuel head x xs (update_timer x t) (omega (arith, lt))
        (Periodic-same t (update_timer x t) xs k.flags per) (rw k.links w) in
    ap (λ pos. update_from (suc fuel) head pos (t.links.next pos) t) e
    ∙ update_from-round fuel head x (t.links.next x) t ne
    ∙ ap
        (λ (l : Links).
          update_from fuel head (l.next x) ((update_timer x t).links.next (l.next x))
            (update_timer x t))
        (sym k.links)
    ∙ rest

-- timer_update on a list whose timers are all periodic, with more fuel than there are timers: it comes
-- to its end, and has done one round of its loop for each timer, in the order of the list.
pub timer_update-visit :
    (fuel : ℕ) (ctx : TimerContext) (t : Timers) (xs : List ℕ)
    → length xs < fuel
    → Periodic t xs
    → Walk t.links ctx.active_timers ctx.active_timers xs
    → timer_update fuel ctx t ≡ some (visit xs t)
unfolding timer_update
timer_update-visit fuel ctx t xs lt per w =
    update_from-visit fuel ctx.active_timers ctx.active_timers xs t lt per w
