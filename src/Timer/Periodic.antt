-- ===== src/Timer/Periodic.antt =====
-- kernel/timer.c: how often a periodic timer is called.
use os_learn.Base.{
  ℕ, zero, suc, ◌+◌, ◌-◌, ◌*◌, ◌^◌, ◌≤◌, ◌<◌, ◌≡◌, ◌≢◌, refl, sym, ap, ◌∙◌, true, false, List, [],
  ◌∷◌, Option, some, none, arith, u32, ◌==◌, if◌then◌else◌, update, length, inl, inr, Bool-cases,
  ne→==, eq→==,
}
use native.Mathlib.Decide.{ℕ_discrete}
use os_learn.Llist.Ring.{Walk, Fresh, append-Walk}
use os_learn.Timer.{
  fired, Timers, TimerContext, call_back, restart, update_timer, timer_update, timer_run,
}
use os_learn.Timer.Update.{
  IsPeriodic, Periodic, calls, calls-append, Kept, Kept-trans, update_timer-Kept, visit, visit-Kept,
  Periodic-same, timer_update-visit,
}

-- The timer is one of the list, once.
pub data Once (x : ℕ) : List ℕ → Type 0 where
  once_here : (xs : List ℕ) → Fresh x xs → Once x (x ∷ xs)
  once_later : (y : ℕ) (xs : List ℕ) → y ≢ x → Once x xs → Once x (y ∷ xs)

-- The counter of a timer, and how often it was called.
pub record Count (x : ℕ) (t : Timers) (counter times : ℕ) : Type 0 where
  pub left : t.counter x ≡ counter
  pub called : calls x t.events ≡ times

other-Count :
    (x y counter times : ℕ) (t : Timers)
    → y ≢ x
    → IsPeriodic t y
    → Count x t counter times
    → Count x (update_timer y t) counter times
unfolding update_timer restart call_back calls
other-Count x y counter times t ne p c =
    let far : (y == x) ≡ false = ne→== y x ne in
    elim (Bool-cases (u32 (t.counter y + 2 ^ 32 - 1) == 0)) [
      | inl zero_left ↦ elim (Bool-cases (t.callback y == 0)) [
        | inl null ↦ rw (zero_left, null, p) (record { left = rw far c.left; called = c.called })
        | inr some_callback ↦
            rw (zero_left, some_callback, p)
              (record {
                left = rw far c.left;
                called =
                    calls-append x t.events (fired y (t.callback y) (t.payload y) ∷ [])
                    ∙ rw far (omega (arith, c.called));
              })
      ]
      | inr more ↦ rw more (record { left = rw far c.left; called = c.called })
    ]

own-Count :
    (x n times : ℕ) (t : Timers)
    → IsPeriodic t x
    → (t.callback x == 0) ≡ false
    → n + 1 < 2 ^ 32
    → Count x t (n + 1) times
    → Count x
        (update_timer x t)
        (if n == 0 then t.deadline x else n)
        (times + (if n == 0 then 1 else 0))
unfolding update_timer restart call_back calls
own-Count x n times t p some_callback small c =
    let same : (x == x) ≡ true = eq→== x x refl in
    let less : u32 (t.counter x + 2 ^ 32 - 1) ≡ n = omega (arith, c.left, small) in
    elim (Bool-cases (n == 0)) [
      | inl zero_left ↦
          rw (less, zero_left, some_callback, p)
            (record {
              left = rw same refl;
              called =
                  calls-append x t.events (fired x (t.callback x) (t.payload x) ∷ [])
                  ∙ rw same (omega (arith, c.called));
            })
      | inr more ↦
          rw (less, more) (record { left = rw same refl; called = omega (arith, c.called) })
    ]

Fresh-Count :
    (x counter times : ℕ) (xs : List ℕ) (t : Timers)
    → Fresh x xs
    → Periodic t xs
    → Count x t counter times
    → Count x (visit xs t) counter times
unfolding Fresh Periodic visit
Fresh-Count x counter times [] t f p c = c
Fresh-Count x counter times (y ∷ ys) t (ne, f) (q, p) c =
    Fresh-Count x counter times ys (update_timer y t) f
      (Periodic-same t (update_timer y t) ys (update_timer-Kept y t q).flags p)
      (other-Count x y counter times t ne q c)

visit-Count :
    (x n times : ℕ) (xs : List ℕ) (t : Timers)
    → Once x xs
    → Periodic t xs
    → (t.callback x == 0) ≡ false
    → n + 1 < 2 ^ 32
    → Count x t (n + 1) times
    → Count x (visit xs t) (if n == 0 then t.deadline x else n) (times + (if n == 0 then 1 else 0))
unfolding Periodic visit
visit-Count x n times _ t (once_here xs f) (q, p) cb small c =
    Fresh-Count x _ _ xs (update_timer x t) f
      (Periodic-same t (update_timer x t) xs (update_timer-Kept x t q).flags p)
      (own-Count x n times t q cb small c)
visit-Count x n times _ t (once_later y xs ne o) (q, p) cb small c =
    let k = update_timer-Kept y t q in
    rw⁻¹ (ap (λ (d : ℕ → ℕ). d x) k.deadline) (
      visit-Count x n times xs (update_timer y t) o
        (Periodic-same t (update_timer y t) xs k.flags p) (rw k.callback cb) small
        (other-Count x y (n + 1) times t ne q c))

-- One update after another.
unfoldable pub updates : ℕ → ℕ → TimerContext → Timers → Option Timers
updates fuel zero ctx t = some t
updates fuel (suc n) ctx t = elim (updates fuel n ctx t) [
  | some t' ↦ timer_update fuel ctx t'
  | none ↦ none
]

-- After `n` updates: the list is as it was, and the timer has been called once for each `deadline`
-- updates.
pub record After (x fuel : ℕ) (ctx : TimerContext) (t : Timers) (n : ℕ) : Type 0 where
  pub now : Timers
  pub ended : updates fuel n ctx t ≡ some now
  pub kept : Kept t now
  pub left : ℕ
  pub times : ℕ
  pub count : Count x now (left + 1) times
  pub below : left < t.deadline x
  pub total : n + left + 1 ≡ times * t.deadline x + t.deadline x

module _ (x fuel : ℕ) (ctx : TimerContext) (t : Timers) (xs : List ℕ) (enough : length xs < fuel)
    (periodic : Periodic t xs) (walk : Walk t.links ctx.active_timers ctx.active_timers xs)
    (once : Once x xs) (some_callback : (t.callback x == 0) ≡ false)
    (word : t.deadline x < 2 ^ 32) where
  Periodic-now : (now : Timers) → Kept t now → Periodic now xs
  Periodic-now now k = Periodic-same t now xs k.flags periodic

  Kept-now : (now : Timers) → Kept t now → Kept t (visit xs now)
  Kept-now now k = Kept-trans k (visit-Kept xs now (Periodic-now now k))

  ended_now :
      (n : ℕ) (now : Timers)
      → updates fuel n ctx t ≡ some now
      → Kept t now
      → updates fuel (suc n) ctx t ≡ some (visit xs now)
  unfolding updates
  ended_now n now e k =
      rw (e, updates)
        (timer_update-visit fuel ctx now xs enough (Periodic-now now k) (rw k.links walk))

  Count-now :
      (left times : ℕ) (now : Timers)
      → Kept t now
      → left < t.deadline x
      → Count x now (left + 1) times
      → Count x
          (visit xs now)
          (if left == 0 then t.deadline x else left)
          (times + (if left == 0 then 1 else 0))
  Count-now left times now k below c = rw⁻¹ (ap (λ (d : ℕ → ℕ). d x) k.deadline) (
      visit-Count x left times xs now once (Periodic-now now k) (rw k.callback some_callback)
        (omega (arith, below, word)) c)

  next_update : (n : ℕ) → After x fuel ctx t n → After x fuel ctx t (suc n)
  next_update n a =
      let counted = Count-now a.left a.times a.now a.kept a.below a.count in
      elim (ℕ_discrete a.left 0) [
        | yes e ↦
            (let d : t.deadline x ≡ t.deadline x - 1 + 1 = omega (arith, a.below) in
              record {
                now = visit xs a.now;
                ended = ended_now n a.now a.ended a.kept;
                kept = Kept-now a.now a.kept;
                left = t.deadline x - 1;
                times = a.times + 1;
                count = rw d at (rw (eq→== a.left 0 e) at counted);
                below = omega (arith, a.below);
                total = omega (arith, a.total, e, a.below);
              })
        | no ne ↦
            (let d : a.left ≡ a.left - 1 + 1 = omega (arith, ne) in
              record {
                now = visit xs a.now;
                ended = ended_now n a.now a.ended a.kept;
                kept = Kept-now a.now a.kept;
                left = a.left - 1;
                times = a.times;
                count = record {
                  left = (rw (ne→== a.left 0 ne) at counted).left ∙ d;
                  called = (rw (ne→== a.left 0 ne) at counted).called ∙ omega arith;
                };
                below = omega (arith, a.below);
                total = omega (arith, a.total, ne);
              })
      ]

  all_updates : (n : ℕ) → After x fuel ctx t 0 → After x fuel ctx t n
  all_updates zero a = a
  all_updates (suc n) a = next_update n (all_updates n a)

After-result :
    (x fuel n ticks : ℕ) (ctx : TimerContext) (t : Timers) (xs : List ℕ)
    → Walk t.links ctx.active_timers ctx.active_timers xs
    → t.deadline x ≡ ticks
    → After x fuel ctx t n
    → (now : Timers) × (updates fuel n ctx t ≡ some now)
      × (calls x now.events * ticks ≤ n)
      × (n < calls x now.events * ticks + ticks)
      × Walk now.links ctx.active_timers ctx.active_timers xs
After-result x fuel n ticks ctx t xs walk deadline a =
    let product : calls x a.now.events * ticks ≡ a.times * t.deadline x =
      ap (λ k. k * ticks) a.count.called ∙ ap (λ d. a.times * d) (sym deadline) in
    (
      a.now,
      a.ended,
      omega (arith, product, a.total, a.below, deadline),
      omega (arith, product, a.total, a.below, deadline),
      rw a.kept.links walk,
    )

Periodic-other :
    (x flags : ℕ) (t t' : Timers) (xs : List ℕ)
    → t'.flags ≡ update t.flags x flags
    → Fresh x xs
    → Periodic t xs
    → Periodic t' xs
unfolding Periodic Fresh
Periodic-other x flags t t' [] e f p = p
Periodic-other x flags t t' (y ∷ ys) e (ne, f) (q, p) =
    (rw (e, ne→== x y (λ s. ne (sym s))) q, Periodic-other x flags t t' ys e f p)

-- A timer that timer_run starts as a periodic one with a callback, on a list of periodic timers where
-- it was not, and that was not called so far: after any number of updates, each of which comes to its
-- end, the callback has been called once for each `ticks` updates, and the timers are still linked.
pub timer_run-calls :
    (x ticks callback payload fuel n : ℕ) (ctx : TimerContext) (t : Timers) (xs : List ℕ)
    → x ≢ 0
    → x ≢ ctx.active_timers
    → callback ≢ 0
    → 0 < ticks
    → ticks < 2 ^ 32
    → suc (length xs) < fuel
    → Fresh x xs
    → Periodic t xs
    → Walk t.links ctx.active_timers ctx.active_timers xs
    → calls x t.events ≡ 0
    → (now : Timers) × (updates fuel n ctx (timer_run x ticks callback payload 1 ctx t).1
        ≡ some now)
      × (calls x now.events * ticks ≤ n)
      × (n < calls x now.events * ticks + ticks)
      × Walk now.links ctx.active_timers ctx.active_timers (x ∷ xs)
unfolding timer_run updates Periodic
timer_run-calls x ticks callback payload fuel n ctx t xs nx nh cb pos word enough f p w none_yet =
    let t' = (timer_run x ticks callback payload 1 ctx t).1 in
    let here : (x == 0) ≡ false = ne→== x 0 nx in
    let same : (x == x) ≡ true = eq→== x x refl in
    let walk : Walk t'.links ctx.active_timers ctx.active_timers (x ∷ xs) =
      rw here (append-Walk ctx.active_timers x t.links xs nh f w) in
    let deadline : t'.deadline x ≡ ticks = rw (here, same) refl in
    let start : After x fuel ctx t' 0 = record {
      now = t';
      ended = refl;
      kept = record { links = refl; flags = refl; deadline = refl; callback = refl };
      left = ticks - 1;
      times = 0;
      count = record { left = rw (here, same) (omega (arith, pos)); called = rw here none_yet };
      below = omega (arith, deadline, pos);
      total = omega (arith, deadline, pos);
    } in
    let a =
      all_updates x fuel ctx t' (x ∷ xs) enough
        (rw (here, same) refl, Periodic-other x 1 t t' xs (rw here refl) f p) walk (once_here xs f)
        (rw (here, same) (ne→== callback 0 cb)) (omega (arith, deadline, word)) n start in
    After-result x fuel n ticks ctx t' (x ∷ xs) walk deadline a
