-- ===== src/Kalloc/Neighbours.antt =====
-- kernel/mm/kalloc.c: the free chunks next to a chunk.
use os_learn.Base.{
  ℕ, ◌+◌, ◌-◌, ◌%◌, ◌^◌, ◌≡◌, ◌≤◌, ◌<◌, refl, sym, ap, if◌then◌else◌, Bool-cases, ◌∙◌, Bool, true,
  false, not, List, [], ◌∷◌, arith, inl, inr,
}
use os_learn.Kalloc.{Words}
use os_learn.Kalloc.Header.{header, IsSize}
use os_learn.Kalloc.Layout.{Chunk, prev_free, Before, After, After-below, next_used}

-- The size of the free chunk that comes first, 0 where there is none, and the chunks without it.
unfoldable pub take_free : List Chunk → ℕ × List Chunk
take_free [] = (0, [])
take_free (c ∷ cs) = if c.used then (0, c ∷ cs) else (c.size, cs)

pub take_free-used : (cs : List Chunk) → next_used cs ≡ true → take_free cs ≡ (0, cs)
unfolding take_free next_used
take_free-used [] used = refl
take_free-used (c ∷ cs) used = rw (used, take_free)

pub not-true : (b : Bool) → not b ≡ true → b ≡ false
not-true true h = sym h
not-true false h = refl

pub prev_free-next_used : (cs : List Chunk) → prev_free cs ≡ not (next_used cs)
unfolding prev_free next_used
prev_free-next_used [] = refl
prev_free-next_used (c ∷ cs) = refl

pub take_free-prev : (rev : List Chunk) → prev_free rev ≡ false → take_free rev ≡ (0, rev)
unfolding take_free prev_free
take_free-prev [] used = refl
take_free-prev (c ∷ rev) used = elim (Bool-cases c.used) [ inl u ↦ rw (u, take_free) | inr f ↦ cc ]

-- The chunks from `p` on, after a free chunk: as `After`, but the footer of the first one may not
-- have the flag of its header.
unfoldable pub Ahead : Words → ℕ → ℕ → List Chunk → Type 0
Ahead m brk p [] = After m brk true p []
Ahead m brk p (c ∷ cs) =
    (m p ≡ header c.size c.used true)
    × (c.size % 4 ≡ 0)
    × (4 ≤ c.size)
    × After m brk (not c.used) (p + c.size) cs

pub After-Ahead :
    (m : Words) (brk p : ℕ) (cs : List Chunk) → After m brk true p cs → Ahead m brk p cs
unfolding After Ahead
After-Ahead m brk p [] a = a
After-Ahead m brk p (c ∷ cs) (h, a) = (h.word, h.whole, h.some_size, a)

pub Ahead-After :
    (m : Words) (brk p : ℕ) (cs : List Chunk)
    → next_used cs ≡ true
    → Ahead m brk p cs
    → After m brk true p cs
unfolding After Ahead next_used
Ahead-After m brk p [] used a = a
Ahead-After m brk p (c ∷ cs) used (word, whole, some_size, a) =
    (record { word = word; whole = whole; some_size = some_size; footer = λ f. cc }, a)

pub take_free-Ahead :
    (m : Words) (brk p : ℕ) (cs : List Chunk)
    → brk < 2 ^ 32
    → next_used cs ≡ false
    → Ahead m brk p cs
    → IsSize (take_free cs).0
      × (m p ≡ header (take_free cs).0 false true)
      × After m brk true (p + (take_free cs).0) (take_free cs).1
unfolding take_free next_used Ahead
take_free-Ahead m brk p [] high used a = cc
take_free-Ahead m brk p (c ∷ cs) high used (word, whole, some_size, a) =
    let below = After-below m brk (p + c.size) (not c.used) cs a in
    rw (used, take_free)
      ((whole, omega (arith, below)), word ∙ ap (λ b. header c.size b true) used, rw used at a)

pub Ahead-below : (m : Words) (brk p : ℕ) (cs : List Chunk) → Ahead m brk p cs → p ≤ brk
unfolding Ahead After
Ahead-below m brk p [] (e, w) = omega (arith, e)
Ahead-below m brk p (c ∷ cs) (word, whole, some_size, a) =
    omega (arith, After-below m brk (p + c.size) (not c.used) cs a)

pub take_free-Before :
    (m : Words) (start p : ℕ) (rev : List Chunk)
    → prev_free rev ≡ true
    → 4 ≤ start
    → p < 2 ^ 32
    → Before m start p rev
    → IsSize (take_free rev).0
      × ((take_free rev).0 ≤ p)
      × (m (p - 4) ≡ header (take_free rev).0 false (prev_free (take_free rev).1))
      × Before m start (p - (take_free rev).0) (take_free rev).1
unfolding take_free prev_free Before
take_free-Before m start p [] free low small b = cc
take_free-Before m start p (c ∷ rev) free low small (q, e, h, b) =
    let unused : c.used ≡ false = not-true c.used free in
    let at_end : p - 4 ≡ q + c.size - 4 = omega (arith, e) in
    let at_start : q ≡ p - c.size = omega (arith, e) in
    rw (unused, take_free)
      (
        (h.whole, omega (arith, e)),
        omega (arith, e),
        ap m at_end ∙ h.footer unused ∙ h.word ∙ ap (λ b. header c.size b (prev_free rev)) unused,
        rw at_start at b,
      )
