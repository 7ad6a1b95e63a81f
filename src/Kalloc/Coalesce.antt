-- ===== src/Kalloc/Coalesce.antt =====
-- kernel/mm/kalloc.c: coalesce on a heap of chunks.
use os_learn.Base.{
  ℕ, ◌⊎◌, ◌+◌, ◌-◌, ◌^◌, ◌≡◌, ◌≤◌, ◌<◌, refl, Bool-cases, Bool, true, false, List, ◌∷◌, arith, inl,
  inr,
}
use native.Mathlib.Numerals.{unary_clauses}
use os_learn.Kalloc.{Words, coalesce}
use os_learn.Kalloc.Header.{IsSize}
use os_learn.Kalloc.Layout.{
  Chunk, free_chunk, prev_free, Head, Before, After, Layout, After-below, next_used, After-word,
  write_free, write_free-Layout, write_free-outside,
}
use os_learn.Kalloc.Joins.{coalesce-neither, coalesce-next, coalesce-prev, coalesce-both}
use os_learn.Kalloc.Neighbours.{
  take_free, take_free-used, take_free-prev, Ahead, Ahead-After, take_free-Ahead, Ahead-below,
  take_free-Before,
}

-- The heap as coalesce finds it: a free chunk of `s` bytes at `p`, `rev` before it, `cs` after it.
pub record Ready (m : Words) (start brk : ℕ) (rev : List Chunk) (p s : ℕ) (cs : List Chunk)
    : Type 0 where
  pub low : 4 ≤ start
  pub high : brk < 2 ^ 32
  pub before : Before m start p rev
  pub chunk : Head m (prev_free rev) p (free_chunk s)
  pub ahead : Ahead m brk (p + s) cs

-- What coalesce promises of the chunk of `s` bytes at `p`: it has become one with the free chunks next
-- to it, and the address returned is that of the whole.
unfoldable pub Coalesced : Words → ℕ → ℕ → List Chunk → ℕ → ℕ → List Chunk → Type 0
Coalesced m start brk rev p s cs =
    ((coalesce p m).0 ≡ p - (take_free rev).0)
    × Layout (coalesce p m).1 start brk (take_free rev).1 (p - (take_free rev).0)
        (free_chunk (s + (take_free cs).0 + (take_free rev).0) ∷ (take_free cs).1)
    × ((a : ℕ)
        → (a < p - (take_free rev).0) ⊎ (p + s + (take_free cs).0 ≤ a)
        → (coalesce p m).1 a ≡ m a)

module _ (m : Words) (start brk p s : ℕ) (rev cs : List Chunk)
    (l : Ready m start brk rev p s cs) where
  fits : p + s < 2 ^ 32
  fits = omega (arith, l.high, Ahead-below m brk (p + s) cs l.ahead)

  high : p < 2 ^ 32
  high = omega (arith, fits)

  small : IsSize s
  small = (l.chunk.whole, omega (arith, fits))

  outside :
      (t u a : ℕ) (pf : Bool)
      → t ≤ p
      → (a < p - t) ⊎ (p + s + u ≤ a)
      → write_free (p - t) (s + u + t) pf m a ≡ m a
  outside t u a pf le x =
      write_free-outside (p - t) (s + u + t) pf m a (omega (arith, l.chunk.some_size))
        (elim x [ inl b ↦ inl b | inr b ↦ inr (omega (arith, b, le)) ])

  written :
      (t u : ℕ) (rev' cs' : List Chunk)
      → IsSize t
      → IsSize u
      → t ≤ p
      → Before m start (p - t) rev'
      → After m brk true (p + s + u) cs'
      → Layout
          (write_free (p - t) (s + u + t) (prev_free rev') m)
          start
          brk
          rev'
          (p - t)
          (free_chunk (s + u + t) ∷ cs')
  written t u rev' cs' it iu le b a =
      let e : p + s + u ≡ p - t + (s + u + t) = omega (arith, le) in
      write_free-Layout m start brk (p - t) (s + u + t) rev' cs' l.low l.high
        (omega (arith, small, it, iu), omega (arith, l.chunk.some_size)) b (rw e at a)

  joined-neither : next_used cs ≡ true → prev_free rev ≡ false → Coalesced m start brk rev p s cs
  unfolding Coalesced After
  joined-neither a b =
      let rest = Ahead-After m brk (p + s) cs a l.ahead in
      let (u, next, there) = After-word m brk (p + s) true cs l.high rest in
      rw
        (
          take_free-used cs a,
          take_free-prev rev b,
          coalesce-neither m p s u (prev_free rev) (next_used cs) small next l.chunk.word there a b,
        )
        (
          omega arith,
          simp unary_clauses
              (record { low = l.low; high = l.high; before = l.before; after = (l.chunk, rest) }),
          λ a x. refl,
        )

  joined-next : next_used cs ≡ false → prev_free rev ≡ false → Coalesced m start brk rev p s cs
  unfolding Coalesced
  joined-next a b =
      let (next, there, more) = take_free-Ahead m brk (p + s) cs l.high a l.ahead in
      let below = After-below m brk (p + s + (take_free cs).0) true _ more in
      rw
        (
          take_free-prev rev b,
          coalesce-next m p s (take_free cs).0 (prev_free rev) false small next l.chunk.word there
              refl b (l.chunk.some_size, omega (arith, below, l.high)),
        )
        (
          omega arith,
          simp unary_clauses (
              rw b at simp unary_clauses at (
                written 0 (take_free cs).0 rev (take_free cs).1 (omega arith, omega arith) next
                  (omega arith) (simp unary_clauses l.before) more)),
          λ a x. simp unary_clauses at (outside 0 (take_free cs).0 a false (omega arith) x),
        )

  joined-prev : next_used cs ≡ true → prev_free rev ≡ true → Coalesced m start brk rev p s cs
  unfolding Coalesced
  joined-prev a b =
      let rest = Ahead-After m brk (p + s) cs a l.ahead in
      let (u, next, there) = After-word m brk (p + s) true cs l.high rest in
      let (it, le, prev, more) = take_free-Before m start p rev b l.low high l.before in
      rw
        (
          take_free-used cs a,
          coalesce-prev m p s u (prev_free rev) (next_used cs) small next l.chunk.word there _ _ it
              prev a b (l.chunk.some_size, le, fits),
        )
        (
          refl,
          simp unary_clauses (
              simp unary_clauses at (
                written (take_free rev).0 0 (take_free rev).1 cs it (omega arith, omega arith) le
                  more (simp unary_clauses rest))),
          λ a x.
              simp unary_clauses at
                (outside (take_free rev).0 0 a (prev_free (take_free rev).1) le x),
        )

  joined-both : next_used cs ≡ false → prev_free rev ≡ true → Coalesced m start brk rev p s cs
  unfolding Coalesced
  joined-both a b =
      let (next, there, ahead) = take_free-Ahead m brk (p + s) cs l.high a l.ahead in
      let (it, le, prev, more) = take_free-Before m start p rev b l.low high l.before in
      let below = After-below m brk (p + s + (take_free cs).0) true _ ahead in
      rw
        (coalesce-both m p s (take_free cs).0 (prev_free rev) false small next l.chunk.word there _
          _ it prev refl b (l.chunk.some_size, le, omega (arith, below, l.high)))
        (refl, written _ _ _ _ it next le more ahead, λ a x. outside _ _ a _ le x)

-- On a heap that has a free chunk at `p`, coalesce makes it one with the free chunk before it and the
-- free chunk after it, where there are such chunks, and keeps all others; what it returns is the
-- address of the chunk so made.
pub coalesce-Coalesced :
    (m : Words) (start brk p s : ℕ) (rev cs : List Chunk)
    → Ready m start brk rev p s cs
    → Coalesced m start brk rev p s cs
coalesce-Coalesced m start brk p s rev cs l = elim (Bool-cases (next_used cs)) [
  | inl a ↦ elim (Bool-cases (prev_free rev)) [
    | inl b ↦ joined-prev m start brk p s rev cs l a b
    | inr b ↦ joined-neither m start brk p s rev cs l a b
  ]
  | inr a ↦ elim (Bool-cases (prev_free rev)) [
    | inl b ↦ joined-both m start brk p s rev cs l a b
    | inr b ↦ joined-next m start brk p s rev cs l a b
  ]
]
