-- ===== src/Kalloc/Free.antt =====
-- kernel/mm/kalloc.c: lxfree on a heap of chunks.
use os_learn.Base.{
  ℕ, ◌⊎◌, ◌≢◌, ◌+◌, ◌-◌, ◌^◌, ◌≡◌, ◌≤◌, ◌<◌, refl, ap, ◌∙◌, Bool, true, false, not, List, [], ◌∷◌,
  arith, update, ◌==◌, inl, inr, ◌&&◌, Bool-cases, bit_or, ne→==,
}
use os_learn.Kalloc.{Words, coalesce, lxfree, chunk_s, fptr, drop_flag}
use os_learn.Kalloc.Header.{header, IsSize, chunk_s-header, drop_flag-used, bit_or-pf}
use os_learn.Kalloc.Layout.{
  Chunk, free_chunk, used_chunk, prev_free, Head, After, apart, Layout, Heap, After-below,
  Before-same, After-same, write_free,
}
use os_learn.Kalloc.Neighbours.{take_free, Ahead}
use os_learn.Kalloc.Coalesce.{Ready, Coalesced, coalesce-Coalesced}

-- The memory in which lxfree calls coalesce: the chunk is free, and the next header says so.
marked_free : ℕ → ℕ → Bool → Words → Words
marked_free p s pf m = update (write_free p s pf m) (p + s) (bit_or (m (p + s)) 2)

module _ (m : Words) (start brk p s : ℕ) (rev cs : List Chunk)
    (l : Layout m start brk rev p (used_chunk s ∷ cs)) where
  chunk : Head m (prev_free rev) p (used_chunk s)
  unfolding After
  chunk = l.after.0

  rest : After m brk false (p + s) cs
  unfolding After
  rest = l.after.1

  fits : p + s < 2 ^ 32
  fits = omega (arith, l.high, After-below m brk (p + s) false cs rest)

  small : IsSize s
  small = (chunk.whole, omega (arith, fits))

  lxfree-marked : lxfree (p + 4) m ≡ (coalesce p (marked_free p s (prev_free rev) m)).1
  unfolding lxfree marked_free write_free
  lxfree-marked =
      rw (here, size, dropped, last, ne→== (p + 4) 0 (omega arith), apart_last, apart_first)
    where
      apart_last : (p + s - 4 == p + s) ≡ false
      apart_last = ne→== _ _ (omega (arith, chunk.some_size))

      apart_first : (p == p + s) ≡ false
      apart_first = ne→== _ _ (omega (arith, chunk.some_size))

      here : p + 4 - 4 ≡ p
      here = omega arith

      size : chunk_s (m p) ≡ s
      size = ap chunk_s chunk.word ∙ chunk_s-header s true (prev_free rev) small

      dropped : drop_flag (m p) 1 ≡ header s false (prev_free rev)
      dropped = ap (λ h. drop_flag h 1) chunk.word ∙ drop_flag-used s true (prev_free rev) small

      last : fptr p s ≡ p + s - 4
      last = omega (arith, fits, chunk.some_size)

-- A header that is told of the free chunk before it.
Ahead-told :
    (m m' : Words) (brk p : ℕ) (pf : Bool) (cs : List Chunk)
    → brk < 2 ^ 32
    → m' p ≡ bit_or (m p) 2
    → ((a : ℕ) → p < a → a ≤ brk → m' a ≡ m a)
    → After m brk pf p cs
    → Ahead m' brk p cs
unfolding After Ahead
Ahead-told m m' brk p pf [] high told same (e, w) =
    (e, told ∙ ap (λ h. bit_or h 2) w ∙ bit_or-pf 0 true pf (omega arith, omega arith))
Ahead-told m m' brk p pf (c ∷ cs) high told same (h, a) =
    let below = After-below m brk (p + c.size) (not c.used) cs a in
    (
      told
          ∙ ap (λ h. bit_or h 2) h.word
          ∙ bit_or-pf c.size c.used pf (h.whole, omega (arith, below)),
      h.whole,
      h.some_size,
      After-same m m' brk (p + c.size) (not c.used) cs
          (λ x l u. same x (omega (arith, l, h.some_size)) u) a,
    )

-- A free chunk joins its neighbours that are free: what lxfree leaves in place of `rev`, the chunk of
-- `s` bytes at `p`, and `cs`.
abbrev pub joined_size : List Chunk → ℕ → List Chunk → ℕ
joined_size rev s cs = s + (take_free cs).0 + (take_free rev).0

module _ (m : Words) (start brk p s : ℕ) (rev cs : List Chunk)
    (l : Layout m start brk rev p (used_chunk s ∷ cs)) where
  marked_free-Ready : Ready (marked_free p s (prev_free rev) m) start brk rev p s cs
  unfolding marked_free write_free After
  marked_free-Ready =
      let chunk = l.after.0 in
      record {
        low = l.low;
        high = l.high;
        before = Before-same m _ start p rev (λ a x u. ground (arith, u, chunk.some_size)) l.before;
        chunk = record {
          word = ground (arith, chunk.some_size);
          whole = chunk.whole;
          some_size = chunk.some_size;
          footer = λ f. ground (arith, chunk.some_size);
        };
        ahead =
            Ahead-told m _ brk (p + s) false cs l.high (ground (arith, chunk.some_size))
              (λ a x u. ground (arith, x, chunk.some_size)) l.after.1;
      }

  lxfree-Layout :
      Layout
        (lxfree (p + 4) m)
        start
        brk
        (take_free rev).1
        (p - (take_free rev).0)
        (free_chunk (joined_size rev s cs) ∷ (take_free cs).1)
  unfolding Coalesced
  lxfree-Layout =
      rw (lxfree-marked m start brk p s rev cs l)
        ((coalesce-Coalesced _ start brk p s rev cs marked_free-Ready).1)

  not_marked :
      (a : ℕ)
      → (a < p - (take_free rev).0) ⊎ (p + s + (take_free cs).0 ≤ a)
      → a ≢ p + s
      → marked_free p s (prev_free rev) m a ≡ m a
  unfolding marked_free write_free After
  not_marked a (inl x) ne = ground (arith, x, l.after.0.some_size, ne)
  not_marked a (inr x) ne = ground (arith, x, l.after.0.some_size, ne)

  -- lxfree writes between the start of the free chunk it makes and the end of that chunk, and the header
  -- of what comes next; the words of all other chunks, their blocks with them, stay.
  pub lxfree-outside :
      (a : ℕ)
      → (a < p - (take_free rev).0) ⊎ (p + s + (take_free cs).0 ≤ a)
      → a ≢ p + s
      → lxfree (p + 4) m a ≡ m a
  unfolding Coalesced
  lxfree-outside a x ne =
      rw (lxfree-marked m start brk p s rev cs l)
        ((coalesce-Coalesced _ start brk p s rev cs marked_free-Ready).2 a x ∙ not_marked a x ne)

pub and-both : (a b : Bool) → (a && b) ≡ true → (a ≡ true) × (b ≡ true)
and-both true b h = (refl, h)
and-both false b h = cc

pub apart-rest :
    (b : Bool) (c : Chunk) (cs : List Chunk)
    → apart b (c ∷ cs) ≡ true
    → apart (not c.used) cs ≡ true
unfolding apart
apart-rest b c cs h = (and-both _ _ h).1

-- The free chunk that comes first is followed by used ones.
pub take_free-apart :
    (b : Bool) (cs : List Chunk) → apart b cs ≡ true → apart true (take_free cs).1 ≡ true
unfolding take_free apart
take_free-apart b [] h = refl
take_free-apart b (c ∷ cs) h = elim (Bool-cases c.used) [
  | inl u ↦ rw (u, take_free) (rw u at (apart-rest b c cs h))
  | inr f ↦ rw (f, take_free) (rw f at (apart-rest b c cs h))
]

pub apart-used :
    (cs : List Chunk) → apart true cs ≡ true → (apart false cs ≡ true) × (prev_free cs ≡ false)
unfolding apart prev_free
apart-used [] h = (refl, refl)
apart-used (c ∷ cs) h = let (u, a) = and-both _ _ h in (a, ap not u)

-- lxfree of a used chunk: on a heap of chunks from `start` to the break, it becomes free and one with
-- the free chunks on both sides; all other chunks stay, and no two free chunks are neighbours.
pub lxfree-Heap :
    (m : Words) (start brk p s : ℕ) (rev cs : List Chunk)
    → Heap m start brk rev p (used_chunk s ∷ cs)
    → Heap
        (lxfree (p + 4) m)
        start
        brk
        (take_free rev).1
        (p - (take_free rev).0)
        (free_chunk (joined_size rev s cs) ∷ (take_free cs).1)
unfolding apart
lxfree-Heap m start brk p s rev cs h =
    let (before, unfree) =
      apart-used (take_free rev).1 (take_free-apart false rev h.apart_before) in
    record {
      layout = lxfree-Layout m start brk p s rev cs h.layout;
      apart_before = before;
      apart_after =
          rw unfree
            (take_free-apart false cs (apart-rest (prev_free rev) (used_chunk s) cs h.apart_after));
    }
