-- ===== src/Kalloc/Place.antt =====
-- kernel/mm/kalloc.c: place_chunk on a heap of chunks.
use os_learn.Base.{
  ℕ, ◌⊎◌, ◌+◌, ◌-◌, ◌%◌, ◌^◌, ◌≡◌, ◌≤◌, ◌<◌, refl, sym, ap, ◌∙◌, Bool, true, false, List, [], ◌∷◌,
  arith, update, ◌==◌, u32, inl, inr, if◌then◌else◌, Bool-cases, bit_or, ne→==, eq→==,
}
use os_learn.Kalloc.{Words, coalesce, place_chunk, chunk_s, chunk_pf, pack, fptr, drop_flag}
use os_learn.Kalloc.Header.{
  header, IsSize, pf_flag, chunk_s-header, chunk_pf-header, pack-free, pack-used, drop_flag-pf,
}
use os_learn.Kalloc.Layout.{
  Chunk, free_chunk, used_chunk, prev_free, Head, Before, After, apart, Layout, Heap, After-below,
  Before-same, After-same, next_used, After-reflag, write_free, write_free-outside, write_free-head,
  write_free-foot,
}
use native.Mathlib.Decide.{ℕ_discrete}
use native.Mathlib.Numerals.{unary_clauses}
use os_learn.Kalloc.Neighbours.{take_free, After-Ahead, take_free-used}
use os_learn.Kalloc.Coalesce.{Ready, Coalesced, coalesce-Coalesced}
use os_learn.Kalloc.Free.{and-both, apart-rest, apart-used}

-- What is left of a free chunk, in front of the chunks `cs`.
unfoldable pub left_over : ℕ → List Chunk → List Chunk
left_over n cs = if n == 0 then cs else free_chunk n ∷ cs

-- From the chunk after `c` back to `c`.
pub Layout-back :
    (m : Words) (start brk p : ℕ) (c : Chunk) (rev cs : List Chunk)
    → Layout m start brk (c ∷ rev) (p + c.size) cs
    → Layout m start brk rev p (c ∷ cs)
unfolding Before After prev_free
Layout-back m start brk p c rev cs l =
    let (q, e, h, b) = l.before in
    let here : q ≡ p = omega (arith, e) in
    record { low = l.low; high = l.high; before = rw here at b; after = (rw here at h, l.after) }

apart-next_used : (cs : List Chunk) → apart true cs ≡ true → next_used cs ≡ true
unfolding apart next_used
apart-next_used [] h = refl
apart-next_used (c ∷ cs) h = (and-both _ _ h).0

module _ (m : Words) (start brk p s size : ℕ) (rev cs : List Chunk)
    (l : Layout m start brk rev p (free_chunk s ∷ cs)) (whole : size % 4 ≡ 0)
    (some_size : 4 ≤ size) where
  chunk : Head m (prev_free rev) p (free_chunk s)
  unfolding After
  chunk = l.after.0

  rest : After m brk true (p + s) cs
  unfolding After
  rest = l.after.1

  fits : p + s < 2 ^ 32
  fits = omega (arith, l.high, After-below m brk (p + s) true cs rest)

  small : IsSize s
  small = (chunk.whole, omega (arith, fits))

  -- The header of the chunk that is placed.
  placed : Words
  placed = update m p (header size true (prev_free rev))

  filled : Words
  filled = update placed (p + s) (drop_flag (m (p + s)) 2)

  place_chunk-filled : size ≡ s → place_chunk p size m ≡ filled
  unfolding place_chunk filled placed
  place_chunk-filled e =
      rw (size_here, flag_here, e, diff, word, ne→== p (p + s) (omega (arith, chunk.some_size)))
    where
      size_here : chunk_s (m p) ≡ s
      size_here = ap chunk_s chunk.word ∙ chunk_s-header s false (prev_free rev) small

      flag_here : chunk_pf (m p) ≡ pf_flag (prev_free rev)
      flag_here = ap chunk_pf chunk.word ∙ chunk_pf-header s false (prev_free rev) small

      diff : (u32 (s + 2 ^ 32 - s) == 0) ≡ true
      diff = eq→== _ _ (omega arith)

      word : pack s (bit_or (pf_flag (prev_free rev)) 1) ≡ header s true (prev_free rev)
      word = pack-used s (prev_free rev) small

  place_chunk-split :
      size < s
      → place_chunk p size m
        ≡ (coalesce (p + size) (write_free (p + size) (s - size) false placed)).1
  unfolding place_chunk placed write_free
  place_chunk-split lt = rw (size_here, flag_here, diff, word, left, last, differ)
    where
      size_here : chunk_s (m p) ≡ s
      size_here = ap chunk_s chunk.word ∙ chunk_s-header s false (prev_free rev) small

      flag_here : chunk_pf (m p) ≡ pf_flag (prev_free rev)
      flag_here = ap chunk_pf chunk.word ∙ chunk_pf-header s false (prev_free rev) small

      diff : u32 (s + 2 ^ 32 - size) ≡ s - size
      diff = omega (arith, fits)

      word : pack size (bit_or (pf_flag (prev_free rev)) 1) ≡ header size true (prev_free rev)
      word = pack-used size (prev_free rev) (whole, omega (arith, fits))

      left : pack (s - size) 0 ≡ header (s - size) false false
      left = pack-free (s - size) false (omega (arith, whole, chunk.whole), omega (arith, fits))

      last : fptr (p + size) (s - size) ≡ p + size + (s - size) - 4
      last = omega (arith, fits)

      differ : (s - size == 0) ≡ false
      differ = ne→== _ _ (omega (arith, lt))

  filled_next : filled (p + s) ≡ drop_flag (m (p + s)) 2
  unfolding filled
  filled_next = ground arith

  filled_far : (a : ℕ) → (a < p) ⊎ (p + s < a) → filled a ≡ m a
  unfolding filled placed
  filled_far a (inl x) = ground (arith, x)
  filled_far a (inr x) = ground (arith, x)

  filled-Layout :
      size ≡ s → next_used cs ≡ true → Layout filled start brk rev p (used_chunk size ∷ cs)
  unfolding filled placed After
  filled-Layout e used = record {
    low = l.low;
    high = l.high;
    before = Before-same m _ start p rev (λ a x u. ground (arith, u, some_size)) l.before;
    after = (
      record {
        word = ground (arith, e, some_size);
        whole = whole;
        some_size = some_size;
        footer = λ f. cc;
      },
      rw (end e) (
          After-reflag m _ brk (p + s) true false cs l.high used
            (λ n i w. filled_next ∙ ap (λ h. drop_flag h 2) w ∙ drop_flag-pf n true true i)
            (λ a x u. ground (arith, x, some_size)) rest),
    );
  }
    where
      end : size ≡ s → p + size ≡ p + s
      end e = omega (arith, e)

  room : size < s → 4 ≤ s - size
  room lt = omega (arith, whole, chunk.whole)

  left_free : Words
  left_free = write_free (p + size) (s - size) false placed

  left_free-below : (a : ℕ) → size < s → a < p + size → left_free a ≡ placed a
  unfolding left_free
  left_free-below a lt u = write_free-outside (p + size) (s - size) false placed a (room lt) (inl u)

  left_free-above : (a : ℕ) → size < s → p + s ≤ a → left_free a ≡ m a
  unfolding left_free placed
  left_free-above a lt u =
      write_free-outside (p + size) (s - size) false placed a (room lt) (inr (omega (arith, lt)))
      ∙ ground (arith, some_size)

  split-Ready :
      size < s → Ready left_free start brk (used_chunk size ∷ rev) (p + size) (s - size) cs
  unfolding placed left_free After Before prev_free
  split-Ready lt = record {
    low = l.low;
    high = l.high;
    before = (
      p,
      refl,
      record {
        word = left_free-below p lt (omega (arith, some_size)) ∙ ground arith;
        whole = whole;
        some_size = some_size;
        footer = λ f. cc;
      },
      Before-same m _ start p rev (λ a x u. left_free-below a lt (omega arith) ∙ ground (arith, u))
          l.before,
    );
    chunk = record {
      word = write_free-head (p + size) (s - size) false placed;
      whole = omega (arith, whole, chunk.whole);
      some_size = room lt;
      footer = λ f.
          write_free-foot (p + size) (s - size) false placed
          ∙ sym (write_free-head (p + size) (s - size) false placed);
    };
    ahead = rw (end_of lt) (
        After-Ahead _ brk (p + s) cs
          (After-same m _ brk (p + s) true cs (λ a x u. left_free-above a lt x) rest));
  }
    where
      end_of : size < s → p + size + (s - size) ≡ p + s
      end_of lt = omega (arith, lt)

  far : (a : ℕ) → (a < p) ⊎ (p + s < a) → (a < p + size - 0) ⊎ (p + s ≤ a)
  far a (inl x) = inl (omega (arith, x))
  far a (inr x) = inr (omega (arith, x))

  left_free-far : (a : ℕ) → size < s → (a < p) ⊎ (p + s < a) → left_free a ≡ m a
  unfolding placed
  left_free-far a lt (inl x) = left_free-below a lt (omega (arith, x)) ∙ ground (arith, x)
  left_free-far a lt (inr x) = left_free-above a lt (omega (arith, x))

  -- The Layout that place_chunk makes.
  place_chunk-Layout :
      size ≤ s
      → next_used cs ≡ true
      → Layout (place_chunk p size m) start brk rev p (used_chunk size ∷ left_over (s - size) cs)
  unfolding left_over Coalesced left_free take_free
  place_chunk-Layout le used = elim (ℕ_discrete size s) [
    | yes e ↦
        rw (place_chunk-filled e, eq→== (s - size) 0 (omega (arith, e)), left_over)
          (filled-Layout e used)
    | no ne ↦
        (let lt : size < s = omega (arith, ne) in
          rw (place_chunk-split lt, ne→== (s - size) 0 (omega (arith, lt)), left_over)
            (Layout-back _ start brk p (used_chunk size) rev (free_chunk (s - size) ∷ cs) (
              simp unary_clauses at (
                rw (take_free-used cs used) at
                  (coalesce-Coalesced left_free start brk (p + size) (s - size)
                    (used_chunk size ∷ rev) cs (split-Ready lt)).1))))
  ]

  -- place_chunk writes between the chunk's header and the next one.
  place_chunk-outside :
      size ≤ s
      → next_used cs ≡ true
      → (a : ℕ) → (a < p) ⊎ (p + s < a)
      → place_chunk p size m a ≡ m a
  unfolding Coalesced left_free take_free
  place_chunk-outside le used a x = elim (ℕ_discrete size s) [
    | yes e ↦ rw (place_chunk-filled e) (filled_far a x)
    | no ne ↦
        (let lt : size < s = omega (arith, ne) in
          let reach : p + size + (s - size) + (take_free cs).0 ≡ p + s =
            omega (arith, lt, ap (λ t. t.0) (take_free-used cs used)) in
          rw (place_chunk-split lt) (
            (coalesce-Coalesced left_free start brk (p + size) (s - size) (used_chunk size ∷ rev) cs
                (split-Ready lt)).2
              a (rw reach (far a x))
            ∙ left_free-far a lt x))
  ]

left_over-apart :
    (n : ℕ) (cs : List Chunk) → apart true cs ≡ true → apart false (left_over n cs) ≡ true
unfolding left_over apart
left_over-apart n cs h = elim (Bool-cases (n == 0)) [
  | inl z ↦ rw (z, left_over) ((apart-used cs h).0)
  | inr z ↦ rw (z, left_over) h
]

used-apart :
    (b : Bool) (n : ℕ) (cs : List Chunk)
    → apart false cs ≡ true
    → apart b (used_chunk n ∷ cs) ≡ true
unfolding apart
used-apart true n cs h = h
used-apart false n cs h = h

-- place_chunk of `size` bytes in a free chunk of at least as many: on a heap of chunks the free chunk
-- becomes a used one of `size` bytes and, where bytes are left, a free chunk of those; all other chunks
-- stay, and no two free chunks are neighbours.
pub place_chunk-Heap :
    (m : Words) (start brk p s size : ℕ) (rev cs : List Chunk)
    → size % 4 ≡ 0
    → 4 ≤ size
    → size ≤ s
    → Heap m start brk rev p (free_chunk s ∷ cs)
    → Heap (place_chunk p size m) start brk rev p (used_chunk size ∷ left_over (s - size) cs)
unfolding apart
place_chunk-Heap m start brk p s size rev cs whole some_size le h =
    let after = apart-rest (prev_free rev) (free_chunk s) cs h.apart_after in
    record {
      layout =
          place_chunk-Layout m start brk p s size rev cs h.layout whole some_size le
            (apart-next_used cs after);
      apart_before = h.apart_before;
      apart_after =
          used-apart (prev_free rev) size (left_over (s - size) cs)
            (left_over-apart (s - size) cs after);
    }
