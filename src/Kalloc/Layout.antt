-- ===== src/Kalloc/Layout.antt =====
-- kernel/mm/kalloc.c: the heap as a list of chunks, seen from one address: the chunks before it, the
-- nearest first, and the chunks from it to the epilogue at the break.
use os_learn.Base.{
  ℕ, ◌⊎◌, inl, inr, ◌+◌, ◌-◌, ◌%◌, ◌^◌, ◌≡◌, ◌≤◌, ◌<◌, sym, ap, ◌∙◌, Bool, true, false, not, ◌&&◌,
  ◌||◌, List, [], ◌∷◌, arith, update,
}
use os_learn.Kalloc.{Words}
use os_learn.Kalloc.Header.{header, IsSize}

pub record Chunk : Type 0 where
  pub size : ℕ
  pub used : Bool

abbrev pub free_chunk : ℕ → Chunk
free_chunk size = record { size = size; used = false }

abbrev pub used_chunk : ℕ → Chunk
used_chunk size = record { size = size; used = true }

-- Whether the nearest chunk before is free.
unfoldable pub prev_free : List Chunk → Bool
prev_free [] = false
prev_free (c ∷ rev) = not c.used

-- The chunk `c` stands at `p`: its header has its size and its flags, and a free chunk has its header
-- again in its last word.
pub record Head (m : Words) (pf : Bool) (p : ℕ) (c : Chunk) : Type 0 where
  pub word : m p ≡ header c.size c.used pf
  pub whole : c.size % 4 ≡ 0
  pub some_size : 4 ≤ c.size
  pub footer : c.used ≡ false → m (p + c.size - 4) ≡ m p

-- The chunks before `p`, the nearest first, down to the heap's start.
unfoldable pub Before : Words → ℕ → ℕ → List Chunk → Type 0
Before m start p [] = p ≡ start
Before m start p (c ∷ rev) =
    (q : ℕ) × (p ≡ q + c.size) × Head m (prev_free rev) q c × Before m start q rev

-- The chunks from `p` on, and the epilogue after them, whose size is 0.
unfoldable pub After : Words → ℕ → Bool → ℕ → List Chunk → Type 0
After m brk pf p [] = (p ≡ brk) × (m p ≡ header 0 true pf)
After m brk pf p (c ∷ cs) = Head m pf p c × After m brk (not c.used) (p + c.size) cs

-- No two free chunks are neighbours, also not the first one and a chunk that stands before it.
unfoldable pub apart : Bool → List Chunk → Bool
apart before_free [] = true
apart before_free (c ∷ cs) = (not before_free || c.used) && apart (not c.used) cs

-- The memory between `start` and the epilogue at `brk` has the chunks `rev` before `p` and the chunks
-- `cs` from `p` on.
pub record Layout (m : Words) (start brk : ℕ) (rev : List Chunk) (p : ℕ) (cs : List Chunk)
    : Type 0 where
  pub low : 4 ≤ start
  pub high : brk < 2 ^ 32
  pub before : Before m start p rev
  pub after : After m brk (prev_free rev) p cs

-- The allocator's heap: also no two free chunks are neighbours.
pub record Heap (m : Words) (start brk : ℕ) (rev : List Chunk) (p : ℕ) (cs : List Chunk)
    : Type 0 where
  pub layout : Layout m start brk rev p cs
  pub apart_before : apart false rev ≡ true
  pub apart_after : apart (prev_free rev) cs ≡ true

pub Before-above : (m : Words) (start p : ℕ) (rev : List Chunk) → Before m start p rev → start ≤ p
unfolding Before
Before-above m start p [] b = omega (arith, b)
Before-above m start p (c ∷ rev) (q, e, h, b) = omega (arith, e, Before-above m start q rev b)

pub After-below :
    (m : Words) (brk p : ℕ) (pf : Bool) (cs : List Chunk) → After m brk pf p cs → p ≤ brk
unfolding After
After-below m brk p pf [] (e, w) = omega (arith, e)
After-below m brk p pf (c ∷ cs) (h, a) =
    omega (arith, After-below m brk (p + c.size) (not c.used) cs a)

-- A chunk depends on its own words only.
Head-same :
    (m m' : Words) (pf : Bool) (p : ℕ) (c : Chunk)
    → ((a : ℕ) → p ≤ a → a < p + c.size → m' a ≡ m a)
    → Head m pf p c
    → Head m' pf p c
Head-same m m' pf p c same h = record {
  word = same p (omega arith) (omega (arith, h.some_size)) ∙ h.word;
  whole = h.whole;
  some_size = h.some_size;
  footer = λ f.
      same (p + c.size - 4) (omega (arith, h.some_size)) (omega (arith, h.some_size))
      ∙ h.footer f
      ∙ sym (same p (omega arith) (omega (arith, h.some_size)));
}

-- The chunks before `p` depend on the words below `p` only.
pub Before-same :
    (m m' : Words) (start p : ℕ) (rev : List Chunk)
    → ((a : ℕ) → start ≤ a → a < p → m' a ≡ m a)
    → Before m start p rev
    → Before m' start p rev
unfolding Before
Before-same m m' start p [] same b = b
Before-same m m' start p (c ∷ rev) same (q, e, h, b) =
    let s = Before-above m start q rev b in
    (
      q,
      e,
      Head-same m m' (prev_free rev) q c (λ a l u. same a (omega (arith, s)) (omega (arith, e))) h,
      Before-same m m' start q rev (λ a l u. same a l (omega (arith, e, h.some_size))) b,
    )

-- The chunks from `p` on depend on the words from `p` to the epilogue only.
pub After-same :
    (m m' : Words) (brk p : ℕ) (pf : Bool) (cs : List Chunk)
    → ((a : ℕ) → p ≤ a → a ≤ brk → m' a ≡ m a)
    → After m brk pf p cs
    → After m' brk pf p cs
unfolding After
After-same m m' brk p pf [] same (e, w) = (e, same p (omega arith) (omega (arith, e)) ∙ w)
After-same m m' brk p pf (c ∷ cs) same (h, a) =
    let b = After-below m brk (p + c.size) (not c.used) cs a in
    (
      Head-same m m' pf p c (λ x l u. same x l (omega (arith, b))) h,
      After-same m m' brk (p + c.size) (not c.used) cs (λ x l u. same x (omega arith) u) a,
    )

-- Whether the chunk that comes next is used, as the epilogue is.
unfoldable pub next_used : List Chunk → Bool
next_used [] = true
next_used (c ∷ cs) = c.used

-- The header of what comes next.
pub After-word :
    (m : Words) (brk p : ℕ) (pf : Bool) (cs : List Chunk)
    → brk < 2 ^ 32
    → After m brk pf p cs
    → (s : ℕ) × IsSize s × (m p ≡ header s (next_used cs) pf)
unfolding After next_used
After-word m brk p pf [] high (e, w) = (0, (omega arith, omega arith), w)
After-word m brk p pf (c ∷ cs) high (h, a) =
    (c.size, (h.whole, omega (arith, After-below m brk (p + c.size) (not c.used) cs a)), h.word)

-- With another flag in the header of a used chunk, or of the epilogue, the chunks are the same.
pub After-reflag :
    (m m' : Words) (brk p : ℕ) (pf pf' : Bool) (cs : List Chunk)
    → brk < 2 ^ 32
    → next_used cs ≡ true
    → ((s : ℕ) → IsSize s → m p ≡ header s true pf → m' p ≡ header s true pf')
    → ((a : ℕ) → p < a → a ≤ brk → m' a ≡ m a)
    → After m brk pf p cs
    → After m' brk pf' p cs
unfolding After next_used
After-reflag m m' brk p pf pf' [] high used first same (e, w) =
    (e, first 0 (omega arith, omega arith) w)
After-reflag m m' brk p pf pf' (c ∷ cs) high used first same (h, a) =
    let below = After-below m brk (p + c.size) (not c.used) cs a in
    let small : IsSize c.size = (h.whole, omega (arith, below)) in
    (
      record {
        word =
            first c.size small (h.word ∙ ap (λ u. header c.size u pf) used)
            ∙ ap (λ u. header c.size u pf') (sym used);
        whole = h.whole;
        some_size = h.some_size;
        footer = λ f. cc;
      },
      After-same m m' brk (p + c.size) (not c.used) cs
          (λ x l u. same x (omega (arith, l, h.some_size)) u) a,
    )

-- A free chunk of `size` bytes is written at `q`: header and footer.
unfoldable pub write_free : ℕ → ℕ → Bool → Words → Words
write_free q size pf m =
    update (update m q (header size false pf)) (q + size - 4) (header size false pf)

pub write_free-head : (q n : ℕ) (pf : Bool) (m : Words) → write_free q n pf m q ≡ header n false pf
unfolding write_free
write_free-head q n pf m = ground arith

pub write_free-foot :
    (q n : ℕ) (pf : Bool) (m : Words) → write_free q n pf m (q + n - 4) ≡ header n false pf
unfolding write_free
write_free-foot q n pf m = ground arith

pub write_free-outside :
    (q n : ℕ) (pf : Bool) (m : Words) (a : ℕ)
    → 4 ≤ n
    → (a < q) ⊎ (q + n ≤ a)
    → write_free q n pf m a ≡ m a
unfolding write_free
write_free-outside q n pf m a some_size (inl below) = ground (arith, below, some_size)
write_free-outside q n pf m a some_size (inr above) = ground (arith, above, some_size)

pub write_free-Layout :
    (m : Words) (start brk q size : ℕ) (rev cs : List Chunk)
    → 4 ≤ start
    → brk < 2 ^ 32
    → (size % 4 ≡ 0) × (4 ≤ size)
    → Before m start q rev
    → After m brk true (q + size) cs
    → Layout (write_free q size (prev_free rev) m) start brk rev q (free_chunk size ∷ cs)
unfolding After
write_free-Layout m start brk q size rev cs low high (whole, some_size) before after = record {
  low = low;
  high = high;
  before =
      Before-same m _ start q rev (λ a l u. write_free-outside q size _ m a some_size (inl u))
        before;
  after = (
    record {
      word = write_free-head q size _ m;
      whole = whole;
      some_size = some_size;
      footer = λ f. write_free-foot q size _ m ∙ sym (write_free-head q size _ m);
    },
    After-same m _ brk (q + size) true cs
        (λ a l u. write_free-outside q size _ m a some_size (inr l)) after,
  );
}
