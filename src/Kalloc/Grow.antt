-- ===== src/Kalloc/Grow.antt =====
-- kernel/mm/kalloc.c: lx_grow_heap on a heap of chunks.
use os_learn.Base.{
  ℕ, ◌+◌, ◌-◌, ◌%◌, ◌^◌, ◌≡◌, ◌≤◌, ◌<◌, refl, sym, ap, ◌∙◌, Bool, true, false, List, [], ◌∷◌, arith,
  update, u32, inl, ne→==,
}
use native.Mathlib.Numerals.{unary_clauses}
use os_learn.Dmm.{PageSource, HeapContext, lxbrk, roundup}
use os_learn.Dmm.Brk.{Backed, Grows, failed, grown, lxbrk-Grows, roundup_lem}
use os_learn.Kalloc.{Words, Kheap, coalesce, lx_grow_heap, chunk_s, chunk_pf, pack, fptr}
use os_learn.Kalloc.Header.{header, pf_flag, chunk_s-header, chunk_pf-header, pack-free}
use os_learn.Kalloc.Layout.{
  Chunk, free_chunk, prev_free, After, apart, Layout, Heap, Before-same, write_free,
  write_free-outside, write_free-head, write_free-foot,
}
use os_learn.Kalloc.Neighbours.{take_free, Ahead}
use os_learn.Kalloc.Coalesce.{Ready, Coalesced, coalesce-Coalesced}
use os_learn.Kalloc.Free.{apart-used, take_free-apart}

-- The memory in which lx_grow_heap calls coalesce: a free chunk in place of the epilogue, and the
-- epilogue after it.
new_free : ℕ → ℕ → Bool → Words → Words
new_free brk sz pf m = update (write_free brk sz pf m) (brk + sz) (header 0 true true)

new_free-same :
    (brk sz : ℕ) (pf : Bool) (m : Words) (a : ℕ)
    → 4 ≤ sz
    → a < brk + sz
    → new_free brk sz pf m a ≡ write_free brk sz pf m a
unfolding new_free
new_free-same brk sz pf m a some_size u = ground (arith, u)

new_free-Ready :
    (m : Words) (start brk sz : ℕ) (rev : List Chunk)
    → sz % 4 ≡ 0
    → 4 ≤ sz
    → brk + sz < 2 ^ 32
    → Layout m start brk rev brk []
    → Ready (new_free brk sz (prev_free rev) m) start (brk + sz) rev brk sz []
unfolding Ahead After new_free
new_free-Ready m start brk sz rev whole some_size fits l = record {
  low = l.low;
  high = fits;
  before =
      Before-same m _ start brk rev
        (λ a x u.
          new_free-same brk sz (prev_free rev) m a some_size (omega arith)
          ∙ write_free-outside brk sz (prev_free rev) m a some_size (inl u))
        l.before;
  chunk = record {
    word = head;
    whole = whole;
    some_size = some_size;
    footer = λ f.
        new_free-same brk sz (prev_free rev) m (brk + sz - 4) some_size (omega arith)
        ∙ write_free-foot brk sz (prev_free rev) m
        ∙ sym head;
  };
  ahead = (refl, last (brk + sz) (write_free brk sz (prev_free rev) m) (header 0 true true));
}
  where
    last : (a : ℕ) (w : Words) (v : ℕ) → update w a v a ≡ v
    last a w v = ground arith

    head : new_free brk sz (prev_free rev) m brk ≡ header sz false (prev_free rev)
    head =
        new_free-same brk sz (prev_free rev) m brk some_size (omega (arith, some_size))
        ∙ write_free-head brk sz (prev_free rev) m

-- A heap with no chunk after `brk`: the epilogue becomes a free chunk of `sz` bytes, one with the free
-- chunk before it.
new_free-Heap :
    (m : Words) (start brk sz : ℕ) (rev : List Chunk)
    → sz % 4 ≡ 0
    → 4 ≤ sz
    → brk + sz < 2 ^ 32
    → Heap m start brk rev brk []
    → ((coalesce brk (new_free brk sz (prev_free rev) m)).0 ≡ brk - (take_free rev).0)
      × Heap
          (coalesce brk (new_free brk sz (prev_free rev) m)).1
          start
          (brk + sz)
          (take_free rev).1
          (brk - (take_free rev).0)
          (free_chunk (sz + (take_free rev).0) ∷ [])
unfolding Coalesced take_free apart
new_free-Heap m start brk sz rev whole some_size fits h =
    let (at, l, same) =
      coalesce-Coalesced (new_free brk sz (prev_free rev) m) start (brk + sz) brk sz rev []
        (new_free-Ready m start brk sz rev whole some_size fits h.layout) in
    let (before, unfree) =
      apart-used (take_free rev).1 (take_free-apart false rev h.apart_before) in
    (
      at,
      record {
        layout = simp unary_clauses at l;
        apart_before = before;
        apart_after = rw unfree refl;
      },
    )

epilogue : pack 0 3 ≡ header 0 true true
unfolding pack
epilogue = refl

module _ {ℓ} {S : Type ℓ} (source : PageSource S) where
  -- What lx_grow_heap returns for `sz` bytes, on a heap with the chunks `rev`: 0, with the heap as it
  -- was, or the address of a free chunk of at least `sz` bytes that is the last of a longer heap.
  pub data HeapGrown (low : ℕ) (k : Kheap S) (rev : List Chunk) (sz : ℕ)
      : ℕ × Kheap S → Type ℓ where
    refused :
        (pages' : S)
        → Backed source low k.heap pages'
        → HeapGrown low k rev sz (0, record k { pages = pages' })
    longer :
        (k' : Kheap S)
        → k'.heap.start ≡ k.heap.start
        → k'.heap.brk ≡ k.heap.brk + sz
        → k'.heap.max_addr ≡ k.heap.max_addr
        → Backed source low k'.heap k'.pages
        → Heap k'.words k'.heap.start k'.heap.brk
            (take_free rev).1
            (k.heap.brk - (take_free rev).0)
            (free_chunk (sz + (take_free rev).0) ∷ [])
        → HeapGrown low k rev sz (k.heap.brk - (take_free rev).0, k')

  module _ (low : ℕ) (k : Kheap S) (rev : List Chunk) (sz : ℕ)
      (h : Heap k.words k.heap.start k.heap.brk rev k.heap.brk []) (whole : sz % 4 ≡ 0)
      (some_size : 4 ≤ sz) (small : sz ≤ 0xffff_fff8) where
    grown_words : Words
    grown_words = new_free k.heap.brk sz (prev_free rev) k.words

    at_end : k.words k.heap.brk ≡ header 0 true (prev_free rev)
    unfolding After
    at_end = h.layout.after.1

    lx_grow_heap-refused :
        (pages' : S)
        → lxbrk source k.heap (sz + 4) k.pages ≡ (0, k.heap, pages')
        → lx_grow_heap source sz k ≡ (0, record k { pages = pages' })
    unfolding lx_grow_heap
    lx_grow_heap-refused pages' result = rw (plus, result)
      where
        plus : u32 (sz + 4) ≡ sz + 4
        plus = omega arith

    lx_grow_heap-longer :
        (heap' : HeapContext) (pages' : S)
        → 0 < k.heap.brk
        → k.heap.brk + sz + 4 < 2 ^ 32
        → heap'.brk ≡ k.heap.brk + (sz + 4)
        → lxbrk source k.heap (sz + 4) k.pages ≡ (k.heap.brk, heap', pages')
        → lx_grow_heap source sz k ≡ (
          (coalesce k.heap.brk grown_words).0,
          record {
            heap = record heap' { brk = k.heap.brk + sz };
            words = (coalesce k.heap.brk grown_words).1;
            pages = pages';
          },
        )
    unfolding lx_grow_heap grown_words new_free write_free
    lx_grow_heap-longer heap' pages' pos fits end result = rw (
      plus,
      result,
      ne→== k.heap.brk 0 (omega (arith, pos)),
      rounded,
      flag,
      word,
      last,
      back,
      read,
      epilogue,
    )
      where
        plus : u32 (sz + 4) ≡ sz + 4
        plus = omega arith

        rounded : roundup sz ≡ sz
        rounded = roundup_lem sz (omega arith) ∙ omega arith

        flag : chunk_pf (k.words k.heap.brk) ≡ pf_flag (prev_free rev)
        flag =
            ap chunk_pf at_end ∙ chunk_pf-header 0 true (prev_free rev) (omega arith, omega arith)

        word : pack sz (pf_flag (prev_free rev)) ≡ header sz false (prev_free rev)
        word = pack-free sz (prev_free rev) (whole, omega arith)

        last : fptr k.heap.brk sz ≡ k.heap.brk + sz - 4
        last = omega (arith, fits)

        read : chunk_s (write_free k.heap.brk sz (prev_free rev) k.words k.heap.brk) ≡ sz
        read =
            ap chunk_s (write_free-head k.heap.brk sz (prev_free rev) k.words)
            ∙ chunk_s-header sz false (prev_free rev) (whole, omega arith)

        back : u32 (heap'.brk + 2 ^ 32 - 4) ≡ k.heap.brk + sz
        back = omega (arith, end, fits)

    -- lx_grow_heap, for a multiple of 4, on a heap of chunks up to its end that is mapped so far: it
    -- returns 0 and leaves the heap as it was, or the heap is longer by `sz` bytes and mapped up to its
    -- new end, and its last chunk is free, of `sz` bytes and those of a free chunk that was the last
    -- before; what is returned is the address of that chunk.
    pub lx_grow_heap-HeapGrown :
        Backed source low k.heap k.pages
        → k.heap.max_addr < 2 ^ 32
        → HeapGrown low k rev sz (lx_grow_heap source sz k)
    unfolding grown_words
    lx_grow_heap-HeapGrown b limit =
        by_result _ refl
          (lxbrk-Grows source low k.heap (sz + 4) k.pages b (omega arith) (omega arith))
      where
        by_result :
            (r : ℕ × HeapContext × S)
            → lxbrk source k.heap (sz + 4) k.pages ≡ r
            → Grows source low k.heap (sz + 4) r
            → HeapGrown low k rev sz (lx_grow_heap source sz k)
        by_result _ e (failed pages' b') = rw (lx_grow_heap-refused pages' e) (refused pages' b')
        by_result _ e (grown heap' pages' end st mx lim b') =
            let fits : k.heap.brk + sz + 4 < 2 ^ 32 = omega (arith, lim, limit) in
            let (at, h') =
              new_free-Heap k.words k.heap.start k.heap.brk sz rev whole some_size
                (omega (arith, fits)) h in
            rw (lx_grow_heap-longer heap' pages' b.pos fits end e, at)
              (longer _ st refl mx
                (record {
                  word = omega (arith, fits);
                  pos = omega (arith, b.pos);
                  from = omega (arith, b.from);
                  within = b'.within;
                  ready = b'.ready;
                  backed = λ a l u. b'.backed a l (omega (arith, u, end));
                })
                (rw st h'))
