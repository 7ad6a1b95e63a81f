-- ===== src/Kalloc/Malloc.antt =====
-- kernel/mm/kalloc.c: lx_malloc_internal on a heap of chunks.
use os_learn.Base.{
  ℕ, ◌≢◌, ◌+◌, ◌*◌, ◌-◌, ◌/◌, ◌%◌, ◌^◌, ◌≡◌, ◌≤◌, ◌<◌, refl, ◌∙◌, Bool, true, false, not, List, [],
  ◌∷◌, arith, u32, ne→==, some, none, length,
}
use os_learn.Dmm.{PageSource, roundup}
use os_learn.Dmm.Brk.{Backed, roundup_lem}
use os_learn.Kalloc.{
  Words, Kheap, Fit, first_fit, place_at, place_found, lx_grow_heap, lx_malloc_internal, walk_fuel,
}
use os_learn.Kalloc.Layout.{Chunk, used_chunk, prev_free, Before, After, apart, Heap, Before-above}
use os_learn.Kalloc.Neighbours.{take_free}
use os_learn.Kalloc.Free.{and-both}
use os_learn.Kalloc.Place.{left_over, place_chunk-Heap, Layout-back}
use os_learn.Kalloc.Grow.{HeapGrown, refused, longer, lx_grow_heap-HeapGrown}
use os_learn.Kalloc.Search.{alloc, whole_list, Found, hit, miss, first_fit-Found, other_way}

apart-less : (b : Bool) (cs : List Chunk) → apart b cs ≡ true → apart false cs ≡ true
unfolding apart
apart-less b [] h = refl
apart-less b (c ∷ cs) h = (and-both _ _ h).1

apart-return :
    (c : Chunk) (rev cs : List Chunk)
    → apart false (c ∷ rev) ≡ true
    → apart (not c.used) cs ≡ true
    → apart (prev_free rev) (c ∷ cs) ≡ true
unfolding apart prev_free
apart-return c [] cs r a = a
apart-return c (d ∷ rev) cs r a = rw (other_way c.used d.used (and-both _ _ r).0) a

-- The heap seen from its start.
pub Heap-whole :
    (m : Words) (start brk p : ℕ) (rev cs : List Chunk)
    → Heap m start brk rev p cs
    → Heap m start brk [] start (whole_list rev cs)
unfolding whole_list Before apart prev_free
Heap-whole m start brk p [] cs h = let e : p ≡ start = h.layout.before in rw e at h
Heap-whole m start brk p (c ∷ rev) cs h =
    let (q, e, here, b) = h.layout.before in
    Heap-whole m start brk q rev (c ∷ cs) (record {
      layout = Layout-back m start brk q c rev cs (rw e at h.layout);
      apart_before = apart-less (not c.used) rev h.apart_before;
      apart_after = apart-return c rev cs h.apart_before h.apart_after;
    })

Heap-pos : (m : Words) (start brk p : ℕ) (rev cs : List Chunk) → Heap m start brk rev p cs → p ≢ 0
Heap-pos m start brk p rev cs h e =
    absurd (omega (arith, e, h.layout.low, Before-above m start p rev h.layout.before))

After-length :
    (m : Words) (brk p : ℕ) (pf : Bool) (cs : List Chunk)
    → After m brk pf p cs
    → length cs * 4 + p ≤ brk
unfolding After
After-length m brk p pf [] (e, w) = omega (arith, e)
After-length m brk p pf (c ∷ cs) (h, a) =
    omega (arith, h.some_size, After-length m brk (p + c.size) (not c.used) cs a)

module _ {ℓ} {S : Type ℓ} (source : PageSource S) where
  -- What lx_malloc_internal returns for a chunk of `size` bytes, on a heap of the chunks `cs`.
  pub data Allocated (low : ℕ) (k : Kheap S) (size : ℕ) (cs : List Chunk)
      : ℕ × Kheap S → Type ℓ where
    fitted :
        (q : ℕ) (cs' : List Chunk) (words' : Words)
        → alloc size k.heap.start cs ≡ some (q, cs')
        → Heap words' k.heap.start k.heap.brk [] k.heap.start cs'
        → Allocated low k size cs (q + 4, record k { words = words' })
    extended :
        (q : ℕ) (rev : List Chunk) (k' : Kheap S)
        → alloc size k.heap.start cs ≡ none
        → whole_list rev [] ≡ cs
        → q ≡ k.heap.brk - (take_free rev).0
        → k'.heap.start ≡ k.heap.start
        → k'.heap.brk ≡ k.heap.brk + size
        → k'.heap.max_addr ≡ k.heap.max_addr
        → Backed source low k'.heap k'.pages
        → Heap k'.words k'.heap.start k'.heap.brk [] k'.heap.start
            (whole_list (take_free rev).1 (used_chunk size ∷ left_over (take_free rev).0 []))
        → Allocated low k size cs (q + 4, k')
    out_of_memory :
        (pages' : S)
        → alloc size k.heap.start cs ≡ none
        → Backed source low k.heap pages'
        → Allocated low k size cs (0, record k { pages = pages' })

  module _ (low : ℕ) (k : Kheap S) (size : ℕ) (cs : List Chunk)
      (h : Heap k.words k.heap.start k.heap.brk [] k.heap.start cs) (whole : size % 4 ≡ 0)
      (some_size : 4 ≤ size) (small : size ≤ 0xffff_fff8) (b : Backed source low k.heap k.pages)
      (limit : k.heap.max_addr < 2 ^ 32) where
    found :
        Found k.words k.heap.start k.heap.brk size [] k.heap.start cs
          (first_fit (walk_fuel k.heap) size k.heap.brk k.heap.start k.words)
    unfolding walk_fuel
    found =
        first_fit-Found (walk_fuel k.heap) size k.heap.start k.heap.brk k.heap.start k.words [] cs
          (omega (arith, After-length _ _ _ _ cs h.layout.after)) some_size h

    grown_Allocated :
        (rev : List Chunk) (r : ℕ × Kheap S)
        → whole_list rev [] ≡ cs
        → alloc size k.heap.start cs ≡ none
        → Heap k.words k.heap.start k.heap.brk rev k.heap.brk []
        → HeapGrown source low k rev size r
        → Allocated low k size cs (place_at source r.0 size r.1)
    unfolding place_at
    grown_Allocated rev _ e a hk (refused pages' b') = out_of_memory pages' a b'
    grown_Allocated rev _ e a hk (longer k' st end mx b' h') =
        let left : size + (take_free rev).0 - size ≡ (take_free rev).0 = omega arith in
        rw (ne→== (k.heap.brk - (take_free rev).0) 0 (Heap-pos _ _ _ _ _ _ h')) (
          extended _ rev _ a e refl st end mx b' (
            Heap-whole _ _ _ _ _ _
              (rw left at (place_chunk-Heap _ _ _ _ _ size _ _ whole some_size (omega arith) h'))))

    place_found-Allocated :
        (r : Fit)
        → Found k.words k.heap.start k.heap.brk size [] k.heap.start cs r
        → Allocated low k size cs (place_found source r size k)
    unfolding place_found place_at whole_list
    place_found-Allocated _ (hit rev' q s cs' placed hq le e a) =
        rw (ne→== q 0 (Heap-pos _ _ _ _ _ _ hq)) (
          fitted q _ _ a (
            rw e at (
              Heap-whole _ _ _ _ rev' (used_chunk size ∷ left_over (s - size) cs')
                (place_chunk-Heap _ _ _ _ s size rev' cs' whole some_size le hq))))
    place_found-Allocated _ (miss rev' hq e a) =
        grown_Allocated rev' (lx_grow_heap source size k) e a hq
          (lx_grow_heap-HeapGrown source low k rev' size hq whole some_size small b limit)

  -- lx_malloc_internal, for a request of 1 to 0xfffffff4 bytes, on a heap of chunks `cs` that is mapped up
  -- to its end and limited to 32 bits. Where a free chunk has room, the first such chunk holds the
  -- block, and what is left of it is free. Where none has, the heap is extended by the rounded size and
  -- the block is in the last chunk, together with a free chunk that was the last before; or the result
  -- is 0 and the heap is as it was. In each case the heap is one of chunks again, no two free ones
  -- neighbours.
  pub lx_malloc_internal-Allocated :
      (low : ℕ) (k : Kheap S) (size : ℕ) (cs : List Chunk)
      → Heap k.words k.heap.start k.heap.brk [] k.heap.start cs
      → size ≢ 0
      → size ≤ 0xffff_fff4
      → Backed source low k.heap k.pages
      → k.heap.max_addr < 2 ^ 32
      → Allocated low k ((size + 7) / 4 * 4) cs (lx_malloc_internal source size k)
  unfolding lx_malloc_internal
  lx_malloc_internal-Allocated low k size cs h ne small b limit =
      let rounded : roundup (u32 (size + 4)) ≡ (size + 7) / 4 * 4 =
        roundup_lem (u32 (size + 4)) (omega arith) ∙ omega arith in
      rw (ne→== size 0 ne, rounded)
        (place_found-Allocated low k ((size + 7) / 4 * 4) cs h (omega arith) (omega (arith, ne))
          (omega (arith, small)) b limit _
          (found low k ((size + 7) / 4 * 4) cs h (omega arith) (omega (arith, ne))
            (omega (arith, small)) b limit))
