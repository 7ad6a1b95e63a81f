-- ===== src/Kalloc/Init.antt =====
-- kernel/mm/kalloc.c: kalloc_init.
use os_learn.Base.{
  ℕ, ◌+◌, ◌-◌, ◌%◌, ◌^◌, ◌≡◌, ◌≤◌, ◌<◌, ◌⊎◌, inl, inr, refl, Bool, true, false, not, [], ◌∷◌, arith,
  update, ◌==◌, ne→==,
}
use os_learn.Paging.{pg_prem_rw}
use os_learn.Dmm.{PageSource, Whole, dmm_init}
use os_learn.Dmm.Brk.{Backed}
use os_learn.Kalloc.{Words, Kheap, kalloc_init, lx_grow_heap, pack, k_stack_start}
use os_learn.Kalloc.Layout.{free_chunk, used_chunk, Before, After, apart, prev_free, Heap}
use os_learn.Kalloc.Neighbours.{take_free}
use os_learn.Kalloc.Grow.{HeapGrown, refused, longer, lx_grow_heap-HeapGrown}
use os_learn.Kalloc.Search.{whole_list}
use os_learn.Kalloc.Malloc.{Heap-whole}

-- The first two words of the heap: a used chunk of one word, and the epilogue.
first_words : ℕ → Words → Words
first_words start m = update (update m start 5) (start + 4) 1

first_words-Heap :
    (m : Words) (start : ℕ)
    → 4 ≤ start
    → start + 4 < 2 ^ 32
    → Heap (first_words start m) start (start + 4) (used_chunk 4 ∷ []) (start + 4) []
unfolding first_words Before After apart prev_free
first_words-Heap m start low high = record {
  layout = record {
    low = low;
    high = high;
    before = (
      start,
      refl,
      record { word = ground arith; whole = refl; some_size = omega arith; footer = λ f. cc },
      refl,
    );
    after = (refl, ground arith);
  };
  apart_before = refl;
  apart_after = refl;
}

prologue : pack 4 1 ≡ 5
unfolding pack
prologue = refl

epilogue : pack 0 1 ≡ 1
unfolding pack
epilogue = refl

module _ {ℓ} {S : Type ℓ} (source : PageSource S) where
  -- What kalloc_init returns: false, or true with a heap of two chunks, one that stays used and one of
  -- 4096 free bytes, mapped up to its end.
  pub data Initialised (start : ℕ) : Bool × Kheap S → Type ℓ where
    no_pages : (k' : Kheap S) → Initialised start (false, k')
    ready :
        (k' : Kheap S)
        → k'.heap.start ≡ start
        → k'.heap.max_addr ≡ k_stack_start
        → Backed source start k'.heap k'.pages
        → Heap k'.words start (start + 4100) [] start (used_chunk 4 ∷ free_chunk 4096 ∷ [])
        → k'.heap.brk ≡ start + 4100
        → Initialised start (true, k')

  module _ (start : ℕ) (k : Kheap S) (page : start % 4096 ≡ 0) (low : 4096 ≤ start)
      (high : start < k_stack_start) (ready_now : source.IsReady k.pages)
      (vacant : source.Vacant k.pages start) where
    whole : Whole start 4096 pg_prem_rw
    whole = (page, refl, omega (arith, page, high), refl)

    abbrev first_page : ℕ × S
    first_page = source.alloc_page start pg_prem_rw k.pages

    first_result :
        source.IsReady first_page.1
        × ((first_page.0 ≡ 0)
            ⊎ ((first_page.0 ≡ start)
                × ((a : ℕ) → start ≤ a → a < start + 4096 → source.Mapped first_page.1 a)))
    first_result =
        source.maps_page start pg_prem_rw k.pages whole (omega (arith, low)) ready_now vacant

    begun : Kheap S
    begun = record {
      heap = record { start = start; brk = start + 4; max_addr = k_stack_start };
      words = first_words start k.words;
      pages = first_page.1;
    }

    begun-Backed :
        ((a : ℕ) → start ≤ a → a < start + 4096 → source.Mapped first_page.1 a)
        → Backed source start begun.heap begun.pages
    unfolding begun
    begun-Backed mapped = record {
      word = omega (arith, high);
      pos = omega arith;
      from = omega arith;
      within = omega arith;
      ready = first_result.0;
      backed = λ a l u. mapped a l (omega (arith, u, page));
    }

    grown-Initialised :
        (r : ℕ × Kheap S)
        → HeapGrown source start begun (used_chunk 4 ∷ []) 4096 r
        → Initialised start (not (r.0 == 0), r.1)
    unfolding begun take_free whole_list
    grown-Initialised _ (refused pages' b') = no_pages _
    grown-Initialised _ (longer k' st end mx b h) =
        let at : k'.heap.brk ≡ start + 4100 = omega (arith, end) in
        rw (ne→== (start + 4 - 0) 0 (omega arith))
          (ready k' st mx b (rw (st, at) at (Heap-whole _ _ _ _ (used_chunk 4 ∷ []) _ h)) at)

    -- kalloc_init, for a page boundary from 4096 on and below the limit, where the page has no entry and
    -- the page source is ready: it returns false, or the heap has a used chunk of one word and a free one
    -- of 4096 bytes, up to the epilogue at its end, and is mapped so far.
    pub kalloc_init-Initialised : Initialised start (kalloc_init source start k)
    unfolding kalloc_init dmm_init begun first_words
    kalloc_init-Initialised = elim first_result.1 [
      | inl none' ↦ rw none' (no_pages _)
      | inr (first, mapped) ↦
          rw (first, ne→== start 0 (omega (arith, low)), prologue, epilogue)
            (grown-Initialised (lx_grow_heap source 4096 begun) (
              lx_grow_heap-HeapGrown source start begun (used_chunk 4 ∷ []) 4096
                (first_words-Heap k.words start (omega (arith, low)) (omega (arith, high))) refl
                (omega arith) (omega arith) (begun-Backed mapped) (omega arith)))
    ]
