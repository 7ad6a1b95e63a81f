-- ===== src/Kalloc/Tests.antt =====
-- kernel/mm/kalloc.c: a small heap, the theorems at it, and runs of the allocator.
use os_learn.Base.{◌≡◌, refl, arith, if◌then◌else◌, ◌==◌}
use os_learn.Base.{[], ◌∷◌, inl}
use os_learn.Mmu.{Machine}
use os_learn.Vmm.Pages.{entry_page}
use os_learn.Vmm.Sample.{machine, machine-IsPaged, page_one}
use os_learn.Dmm.OnVmm.{vmm_pages}
use os_learn.Dmm.{HeapContext}
use os_learn.Dmm.Brk.{Backed}
use os_learn.Kalloc.Layout.{free_chunk, used_chunk, Before, After, apart, prev_free, Heap}
use os_learn.Kalloc.{
  Words, chunk_s, chunk_a, chunk_pf, pack, coalesce, first_fit, walk_fuel, place_chunk, lxfree,
}
use os_learn.Kalloc.{Kheap, lx_grow_heap, lx_malloc_internal, kalloc_init}
use os_learn.Kalloc.Neighbours.{take_free, After-Ahead}
use os_learn.Kalloc.Coalesce.{Ready, Coalesced, coalesce-Coalesced}
use os_learn.Kalloc.Free.{lxfree-Heap, lxfree-outside}
use os_learn.Kalloc.Place.{left_over, place_chunk-Heap}
use os_learn.Kalloc.Grow.{HeapGrown, lx_grow_heap-HeapGrown}
use os_learn.Kalloc.Search.{whole_list, Heap-forth}
use os_learn.Kalloc.Malloc.{Heap-whole, Allocated, lx_malloc_internal-Allocated}
use os_learn.Kalloc.Init.{Initialised, kalloc_init-Initialised}
use os_learn.Kalloc.Walk.{Chunks, IsFirst, walk-IsFirst}

abbrev heap : HeapContext
heap = record { start = 0x1000; brk = 0x1044; max_addr = 0x9000 }

-- A used chunk of 4 bytes, a free one of 16, a used one of 16, and a free one of 32.
abbrev words : Words
words a =
    if a == 0x1000
    then 5
    else if a == 0x1004
    then 16
    else if a == 0x1010
    then 16
    else if a == 0x1014
    then 19
    else if a == 0x1024
    then 32
    else if a == 0x1040
    then 32
    else if a == 0x1044
    then 3
    else 0

words-Chunks : Chunks words 0x1044 0x1000 4
unfolding Chunks chunk_s
words-Chunks = (
  omega arith,
  omega arith,
  (omega arith, omega arith, (omega arith, omega arith, (omega arith, omega arith, refl))),
)

walk-IsFirst_run : IsFirst words 20 0x1000 4 (first_fit (walk_fuel heap) 20 0x1044 0x1000 words)
walk-IsFirst_run = walk-IsFirst heap 20 4 words (omega arith) words-Chunks

-- The chunk at 0x1024 is split, and what is left of it is free.
split : (place_chunk 0x1024 20 words 0x1024 ≡ 21) × (place_chunk 0x1024 20 words 0x1038 ≡ 12)
unfolding place_chunk coalesce chunk_s chunk_a chunk_pf pack
split = (refl, refl)

-- Freeing the chunk at 0x1014 joins it with its two neighbours.
joined : (lxfree 0x1018 words 0x1004 ≡ 64) × (lxfree 0x1018 words 0x1040 ≡ 64)
unfolding lxfree coalesce chunk_s chunk_a chunk_pf pack
joined = (refl, refl)

-- The same heap as a list of chunks, from the used chunk at 0x1014.
words-Heap :
    Heap words 0x1000 0x1044
      (free_chunk 16 ∷ used_chunk 4 ∷ [])
      0x1014
      (used_chunk 16 ∷ free_chunk 32 ∷ [])
unfolding Before After apart prev_free
words-Heap = record {
  layout = record {
    low = omega arith;
    high = omega arith;
    before = (
      0x1004,
      refl,
      record { word = refl; whole = refl; some_size = omega arith; footer = λ f. refl },
      (
        0x1000,
        refl,
        record { word = refl; whole = refl; some_size = omega arith; footer = λ f. cc },
        refl,
      ),
    );
    after = (
      record { word = refl; whole = refl; some_size = omega arith; footer = λ f. cc },
      (
        record { word = refl; whole = refl; some_size = omega arith; footer = λ f. refl },
        (refl, refl),
      ),
    );
  };
  apart_before = refl;
  apart_after = refl;
}

words-all :
    Heap words 0x1000 0x1044 [] 0x1000
      (used_chunk 4 ∷ free_chunk 16 ∷ used_chunk 16 ∷ free_chunk 32 ∷ [])
unfolding whole_list
words-all =
    Heap-whole words 0x1000 0x1044 0x1014 (free_chunk 16 ∷ used_chunk 4 ∷ [])
      (used_chunk 16 ∷ free_chunk 32 ∷ []) words-Heap

words-last :
    Heap words 0x1000 0x1044
      (used_chunk 16 ∷ free_chunk 16 ∷ used_chunk 4 ∷ [])
      0x1024
      (free_chunk 32 ∷ [])
words-last =
    Heap-forth words 0x1000 0x1044 0x1014 (used_chunk 16) (free_chunk 16 ∷ used_chunk 4 ∷ [])
      (free_chunk 32 ∷ []) words-Heap

words-end :
    Heap words 0x1000 0x1044
      (free_chunk 32 ∷ used_chunk 16 ∷ free_chunk 16 ∷ used_chunk 4 ∷ [])
      0x1044
      []
words-end =
    Heap-forth words 0x1000 0x1044 0x1024 (free_chunk 32)
      (used_chunk 16 ∷ free_chunk 16 ∷ used_chunk 4 ∷ []) [] words-last

words-Ready :
    Ready words 0x1000 0x1044 (used_chunk 16 ∷ free_chunk 16 ∷ used_chunk 4 ∷ []) 0x1024 32 []
unfolding After
words-Ready = record {
  low = omega arith;
  high = omega arith;
  before = words-last.layout.before;
  chunk = words-last.layout.after.0;
  ahead = After-Ahead words 0x1044 0x1044 [] words-last.layout.after.1;
}

coalesce-Coalesced_run :
    Coalesced words 0x1000 0x1044 (used_chunk 16 ∷ free_chunk 16 ∷ used_chunk 4 ∷ []) 0x1024 32 []
coalesce-Coalesced_run =
    coalesce-Coalesced words 0x1000 0x1044 0x1024 32
      (used_chunk 16 ∷ free_chunk 16 ∷ used_chunk 4 ∷ []) [] words-Ready

lxfree-Heap_example :
    Heap (lxfree 0x1018 words) 0x1000 0x1044 (used_chunk 4 ∷ []) 0x1004 (free_chunk 64 ∷ [])
unfolding take_free
lxfree-Heap_example =
    lxfree-Heap words 0x1000 0x1044 0x1014 16 (free_chunk 16 ∷ used_chunk 4 ∷ [])
      (free_chunk 32 ∷ []) words-Heap

lxfree-outside_example : lxfree 0x1018 words 0x1000 ≡ words 0x1000
unfolding take_free
lxfree-outside_example =
    lxfree-outside words 0x1000 0x1044 0x1014 16 (free_chunk 16 ∷ used_chunk 4 ∷ [])
      (free_chunk 32 ∷ []) words-Heap.layout 0x1000 (inl (omega arith))
      (λ e. absurd (omega (arith, e)))

place_chunk-Heap_run :
    Heap
      (place_chunk 0x1024 20 words)
      0x1000
      0x1044
      (used_chunk 16 ∷ free_chunk 16 ∷ used_chunk 4 ∷ [])
      0x1024
      (used_chunk 20 ∷ free_chunk 12 ∷ [])
unfolding left_over
place_chunk-Heap_run =
    place_chunk-Heap words 0x1000 0x1044 0x1024 32 20
      (used_chunk 16 ∷ free_chunk 16 ∷ used_chunk 4 ∷ []) [] refl (omega arith) (omega arith)
      words-last

-- The heap on the virtual memory manager and a small machine.
abbrev kheap : Kheap Machine
kheap = record { heap = heap; words = words; pages = machine }

kheap-Backed : Backed vmm_pages 0x1000 heap machine
kheap-Backed = record {
  word = omega arith;
  pos = omega arith;
  from = omega arith;
  within = omega arith;
  ready = machine-IsPaged;
  backed = λ a l u. (omega (arith, u), page_one a l (omega (arith, u)));
}

lx_grow_heap-HeapGrown_run :
    HeapGrown vmm_pages 0x1000 kheap
      (free_chunk 32 ∷ used_chunk 16 ∷ free_chunk 16 ∷ used_chunk 4 ∷ [])
      100
      (lx_grow_heap vmm_pages 100 kheap)
lx_grow_heap-HeapGrown_run =
    lx_grow_heap-HeapGrown vmm_pages 0x1000 kheap
      (free_chunk 32 ∷ used_chunk 16 ∷ free_chunk 16 ∷ used_chunk 4 ∷ []) 100 words-end refl
      (omega arith) (omega arith) kheap-Backed (omega arith)

lx_malloc_internal-Allocated_example :
    Allocated vmm_pages 0x1000 kheap 20
      (used_chunk 4 ∷ free_chunk 16 ∷ used_chunk 16 ∷ free_chunk 32 ∷ [])
      (lx_malloc_internal vmm_pages 15 kheap)
lx_malloc_internal-Allocated_example =
    lx_malloc_internal-Allocated vmm_pages 0x1000 kheap 15
      (used_chunk 4 ∷ free_chunk 16 ∷ used_chunk 16 ∷ free_chunk 32 ∷ []) words-all
      (λ e. absurd (omega (arith, e))) (omega arith) kheap-Backed (omega arith)

kalloc_init-Initialised_example : Initialised vmm_pages 0x4000 (kalloc_init vmm_pages 0x4000 kheap)
unfolding entry_page
kalloc_init-Initialised_example =
    kalloc_init-Initialised vmm_pages 0x4000 kheap refl (omega arith) (omega arith) machine-IsPaged
      refl
