-- ===== src/Kalloc.antt =====
-- kernel/mm/kalloc.c: the kernel's allocator, an implicit list of free chunks between the start and
-- the end of the heap. The heap's memory is a function from the address of a word to the word; the
-- chunk headers and footers are words, and `memset` on a block is written out for words.
-- `assert_msg` is that of a build without __AWAOS_DEBUG__.
pub mod Walk
mod Header
mod Layout
mod Joins
mod Neighbours
mod Coalesce
mod Place
mod Free
mod Grow
mod Search
mod Malloc
mod Init
mod Tests
use os_learn.Base.{
  ℕ, zero, suc, ◌+◌, ◌-◌, ◌*◌, ◌/◌, ◌%◌, ◌^◌, Bool, true, false, ◌&&◌, ◌||◌, not, u32, bit_and,
  bit_or, ltb, leb, ◌==◌, if◌then◌else◌, update,
}
use os_learn.Dmm.{PageSource, HeapContext, roundup, dmm_init, lxbrk}

abbrev pub Words : Type 0
Words = ℕ → ℕ

abbrev pub wsize : ℕ
wsize = 4

abbrev pub m_allocated : ℕ
m_allocated = 1

abbrev pub m_prev_free : ℕ
m_prev_free = 2

abbrev pub heap_init_size : ℕ
heap_init_size = 4096

-- `K_STACK_START`
abbrev pub k_stack_start : ℕ
k_stack_start = 0xffbf_0000

-- `CHUNK_S(header)`, `CHUNK_PF(header)`, `CHUNK_A(header)`
unfoldable pub chunk_s : ℕ → ℕ
chunk_s header = bit_and header 0xffff_fffc

unfoldable pub chunk_pf : ℕ → ℕ
chunk_pf header = bit_and header m_prev_free

unfoldable pub chunk_a : ℕ → ℕ
chunk_a header = bit_and header m_allocated

-- `PACK(size, flags)`
unfoldable pub pack : ℕ → ℕ → ℕ
pack size flags = bit_or (bit_and size 0xffff_fffc) flags

-- `FPTR(hp, size)`
abbrev pub fptr : ℕ → ℕ → ℕ
fptr hp size = u32 (hp + size + 2 ^ 32 - wsize)

-- `header & ~flag` for one of the two flags.
abbrev pub drop_flag : ℕ → ℕ → ℕ
drop_flag header flag = bit_and header (0xffff_ffff - flag)

pub coalesce : ℕ → Words → ℕ × Words
coalesce chunk_ptr m =
    let hdr = m chunk_ptr in
    let pf = chunk_pf hdr in
    let sz = chunk_s hdr in
    let n_hdr = m (chunk_ptr + sz) in
    let prev_ftr = m (chunk_ptr - wsize) in
    let prev_sz = chunk_s prev_ftr in
    let next_sz = chunk_s n_hdr in
    if not (chunk_a n_hdr == 0) && not (pf == 0)
    then (let new_hdr = pack (u32 (prev_sz + sz)) (chunk_pf prev_ftr) in
        (
          chunk_ptr - prev_sz,
          update (update m (chunk_ptr - prev_sz) new_hdr) (fptr chunk_ptr sz) new_hdr,
        ))
    else if (chunk_a n_hdr == 0) && (pf == 0)
    then (let new_hdr = pack (u32 (next_sz + sz)) pf in
        (chunk_ptr, update (update m chunk_ptr new_hdr) (fptr chunk_ptr (sz + next_sz)) new_hdr))
    else if (chunk_a n_hdr == 0) && not (pf == 0)
    then (let new_hdr = pack (u32 (next_sz + prev_sz + sz)) (chunk_pf prev_ftr) in
        (
          chunk_ptr - prev_sz,
          update (update m (chunk_ptr - prev_sz) new_hdr) (fptr chunk_ptr (sz + next_sz)) new_hdr,
        ))
    else (chunk_ptr, m)

pub place_chunk : ℕ → ℕ → Words → Words
place_chunk ptr size m =
    let header = m ptr in
    let m1 = update m ptr (pack size (bit_or (chunk_pf header) m_allocated)) in
    let n_hdrptr = ptr + size in
    let diff = u32 (chunk_s header + 2 ^ 32 - size) in
    if diff == 0
    then update m1 n_hdrptr (drop_flag (m1 n_hdrptr) 2)
    else (let remainder_hdr = pack diff 0 in
        let m2 = update m1 n_hdrptr remainder_hdr in
        (coalesce n_hdrptr (update m2 (fptr n_hdrptr diff) remainder_hdr)).1)

-- How the walk over the chunks ends: at a free chunk that is large enough, or at the end.
pub data Fit : Type 0 where
  fits : ℕ → Fit
  full : Fit
  out_of_fuel : Fit

pub first_fit : ℕ → ℕ → ℕ → ℕ → Words → Fit
first_fit zero size brk ptr m = out_of_fuel
first_fit (suc fuel) size brk ptr m =
    elim (ltb ptr brk && not ((chunk_s (m ptr) == 0) && not (chunk_a (m ptr) == 0))) [
      | false ↦ full
      | true ↦ elim (leb size (chunk_s (m ptr)) && (chunk_a (m ptr) == 0)) [
        | true ↦ fits ptr
        | false ↦ first_fit fuel size brk (u32 (ptr + chunk_s (m ptr))) m
      ]
    ]

-- The state of the allocator: `__kalloc_kheap`, the heap's memory and the pages.
pub record Kheap {ℓ} (S : Type ℓ) : Type ℓ where
  pub heap : HeapContext
  pub words : Words
  pub pages : S

-- `memset(ptr, 0, pd)` on words: a word that the region covers in part keeps its upper bytes.
pub clear_region : ℕ → ℕ → Words → Words
clear_region ptr pd m a =
    if leb ptr a && ltb a (ptr + pd)
    then (let left = ptr + pd - a in
        if leb 4 left then 0 else m a / 2 ^ (8 * left) * 2 ^ (8 * left))
    else m a

pub lxfree : ℕ → Words → Words
lxfree ptr m =
    if ptr == 0
    then m
    else (let chunk_ptr = ptr - wsize in
        let hdr = m chunk_ptr in
        let sz = chunk_s hdr in
        let next_hdr = chunk_ptr + sz in
        let m1 = update m chunk_ptr (drop_flag hdr 1) in
        let m2 = update m1 (fptr chunk_ptr sz) (drop_flag hdr 1) in
        (coalesce chunk_ptr (update m2 next_hdr (bit_or (m2 next_hdr) m_prev_free))).1)

-- One round for each word of the heap, and one to stop.
pub walk_fuel : HeapContext → ℕ
walk_fuel heap = (heap.brk - heap.start) / 4 + 2

module _ {ℓ} {S : Type ℓ} (source : PageSource S) where
  pub lx_grow_heap : ℕ → Kheap S → ℕ × Kheap S
  lx_grow_heap sz k =
      let (start, heap, pages) = lxbrk source k.heap (u32 (sz + wsize)) k.pages in
      if start == 0
      then (0, record k { heap = heap; pages = pages })
      else (let sz' = roundup sz in
          let free_hdr = pack sz' (chunk_pf (k.words start)) in
          let m1 = update k.words start free_hdr in
          let m2 = update m1 (fptr start sz') free_hdr in
          let m3 =
            update m2 (start + chunk_s (m2 start)) (pack 0 (bit_or m_allocated m_prev_free)) in
          let (p, m4) = coalesce start m3 in
          (
            p,
            record {
              heap = record heap { brk = u32 (heap.brk + 2 ^ 32 - wsize) };
              words = m4;
              pages = pages;
            },
          ))

  -- The end of lx_malloc_internal: place the chunk at `ptr`, unless there is none.
  pub place_at : ℕ → ℕ → Kheap S → ℕ × Kheap S
  place_at ptr size k =
      if ptr == 0 then (0, k) else (ptr + wsize, record k { words = place_chunk ptr size k.words })

  -- What lx_malloc_internal does after its walk.
  pub place_found : Fit → ℕ → Kheap S → ℕ × Kheap S
  place_found (fits ptr) size k = place_at ptr size k
  place_found full size k = (let (p, k') = lx_grow_heap size k in place_at p size k')
  place_found out_of_fuel size k = (0, k)

  pub lx_malloc_internal : ℕ → Kheap S → ℕ × Kheap S
  lx_malloc_internal size k =
      if size == 0
      then (0, k)
      else (let rounded = roundup (u32 (size + wsize)) in
          place_found (first_fit (walk_fuel k.heap) rounded k.heap.brk k.heap.start k.words) rounded
            k)

  pub lxmalloc : ℕ → Kheap S → ℕ × Kheap S
  lxmalloc = lx_malloc_internal

  pub lxcalloc : ℕ → ℕ → Kheap S → ℕ × Kheap S
  lxcalloc n elem_size k =
      let pd = u32 (n * elem_size) in
      if ltb pd elem_size || ltb pd n
      then (0, k)
      else (let (ptr, k') = lxmalloc pd k in
          if ptr == 0 then (0, k') else (ptr, record k' { words = clear_region ptr pd k'.words }))

  -- `heap_start` is `&__kernel_heap_start`, which the linker gives.
  pub kalloc_init : ℕ → Kheap S → Bool × Kheap S
  kalloc_init heap_start k =
      let heap : HeapContext = record { start = heap_start; brk = 0; max_addr = k_stack_start } in
      let (done, heap', pages) = dmm_init source heap k.pages in
      if not done
      then (false, record k { heap = heap'; pages = pages })
      else (let m1 = update k.words heap'.start (pack 4 m_allocated) in
          let m2 = update m1 (heap'.start + wsize) (pack 0 m_allocated) in
          let (p, k') = lx_grow_heap heap_init_size (record {
            heap = record heap' { brk = heap'.brk + wsize };
            words = m2;
            pages = pages;
          }) in
          (not (p == 0), k'))
