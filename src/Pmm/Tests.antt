-- ===== src/Pmm/Tests.antt =====
-- kernel/mm/pmm.c: small bitmaps, runs on them, and the theorems at them.
use os_learn.Base.{
  ℕ, ◌+◌, ◌*◌, ◌/◌, ◌^◌, ◌<◌, ◌≤◌, ◌≡◌, ◌≢◌, refl, true, false, arith, ◌&&◌, ltb, leb, ◌==◌,
  if◌then◌else◌, bit, ne→==, loop, fill,
}
use native.Mathlib.Decide.{ℕ_discrete}
use os_learn.Pmm
use os_learn.Pmm.{Bitmap, Pmm, pmm_alloc_page, pmm_free_page, mark_chunk_free, mark_chunk_occupied}
use os_learn.Pmm.Page.{is_free, full_byte}
use os_learn.Pmm.Rounds.{page_limit}
use os_learn.Pmm.Chunk.{
  covered, is_free-mark_chunk_free, is_free-mark_chunk_occupied, chunk_straddle,
}
use os_learn.Pmm.Alloc.{
  IsValid, Allocates, alloc-Allocates, alloc-IsValid, free_page_lem, free-alloc, alloc_next_fit,
  alloc_misses_wrap, alloc_stuck,
}
use os_learn.Pmm.Init.{init-IsValid}

-- Of 32 pages, 12 and 13 are free; the search starts at 9.
abbrev two_free : Pmm
two_free = record { bitmap = λ i. if i == 1 then 0xf3 else 0xff; max_pg = 32; lookup_ptr = 9 }

two_free-IsValid : IsValid two_free
two_free-IsValid = record {
  small = omega arith;
  ptr_pos = omega arith;
  beyond = λ q m l. full_byte two_free.bitmap q (rw (ne→== (q / 8) 1 (omega arith)));
}

-- The last byte below the limit has a free page, but only before the pointer.
abbrev passed_by : Pmm
passed_by = record { bitmap = λ i. if i == 3 then 0x7f else 0xff; max_pg = 32; lookup_ptr = 30 }

passed_by-IsValid : IsValid passed_by
passed_by-IsValid = record {
  small = omega arith;
  ptr_pos = omega arith;
  beyond = λ q m l. full_byte passed_by.bitmap q (rw (ne→== (q / 8) 3 (omega arith)));
}

alloc_runs : (pmm_alloc_page two_free).0 ≡ 12 * 2 ^ 12
unfolding pmm_alloc_page loop
alloc_runs = refl

alloc-Allocates_example : Allocates two_free (pmm_alloc_page two_free).0 (pmm_alloc_page two_free).1
alloc-Allocates_example = alloc-Allocates two_free two_free-IsValid

alloc-IsValid_example : IsValid (pmm_alloc_page two_free).1
alloc-IsValid_example = alloc-IsValid two_free two_free-IsValid

got_page : (pmm_alloc_page two_free).0 ≢ 0
unfolding pmm_alloc_page loop
got_page = omega arith

free-alloc_example :
    let (page, s') = pmm_alloc_page two_free in
    let (done, s'') = pmm_free_page page s' in
    (done ≡ true) × (is_free s''.bitmap 13 ≡ is_free two_free.bitmap 13)
free-alloc_example = free-alloc two_free two_free-IsValid got_page 13

thirteen_free : is_free two_free.bitmap 13 ≡ true
unfolding bit
thirteen_free = refl

alloc_next_fit_example :
    let (page, s') = pmm_alloc_page two_free in
    (page ≡ s'.lookup_ptr * 2 ^ 12)
    × (9 ≤ s'.lookup_ptr)
    × (s'.lookup_ptr ≤ 13)
    × (is_free two_free.bitmap s'.lookup_ptr ≡ true)
    × ((j : ℕ) → 9 ≤ j → j < s'.lookup_ptr → is_free two_free.bitmap j ≡ false)
alloc_next_fit_example =
    alloc_next_fit two_free two_free-IsValid (omega arith) 13 (omega arith) refl thirteen_free

free_page_lem_run :
    let (done, s') = pmm_free_page 0x5000 two_free in
    (done ≡ true)
    × (is_free s'.bitmap 5 ≡ (if done && true then true else is_free two_free.bitmap 5))
    × (s'.max_pg ≡ 32)
    × (s'.lookup_ptr ≡ 9)
free_page_lem_run = free_page_lem 0x5000 two_free 5

late_taken : (j : ℕ) → 30 ≤ j → j / 8 ≡ 3 → is_free passed_by.bitmap j ≡ false
unfolding bit
late_taken j from same = elim (ℕ_discrete j 30) [
  | yes first ↦ rw first refl
  | no other ↦ let last : j ≡ 31 = omega arith in rw last refl
]

alloc_misses_wrap_run :
    let (page, s') = pmm_alloc_page passed_by in (page ≡ 0) × (32 ≤ s'.lookup_ptr)
unfolding pmm_alloc_page
alloc_misses_wrap_run =
    alloc_misses_wrap passed_by passed_by-IsValid (omega arith) (omega arith) (omega arith)
      late_taken

alloc_stuck_example :
    let s : Pmm = record two_free { lookup_ptr = 40 } in
    let s' = (pmm_free_page 0x5000 s).1 in
    (pmm_alloc_page s ≡ (0, s)) × (pmm_alloc_page s' ≡ (0, s'))
alloc_stuck_example = alloc_stuck 0x5000 (record two_free { lookup_ptr = 40 }) (omega arith)

mark_chunk_free_example :
    is_free (mark_chunk_free two_free.bitmap 5 20) 24
    ≡ (if leb 5 24 && ltb 24 (5 + covered 5 20) then true else is_free two_free.bitmap 24)
mark_chunk_free_example = is_free-mark_chunk_free two_free.bitmap 5 20 24 (omega arith)

mark_chunk_occupied_run :
    is_free (mark_chunk_occupied two_free.bitmap 5 20) 13
    ≡ (if leb 5 13 && ltb 13 (5 + covered 5 20) then false else is_free two_free.bitmap 13)
mark_chunk_occupied_run = is_free-mark_chunk_occupied two_free.bitmap 5 20 13 (omega arith)

-- Eight pages that straddle two bytes: only the first four are marked.
straddle : is_free (mark_chunk_free (λ _. 0xff) 4 8) 9 ≡ false
unfolding mark_chunk_free fill bit
straddle = refl

init-IsValid_example :
    IsValid (Pmm.pmm_init two_free 0x100_0000)
    × ((q : ℕ) → q < page_limit → is_free (Pmm.pmm_init two_free 0x100_0000).bitmap q ≡ false)
init-IsValid_example = init-IsValid two_free 0x100_0000

chunk_straddle_run :
    (is_free (mark_chunk_free two_free.bitmap 4 8) 9 ≡ is_free two_free.bitmap 9)
    × (is_free (mark_chunk_occupied two_free.bitmap 4 8) 9 ≡ is_free two_free.bitmap 9)
chunk_straddle_run =
    chunk_straddle two_free.bitmap 4 8 9 (omega arith) (omega arith) (omega arith) (omega arith)
