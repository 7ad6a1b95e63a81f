-- ===== src/Pmm/Alloc.antt =====
-- kernel/mm/pmm.c: pmm_alloc_page and pmm_free_page against the set of free pages.
use os_learn.Base.{
  ℕ, suc, ◌+◌, ◌-◌, ◌*◌, ◌/◌, ◌%◌, ◌^◌, ◌<◌, ◌≤◌, ◌≡◌, ◌≢◌, refl, ◌∙◌, ap, Bool, true, false, ◌&&◌,
  arith, ◌⊎◌, inl, inr, ltb, ◌==◌, Bool-cases, if◌then◌else◌, loop, loop_step, loop_done,
}
use native.Mathlib.Decide.{dec_lt}
use os_learn.Pmm.{
  Pmm, Search, pmm_alloc_page, pmm_free_page, search, search_goes_on, search_round, search_start,
  scan_byte,
}
use os_learn.Pmm.Page.{is_free, is_free-mark_page_free, is_free-mark_page_occupied, full_byte}
use os_learn.Pmm.Rounds.{page_limit, Hit, search_ends, Scanned, scan_byte-Scanned}

-- The manager's invariant: the limit fits the bitmap, the search never starts at page 0, and no
-- page from the limit on is free.
pub record IsValid (s : Pmm) : Type 0 where
  pub small : s.max_pg ≤ page_limit
  pub ptr_pos : 1 ≤ s.lookup_ptr
  pub beyond : (q : ℕ) → s.max_pg ≤ q → q < page_limit → is_free s.bitmap q ≡ false

-- The free pages of `s'` are those of `s`, less the page `p`.
abbrev pub Takes : ℕ → Pmm → Pmm → Type 0
Takes p s s' = (q : ℕ) → is_free s'.bitmap q ≡ (if p == q then false else is_free s.bitmap q)

-- What an allocation may do: fail and leave the free pages alone, or take one free page.
abbrev pub Allocates : Pmm → ℕ → Pmm → Type 0
Allocates s page s' =
    ((page ≡ 0) × (s'.bitmap ≡ s.bitmap))
    ⊎ ((p : ℕ) × (page ≡ p * 2 ^ 12)
        × (1 ≤ p)
        × (p < s.max_pg)
        × (is_free s.bitmap p ≡ true)
        × Takes p s s')

-- pmm_alloc_page, in a valid state, returns 0 and leaves the bitmap as it was, or returns the
-- address of a page that is not page 0, lies below the limit and was free, and takes that page
-- and no other.
pub alloc-Allocates :
    (s : Pmm) → IsValid s → let (page, s') = pmm_alloc_page s in Allocates s page s'
unfolding pmm_alloc_page
alloc-Allocates s v =
    let (k, done) = search_ends s v.small v.ptr_pos in
    elim k.outcome [
      | inl m ↦ inl m
      | inr h ↦ inr (
        (search s).ptr,
        h.2,
        k.ptr_pos,
        below (search s).ptr h.0 h.3,
        h.0,
        λ q. rw h.1 (is_free-mark_page_occupied s.bitmap (search s).ptr q),
      )
    ]
  where
    below : (p : ℕ) → is_free s.bitmap p ≡ true → p < page_limit → p < s.max_pg
    below p free l = elim (Bool-cases (ltb p s.max_pg)) [
      | inl yes' ↦ ground arith
      | inr no' ↦ cc (v.beyond p (ground arith) l)
    ]

-- pmm_alloc_page keeps the invariant.
pub alloc-IsValid : (s : Pmm) → IsValid s → IsValid (pmm_alloc_page s).1
unfolding pmm_alloc_page
alloc-IsValid s v =
    let (k, done) = search_ends s v.small v.ptr_pos in
    record {
      small = v.small;
      ptr_pos = k.ptr_pos;
      beyond = λ q m l. still q (alloc-Allocates s v) (v.beyond q m l);
    }
  where
    still :
        (q : ℕ)
        → Allocates s (pmm_alloc_page s).0 (pmm_alloc_page s).1
        → is_free s.bitmap q ≡ false
        → is_free (pmm_alloc_page s).1.bitmap q ≡ false
    still q (inl (e, same)) old = rw same old
    still q (inr (p, e, l, u, f, t)) old = ground (arith, t q)

-- pmm_free_page frees exactly the page of a nonzero page number below the limit and reports it,
-- and otherwise reports failure and changes nothing.
pub free_page_lem :
    (page : ℕ) (s : Pmm) (q : ℕ)
    → let (done, s') = pmm_free_page page s in
      let p = page / 2 ^ 12 in
      (done ≡ (ltb 0 p && ltb p s.max_pg))
      × (is_free s'.bitmap q ≡ (if done && (p == q) then true else is_free s.bitmap q))
      × (s'.max_pg ≡ s.max_pg)
      × (s'.lookup_ptr ≡ s.lookup_ptr)
unfolding pmm_free_page
free_page_lem page s q = ground (arith, is_free-mark_page_free s.bitmap (page / 2 ^ 12) q)

pub free_page-IsValid : (page : ℕ) (s : Pmm) → IsValid s → IsValid (pmm_free_page page s).1
free_page-IsValid page s v = record {
  small = ground (arith, free_page_lem page s 0, v.small);
  ptr_pos = ground (arith, free_page_lem page s 0, v.ptr_pos);
  beyond = λ q m l. ground (arith, free_page_lem page s q, v.beyond q);
}

max_pg-alloc : (s : Pmm) → (pmm_alloc_page s).1.max_pg ≡ s.max_pg
unfolding pmm_alloc_page
max_pg-alloc s = refl

-- In a valid state, freeing the page that an allocation returned, which is not 0, succeeds and restores
-- the set of free pages.
pub free-alloc :
    (s : Pmm)
    → IsValid s
    → (pmm_alloc_page s).0 ≢ 0
    → (q : ℕ)
    → let (page, s') = pmm_alloc_page s in
      let (done, s'') = pmm_free_page page s' in
      (done ≡ true) × (is_free s''.bitmap q ≡ is_free s.bitmap q)
free-alloc s v got q = restored (alloc-Allocates s v)
  where
    s' : Pmm
    s' = (pmm_alloc_page s).1

    restored :
        Allocates s (pmm_alloc_page s).0 s'
        → let (done, s'') = pmm_free_page (pmm_alloc_page s).0 s' in
          (done ≡ true) × (is_free s''.bitmap q ≡ is_free s.bitmap q)
    restored (inl (e, same)) = absurd (got e)
    restored (inr (p, e, l, u, f, t)) =
        let at : (pmm_alloc_page s).0 / 2 ^ 12 ≡ p = omega (arith, e) in
        ground (
          arith,
          at,
          free_page_lem (pmm_alloc_page s).0 s' q,
          max_pg-alloc s,
          t q,
          ap (is_free s.bitmap) {x = p} {y = q},
        )

-- The first round of a search whose first byte is not full walks that byte.
module _ (s : Pmm) (v : IsValid s) (below : s.lookup_ptr < s.max_pg) where
  abbrev first_round : Search
  first_round =
      scan_byte (8 - s.lookup_ptr % 8) (s.bitmap (s.lookup_ptr / 8)) (s.lookup_ptr % 8)
        (search_start s)

  first_round-Scanned : Scanned (search_start s) (s.lookup_ptr / 8) first_round
  unfolding search_start
  first_round-Scanned =
      let l = v.small in
      scan_byte-Scanned (8 - s.lookup_ptr % 8) (s.lookup_ptr / 8) (s.lookup_ptr % 8)
        (search_start s) (omega arith) (omega arith) (omega arith) refl

  search-first :
      (s.bitmap (s.lookup_ptr / 8) == 0xff) ≡ false
      → search s ≡ loop (s.max_pg + s.lookup_ptr + 1) search_goes_on search_round first_round
  unfolding search search_goes_on search_round search_start
  search-first some_free =
      let fuel : s.max_pg + s.lookup_ptr + 2 ≡ suc (s.max_pg + s.lookup_ptr + 1) = omega arith in
      rw fuel (
        loop_step search_goes_on search_round (s.max_pg + s.lookup_ptr + 1) (search_start s)
          (ground arith)
        ∙ ap (loop (s.max_pg + s.lookup_ptr + 1) search_goes_on search_round) (rw some_free))

  search-first_done :
      (s.bitmap (s.lookup_ptr / 8) == 0xff) ≡ false
      → search_goes_on first_round ≡ false
      → search s ≡ first_round
  search-first_done some_free done =
      search-first some_free
      ∙ loop_done search_goes_on search_round (s.max_pg + s.lookup_ptr + 1) first_round done

  -- Next fit within the byte of the lookup pointer, in a valid state with the pointer below the limit: if a
  -- page `q` of that byte, at or after the
  -- pointer, is free, the allocation returns a free page between the pointer and `q`, with no free
  -- page skipped, and the pointer moves to it.
  pub alloc_next_fit :
      (q : ℕ)
      → s.lookup_ptr ≤ q
      → q / 8 ≡ s.lookup_ptr / 8
      → is_free s.bitmap q ≡ true
      → let (page, s') = pmm_alloc_page s in
        (page ≡ s'.lookup_ptr * 2 ^ 12)
        × (s.lookup_ptr ≤ s'.lookup_ptr)
        × (s'.lookup_ptr ≤ q)
        × (is_free s.bitmap s'.lookup_ptr ≡ true)
        × ((j : ℕ) → s.lookup_ptr ≤ j → j < s'.lookup_ptr → is_free s.bitmap j ≡ false)
  unfolding pmm_alloc_page search_goes_on search_start
  alloc_next_fit q from same free = elim c.outcome [
    | inl (m, at) ↦ absurd (clash (c.passed q from (omega arith)))
    | inr (h, at) ↦
        rw (search-first_done not_full (stops h)) (h.2, c.moves, not_later, h.0, c.passed)
  ]
    where
      c : Scanned (search_start s) (s.lookup_ptr / 8) first_round
      c = first_round-Scanned

      clash : is_free s.bitmap q ≡ false → ⊥
      clash e = cc

      not_full : (s.bitmap (s.lookup_ptr / 8) == 0xff) ≡ false
      not_full = ground (arith, full_byte s.bitmap q, ap s.bitmap same)

      stops : Hit s.bitmap first_round → search_goes_on first_round ≡ false
      stops h = let p = v.ptr_pos in ground (arith, c.moves, h.2)

      not_later : first_round.ptr ≤ q
      not_later = elim (dec_lt q first_round.ptr) [
        | yes later ↦ absurd (clash (c.passed q from later))
        | no fine ↦ omega arith
      ]

  -- When the pointer's byte is the last below the limit, is not full, and has no free page left at
  -- or after the pointer, the allocation fails, whatever is free before, and leaves the pointer at
  -- or beyond the limit.
  pub alloc_misses_wrap :
      (s.bitmap (s.lookup_ptr / 8) ≢ 0xff)
      → s.max_pg ≤ s.lookup_ptr / 8 * 8 + 8
      → ((j : ℕ) → s.lookup_ptr ≤ j → j / 8 ≡ s.lookup_ptr / 8 → is_free s.bitmap j ≡ false)
      → let (page, s') = pmm_alloc_page s in (page ≡ 0) × (s'.max_pg ≤ s'.lookup_ptr)
  unfolding pmm_alloc_page search_goes_on search_start
  alloc_misses_wrap some_free last taken = elim c.outcome [
    | inl (m, at) ↦ rw (search-first_done not_full (stops at)) (m.0, omega (arith, at))
    | inr (h, at) ↦ absurd (clash h.0 (taken first_round.ptr c.moves (omega (arith, c.moves))))
  ]
    where
      c : Scanned (search_start s) (s.lookup_ptr / 8) first_round
      c = first_round-Scanned

      clash : {b : Bool} → b ≡ true → b ≡ false → ⊥
      clash e f = cc

      not_full : (s.bitmap (s.lookup_ptr / 8) == 0xff) ≡ false
      not_full = ground arith

      stops : first_round.ptr ≡ s.lookup_ptr / 8 * 8 + 8 → search_goes_on first_round ≡ false
      stops at = ground (arith, c.same_lim)

alloc_over : (s : Pmm) → s.max_pg ≤ s.lookup_ptr → pmm_alloc_page s ≡ (0, s)
unfolding pmm_alloc_page search search_start search_goes_on
alloc_over s over = rw (
    loop_done search_goes_on search_round (s.max_pg + s.lookup_ptr + 2) (search_start s)
      (ground arith))

-- Once the pointer has reached the limit, every allocation fails and changes nothing, and freeing
-- a page does not help.
pub alloc_stuck :
    (page : ℕ) (s : Pmm)
    → s.max_pg ≤ s.lookup_ptr
    → let s' = (pmm_free_page page s).1 in
      (pmm_alloc_page s ≡ (0, s)) × (pmm_alloc_page s' ≡ (0, s'))
alloc_stuck page s over = (
  alloc_over s over,
  alloc_over (pmm_free_page page s).1 (ground (arith, free_page_lem page s 0)),
)
