-- ===== src/Kalloc/Search.antt =====
-- kernel/mm/kalloc.c: first fit on a list of chunks, and the walk of lx_malloc_internal that does it.
use os_learn.Base.{
  ℕ, suc, zero, ◌+◌, ◌-◌, ◌≡◌, ◌≤◌, ◌<◌, refl, ap, ◌∙◌, Bool, true, false, not, List, [], ◌∷◌,
  arith, ◌==◌, leb, ltb, u32, inl, inr, ◌&&◌, ◌||◌, if◌then◌else◌, Bool-cases, ne→==, Option, some,
  none, length, leb→le,
}
use os_learn.Kalloc.{Words, chunk_s, chunk_a, Fit, fits, full, first_fit}
use os_learn.Kalloc.Header.{IsSize, chunk_s-header, chunk_a-header}
use os_learn.Kalloc.Layout.{
  Chunk, free_chunk, used_chunk, prev_free, Before, After, apart, Heap, After-below,
}
use os_learn.Kalloc.Neighbours.{not-true}
use os_learn.Kalloc.Free.{and-both, apart-rest}
use os_learn.Kalloc.Place.{left_over}

-- The chunk is free and has room for `size` bytes.
unfoldable pub has_room : ℕ → Chunk → Bool
has_room size c = leb size c.size && not c.used

unfoldable pub in_front : Chunk → Option (ℕ × List Chunk) → Option (ℕ × List Chunk)
in_front c none = none
in_front c (some (q, cs)) = some (q, c ∷ cs)

-- First fit on a list of chunks whose first is at `p`: the address of the first chunk that has room,
-- and the list with that chunk used and what is left of it free.
pub alloc : ℕ → ℕ → List Chunk → Option (ℕ × List Chunk)
unfolding has_room
alloc size p [] = none
alloc size p (c ∷ cs) =
    let later = in_front c (alloc size (p + c.size) cs) in
    if has_room size c then some (p, used_chunk size ∷ left_over (c.size - size) cs) else later

-- The list of chunks, from the chunks before an address, the nearest first, and those from it on.
unfoldable pub whole_list : List Chunk → List Chunk → List Chunk
whole_list [] cs = cs
whole_list (c ∷ rev) cs = whole_list rev (c ∷ cs)

pub other_way : (a b : Bool) → (not (not a) || b) ≡ true → (not (not b) || a) ≡ true
other_way true true h = refl
other_way true false h = h
other_way false true h = h
other_way false false h = h

apart-turn :
    (u : Bool) (rev : List Chunk)
    → apart false rev ≡ true
    → (not (prev_free rev) || u) ≡ true
    → apart (not u) rev ≡ true
unfolding apart prev_free
apart-turn u [] h t = refl
apart-turn u (d ∷ rev) h t = rw (other_way d.used u t) h

-- From a chunk to the one after it.
pub Heap-forth :
    (m : Words) (start brk p : ℕ) (c : Chunk) (rev cs : List Chunk)
    → Heap m start brk rev p (c ∷ cs)
    → Heap m start brk (c ∷ rev) (p + c.size) cs
unfolding Before After apart prev_free
Heap-forth m start brk p c rev cs h = record {
  layout = record {
    low = h.layout.low;
    high = h.layout.high;
    before = (p, refl, h.layout.after.0, h.layout.before);
    after = h.layout.after.1;
  };
  apart_before = apart-turn c.used rev h.apart_before (and-both _ _ h.apart_after).0;
  apart_after = apart-rest (prev_free rev) c cs h.apart_after;
}

-- What the walk finds: the first chunk with room, as `alloc` does, or the end where `alloc` fails.
pub data Found (m : Words) (start brk size : ℕ) (rev : List Chunk) (p : ℕ) (cs : List Chunk)
    : Fit → Type 0 where
  hit :
      (rev' : List Chunk) (q s : ℕ) (cs' found : List Chunk)
      → Heap m start brk rev' q (free_chunk s ∷ cs')
      → size ≤ s
      → whole_list rev' (used_chunk size ∷ left_over (s - size) cs') ≡ whole_list rev found
      → alloc size p cs ≡ some (q, found)
      → Found m start brk size rev p cs (fits q)
  miss :
      (rev' : List Chunk)
      → Heap m start brk rev' brk []
      → whole_list rev' [] ≡ whole_list rev cs
      → alloc size p cs ≡ none
      → Found m start brk size rev p cs full

later-Found :
    (m : Words) (start brk size p : ℕ) (c : Chunk) (rev cs : List Chunk) (r : Fit)
    → has_room size c ≡ false
    → Found m start brk size (c ∷ rev) (p + c.size) cs r
    → Found m start brk size rev p (c ∷ cs) r
unfolding alloc whole_list in_front
later-Found m start brk size p c rev cs r no_room (hit rev' q s cs' found h le e a) =
    hit rev' q s cs' (c ∷ found) h le e (rw (no_room, a, in_front))
later-Found m start brk size p c rev cs r no_room (miss rev' h e a) =
    miss rev' h e (rw (no_room, a, in_front))

with_used : ℕ → Bool → Chunk
with_used size used = record { size = size; used = used }

here-Found :
    (m : Words) (start brk size p : ℕ) (c : Chunk) (rev cs : List Chunk)
    → has_room size c ≡ true
    → Heap m start brk rev p (c ∷ cs)
    → Found m start brk size rev p (c ∷ cs) (fits p)
unfolding alloc has_room with_used
here-Found m start brk size p c rev cs room h =
    let (large, free) = and-both _ _ room in
    let as_free : c ≡ free_chunk c.size = ap (with_used c.size) (not-true c.used free) in
    hit rev p c.size cs _ (rw as_free at h) (leb→le size c.size large) refl (rw (large, free) refl)

pub first_fit-Found :
    (fuel size start brk p : ℕ) (m : Words) (rev cs : List Chunk)
    → length cs < fuel
    → 4 ≤ size
    → Heap m start brk rev p cs
    → Found m start brk size rev p cs (first_fit fuel size brk p m)
unfolding first_fit alloc After has_room
first_fit-Found zero size start brk p m rev cs lt some_size h = absurd (omega (arith, lt))
first_fit-Found (suc fuel) size start brk p m rev [] lt some_size h =
    let e : p ≡ brk = h.layout.after.0 in
    let stop : (ltb p brk && not ((chunk_s (m p) == 0) && not (chunk_a (m p) == 0))) ≡ false =
      ground (arith, e) in
    rw (stop, first_fit) (miss rev (rw e at h) refl refl)
first_fit-Found (suc fuel) size start brk p m rev (c ∷ cs) lt some_size h =
    let (here, a) = h.layout.after in
    let below = After-below m brk (p + c.size) (not c.used) cs a in
    let small : IsSize c.size = (here.whole, omega (arith, h.layout.high, below)) in
    let room_here : chunk_s (m p) ≡ c.size =
      ap chunk_s here.word ∙ chunk_s-header c.size c.used (prev_free rev) small in
    let used_here : (chunk_a (m p) == 0) ≡ not c.used =
      ap (λ w. chunk_a w == 0) here.word ∙ chunk_a-header c.size c.used (prev_free rev) small in
    let inside : ltb p brk ≡ true = ground (arith, below, here.some_size) in
    let some_here : (c.size == 0) ≡ false = ne→== c.size 0 (omega (arith, here.some_size)) in
    let going : (ltb p brk && not ((chunk_s (m p) == 0) && not (chunk_a (m p) == 0))) ≡ true =
      rw (inside, room_here, some_here) refl in
    let test : (leb size (chunk_s (m p)) && (chunk_a (m p) == 0)) ≡ has_room size c =
      rw (room_here, used_here) refl in
    elim (Bool-cases (has_room size c)) [
      | inl room ↦
          rw (going, test ∙ room, first_fit) (here-Found m start brk size p c rev cs room h)
      | inr no_room ↦
          (let e : u32 (p + chunk_s (m p)) ≡ p + c.size =
              omega (arith, room_here, h.layout.high, below) in
            rw (going, test ∙ no_room, e, first_fit)
              (later-Found m start brk size p c rev cs _ no_room (
                first_fit-Found fuel size start brk (p + c.size) m (c ∷ rev) cs (omega (arith, lt))
                  some_size (Heap-forth m start brk p c rev cs h))))
    ]
