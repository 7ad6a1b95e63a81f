-- ===== src/Kalloc/Walk.antt =====
-- kernel/mm/kalloc.c: the walk of lx_malloc_internal over the chunks of the heap.
use os_learn.Base.{
  ℕ, zero, suc, ◌+◌, ◌*◌, ◌^◌, ◌≤◌, ◌<◌, ◌≡◌, inl, inr, true, false, ◌&&◌, not, arith, u32, ltb,
  leb, ◌==◌, Bool-cases,
}
use os_learn.Dmm.{HeapContext}
use os_learn.Kalloc.{Words, chunk_s, chunk_a, Fit, fits, full, first_fit, walk_fuel}

-- From `ptr` to the end of the heap there are `n` chunks, one after the other.
unfoldable pub Chunks : Words → ℕ → ℕ → ℕ → Type 0
Chunks m brk ptr zero = ptr ≡ brk
Chunks m brk ptr (suc n) =
    (ptr < brk) × (4 ≤ chunk_s (m ptr)) × Chunks m brk (ptr + chunk_s (m ptr)) n

-- The address of the chunk number `k`.
pub chunk_at : Words → ℕ → ℕ → ℕ
chunk_at m ptr zero = ptr
chunk_at m ptr (suc k) = chunk_at m (ptr + chunk_s (m ptr)) k

-- A chunk that is free and has room for `size`.
abbrev pub Fits : Words → ℕ → ℕ → Type 0
Fits m size ptr = (leb size (chunk_s (m ptr)) && (chunk_a (m ptr) == 0)) ≡ true

-- The walk over `n` chunks ends at the first that fits, or none fits.
pub data IsFirst (m : Words) (size ptr n : ℕ) : Fit → Type 0 where
  found :
      (k : ℕ)
      → k < n
      → Fits m size (chunk_at m ptr k)
      → ((j : ℕ) → j < k → ¬ Fits m size (chunk_at m ptr j))
      → IsFirst m size ptr n (fits (chunk_at m ptr k))
  none_fits : ((k : ℕ) → k < n → ¬ Fits m size (chunk_at m ptr k)) → IsFirst m size ptr n full

Chunks-below : (m : Words) (brk ptr n : ℕ) → Chunks m brk ptr n → n * 4 + ptr ≤ brk
unfolding Chunks
Chunks-below m brk ptr zero c = omega (arith, c)
Chunks-below m brk ptr (suc n) (l, s, c) =
    omega (arith, s, Chunks-below m brk (ptr + chunk_s (m ptr)) n c)

later-IsFirst :
    (m : Words) (size ptr n : ℕ) (r : Fit)
    → ¬ Fits m size ptr
    → IsFirst m size (ptr + chunk_s (m ptr)) n r
    → IsFirst m size ptr (suc n) r
unfolding chunk_at
later-IsFirst m size ptr n r ne (found k l f before) =
    found (suc k) (omega arith) f (λ j u. later j u)
  where
    later : (j : ℕ) → j < suc k → ¬ Fits m size (chunk_at m ptr j)
    later zero u = ne
    later (suc j) u = before j (omega arith)
later-IsFirst m size ptr n r ne (none_fits never) = none_fits later
  where
    later : (j : ℕ) → j < suc n → ¬ Fits m size (chunk_at m ptr j)
    later zero u = ne
    later (suc j) u = never j (omega arith)

first_fit-IsFirst :
    (fuel size brk ptr n : ℕ) (m : Words)
    → brk < 2 ^ 32
    → Chunks m brk ptr n
    → n < fuel
    → IsFirst m size ptr n (first_fit fuel size brk ptr m)
unfolding first_fit Chunks chunk_at
first_fit-IsFirst zero size brk ptr n m small c h = absurd (omega arith)
first_fit-IsFirst (suc fuel) size brk ptr zero m small c h =
    let stop : (ltb ptr brk && not ((chunk_s (m ptr) == 0) && not (chunk_a (m ptr) == 0))) ≡ false =
      ground (arith, c) in
    rw (stop, first_fit) (none_fits (λ k u. absurd (omega arith)))
first_fit-IsFirst (suc fuel) size brk ptr (suc n) m small (l, s, c) h =
    let going : (ltb ptr brk && not ((chunk_s (m ptr) == 0) && not (chunk_a (m ptr) == 0))) ≡ true =
      ground (arith, l, s) in
    elim (Bool-cases (leb size (chunk_s (m ptr)) && (chunk_a (m ptr) == 0))) [
      | inl good ↦
          rw (going, good, first_fit) (found 0 (omega arith) good (λ j u. absurd (omega arith)))
      | inr bad ↦
          (let e : u32 (ptr + chunk_s (m ptr)) ≡ ptr + chunk_s (m ptr) =
              omega (arith, Chunks-below m brk (ptr + chunk_s (m ptr)) n c) in
            rw (going, bad, e, first_fit)
              (later-IsFirst m size ptr n _ (λ f. cc)
                (first_fit-IsFirst fuel size brk (ptr + chunk_s (m ptr)) n m small c
                  (omega arith))))
    ]

-- The walk of lx_malloc_internal, on a heap of chunks from its start to its end: the fuel is enough,
-- and it ends at the first free chunk that has room, or finds none where there is none.
pub walk-IsFirst :
    (heap : HeapContext) (size n : ℕ) (m : Words)
    → heap.brk < 2 ^ 32
    → Chunks m heap.brk heap.start n
    → IsFirst m size heap.start n (first_fit (walk_fuel heap) size heap.brk heap.start m)
unfolding walk_fuel
walk-IsFirst heap size n m small c =
    first_fit-IsFirst (walk_fuel heap) size heap.brk heap.start n m small c
      (omega (arith, Chunks-below m heap.brk heap.start n c))
