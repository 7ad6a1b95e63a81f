-- ===== src/Pmm/Chunk.antt =====
-- kernel/mm/pmm.c: which pages pmm_mark_chunk_free and pmm_mark_chunk_occupied mark.
use os_learn.Base.{
  ℕ, ◌+◌, ◌-◌, ◌*◌, ◌/◌, ◌%◌, ◌<◌, ◌≤◌, ◌≡◌, refl, ◌∙◌, Bool, true, false, ◌&&◌, arith, bit,
  table_eq, all_below, all_below_holds, not, ◌||◌, ltb, leb, ◌==◌, Bool-cases, inl, inr,
  if◌then◌else◌, fill, u32,
}
use native.Mathlib.Decide.{dec_lt}
use os_learn.Pmm.{
  Bitmap, chunk_vars, run_mask, leading_mask, trailing_mask, clear_bits, set_bits, mark_chunk_free,
  mark_chunk_occupied,
}
use os_learn.Pmm.Page.{
  is_free, is_free-clear_bits, is_free-set_bits, is_free-fill-zero, is_free-fill-ones,
}

-- How many pages from `start` on the routines reach: all of them, unless at most eight pages
-- straddle two bytes, where they stop at the end of the first.
abbrev pub covered : ℕ → ℕ → ℕ
covered start n = if leb n 8 && ltb 8 (start % 8 + n) then 8 - start % 8 else n

abbrev run_test : ℕ → ℕ → ℕ → ℕ
run_test n shift j = if leb (n + shift) 8 then bit (run_mask n shift) (7 - j) else 0

abbrev run_spec : ℕ → ℕ → ℕ → ℕ
run_spec n shift j =
    if leb (n + shift) 8 && leb (8 - shift - n) j && ltb j (8 - shift) then 1 else 0

run_mask_table :
    all_below 9 (λ n. all_below 9 (λ k. all_below 8 (λ j. run_test n k j == run_spec n k j))) ≡ true
unfolding all_below bit
run_mask_table = refl

-- The mask of a run has the bits of its pages.
bit-run_mask :
    (n shift j : ℕ)
    → n + shift ≤ 8
    → j < 8
    → bit (run_mask n shift) (7 - j) ≡ (if leb (8 - shift - n) j && ltb j (8 - shift) then 1 else 0)
bit-run_mask n shift j h hj = ground (
  arith,
  table_eq 8 (run_test n shift) (run_spec n shift) j hj (
      all_below_holds 9 (λ k. all_below 8 (λ j. run_test n k j == run_spec n k j)) shift
        (omega arith)
        (all_below_holds 9
          (λ n. all_below 9 (λ k. all_below 8 (λ j. run_test n k j == run_spec n k j))) n
          (omega arith) run_mask_table)),
)

-- The page `q` is one that the first byte's mask, the whole bytes, or the last byte's mask marks.
abbrev in_leading : ℕ → ℕ → ℕ → Bool
in_leading s n q =
    let v = chunk_vars s n in (v.group == q / 8) && (bit (leading_mask v) (7 - q % 8) == 1)

abbrev in_whole : ℕ → ℕ → ℕ → Bool
in_whole s n q =
    let v = chunk_vars s n in
    leb (v.group + 1) (q / 8) && ltb (q / 8) (v.group + 1 + (v.group_count - 1))

abbrev in_trailing : ℕ → ℕ → ℕ → Bool
in_trailing s n q =
    let v = chunk_vars s n in
    (v.group + 1 + (v.group_count - 1) == q / 8) && (bit (trailing_mask n v) (7 - q % 8) == 1)

in_leading_lem :
    (s n q : ℕ)
    → n + s % 8 < 0x1_0000_0000
    → in_leading s n q ≡ (
        (s / 8 == q / 8)
        && leb (s % 8) (q % 8)
        && ltb (q % 8) (if ltb (n + s % 8) 8 then s % 8 + n else 8))
in_leading_lem s n q h = elim (Bool-cases (ltb (n + s % 8) 8)) [
  | inl less ↦ ground (arith, bit-run_mask n (8 - s % 8 - n) (q % 8))
  | inr more ↦ ground (arith, bit-run_mask (8 - s % 8) 0 (q % 8))
]

in_trailing_lem :
    (s n q : ℕ)
    → n + s % 8 < 0x1_0000_0000
    → in_trailing s n q
      ≡ (ltb 8 n && ((s / 8 + 1 + ((n + s % 8) / 8 - 1) == q / 8) && ltb (q % 8) ((n + s % 8) % 8)))
in_trailing_lem s n q h = elim (Bool-cases (ltb 8 n)) [
  | inl long ↦ ground (arith, bit-run_mask ((n + s % 8) % 8) (8 - (n + s % 8) % 8) (q % 8))
  | inr short ↦ ground (arith, bit-run_mask 0 (8 - (n + s % 8) % 8) (q % 8))
]

-- The arithmetic of a run in bytes `a`, `g` and bits `o`, `j`: short, and over several bytes.
run_short :
    (a o g j n : ℕ)
    → n + o < 8
    → j < 8
    → ((a == g) && leb o j && ltb j (o + n))
      ≡ (leb (a * 8 + o) (g * 8 + j) && ltb (g * 8 + j) (a * 8 + o + n))
run_short a o g j n h hj = ground arith

run_one_byte :
    (a o g j : ℕ)
    → o < 8
    → j < 8
    → ((a == g) && leb o j && ltb j 8)
      ≡ (leb (a * 8 + o) (g * 8 + j) && ltb (g * 8 + j) (a * 8 + 8))
run_one_byte a o g j h hj = ground arith

run_long :
    (a o g j c r : ℕ)
    → o < 8
    → j < 8
    → r < 8
    → 1 ≤ c
    → ((a == g) && leb o j && ltb j 8
        || leb (a + 1) g && ltb g (a + 1 + (c - 1))
        || (a + 1 + (c - 1) == g) && ltb j r)
      ≡ (leb (a * 8 + o) (g * 8 + j) && ltb (g * 8 + j) (a * 8 + c * 8 + r))
run_long a o g j c r h hj hr hc = ground arith

module _ (s n q : ℕ) (h : n + s % 8 < 0x1_0000_0000) where
  abbrev Reached : Type 0
  Reached =
      (in_leading s n q || in_whole s n q || in_trailing s n q)
      ≡ (leb s q && ltb q (s + covered s n))

  whole_lem :
      in_whole s n q ≡ (leb (s / 8 + 1) (q / 8) && ltb (q / 8) (s / 8 + 1 + ((n + s % 8) / 8 - 1)))
  whole_lem = ground arith

  reached_short : n + s % 8 < 8 → Reached
  reached_short less =
      rw (in_leading_lem s n q h, in_trailing_lem s n q h, whole_lem)
        (ground (arith, run_short (s / 8) (s % 8) (q / 8) (q % 8) n))

  reached_one_byte : 8 ≤ n + s % 8 → n ≤ 8 → Reached
  reached_one_byte more few =
      rw (in_leading_lem s n q h, in_trailing_lem s n q h, whole_lem)
        (ground (arith, run_one_byte (s / 8) (s % 8) (q / 8) (q % 8)))

  reached_long : 8 < n → Reached
  reached_long long =
      rw (in_leading_lem s n q h, in_trailing_lem s n q h, whole_lem)
        (ground
          (arith, run_long (s / 8) (s % 8) (q / 8) (q % 8) ((n + s % 8) / 8) ((n + s % 8) % 8)))

  reached : Reached
  reached = elim (dec_lt 8 n) [
    | yes long ↦ reached_long long
    | no few ↦ elim (dec_lt (n + s % 8) 8) [
      | yes less ↦ reached_short less
      | no more ↦ reached_one_byte (omega arith) (omega arith)
    ]
  ]

abbrev fits_byte : ℕ → ℕ → Bool
fits_byte n shift = not (leb (n + shift) 8) || ltb (run_mask n shift) 256

fits_byte_table : all_below 9 (λ n. all_below 9 (fits_byte n)) ≡ true
unfolding all_below
fits_byte_table = refl

run_mask-lt : (n shift : ℕ) → n + shift ≤ 8 → run_mask n shift < 256
run_mask-lt n shift h = ground (
  arith,
  all_below_holds 9 (fits_byte n) shift (omega arith)
      (all_below_holds 9 (λ n. all_below 9 (fits_byte n)) n (omega arith) fits_byte_table),
)

-- The masks stay inside a byte.
leading_mask-lt : (s n : ℕ) → n + s % 8 < 0x1_0000_0000 → leading_mask (chunk_vars s n) < 256
leading_mask-lt s n h = elim (Bool-cases (ltb (n + s % 8) 8)) [
  | inl less ↦ ground (arith, run_mask-lt n (8 - s % 8 - n))
  | inr more ↦ ground (arith, run_mask-lt (8 - s % 8) 0)
]

trailing_mask-lt : (s n : ℕ) → trailing_mask n (chunk_vars s n) < 256
trailing_mask-lt s n = elim (Bool-cases (ltb 8 n)) [
  | inl long ↦ ground (arith, run_mask-lt (u32 (n + s % 8) % 8) (8 - u32 (n + s % 8) % 8))
  | inr short ↦ ground (arith, run_mask-lt 0 (8 - u32 (n + s % 8) % 8))
]

-- pmm_mark_chunk_free, for a page count that does not wrap: exactly the pages of the run that
-- it reaches become free, and every other page is left as it was.
pub is_free-mark_chunk_free :
    (bm : Bitmap) (s n q : ℕ)
    → n + s % 8 < 0x1_0000_0000
    → is_free (mark_chunk_free bm s n) q
      ≡ (if leb s q && ltb q (s + covered s n) then true else is_free bm q)
unfolding mark_chunk_free
is_free-mark_chunk_free bm s n q h =
    let v = chunk_vars s n in
    let first = clear_bits bm v.group (leading_mask v) in
    let whole = fill (v.group_count - 1) (v.group + 1) 0 first in
    rw (← reached s n q h) (
      ground (
        arith,
        is_free-clear_bits whole (v.group + 1 + (v.group_count - 1)) (trailing_mask n v) q
            (trailing_mask-lt s n),
        is_free-fill-zero (v.group_count - 1) (v.group + 1) first q,
        is_free-clear_bits bm v.group (leading_mask v) q (leading_mask-lt s n h),
      ))

-- pmm_mark_chunk_occupied, for a page count that does not wrap: exactly the pages of the run that
-- it reaches become occupied, and every other page is left as it was.
pub is_free-mark_chunk_occupied :
    (bm : Bitmap) (s n q : ℕ)
    → n + s % 8 < 0x1_0000_0000
    → is_free (mark_chunk_occupied bm s n) q
      ≡ (if leb s q && ltb q (s + covered s n) then false else is_free bm q)
unfolding mark_chunk_occupied
is_free-mark_chunk_occupied bm s n q h =
    let v = chunk_vars s n in
    let first = set_bits bm v.group (leading_mask v) in
    let whole = fill (v.group_count - 1) (v.group + 1) 0xff first in
    rw (← reached s n q h) (
      ground (
        arith,
        is_free-set_bits whole (v.group + 1 + (v.group_count - 1)) (trailing_mask n v) q,
        is_free-fill-ones (v.group_count - 1) (v.group + 1) first q,
        is_free-set_bits bm v.group (leading_mask v) q,
      ))

-- Both routines leave the pages of the second byte as they were when at most eight pages straddle
-- two bytes, though those pages belong to the run.
pub chunk_straddle :
    (bm : Bitmap) (s n q : ℕ)
    → n ≤ 8
    → 8 < s % 8 + n
    → s / 8 * 8 + 8 ≤ q
    → q < s + n
    → (is_free (mark_chunk_free bm s n) q ≡ is_free bm q)
      × (is_free (mark_chunk_occupied bm s n) q ≡ is_free bm q)
chunk_straddle bm s n q few over from below = (
  is_free-mark_chunk_free bm s n q (omega arith) ∙ ground arith,
  is_free-mark_chunk_occupied bm s n q (omega arith) ∙ ground arith,
)
