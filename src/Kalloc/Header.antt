-- ===== src/Kalloc/Header.antt =====
-- kernel/mm/kalloc.c, includes/awa/mm/kalloc.h: what the header macros take from a header, and what
-- the operations put into one.
use os_learn.Base.{
  ℕ, ◌+◌, ◌*◌, ◌/◌, ◌%◌, ◌^◌, ◌≡◌, ◌<◌, ap, ◌∙◌, Bool, true, false, not, arith, min, bit_and,
  bit_or, bit_and_lowest, bit_or_lowest, bit_and-low_mask, bit_and-high_mask, bit_and-zero,
  bit_or-zero, bit_or-fields, ◌==◌, if◌then◌else◌,
}
use os_learn.Kalloc.{chunk_s, chunk_pf, chunk_a, pack, drop_flag}

-- The header of a chunk: its size, a multiple of 4, whether it is used, and whether the chunk before
-- it is free.
abbrev pub header : ℕ → Bool → Bool → ℕ
header size used before_free = size + (if used then 1 else 0) + (if before_free then 2 else 0)

-- `M_PREV_FREE`, or not.
abbrev pub pf_flag : Bool → ℕ
pf_flag before_free = if before_free then 2 else 0

-- A size is a multiple of 4 that fits into the header.
abbrev pub IsSize : ℕ → Type 0
IsSize size = (size % 4 ≡ 0) × (size < 2 ^ 32)

high_mask : (x : ℕ) → x < 2 ^ 32 → bit_and x 0xffff_fffc ≡ x / 4 * 4
high_mask x small = omega (arith, bit_and-high_mask 2 0x3fff_ffff x, bit_and-low_mask 30 (x / 4))

-- `&` and `|` with a number below 4 work on the low two bits.
and_low : (x y : ℕ) → y < 4 → bit_and x y ≡ min (x % 2) (y % 2) + min (x / 2 % 2) (y / 2 % 2) * 2
and_low x y small = omega (
  arith,
  bit_and_lowest x y,
  bit_and_lowest (x / 2) (y / 2),
  ap (λ t. bit_and (x / 2 / 2) t) quarter ∙ bit_and-zero (x / 2 / 2),
)
  where
    quarter : y / 2 / 2 ≡ 0
    quarter = omega arith

or_low : (x y : ℕ) → y < 4 → bit_or (x * 4) y ≡ x * 4 + y
or_low x y small = bit_or-fields 2 x y small

pub chunk_s-header : (s : ℕ) (u pf : Bool) → IsSize s → chunk_s (header s u pf) ≡ s
unfolding chunk_s
chunk_s-header s true true h = omega (arith, h, high_mask (header s true true) (omega (arith, h)))
chunk_s-header s true false h = omega (arith, h, high_mask (header s true false) (omega (arith, h)))
chunk_s-header s false true h = omega (arith, h, high_mask (header s false true) (omega (arith, h)))
chunk_s-header s false false h =
    omega (arith, h, high_mask (header s false false) (omega (arith, h)))

pub chunk_a-header : (s : ℕ) (u pf : Bool) → IsSize s → (chunk_a (header s u pf) == 0) ≡ not u
unfolding chunk_a
chunk_a-header s true true h = ground (arith, h, and_low (header s true true) 1 (omega arith))
chunk_a-header s true false h = ground (arith, h, and_low (header s true false) 1 (omega arith))
chunk_a-header s false true h = ground (arith, h, and_low (header s false true) 1 (omega arith))
chunk_a-header s false false h = ground (arith, h, and_low (header s false false) 1 (omega arith))

pub chunk_pf-header : (s : ℕ) (u pf : Bool) → IsSize s → chunk_pf (header s u pf) ≡ pf_flag pf
unfolding chunk_pf
chunk_pf-header s true true h = ground (arith, h, and_low (header s true true) 2 (omega arith))
chunk_pf-header s true false h = ground (arith, h, and_low (header s true false) 2 (omega arith))
chunk_pf-header s false true h = ground (arith, h, and_low (header s false true) 2 (omega arith))
chunk_pf-header s false false h = ground (arith, h, and_low (header s false false) 2 (omega arith))

-- `PACK(size, pf)` and `PACK(size, pf | M_ALLOCATED)`.
pub pack-free : (s : ℕ) (pf : Bool) → IsSize s → pack s (pf_flag pf) ≡ header s false pf
unfolding pack
pack-free s true h = omega (
  arith,
  h,
  high_mask s (h.1),
  ap (λ t. bit_or t 2) (high_mask s (h.1)),
  or_low (s / 4) 2 (omega arith),
)
pack-free s false h = omega (arith, h, high_mask s (h.1), bit_or-zero (bit_and s 0xffff_fffc))

pub pack-used : (s : ℕ) (pf : Bool) → IsSize s → pack s (bit_or (pf_flag pf) 1) ≡ header s true pf
unfolding pack
pack-used s true h = omega (
  arith,
  h,
  high_mask s (h.1),
  ap (λ t. bit_or t 3) (high_mask s (h.1)),
  or_low (s / 4) 3 (omega arith),
)
pack-used s false h = omega (
  arith,
  h,
  high_mask s (h.1),
  ap (λ t. bit_or t 1) (high_mask s (h.1)),
  or_low (s / 4) 1 (omega arith),
)

drop_used : (x : ℕ) → x < 2 ^ 32 → drop_flag x 1 ≡ x / 2 * 2
drop_used x small = omega (arith, bit_and-high_mask 1 0x7fff_ffff x, bit_and-low_mask 31 (x / 2))

drop_pf : (x : ℕ) → x < 2 ^ 32 → drop_flag x 2 ≡ x / 4 * 4 + x % 2
drop_pf x small = omega (
  arith,
  bit_and_lowest x 0xffff_fffd,
  bit_and-high_mask 1 0x3fff_ffff (x / 2),
  bit_and-low_mask 30 (x / 2 / 2),
)

set_pf : (x : ℕ) → bit_or x 2 ≡ x / 4 * 4 + 2 + x % 2
set_pf x = omega (arith, bit_or_lowest x 2, bit_or_lowest (x / 2) 1, bit_or-zero (x / 2 / 2))

-- `header & ~M_ALLOCATED`, `header & ~M_PREV_FREE` and `header | M_PREV_FREE`.
pub drop_flag-used :
    (s : ℕ) (u pf : Bool) → IsSize s → drop_flag (header s u pf) 1 ≡ header s false pf
drop_flag-used s true true h = omega (arith, h, drop_used (header s true true) (omega (arith, h)))
drop_flag-used s true false h = omega (arith, h, drop_used (header s true false) (omega (arith, h)))
drop_flag-used s false true h = omega (arith, h, drop_used (header s false true) (omega (arith, h)))
drop_flag-used s false false h =
    omega (arith, h, drop_used (header s false false) (omega (arith, h)))

pub drop_flag-pf : (s : ℕ) (u pf : Bool) → IsSize s → drop_flag (header s u pf) 2 ≡ header s u false
drop_flag-pf s true true h = omega (arith, h, drop_pf (header s true true) (omega (arith, h)))
drop_flag-pf s true false h = omega (arith, h, drop_pf (header s true false) (omega (arith, h)))
drop_flag-pf s false true h = omega (arith, h, drop_pf (header s false true) (omega (arith, h)))
drop_flag-pf s false false h = omega (arith, h, drop_pf (header s false false) (omega (arith, h)))

pub bit_or-pf : (s : ℕ) (u pf : Bool) → IsSize s → bit_or (header s u pf) 2 ≡ header s u true
bit_or-pf s true true h = omega (arith, h, set_pf (header s true true))
bit_or-pf s true false h = omega (arith, h, set_pf (header s true false))
bit_or-pf s false true h = omega (arith, h, set_pf (header s false true))
bit_or-pf s false false h = omega (arith, h, set_pf (header s false false))
