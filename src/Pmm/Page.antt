-- ===== src/Pmm/Page.antt =====
-- kernel/mm/pmm.c: what marking single pages and whole bytes does to every page's state.
use os_learn.Base.{
  ℕ, ◌+◌, ◌-◌, ◌/◌, ◌%◌, ◌^◌, ◌<◌, ◌≡◌, refl, ap, bit_and, bit_or, Bool, true, false, ◌&&◌, arith,
  not32, bit, bit-bit_and, bit-bit_or, bit-u8, bit-le-one, table_eq, all_below, all_below_holds,
  bit_and-pow, ltb, leb, ◌==◌, if◌then◌else◌, fill, fill_lem,
}
use native.Mathlib.Nat.{one-le-pow}
use os_learn.Pmm.{Bitmap, clear_bits, set_bits, page_mask, mark_page_free, mark_page_occupied}

-- The bit that stands for a page.
abbrev pub page_bit : Bitmap → ℕ → ℕ
page_bit bm ppn = bit (bm (ppn / 8)) (7 - ppn % 8)

-- A page is free when its bit is clear.
abbrev pub is_free : Bitmap → ℕ → Bool
is_free bm ppn = page_bit bm ppn == 0

not32_table : all_below 256 (λ m. all_below 8 (λ k. bit (not32 m) k == 1 - bit m k)) ≡ true
unfolding all_below bit
not32_table = refl

bit-not32 : (m k : ℕ) → m < 256 → k < 8 → bit (not32 m) k ≡ 1 - bit m k
bit-not32 m k hm hk =
    table_eq 8 (λ k. bit (not32 m) k) (λ k. 1 - bit m k) k hk
      (all_below_holds 256 (λ m. all_below 8 (λ k. bit (not32 m) k == 1 - bit m k)) m hm
        not32_table)

-- Clearing and setting by a mask below 256.
pub is_free-clear_bits :
    (bm : Bitmap) (g m q : ℕ)
    → m < 256
    → is_free (clear_bits bm g m) q
      ≡ (if (g == q / 8) && (bit m (7 - q % 8) == 1) then true else is_free bm q)
unfolding clear_bits
is_free-clear_bits bm g m q h = ground (
  arith,
  bit-u8 (bit_and (bm g) (not32 m)) (7 - q % 8),
  bit-bit_and (bm g) (not32 m) (7 - q % 8),
  bit-not32 m (7 - q % 8),
  bit-le-one m (7 - q % 8),
  bit-le-one (bm g) (7 - q % 8),
  ap (λ t. bit (bm t) (7 - q % 8)) {x = g} {y = q / 8},
)

pub is_free-set_bits :
    (bm : Bitmap) (g m q : ℕ)
    → is_free (set_bits bm g m) q
      ≡ (if (g == q / 8) && (bit m (7 - q % 8) == 1) then false else is_free bm q)
unfolding set_bits
is_free-set_bits bm g m q = ground (
  arith,
  bit-u8 (bit_or (bm g) m) (7 - q % 8),
  bit-bit_or (bm g) m (7 - q % 8),
  bit-le-one m (7 - q % 8),
  bit-le-one (bm g) (7 - q % 8),
  ap (λ t. bit (bm t) (7 - q % 8)) {x = g} {y = q / 8},
)

page_mask_table :
    all_below 8 (λ i. all_below 8 (λ j. bit (page_mask i) (7 - j) == (if i == j then 1 else 0)))
    ≡ true
unfolding all_below bit
page_mask_table = refl

bit-page_mask : (i j : ℕ) → i < 8 → j < 8 → bit (page_mask i) (7 - j) ≡ (if i == j then 1 else 0)
bit-page_mask i j hi hj =
    table_eq 8 (λ j. bit (page_mask i) (7 - j)) (λ j. if i == j then 1 else 0) j hj
      (all_below_holds 8
        (λ i. all_below 8 (λ j. bit (page_mask i) (7 - j) == (if i == j then 1 else 0))) i hi
        page_mask_table)

page_mask-pow_table : all_below 8 (λ i. page_mask i == 2 ^ (7 - i)) ≡ true
unfolding all_below
page_mask-pow_table = refl

pub page_mask-pow : (i : ℕ) → i < 8 → page_mask i ≡ 2 ^ (7 - i)
page_mask-pow i h = table_eq 8 page_mask (λ i. 2 ^ (7 - i)) i h page_mask-pow_table

page_mask-lt : (i : ℕ) → page_mask i < 256
page_mask-lt i = omega arith

-- Marking one page free frees that page and leaves every other page as it was.
pub is_free-mark_page_free :
    (bm : Bitmap) (p q : ℕ)
    → is_free (mark_page_free bm p) q ≡ (if p == q then true else is_free bm q)
unfolding mark_page_free
is_free-mark_page_free bm p q = ground (
  arith,
  is_free-clear_bits bm (p / 8) (page_mask (p % 8)) q (page_mask-lt (p % 8)),
  bit-page_mask (p % 8) (q % 8),
)

-- Marking one page occupied takes that page and leaves every other page as it was.
pub is_free-mark_page_occupied :
    (bm : Bitmap) (p q : ℕ)
    → is_free (mark_page_occupied bm p) q ≡ (if p == q then false else is_free bm q)
unfolding mark_page_occupied
is_free-mark_page_occupied bm p q =
    ground (arith, is_free-set_bits bm (p / 8) (page_mask (p % 8)) q, bit-page_mask (p % 8) (q % 8))

-- Whole bytes written by 0 or by 0xFF.
zero_table : all_below 8 (λ k. bit 0 k == 0) ≡ true
unfolding all_below bit
zero_table = refl

ones_table : all_below 8 (λ k. bit 0xff k == 1) ≡ true
unfolding all_below bit
ones_table = refl

pub is_free-fill-zero :
    (n from : ℕ) (bm : Bitmap) (q : ℕ)
    → is_free (fill n from 0 bm) q
      ≡ (if leb from (q / 8) && ltb (q / 8) (from + n) then true else is_free bm q)
is_free-fill-zero n from bm q =
    rw (fill_lem n from 0 bm (q / 8))
      (ground (arith, table_eq 8 (bit 0) (λ _. 0) (7 - q % 8) (omega arith) zero_table))

pub is_free-fill-ones :
    (n from : ℕ) (bm : Bitmap) (q : ℕ)
    → is_free (fill n from 0xff bm) q
      ≡ (if leb from (q / 8) && ltb (q / 8) (from + n) then false else is_free bm q)
is_free-fill-ones n from bm q =
    rw (fill_lem n from 0xff bm (q / 8))
      (ground (arith, table_eq 8 (bit 0xff) (λ _. 1) (7 - q % 8) (omega arith) ones_table))

-- The allocator's test of one bit of a byte.
pub page_test :
    (bm : Bitmap) (q : ℕ) → (bit_and (bm (q / 8)) (page_mask (q % 8)) == 0) ≡ is_free bm q
page_test bm q = ground (
  arith,
  page_mask-pow (q % 8) (omega arith),
  ap (λ t. bit_and (bm (q / 8)) t) (page_mask-pow (q % 8) (omega arith)),
  bit_and-pow (7 - q % 8) (bm (q / 8)),
  bit-le-one (bm (q / 8)) (7 - q % 8),
  one-le-pow (7 - q % 8) 2,
)

-- No page of a byte 0xFF is free.
pub full_byte : (bm : Bitmap) (q : ℕ) → bm (q / 8) ≡ 0xff → is_free bm q ≡ false
full_byte bm q full =
    rw full (ground (arith, table_eq 8 (bit 0xff) (λ _. 1) (7 - q % 8) (omega arith) ones_table))
