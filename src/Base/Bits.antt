-- ===== src/Base/Bits.antt =====
-- Single bits of a word, and what `&`, `|`, `^`, masks and shifts do to them.
use Prim.Native.Nat.{ℕ, zero, suc, ◌+◌, ◌-◌, ◌*◌, ◌/◌, ◌%◌, ◌^◌, ◌≤◌, ◌<◌, min, max}
use Prim.Native.Nat.{bit_and, bit_or, bit_and-bitwise, bit_or-bitwise, digits, bitwise}
use mathlib.Core.Path.{◌≡◌, refl, ◌∙◌, ap, ap₂}
use mathlib.Core.Bool.{Bool, true, ◌&&◌}
use native.Mathlib.Nat.{pow-suc, one-le-pow, le_refl, div-div-eq-div-mul}
use native.Mathlib.Omega.{arith}
use os_learn.Base.Compare.{◌==◌, ==→eq}

-- `uint8_t`, `uint16_t` and `uint32_t` keep the low bits.
abbrev pub u8 : ℕ → ℕ
u8 n = n % 0x100

abbrev pub u16 : ℕ → ℕ
u16 n = n % 0x1_0000

abbrev pub u32 : ℕ → ℕ
u32 n = n % 0x1_0000_0000

-- `~x` on `uint32_t`.
abbrev pub not32 : ℕ → ℕ
not32 x = 0xffff_ffff - x

-- Bit `k` of `x`, as 0 or 1.
unfoldable pub bit : ℕ → ℕ → ℕ
bit x zero = x % 2
bit x (suc k) = bit (x / 2) k

module _ (z : ℕ → ℕ) (f : ℕ → ℕ → ℕ) where
  -- Fuel above the number's size makes no difference.
  digits_enough : (m n a b : ℕ) → a ≤ m → a ≤ n → digits z f m a b ≡ digits z f n a b
  digits_enough zero zero a b p q = refl
  digits_enough zero (suc n) zero b p q = refl
  digits_enough zero (suc n) (suc a) b p q = absurd (omega arith)
  digits_enough (suc m) zero zero b p q = refl
  digits_enough (suc m) zero (suc a) b p q = absurd (omega arith)
  digits_enough (suc m) (suc n) zero b p q = refl
  digits_enough (suc m) (suc n) (suc a) b p q =
      rw (digits_enough m n (suc a / 2) (b / 2) (omega arith) (omega arith))

  bitwise_lowest :
      (a b : ℕ)
      → bitwise z f (suc a) b ≡ bitwise z f (suc a / 2) (b / 2) * 2 + f (suc a % 2) (b % 2)
  bitwise_lowest a b =
      omega (arith, digits_enough a (suc a / 2) (suc a / 2) (b / 2) (omega arith) (le_refl _))

pub bit_and_lowest : (a b : ℕ) → bit_and a b ≡ bit_and (a / 2) (b / 2) * 2 + min (a % 2) (b % 2)
bit_and_lowest zero b = simp bit_and-bitwise (omega arith)
bit_and_lowest (suc a) b = simp bit_and-bitwise (bitwise_lowest (λ _. 0) min a b)

pub bit_or_lowest : (a b : ℕ) → bit_or a b ≡ bit_or (a / 2) (b / 2) * 2 + max (a % 2) (b % 2)
bit_or_lowest zero b = simp bit_or-bitwise (omega arith)
bit_or_lowest (suc a) b = simp bit_or-bitwise (bitwise_lowest (λ y. y) max a b)

pub bit-le-one : (x k : ℕ) → bit x k ≤ 1
unfolding bit
bit-le-one x zero = omega arith
bit-le-one x (suc k) = bit-le-one (x / 2) k

-- `&` and `|` work bit by bit.
pub bit-bit_and : (a b k : ℕ) → bit (bit_and a b) k ≡ min (bit a k) (bit b k)
unfolding bit
bit-bit_and a b zero = omega (arith, bit_and_lowest a b)
bit-bit_and a b (suc k) =
    ap (λ t. bit t k) (omega (arith, bit_and_lowest a b)) ∙ bit-bit_and (a / 2) (b / 2) k

pub bit-bit_or : (a b k : ℕ) → bit (bit_or a b) k ≡ max (bit a k) (bit b k)
unfolding bit
bit-bit_or a b zero = omega (arith, bit_or_lowest a b)
bit-bit_or a b (suc k) =
    ap (λ t. bit t k) (omega (arith, bit_or_lowest a b)) ∙ bit-bit_or (a / 2) (b / 2) k

bit_and-zero_below : (n a : ℕ) → a ≤ n → bit_and a 0 ≡ 0
bit_and-zero_below n zero h = refl
bit_and-zero_below zero (suc a) h = absurd (omega arith)
bit_and-zero_below (suc n) (suc a) h =
    omega (arith, bit_and_lowest (suc a) 0, bit_and-zero_below n (suc a / 2) (omega arith))

pub bit_and-zero : (a : ℕ) → bit_and a 0 ≡ 0
bit_and-zero a = bit_and-zero_below a a (le_refl a)

-- A mask of one bit takes that bit.
pub bit_and-pow : (k a : ℕ) → bit_and a (2 ^ k) ≡ bit a k * 2 ^ k
unfolding bit
bit_and-pow zero a = omega (arith, bit_and_lowest a 1, bit_and-zero (a / 2))
bit_and-pow (suc k) a = ground (
  arith,
  pow-suc 2 k,
  bit_and_lowest a (2 ^ suc k),
  ap (λ (t : ℕ). bit_and (a / 2) t) half,
  ap (λ (t : ℕ). bit (a / 2) k * t) (pow-suc 2 k),
  bit_and-pow k (a / 2),
)
  where
    half : 2 ^ suc k / 2 ≡ 2 ^ k
    half = omega (arith, pow-suc 2 k)

mul-pow-suc : (q k : ℕ) → q * 2 ^ suc k ≡ 2 * (q * 2 ^ k)
mul-pow-suc q k = omega (arith, ap (λ (t : ℕ). q * t) (pow-suc 2 k))

bit_and-mask_sum : (k q r : ℕ) → r < 2 ^ k → bit_and (q * 2 ^ k + r) (2 ^ k - 1) ≡ r
bit_and-mask_sum zero q r fits = omega (arith, bit_and-zero (q * 1 + r))
bit_and-mask_sum (suc k) q r fits = ground (
  arith,
  bit_and_lowest (q * 2 ^ suc k + r) (2 ^ suc k - 1),
  mul-pow-suc q k,
  pow-suc 2 k,
  bit_and-mask_sum k q (r / 2) (omega (arith, pow-suc 2 k)),
)

-- A mask of `k` low bits is the remainder by `2 ^ k`.
pub bit_and-low_mask : (k a : ℕ) → bit_and a (2 ^ k - 1) ≡ a % 2 ^ k
bit_and-low_mask k a = ground (arith, one-le-pow k 2, bit_and-mask_sum k (a / 2 ^ k) (a % 2 ^ k))

bit_or-zero_below : (n a : ℕ) → a ≤ n → bit_or a 0 ≡ a
bit_or-zero_below n zero h = refl
bit_or-zero_below zero (suc a) h = absurd (omega arith)
bit_or-zero_below (suc n) (suc a) h =
    omega (arith, bit_or_lowest (suc a) 0, bit_or-zero_below n (suc a / 2) (omega arith))

pub bit_or-zero : (a : ℕ) → bit_or a 0 ≡ a
bit_or-zero a = bit_or-zero_below a a (le_refl a)

-- A field below bit `k` is added to what stands above it.
pub bit_or-fields : (k q r : ℕ) → r < 2 ^ k → bit_or (q * 2 ^ k) r ≡ q * 2 ^ k + r
bit_or-fields zero q r fits = ground (arith, bit_or-zero (q * 1))
bit_or-fields (suc k) q r fits = ground (
  arith,
  bit_or_lowest (q * 2 ^ suc k) r,
  mul-pow-suc q k,
  bit_or-fields k q (r / 2) (omega (arith, pow-suc 2 k)),
)

-- The low byte has the low eight bits.
pub bit-u8 : (x k : ℕ) → k < 8 → bit (u8 x) k ≡ bit x k
unfolding bit
bit-u8 x zero h = omega arith
bit-u8 x (suc zero) h = omega arith
bit-u8 x (suc (suc zero)) h = omega arith
bit-u8 x (suc (suc (suc zero))) h = omega arith
bit-u8 x (suc (suc (suc (suc zero)))) h = omega arith
bit-u8 x (suc (suc (suc (suc (suc zero))))) h = omega arith
bit-u8 x (suc (suc (suc (suc (suc (suc zero)))))) h = omega arith
bit-u8 x (suc (suc (suc (suc (suc (suc (suc zero))))))) h = omega arith
bit-u8 x (suc (suc (suc (suc (suc (suc (suc (suc k)))))))) h = absurd (omega arith)

-- A property of finitely many numbers, checked by evaluation.
unfoldable pub all_below : ℕ → (ℕ → Bool) → Bool
all_below zero p = true
all_below (suc n) p = p n && all_below n p

pub all_below_holds : (n : ℕ) (p : ℕ → Bool) (x : ℕ) → x < n → all_below n p ≡ true → p x ≡ true
unfolding all_below
all_below_holds zero p x lt h = absurd (omega arith)
all_below_holds (suc n) p x lt h = ground (arith, all_below_holds n p x)

-- Two functions that agree by a table below `n` agree at each number below `n`.
pub table_eq :
    (n : ℕ) (f g : ℕ → ℕ) (x : ℕ) → x < n → all_below n (λ y. f y == g y) ≡ true → f x ≡ g x
table_eq n f g x lt h = ==→eq (f x) (g x) (all_below_holds n (λ y. f y == g y) x lt h)

bit_and-le_below : (n a b : ℕ) → a ≤ n → bit_and a b ≤ b
bit_and-le_below n zero b h = simp bit_and-bitwise (omega arith)
bit_and-le_below zero (suc a) b h = absurd (omega arith)
bit_and-le_below (suc n) (suc a) b h =
    omega (arith, bit_and_lowest (suc a) b, bit_and-le_below n (suc a / 2) (b / 2) (omega arith))

pub bit_and-le : (a b : ℕ) → bit_and a b ≤ b
bit_and-le a b = bit_and-le_below a a b (le_refl a)

-- A mask whose low `k` bits are clear acts on the number without them.
pub bit_and-high_mask : (k m a : ℕ) → bit_and a (m * 2 ^ k) ≡ bit_and (a / 2 ^ k) m * 2 ^ k
bit_and-high_mask zero m a = ap₂ bit_and (whole a) (one m) ∙ one' (bit_and (a / 1) m)
  where
    one : (n : ℕ) → n * 1 ≡ n
    one n = omega arith

    whole : (n : ℕ) → n ≡ n / 1
    whole n = omega arith

    one' : (n : ℕ) → n ≡ n * 1
    one' n = omega arith
bit_and-high_mask (suc k) m a = omega (
  arith,
  bit_and_lowest a (m * 2 ^ suc k),
  ap (λ (t : ℕ). bit_and (a / 2) t) half,
  mul-pow-suc m k,
  bit_and-high_mask k m (a / 2),
  ap (λ (t : ℕ). bit_and t m) quarter,
  mul-pow-suc (bit_and (a / 2 / 2 ^ k) m) k,
  ap (λ (t : ℕ). t * 2 ^ suc k) (ap (λ (t : ℕ). bit_and t m) quarter),
)
  where
    half : m * 2 ^ suc k / 2 ≡ m * 2 ^ k
    half = omega (arith, mul-pow-suc m k)

    quarter : a / 2 / 2 ^ k ≡ a / 2 ^ suc k
    quarter = div-div-eq-div-mul a 2 (2 ^ k) ∙ ap (λ (t : ℕ). a / t) (omega (arith, pow-suc 2 k))
