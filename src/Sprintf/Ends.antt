-- ===== src/Sprintf/Ends.antt =====
-- libs/klibc/stdio/sprintf.c: __sprintf_internal comes to its end.
use os_learn.Base.{
  ℕ, zero, suc, ◌+◌, ◌-◌, ◌*◌, ◌^◌, bit_or, u32, ◌≤◌, ◌<◌, ◌≡◌, ◌&&◌, ◌||◌, not, true, false, inl,
  inr, refl, List, [], ◌∷◌, Option, some, none, arith, leb, ◌==◌, if◌then◌else◌, length, Bool,
  Bool-cases,
}
use os_learn.Sprintf.{
  flag_index, parse_flags, parse_number, parse_int, parse_precision, convert, Conversion, directive,
  format_from, sprintf_internal, minus_one,
}

parse_flags-length : (flags : ℕ) (fmt : List ℕ) → length (parse_flags flags fmt).1 ≤ length fmt
unfolding parse_flags
parse_flags-length flags [] = omega arith
parse_flags-length flags (c ∷ fmt) =
    by_index (flag_index c) refl (λ k. parse_flags-length (bit_or flags (2 ^ k)) fmt)
  where
    by_index :
        (k : Option ℕ)
        → flag_index c ≡ k
        → ((k : ℕ) → length (parse_flags (bit_or flags (2 ^ k)) fmt).1 ≤ length fmt)
        → length (parse_flags flags (c ∷ fmt)).1 ≤ length (c ∷ fmt)
    by_index (some k) e later = rw (e, parse_flags) (omega (arith, later k))
    by_index none e later = rw (e, parse_flags) (omega arith)

parse_number-length : (n : ℕ) (fmt : List ℕ) → length (parse_number n fmt).1 ≤ length fmt
unfolding parse_number
parse_number-length n [] = omega arith
parse_number-length n (c ∷ fmt) = elim (Bool-cases (leb 48 c && leb c 57)) [
  | inl digit ↦
      rw (digit, parse_number)
        (omega (arith, parse_number-length (u32 (10 * n + c + 2 ^ 32 - 48)) fmt))
  | inr other ↦ rw (other, parse_number) (omega arith)
]

if_le :
    {A : Type 0} (b : Bool) (x y : A) (f : A → ℕ) (n : ℕ)
    → f x ≤ n
    → f y ≤ n
    → f (if b then x else y) ≤ n
if_le true x y f n a b = a
if_le false x y f n a b = b

-- No more than `n` characters of the format are left.
data Shorter (n : ℕ) : Conversion → Type 0 where
  shorter : (v : Conversion) → length v.rest ≤ n → Shorter n v

if_Shorter :
    {n : ℕ} {x y : Conversion} (b : Bool)
    → Shorter n x
    → Shorter n y
    → Shorter n (if b then x else y)
if_Shorter true a b = a
if_Shorter false a b = b

Shorter-length : {n : ℕ} {v : Conversion} → Shorter n v → length v.rest ≤ n
Shorter-length (shorter v le) = le

module _ (vargs : ℕ → ℕ) (text : ℕ → List ℕ) where
  parse_int-length :
      (first otherwise : ℕ) (fmt : List ℕ) (arg : ℕ)
      → length (parse_int vargs text first otherwise fmt arg).1 ≤ length fmt
  unfolding parse_int
  parse_int-length first otherwise [] arg = omega arith
  parse_int-length first otherwise (c ∷ fmt) arg =
      if_le {A = ℕ × List ℕ × ℕ} (leb first c && leb c 57) _ _ (λ r. length r.1) _
        (parse_number-length 0 (c ∷ fmt))
        (if_le {A = ℕ × List ℕ × ℕ} (c == 42) _ _ (λ r. length r.1) _ (omega arith) (omega arith))

  parse_precision-length :
      (fmt : List ℕ) (arg : ℕ) → length (parse_precision vargs text fmt arg).1 ≤ length fmt
  unfolding parse_precision
  parse_precision-length [] arg = omega arith
  parse_precision-length (c ∷ fmt) arg =
      if_le {A = ℕ × List ℕ × ℕ} (c == 46) _ _ (λ r. length r.1) _
        (omega (arith, parse_int-length 48 minus_one fmt arg)) (omega arith)

  convert-Shorter :
      (flags : ℕ) (fmt : List ℕ) (arg : ℕ) → Shorter (length fmt) (convert vargs text flags fmt arg)
  unfolding convert
  convert-Shorter flags [] arg = shorter _ (omega arith)
  convert-Shorter flags (c ∷ fmt) arg =
      let one : length fmt ≤ length (c ∷ fmt) = omega arith in
      let long : length (convert vargs text flags fmt arg).rest ≤ length (c ∷ fmt) =
        omega (arith, Shorter-length (convert-Shorter flags fmt arg)) in
      if_Shorter ((c == 108) || (c == 122)) (shorter (convert vargs text flags fmt arg) long) (
        if_Shorter ((c == 100) || (c == 105)) (shorter _ one) (
          if_Shorter (c == 117) (shorter _ one) (
            if_Shorter (c == 120) (shorter _ one) (
              if_Shorter (c == 88) (shorter _ one) (
                if_Shorter (c == 112) (shorter _ one) (
                  if_Shorter (c == 115) (shorter _ one)
                    (if_Shorter (c == 99) (shorter _ one) (shorter _ one))))))))

  directive-length : (fmt : List ℕ) (arg : ℕ) → length (directive vargs text fmt arg).1 ≤ length fmt
  unfolding directive
  directive-length fmt arg =
      let (flags, fmt1) = parse_flags 0 fmt in
      let (width, fmt2, arg1) = parse_int vargs text 49 minus_one fmt1 arg in
      let (precision, fmt3, arg2) = parse_precision vargs text fmt2 arg1 in
      omega (
        arith,
        parse_flags-length 0 fmt,
        parse_int-length 49 minus_one fmt1 arg,
        parse_precision-length fmt2 arg1,
        Shorter-length (convert-Shorter flags fmt3 arg2),
      )

  format_from-ends :
      (fuel max_len : ℕ) (fmt : List ℕ) (arg : ℕ) (out : List ℕ)
      → length fmt < fuel
      → (out' : List ℕ) × (format_from vargs text fuel max_len fmt arg out ≡ some out')
  unfolding format_from
  format_from-ends zero max_len fmt arg out lt = absurd (omega (arith, lt))
  format_from-ends (suc fuel) max_len [] arg out lt = (out, refl)
  format_from-ends (suc fuel) max_len (c ∷ fmt) arg out lt =
      elim (Bool-cases (not (max_len == 0) && leb (max_len - 1) (length out))) [
        | inl full ↦ rw full (out, refl)
        | inr room ↦ elim (Bool-cases (c == 37)) [
          | inl percent ↦
              (rw (room, percent)
                (format_from-ends fuel max_len _ _ _ (omega (arith, lt, directive-length fmt arg))))
          | inr plain ↦
              rw (room, plain) (format_from-ends fuel max_len fmt arg _ (omega (arith, lt)))
        ]
      ]

  -- __sprintf_internal comes to its end for every format, limit and arguments: each directive leaves no
  -- more of the format than it was given.
  pub sprintf_internal-ends :
      (max_len : ℕ) (fmt : List ℕ)
      → (out : List ℕ) × (sprintf_internal vargs text max_len fmt ≡ some out)
  unfolding sprintf_internal
  sprintf_internal-ends max_len fmt =
      format_from-ends (length fmt + 1) max_len fmt 0 [] (omega arith)
