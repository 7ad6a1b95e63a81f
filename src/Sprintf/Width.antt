-- ===== src/Sprintf/Width.antt =====
-- libs/klibc/stdio/sprintf.c: how much a directive puts out.
use os_learn.Base.{
  ℕ, zero, suc, ◌+◌, ◌-◌, ◌≤◌, ◌<◌, ◌≡◌, ◌^◌, ◌&&◌, not, inl, inr, refl, ap, ◌∙◌, List, [], ◌∷◌,
  arith, leb, if◌then◌else◌, length, length-append, Bool-cases, u32, max,
}
use mathlib.Core.List.{append-nil}
use os_learn.Sprintf.{
  Conversion, take, minus_one, emit, data_text, prefix_text, zero_count, data_length, repeat,
  less_int, has, flag_leftjustify, flag_numeric,
}

length-repeat : (n c : ℕ) → length (repeat n c) ≡ n
length-repeat zero c = refl
length-repeat (suc n) c = omega (arith, length-repeat n c)

length-take : (n : ℕ) (xs : List ℕ) → n ≤ length xs → length (take n xs) ≡ n
length-take zero xs le = refl
length-take (suc n) [] le = absurd (omega (arith, le))
length-take (suc n) (x ∷ xs) le = omega (arith, length-take n xs (omega (arith, le)))

take-all : (xs : List ℕ) → take (length xs) xs ≡ xs
take-all [] = refl
take-all (x ∷ xs) = ap (λ l. x ∷ l) (take-all xs)

data_length-le : (precision : ℕ) (v : Conversion) → data_length precision v ≤ length (data_text v)
unfolding data_length
data_length-le precision v =
    elim (Bool-cases (not (less_int precision 0) && not (has v.flags flag_numeric))) [
      | inl cut ↦ rw cut (omega arith)
      | inr whole ↦ rw whole (omega arith)
    ]

-- What a directive puts out without the spaces.
abbrev pub filled : ℕ → ℕ → Conversion → ℕ
filled width precision v =
    data_length precision v + zero_count width precision v + length (prefix_text v)

-- The number of spaces for a width that is not negative.
spaces_lem :
    (width total : ℕ)
    → width < 2 ^ 31
    → total < 2 ^ 31
    → (if less_int 0 (u32 (width + 2 ^ 32 - u32 total))
        then u32 (width + 2 ^ 32 - u32 total)
        else 0)
      ≡ width - total
spaces_lem width total w t = elim (Bool-cases (leb width total)) [
  | inl small ↦ ground (arith, small)
  | inr large ↦ ground (arith, large)
]

no_spaces :
    (total : ℕ)
    → total < 2 ^ 31
    → (if less_int 0 (u32 (minus_one + 2 ^ 32 - u32 total))
        then u32 (minus_one + 2 ^ 32 - u32 total)
        else 0)
      ≡ 0
no_spaces total t = ground arith

emit-pieces :
    (width precision spaces : ℕ) (v : Conversion)
    → (if less_int 0 (u32 (width + 2 ^ 32 - u32 (filled width precision v)))
        then u32 (width + 2 ^ 32 - u32 (filled width precision v))
        else 0)
      ≡ spaces
    → length (emit width precision v) ≡ spaces + filled width precision v
unfolding emit
emit-pieces width precision spaces v e = elim (Bool-cases (has v.flags flag_leftjustify)) [
  | inl left ↦
      rw (left, e)
        (simp
          (
            length-append,
            length-repeat,
            length-take (data_length precision v) (data_text v) (data_length-le precision v),
          )
          (omega arith))
  | inr right ↦
      rw (right, e)
        (simp
          (
            length-append,
            length-repeat,
            length-take (data_length precision v) (data_text v) (data_length-le precision v),
          )
          (omega arith))
]

-- A directive with a width, for a width and a text below 2^31: it puts out as many characters as the
-- width says, or as many as the number or text with its prefix and zeros has, if those are more.
pub length-emit :
    (width precision : ℕ) (v : Conversion)
    → width < 2 ^ 31
    → filled width precision v < 2 ^ 31
    → length (emit width precision v) ≡ max width (filled width precision v)
length-emit width precision v w t =
    omega (arith, emit-pieces width precision _ v (spaces_lem width (filled width precision v) w t))

-- A text without a width and a precision is put out as it is.
pub emit-text :
    (rest txt : List ℕ) (arg : ℕ)
    → length txt < 2 ^ 31
    → emit minus_one minus_one
        (record { flags = 0; base = 10; num = 0; text = txt; rest = rest; next_arg = arg })
      ≡ txt
unfolding emit data_length zero_count prefix_text data_text
emit-text rest txt arg small =
    rw (no_spaces (length txt + 0 + 0) (omega (arith, small)))
      (append-nil (take (length txt) txt) ∙ take-all txt)
