-- ===== src/Sprintf/Plain.antt =====
-- libs/klibc/stdio/sprintf.c: formats without a directive, and texts.
use os_learn.Base.{
  ℕ, zero, suc, ◌+◌, ◌-◌, ◌≤◌, ◌<◌, ◌≡◌, ◌^◌, true, false, inl, inr, refl, sym, ap, ◌∙◌, List, [],
  ◌∷◌, ◌++◌, some, arith, leb, ◌==◌, length, length-append, Bool-cases, u32, ne→==,
}
use mathlib.Core.List.{append-nil, append_assoc}
use os_learn.Sprintf.Width.{emit-text}
use os_learn.Sprintf.{
  format_from, sprintf_internal, snprintf, sprintf, take, directive, convert, flag_index,
  parse_flags, parse_int, parse_precision,
}

-- No character of the format starts a directive.
unfoldable pub IsPlain : List ℕ → Type 0
IsPlain [] = Unit {0}
IsPlain (c ∷ fmt) = ((c == 37) ≡ false) × IsPlain fmt

take-nil : (n : ℕ) → take n [] ≡ []
take-nil zero = refl
take-nil (suc n) = refl

module _ (vargs : ℕ → ℕ) (text : ℕ → List ℕ) where
  plain_all :
      (fuel : ℕ) (fmt : List ℕ) (arg : ℕ) (out : List ℕ)
      → length fmt < fuel
      → IsPlain fmt
      → format_from vargs text fuel 0 fmt arg out ≡ some (out ++ fmt)
  unfolding format_from IsPlain
  plain_all zero fmt arg out lt p = absurd (omega (arith, lt))
  plain_all (suc fuel) [] arg out lt p = ap (λ l. some l) (sym (append-nil out))
  plain_all (suc fuel) (c ∷ fmt) arg out lt (q, p) =
      rw q (plain_all fuel fmt arg (out ++ c ∷ []) (omega (arith, lt)) p)
      ∙ ap (λ l. some l) (append_assoc out (c ∷ []) fmt)

  plain_bounded :
      (fuel max_len : ℕ) (fmt : List ℕ) (arg : ℕ) (out : List ℕ)
      → length fmt < fuel
      → IsPlain fmt
      → length out < max_len
      → format_from vargs text fuel max_len fmt arg out
        ≡ some (out ++ take (max_len - 1 - length out) fmt)
  unfolding format_from IsPlain
  plain_bounded zero max_len fmt arg out lt p room = absurd (omega (arith, lt))
  plain_bounded (suc fuel) max_len [] arg out lt p room =
      ap (λ l. some l)
        (sym (append-nil out) ∙ ap (λ l. out ++ l) (sym (take-nil (max_len - 1 - length out))))
  plain_bounded (suc fuel) max_len (c ∷ fmt) arg out lt (q, p) room =
      elim (Bool-cases (leb (max_len - 1) (length out))) [
        | inl full ↦
            rw (ne→== max_len 0 (omega (arith, room)), full)
              (ap (λ l. some l)
                (sym (append-nil out) ∙ ap (λ n. out ++ take n (c ∷ fmt)) (none_left full)))
        | inr more ↦
            rw (ne→== max_len 0 (omega (arith, room)), more, q)
              (plain_bounded fuel max_len fmt arg (out ++ c ∷ []) (omega (arith, lt)) p
                  (omega (arith, longer, still more))
                ∙ ap (λ l. some l)
                    (append_assoc out (c ∷ []) (take (max_len - 1 - length (out ++ c ∷ [])) fmt)
                      ∙ ap (λ n. out ++ take n (c ∷ fmt)) (one_more more)))
      ]
    where
      none_left : leb (max_len - 1) (length out) ≡ true → 0 ≡ max_len - 1 - length out
      none_left full = ground (arith, full)

      longer : length (out ++ c ∷ []) ≡ length out + 1
      longer = length-append out (c ∷ [])

      still : leb (max_len - 1) (length out) ≡ false → length out < max_len - 1
      still more = ground (arith, more)

      one_more :
          leb (max_len - 1) (length out) ≡ false
          → suc (max_len - 1 - length (out ++ c ∷ [])) ≡ max_len - 1 - length out
      one_more more = omega (arith, longer, still more)

  -- sprintf of a format that has no directive puts out the format.
  pub sprintf-plain : (fmt : List ℕ) → IsPlain fmt → sprintf vargs text fmt ≡ some fmt
  unfolding sprintf sprintf_internal
  sprintf-plain fmt p = plain_all (length fmt + 1) fmt 0 [] (omega arith) p

  -- snprintf with a limit of at least 1, of a format that has no directive, puts out the first characters
  -- of the format, one fewer than the limit at most.
  pub snprintf-plain :
      (n : ℕ) (fmt : List ℕ)
      → 0 < n
      → IsPlain fmt
      → snprintf vargs text n fmt ≡ some (take (n - 1) fmt)
  unfolding snprintf sprintf_internal
  snprintf-plain n fmt pos p =
      plain_bounded (length fmt + 1) n fmt 0 [] (omega arith) p pos
      ∙ ap (λ k. some (take k fmt)) (omega arith)

  -- snprintf with a limit of at least 2 and the format "%s" puts out the whole text, of any length below 2^31: the
  -- limit is looked at between the directives only.
  pub snprintf-text :
      (n : ℕ)
      → 2 ≤ n
      → length (text (u32 (vargs 0))) < 2 ^ 31
      → snprintf vargs text n (37 ∷ 115 ∷ []) ≡ some (text (u32 (vargs 0)))
  unfolding snprintf sprintf_internal format_from directive parse_flags flag_index parse_int
      parse_precision convert
  snprintf-text n two small =
      let room : leb (n - 1) 0 ≡ false = ground (arith, two) in
      rw (ne→== n 0 (omega (arith, two)), room)
        (ap (λ l. some l) (emit-text [] (text (u32 (vargs 0))) 1 small))
