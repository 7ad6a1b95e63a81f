-- ===== src/Sprintf/Tests.antt =====
-- libs/klibc/stdio/sprintf.c: the theorems at small formats, and runs.
use os_learn.Base.{
  ℕ, ◌≡◌, ◌+◌, refl, arith, List, [], ◌∷◌, some, if◌then◌else◌, ◌==◌, length, max, loop, for_range,
}
use os_learn.Sprintf.{
  Conversion, sprintf_internal, sprintf, snprintf, emit, data_length, zero_count, prefix_text,
  flag_numeric, format_from, directive, flag_index, parse_flags, parse_number, parse_int,
  parse_precision, convert, data_text, number_text, read_text,
}
use os_learn.Klibc.{itoa}
use os_learn.Sprintf.Ends.{sprintf_internal-ends}
use os_learn.Sprintf.Plain.{IsPlain, sprintf-plain, snprintf-plain, snprintf-text}
use os_learn.Sprintf.Width.{length-emit}

abbrev vargs : ℕ → ℕ
vargs i = if i == 0 then 42 else if i == 1 then 0xffff_fff9 else 0x8000_0000

-- "abcdef", wherever it is.
abbrev text : ℕ → List ℕ
text a = 97 ∷ 98 ∷ 99 ∷ 100 ∷ 101 ∷ 102 ∷ []

sprintf_internal-ends_example :
    (out : List ℕ) × (sprintf_internal vargs text 0 (37 ∷ 53 ∷ 100 ∷ []) ≡ some out)
sprintf_internal-ends_example = sprintf_internal-ends vargs text 0 (37 ∷ 53 ∷ 100 ∷ [])

snprintf-plain_example : snprintf vargs text 3 (104 ∷ 105 ∷ 33 ∷ []) ≡ some (104 ∷ 105 ∷ [])
unfolding IsPlain
snprintf-plain_example =
    snprintf-plain vargs text 3 (104 ∷ 105 ∷ 33 ∷ []) (omega arith) (refl, (refl, (refl, tt)))

sprintf-plain_run : sprintf vargs text (104 ∷ 105 ∷ []) ≡ some (104 ∷ 105 ∷ [])
unfolding IsPlain
sprintf-plain_run = sprintf-plain vargs text (104 ∷ 105 ∷ []) (refl, (refl, tt))

snprintf-text_example :
    snprintf vargs text 3 (37 ∷ 115 ∷ []) ≡ some (97 ∷ 98 ∷ 99 ∷ 100 ∷ 101 ∷ 102 ∷ [])
snprintf-text_example = snprintf-text vargs text 3 (omega arith) (omega arith)

abbrev number : Conversion
number = record { flags = flag_numeric; base = 10; num = 42; text = []; rest = []; next_arg = 1 }

length-emit_run :
    length (emit 5 0xffff_ffff number)
    ≡ max 5 (
        data_length 0xffff_ffff number
        + zero_count 5 0xffff_ffff number
        + length (prefix_text number))
unfolding data_length zero_count prefix_text data_text number_text read_text itoa loop for_range
length-emit_run = length-emit 5 0xffff_ffff number (omega arith) (omega arith)

-- "%5d|%u" of 42 and of the word that is -7 as an `int`: the unsigned number is printed with a sign.
numbers :
    sprintf vargs text (37 ∷ 53 ∷ 100 ∷ 124 ∷ 37 ∷ 117 ∷ [])
    ≡ some (32 ∷ 32 ∷ 32 ∷ 52 ∷ 50 ∷ 124 ∷ 45 ∷ 55 ∷ [])
unfolding sprintf sprintf_internal format_from directive flag_index parse_flags parse_number
    parse_int parse_precision convert emit data_text prefix_text data_length zero_count number_text
    read_text itoa loop for_range
numbers = refl

-- "%.3s" puts out four characters.
precise : sprintf vargs text (37 ∷ 46 ∷ 51 ∷ 115 ∷ []) ≡ some (97 ∷ 98 ∷ 99 ∷ 100 ∷ [])
unfolding sprintf sprintf_internal format_from directive flag_index parse_flags parse_number
    parse_int parse_precision convert emit data_text prefix_text data_length zero_count number_text
    read_text itoa loop for_range
precise = refl
