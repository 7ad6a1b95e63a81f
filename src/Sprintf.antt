-- ===== src/Sprintf.antt =====
-- libs/klibc/stdio/sprintf.c: formatted output. A format and a text are the list of their characters up
-- to the final 0, `vargs` is a function from the number of an argument to its word, and a text that an
-- argument points to is given by `text`. An `int` is its 32 bits. The output is the list of the
-- characters written to the buffer, without the final 0.
pub mod Ends
pub mod Plain
pub mod Width
mod Tests
use os_learn.Base.{
  ℕ, zero, suc, ◌+◌, ◌-◌, ◌*◌, ◌/◌, ◌%◌, ◌^◌, min, Bool, true, false, ◌&&◌, ◌||◌, not, List, [],
  ◌∷◌, ◌++◌, map, Option, some, none, u32, bit_and, bit_or, ltb, leb, ◌==◌, if◌then◌else◌, length,
}
use os_learn.Klibc.{Bytes, itoa}

abbrev pub flag_alt : ℕ
flag_alt = 1

abbrev pub flag_zero : ℕ
flag_zero = 2

abbrev pub flag_leftjustify : ℕ
flag_leftjustify = 4

abbrev pub flag_spacepositive : ℕ
flag_spacepositive = 8

abbrev pub flag_pluspositive : ℕ
flag_pluspositive = 0x10

abbrev pub flag_numeric : ℕ
flag_numeric = 0x20

abbrev pub flag_signed : ℕ
flag_signed = 0x40

abbrev pub flag_negative : ℕ
flag_negative = 0x80

abbrev pub flag_alt2 : ℕ
flag_alt2 = 0x100

abbrev pub flag_caps : ℕ
flag_caps = 0x200

-- `flags & flag`, as a condition.
abbrev pub has : ℕ → ℕ → Bool
has flags flag = not (bit_and flags flag == 0)

-- A comparison of two `int`s.
abbrev pub less_int : ℕ → ℕ → Bool
less_int a b = ltb (u32 (a + 2 ^ 31)) (u32 (b + 2 ^ 31))

-- `strchr(flag_chars, c) - flag_chars`, for the characters `#0- +`.
pub flag_index : ℕ → Option ℕ
flag_index c =
    if c == 35
    then some 0
    else if c == 48
    then some 1
    else if c == 45
    then some 2
    else if c == 32
    then some 3
    else if c == 43
    then some 4
    else none

pub parse_flags : ℕ → List ℕ → ℕ × List ℕ
parse_flags flags [] = (flags, [])
parse_flags flags (c ∷ fmt) = elim (flag_index c) [
  | some k ↦ parse_flags (bit_or flags (2 ^ k)) fmt
  | none ↦ (flags, c ∷ fmt)
]

abbrev pub is_digit : ℕ → Bool
is_digit c = leb 48 c && leb c 57

-- The loops that read a width or a precision.
pub parse_number : ℕ → List ℕ → ℕ × List ℕ
parse_number n [] = (n, [])
parse_number n (c ∷ fmt) = elim (is_digit c) [
  | true ↦ parse_number (u32 (10 * n + c + 2 ^ 32 - 48)) fmt
  | false ↦ (n, c ∷ fmt)
]

abbrev pub minus_one : ℕ
minus_one = 0xffff_ffff

-- The numbuf after itoa, as a text.
pub read_text : ℕ → ℕ → Bytes → List ℕ
read_text zero i str = []
read_text (suc n) i str =
    let rest = read_text n (i + 1) str in if str i == 0 then [] else str i ∷ rest

abbrev pub numbufsiz : ℕ
numbufsiz = 24

pub number_text : ℕ → ℕ → List ℕ
number_text num base = read_text numbufsiz 0 (itoa num base (λ i. 0))

-- `c & ~((c & 0x40) >> 1)`
abbrev pub capital : ℕ → ℕ
capital c = bit_and c (0xffff_ffff - bit_and c 0x40 / 2)

-- numbuf with one character.
abbrev pub char_text : ℕ → List ℕ
char_text c = if c % 0x100 == 0 then [] else c % 0x100 ∷ []

-- What the main conversion character gives: the flags, the base and the number, or the text; the format
-- after it, and the number of the next argument.
pub record Conversion : Type 0 where
  pub flags : ℕ
  pub base : ℕ
  pub num : ℕ
  pub text : List ℕ
  pub rest : List ℕ
  pub next_arg : ℕ

-- An `int`: its sign as a flag, and what is left of it without.
abbrev pub signed_num : ℕ → ℕ → List ℕ → ℕ → Conversion
signed_num x flags fmt next = record {
  flags = bit_or flags (flag_numeric + flag_signed + (if leb (2 ^ 31) x then flag_negative else 0));
  base = 10;
  num = if leb (2 ^ 31) x then u32 (2 ^ 32 - x) else x;
  text = [];
  rest = fmt;
  next_arg = next;
}

abbrev pub unsigned_num : ℕ → ℕ → ℕ → List ℕ → ℕ → Conversion
unsigned_num x base flags fmt next = record {
  flags = flags;
  base = base;
  num = x;
  text = [];
  rest = fmt;
  next_arg = next;
}

module _ (vargs : ℕ → ℕ) (text : ℕ → List ℕ) where
  -- A number in the format, or the next argument for a `*`, or else what is given.
  pub parse_int : ℕ → ℕ → List ℕ → ℕ → ℕ × List ℕ × ℕ
  parse_int first otherwise [] arg = (otherwise, [], arg)
  parse_int first otherwise (c ∷ fmt) arg =
      if leb first c && leb c 57
      then (let (n, rest) = parse_number 0 (c ∷ fmt) in (n, rest, arg))
      else if c == 42
      then (u32 (vargs arg), fmt, arg + 1)
      else (otherwise, c ∷ fmt, arg)

  pub parse_precision : List ℕ → ℕ → ℕ × List ℕ × ℕ
  parse_precision [] arg = (minus_one, [], arg)
  parse_precision (c ∷ fmt) arg =
      if c == 46
      then (let (n, rest, arg') = parse_int 48 minus_one fmt arg in
          (if less_int n 0 then 0 else n, rest, arg'))
      else (minus_one, c ∷ fmt, arg)

  -- The `switch` on the main conversion character.
  pub convert : ℕ → List ℕ → ℕ → Conversion
  convert flags [] arg = record {
    flags = flags;
    base = 10;
    num = 0;
    text = 37 ∷ [];
    rest = [];
    next_arg = arg;
  }
  convert flags (c ∷ fmt) arg =
      let long = convert flags fmt arg in
      let x = u32 (vargs arg) in
      if (c == 108) || (c == 122)
      then long
      else if (c == 100) || (c == 105)
      then signed_num x flags fmt (arg + 1)
      else if c == 117
      then unsigned_num x 10 (bit_or flags flag_numeric) fmt (arg + 1)
      else if c == 120
      then unsigned_num x 16 (bit_or flags flag_numeric) fmt (arg + 1)
      else if c == 88
      then unsigned_num x 16 (bit_or (bit_or flags flag_caps) flag_numeric) fmt (arg + 1)
      else if c == 112
      then unsigned_num x 16 (bit_or flags (flag_alt + flag_alt2 + flag_numeric)) fmt (arg + 1)
      else if c == 115
      then record {
        flags = flags;
        base = 10;
        num = 0;
        text = text x;
        rest = fmt;
        next_arg = arg + 1;
      }
      else if c == 99
      then record {
        flags = flags;
        base = 10;
        num = 0;
        text = char_text x;
        rest = fmt;
        next_arg = arg + 1;
      }
      else record {
        flags = flags;
        base = 10;
        num = 0;
        text = char_text c;
        rest = fmt;
        next_arg = arg;
      }

-- The characters of the number or the text.
pub data_text : Conversion → List ℕ
data_text v =
    let digits = number_text v.num v.base in
    if has v.flags flag_numeric
    then (if has v.flags flag_caps then map capital digits else digits)
    else v.text

pub prefix_text : Conversion → List ℕ
prefix_text v =
    if has v.flags flag_numeric && has v.flags flag_signed
    then (if has v.flags flag_negative
        then 45 ∷ []
        else if has v.flags flag_pluspositive
        then 43 ∷ []
        else if has v.flags flag_spacepositive
        then 32 ∷ []
        else [])
    else if (has v.flags flag_numeric && has v.flags flag_alt)
        && ((v.base == 16) && (not (v.num == 0) || has v.flags flag_alt2))
    then 48 ∷ 120 ∷ []
    else []

abbrev pub repeat : ℕ → ℕ → List ℕ
repeat zero c = []
repeat (suc n) c = c ∷ repeat n c

abbrev pub take : ℕ → List ℕ → List ℕ
take zero xs = []
take (suc n) [] = []
take (suc n) (x ∷ xs) = x ∷ take n xs

-- How many characters of the text are put out. strnlen stops after the character number `precision`
-- and not before it.
pub data_length : ℕ → Conversion → ℕ
data_length precision v =
    if not (less_int precision 0) && not (has v.flags flag_numeric)
    then min (length (data_text v)) (precision + 1)
    else length (data_text v)

pub zero_count : ℕ → ℕ → Conversion → ℕ
zero_count width precision v =
    let len = data_length precision v in
    let prefix = length (prefix_text v) in
    if has v.flags flag_numeric && not (less_int precision 0)
    then (if ltb len precision then precision - len else 0)
    else if (has v.flags flag_numeric && has v.flags flag_zero)
        && (not (has v.flags flag_leftjustify) && less_int (len + prefix) width)
    then width - len - prefix
    else 0

-- What one directive puts out.
pub emit : ℕ → ℕ → Conversion → List ℕ
emit width precision v =
    let len = data_length precision v in
    let zeros = zero_count width precision v in
    let left = u32 (width + 2 ^ 32 - u32 (len + zeros + length (prefix_text v))) in
    let spaces = if less_int 0 left then left else 0 in
    (if has v.flags flag_leftjustify then [] else repeat spaces 32)
    ++ prefix_text v
    ++ repeat zeros 48
    ++ take len (data_text v)
    ++ (if has v.flags flag_leftjustify then repeat spaces 32 else [])

module _ (vargs : ℕ → ℕ) (text : ℕ → List ℕ) where
  -- A directive, after its `%`: what it puts out, the format after it, and the next argument.
  pub directive : List ℕ → ℕ → List ℕ × List ℕ × ℕ
  directive fmt arg =
      let (flags, fmt1) = parse_flags 0 fmt in
      let (width, fmt2, arg1) = parse_int vargs text 49 minus_one fmt1 arg in
      let (precision, fmt3, arg2) = parse_precision vargs text fmt2 arg1 in
      let v = convert vargs text flags fmt3 arg2 in (emit width precision v, v.rest, v.next_arg)

  -- The loop over the format; `none` when the fuel is used up.
  pub format_from : ℕ → ℕ → List ℕ → ℕ → List ℕ → Option (List ℕ)
  format_from zero max_len fmt arg out = none
  format_from (suc fuel) max_len [] arg out = some out
  format_from (suc fuel) max_len (c ∷ fmt) arg out =
      let (put, rest, arg') = directive fmt arg in
      let plain = format_from fuel max_len fmt arg (out ++ c ∷ []) in
      let formatted = format_from fuel max_len rest arg' (out ++ put) in
      if not (max_len == 0) && leb (max_len - 1) (length out)
      then some out
      else if c == 37
      then formatted
      else plain

  -- Each round takes a character of the format at least.
  pub sprintf_internal : ℕ → List ℕ → Option (List ℕ)
  sprintf_internal max_len fmt = format_from (length fmt + 1) max_len fmt 0 []

  pub sprintf : List ℕ → Option (List ℕ)
  sprintf fmt = sprintf_internal 0 fmt

  unfoldable pub snprintf : ℕ → List ℕ → Option (List ℕ)
  snprintf n fmt = sprintf_internal n fmt
