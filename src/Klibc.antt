-- ===== src/Klibc.antt =====
-- libs/klibc: the kernel's C library. Memory is a function from an address to a byte, and a text
-- is the bytes from an address up to the first 0. A loop that runs up to the end of a text takes
-- fuel.
pub mod Mem
pub mod Text
pub mod Itoa
mod Tests
use os_learn.Base.{
  ℕ, zero, suc, ◌+◌, ◌-◌, ◌*◌, ◌/◌, ◌%◌, ◌^◌, Bool, true, false, ◌&&◌, not, u8, u32, ltb, leb, ◌==◌,
  if◌then◌else◌, update, fill, for_range, loop,
}

-- libs/klibc/string/mem.c
abbrev pub Bytes : Type 0
Bytes = ℕ → ℕ

abbrev pub copy_up : ℕ → ℕ → ℕ → Bytes → Bytes
copy_up dest src num = for_range num 0 (λ i m. update m (dest + i) (m (src + i)))

pub copy_down : ℕ → ℕ → ℕ → Bytes → Bytes
copy_down dest src zero m = m
copy_down dest src (suc i) m = copy_down dest src i (update m (dest + i) (m (src + i)))

unfoldable pub memcpy : ℕ → ℕ → ℕ → Bytes → Bytes
memcpy = copy_up

pub memmove : ℕ → ℕ → ℕ → Bytes → Bytes
unfolding copy_down
memmove dest src num m = if ltb dest src then copy_up dest src num m else copy_down dest src num m

pub memset : ℕ → ℕ → ℕ → Bytes → Bytes
memset ptr value num m = fill num ptr (u8 value) m

-- The difference is an `int`, here its 32 bits.
pub memcmp_from : ℕ → ℕ → ℕ → ℕ → Bytes → ℕ
memcmp_from zero i ptr1 ptr2 m = 0
memcmp_from (suc n) i ptr1 ptr2 m =
    let diff = u32 (m (ptr1 + i) + 2 ^ 32 - m (ptr2 + i)) in
    elim (diff == 0) [ false ↦ diff | true ↦ memcmp_from n (i + 1) ptr1 ptr2 m ]

pub memcmp : ℕ → ℕ → ℕ → Bytes → ℕ
unfolding memcmp_from
memcmp ptr1 ptr2 num m = memcmp_from num 0 ptr1 ptr2 m

-- libs/klibc/string/strlen.c
pub strlen : ℕ → ℕ → Bytes → ℕ
strlen fuel str m = loop fuel (λ len. not (m (str + len) == 0)) (λ len. len + 1) 0

pub strnlen : ℕ → ℕ → ℕ → Bytes → ℕ
strnlen fuel str max_len m =
    loop fuel (λ len. not (m (str + len) == 0) && leb len max_len) (λ len. len + 1) 0

-- libs/klibc/string/strchr.c; the null pointer is 0.
pub strchr : ℕ → ℕ → ℕ → Bytes → ℕ
strchr fuel str character m =
    let c = u8 character in
    let p = loop fuel (λ s. not (m s == 0) && not (m s == c)) (λ s. s + 1) str in
    if m p == 0 then (if c == 0 then p else 0) else p

-- libs/klibc/string/strcpy.c
pub record Copy : Type 0 where
  pub i : ℕ
  pub bytes : Bytes

abbrev pub copy_byte : ℕ → ℕ → Copy → Copy
copy_byte dest src s = record {
  i = s.i + 1;
  bytes = update s.bytes (dest + s.i) (s.bytes (src + s.i));
}

pub strcpy : ℕ → ℕ → ℕ → Bytes → Bytes
strcpy fuel dest src m =
    let s =
      loop fuel (λ s. not (s.bytes (src + s.i) == 0)) (copy_byte dest src)
        (record { i = 0; bytes = m }) in
    update s.bytes (dest + s.i) 0

pub strncpy : ℕ → ℕ → ℕ → ℕ → Bytes → Bytes
strncpy fuel dest src n m =
    let s =
      loop fuel (λ s. not (s.bytes (src + s.i) == 0) && ltb s.i n) (copy_byte dest src)
        (record { i = 0; bytes = m }) in
    fill (n - s.i) (dest + s.i) 0 s.bytes

-- libs/klibc/stdlib/itoa.c
abbrev pub base_char : ℕ → ℕ
base_char d = if ltb d 10 then 48 + d else 87 + d

pub record Digits : Type 0 where
  pub value : ℕ
  pub ptr : ℕ
  pub str : Bytes

abbrev pub put_digit : ℕ → Digits → Digits
put_digit base s = record {
  value = s.value / base;
  ptr = s.ptr + 1;
  str = update s.str s.ptr (base_char (s.value % base));
}

-- The swap of the cells `i` and `ptr - i - 1`.
abbrev pub swap_digits : ℕ → ℕ → Bytes → Bytes
swap_digits ptr i str = update (update str i (str (ptr - i - 1))) (ptr - i - 1) (str i)

-- `*size` and the buffer, which starts at cell 0. The `do` loop runs at least once; each further
-- round divides the value, which is the fuel.
unfoldable pub uitoa_internal : ℕ → ℕ → Bytes → ℕ × Bytes
uitoa_internal value base str =
    let s =
      loop (value + 1) (λ s. not (s.value == 0)) (put_digit base)
        (put_digit base (record { value = value; ptr = 0; str = str })) in
    (s.ptr, update (for_range (s.ptr / 2) 0 (swap_digits s.ptr) s.str) s.ptr 0)

-- An `int` is its 32 bits.
unfoldable pub itoa : ℕ → ℕ → Bytes → Bytes
unfolding uitoa_internal
itoa value base str =
    if leb (2 ^ 31) value && (base == 10)
    then (let rest = (uitoa_internal (u32 (2 ^ 32 - value)) base (λ i. str (i + 1))).1 in
        λ i. if i == 0 then 45 else rest (i - 1))
    else (uitoa_internal value base str).1
