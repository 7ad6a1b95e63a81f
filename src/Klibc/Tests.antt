-- ===== src/Klibc/Tests.antt =====
-- libs/klibc: a small memory, and the theorems at it.
use os_learn.Base.{
  ℕ, ◌+◌, ◌*◌, ◌-◌, ◌/◌, ◌%◌, ◌≤◌, ◌<◌, ◌≡◌, ◌≢◌, ◌↔◌, refl, true, false, arith, ◌&&◌, ltb, leb,
  ◌==◌, if◌then◌else◌, inl, inr,
}
use os_learn.Klibc.{
  Bytes, memcpy, memmove, memcmp, strlen, strnlen, strchr, strcpy, strncpy, uitoa_internal, itoa,
}
use os_learn.Klibc.Mem.{memcpy_lem, memmove_lem, memcmp-equal}
use os_learn.Klibc.Text.{IsText, strlen_lem, strnlen_lem, strchr_lem, strcpy_lem, strncpy_lem}
use os_learn.Klibc.Itoa.{read_number, uitoa-number}

-- The text "abcab" at 16.
abbrev text : Bytes
text k = if ltb k 16 then 0 else if ltb k 19 then 81 + k else if ltb k 21 then 78 + k else 0

text-IsText : IsText text 16 5
text-IsText = record { going = λ k l z. ground arith; ended = refl }

text_small : (k : ℕ) → text k < 256
text_small k = ground arith

memcpy_lem_example : memcpy 40 16 5 text 42 ≡ 99
memcpy_lem_example = memcpy_lem 40 16 5 text 42 (inr (omega arith))

memmove_lem_run : memmove 17 16 5 text 21 ≡ 98
memmove_lem_run = memmove_lem 17 16 5 text 21

memcmp-equal_run : (memcmp 16 19 2 text ≡ 0) ↔ ((k : ℕ) → k < 2 → text (16 + k) ≡ text (19 + k))
memcmp-equal_run = memcmp-equal 16 19 2 text text_small

strlen_of_text : strlen 10 16 text ≡ 5
strlen_of_text = strlen_lem 10 16 5 text text-IsText (omega arith)

strnlen_lem_run : strnlen 10 16 2 text ≡ 3
strnlen_lem_run = strnlen_lem 10 16 5 2 text text-IsText (omega arith)

strchr_lem_run :
    ((k : ℕ)
      → k ≤ 5
      → ((j : ℕ) → j < k → text (16 + j) ≢ 98)
      → text (16 + k) ≡ 98
      → strchr 10 16 98 text ≡ 16 + k)
    × (((j : ℕ) → j ≤ 5 → text (16 + j) ≢ 98) → strchr 10 16 98 text ≡ 0)
strchr_lem_run = strchr_lem 10 16 5 98 text text-IsText (omega arith)

strcpy_lem_run : strcpy 10 40 16 text 41 ≡ 98
strcpy_lem_run = strcpy_lem 10 40 16 5 text text-IsText (omega arith) (inr (omega arith)) 41

strncpy_lem_run : strncpy 10 40 16 7 text 46 ≡ 0
strncpy_lem_run = strncpy_lem 10 40 16 5 7 text text-IsText (omega arith) (inr (omega arith)) 46

uitoa-number_example :
    let (size, buf) = uitoa_internal 48879 16 text in
    (read_number size 0 16 0 buf ≡ 48879)
    × (0 < size)
    × (buf size ≡ 0)
    × ((k : ℕ) → k < size → buf k ≢ 0)
    × (1 < size → buf 0 ≢ 48)
uitoa-number_example = uitoa-number 16 (omega arith) (omega arith) 48879 text

-- itoa of -42.
negative :
    (itoa 4294967254 10 text 0 ≡ 45)
    × (itoa 4294967254 10 text 1 ≡ 52)
    × (itoa 4294967254 10 text 3 ≡ 0)
unfolding itoa os_learn.Base.loop os_learn.Base.for_range
negative = (refl, refl, refl)
