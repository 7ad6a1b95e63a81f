-- ===== src/Klibc/Text.antt =====
-- libs/klibc/string/strlen.c, strchr.c and strcpy.c: measuring, searching and copying a text.
use os_learn.Base.{
  ℕ, ◌+◌, ◌-◌, ◌≤◌, ◌<◌, ◌≡◌, ◌≢◌, ◌⊎◌, inl, inr, Bool, ◌&&◌, not, true, false, arith, ap, min, ltb,
  leb, leb→le, ◌==◌, if◌then◌else◌, update, u8, fill, fill_lem, loop, loop_rule, loop-count,
  Bool-cases,
}
use native.Mathlib.Decide.{ℕ_discrete}
use os_learn.Klibc.{Bytes, strlen, strnlen, strchr, strcpy, strncpy, Copy, copy_byte}

-- The text at `str` has length `n`.
pub record IsText (m : Bytes) (str n : ℕ) : Type 0 where
  pub going : (k : ℕ) → k < n → m (str + k) ≢ 0
  pub ended : m (str + n) ≡ 0

-- strlen, with more rounds than the text has bytes, returns the length of the text.
pub strlen_lem : (fuel str n : ℕ) (m : Bytes) → IsText m str n → n < fuel → strlen fuel str m ≡ n
unfolding strlen
strlen_lem fuel str n m t h =
    loop-count (λ len. not (m (str + len) == 0)) n fuel 0 (omega arith) (omega arith)
      (λ k l u. ground (arith, t.going k u)) (ground (arith, t.ended))

-- strnlen, with more rounds than the text has bytes, returns the length of the text but at most one
-- more than max_len.
pub strnlen_lem :
    (fuel str n max_len : ℕ) (m : Bytes)
    → IsText m str n
    → n < fuel
    → strnlen fuel str max_len m ≡ min n (max_len + 1)
unfolding strnlen
strnlen_lem fuel str n max_len m t h =
    loop-count (λ len. not (m (str + len) == 0) && leb len max_len) (min n (max_len + 1)) fuel 0
      (omega arith) (omega arith) (λ k l u. ground (arith, t.going k (omega arith)))
      (elim (Bool-cases (leb n max_len)) [
        | inl fits ↦
            (let e : min n (max_len + 1) ≡ n = omega (arith, leb→le n max_len fits) in
              rw e (ground (arith, t.ended)))
        | inr long ↦ ground arith
      ])

-- strchr, on a text of length n and with more rounds than it has bytes: the address of the first
-- occurrence of the character, where the 0 at the end counts, and the null pointer if there is none.
pub strchr_lem :
    (fuel str n character : ℕ) (m : Bytes)
    → IsText m str n
    → n < fuel
    → ((k : ℕ)
        → k ≤ n
        → ((j : ℕ) → j < k → m (str + j) ≢ u8 character)
        → m (str + k) ≡ u8 character
        → strchr fuel str character m ≡ str + k)
      × (((j : ℕ) → j ≤ n → m (str + j) ≢ u8 character) → strchr fuel str character m ≡ 0)
unfolding strchr
strchr_lem fuel str n character m t h = (
  λ k l before here. rw (stops k l before (ground arith)) (ground arith),
  λ never.
      rw (stops n (omega arith) (λ j u. never j (omega arith)) (ground (arith, t.ended)))
        (ground (arith, t.ended, never n)),
)
  where
    test : ℕ → Bool
    test s = not (m s == 0) && not (m s == u8 character)

    goes :
        (k s : ℕ)
        → k ≤ n
        → ((j : ℕ) → j < k → m (str + j) ≢ u8 character)
        → str ≤ s
        → s < str + k
        → test s ≡ true
    goes k s l before low high = ground (arith, t.going (s - str), before (s - str))

    stops :
        (k : ℕ)
        → k ≤ n
        → ((j : ℕ) → j < k → m (str + j) ≢ u8 character)
        → test (str + k) ≡ false
        → loop fuel test (λ s. s + 1) str ≡ str + k
    stops k l before off =
        loop-count test (str + k) fuel str (omega arith) (omega arith)
          (λ s low high. goes k s l before low high) off

-- Copying a text of length n, at most `lim` bytes of it, to a region apart from it.
module _ (dest src n lim : ℕ) (m : Bytes) (t : IsText m src n)
    (apart : (dest + lim ≤ src) ⊎ (src + n < dest)) where
  -- The first `s.i` bytes of the text are copied.
  abbrev Copied : Copy → Type 0
  Copied s =
      (s.i ≤ n)
      × (s.i ≤ lim)
      × ((j : ℕ)
          → s.bytes j ≡ (if leb dest j && ltb j (dest + s.i) then m (src + (j - dest)) else m j))

  source_kept : (s : Copy) → Copied s → s.bytes (src + s.i) ≡ m (src + s.i)
  source_kept s (l, l', h) = elim apart [
    | inl below ↦ ground (arith, h (src + s.i))
    | inr above ↦ ground (arith, h (src + s.i))
  ]

  copy_byte-Copied : (s : Copy) → Copied s → s.i < n → s.i < lim → Copied (copy_byte dest src s)
  copy_byte-Copied s (l, l', h) more room =
      (omega arith, omega arith, λ j. ground (arith, h j, source_kept s (l, l', h)))

  start-Copied : Copied (record { i = 0; bytes = m })
  start-Copied = (omega arith, omega arith, λ j. ground arith)

  not_ended : (s : Copy) → Copied s → not (s.bytes (src + s.i) == 0) ≡ true → s.i < n
  not_ended s k going = elim (ℕ_discrete s.i n) [
    | yes e ↦ absurd (ground (arith, source_kept s k, ap (λ q. m (src + q)) e, t.ended))
    | no ne ↦ omega (arith, ne, k.0)
  ]

  at_end : (s : Copy) → Copied s → s.bytes (src + s.i) ≡ 0 → s.i ≡ n
  at_end s k e = ground (arith, t.going s.i, source_kept s k, k.0)

  closed_text :
      (s : Copy)
      → Copied s
      → s.bytes (src + s.i) ≡ 0
      → (j : ℕ)
      → update s.bytes (dest + s.i) 0 j
        ≡ (if leb dest j && leb j (dest + n) then m (src + (j - dest)) else m j)
  closed_text s k e j = elim (ℕ_discrete j (dest + n)) [
    | yes q ↦
        (let z : j - dest ≡ n = omega (arith, q) in
          let cell : m (src + (j - dest)) ≡ 0 = rw z t.ended in
          ground (arith, at_end s k e, q, cell))
    | no ne ↦ ground (arith, at_end s k e, k.2 j, ne)
  ]

  padded_text :
      (s : Copy)
      → Copied s
      → (s.bytes (src + s.i) ≡ 0) ⊎ (s.i ≡ lim)
      → (j : ℕ)
      → fill (lim - s.i) (dest + s.i) 0 s.bytes j ≡ (
          if leb dest j && ltb j (dest + lim)
          then (if ltb (j - dest) n then m (src + (j - dest)) else 0)
          else m j)
  padded_text s k (inl e) j =
      ground (arith, fill_lem (lim - s.i) (dest + s.i) 0 s.bytes j, k.2 j, k.1, at_end s k e)
  padded_text s k (inr e) j =
      ground (arith, fill_lem (lim - s.i) (dest + s.i) 0 s.bytes j, k.2 j, k.0, e)

-- strcpy, with more rounds than the text has bytes and the destination apart from the text: the
-- text and its 0 stand at the destination, and every other byte is as it was.
pub strcpy_lem :
    (fuel dest src n : ℕ) (m : Bytes)
    → IsText m src n
    → n < fuel
    → (dest + n ≤ src) ⊎ (src + n < dest)
    → (j : ℕ)
    → strcpy fuel dest src m j
      ≡ (if leb dest j && leb j (dest + n) then m (src + (j - dest)) else m j)
unfolding strcpy
strcpy_lem fuel dest src n m t enough apart j =
    let (kept, off) =
      loop_rule (Copied dest src n n m t apart) (λ s. not (s.bytes (src + s.i) == 0))
        (copy_byte dest src) (λ s. n - s.i)
        (λ s k going.
          let more = not_ended dest src n n m t apart s k going in
          (copy_byte-Copied dest src n n m t apart s k more more, omega arith))
        fuel (record { i = 0; bytes = m }) (omega arith) (start-Copied dest src n n m t apart) in
    closed_text dest src n n m t apart
      (loop fuel (λ s. not (s.bytes (src + s.i) == 0)) (copy_byte dest src)
        (record { i = 0; bytes = m }))
      kept (ground (arith, off)) j

-- strncpy, with more rounds than the text has bytes and the n bytes of the destination apart from
-- the text: the destination holds the text as far as it goes and then 0, and every other byte is as
-- it was.
pub strncpy_lem :
    (fuel dest src len n : ℕ) (m : Bytes)
    → IsText m src len
    → len < fuel
    → (dest + n ≤ src) ⊎ (src + len < dest)
    → (j : ℕ)
    → strncpy fuel dest src n m j ≡ (
        if leb dest j && ltb j (dest + n)
        then (if ltb (j - dest) len then m (src + (j - dest)) else 0)
        else m j)
unfolding strncpy
strncpy_lem fuel dest src len n m t enough apart j =
    let (kept, off) =
      loop_rule (Copied dest src len n m t apart) (λ s. not (s.bytes (src + s.i) == 0) && ltb s.i n)
        (copy_byte dest src) (λ s. len - s.i)
        (λ s k going.
          let more = not_ended dest src len n m t apart s k (ground (arith, going)) in
          (copy_byte-Copied dest src len n m t apart s k more (ground arith), omega arith))
        fuel (record { i = 0; bytes = m }) (omega arith) (start-Copied dest src len n m t apart) in
    padded_text dest src len n m t apart
      (loop fuel (λ s. not (s.bytes (src + s.i) == 0) && ltb s.i n) (copy_byte dest src)
        (record { i = 0; bytes = m }))
      kept (ended _ _ off kept.1) j
  where
    ended : (b i : ℕ) → (not (b == 0) && ltb i n) ≡ false → i ≤ n → (b ≡ 0) ⊎ (i ≡ n)
    ended b i off l = ground arith
