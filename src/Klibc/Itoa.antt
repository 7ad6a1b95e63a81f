-- ===== src/Klibc/Itoa.antt =====
-- libs/klibc/stdlib/itoa.c: the digits that __uitoa_internal leaves in its buffer.
use os_learn.Base.{
  ℕ, zero, suc, ◌+◌, ◌-◌, ◌*◌, ◌/◌, ◌%◌, ◌≤◌, ◌<◌, ◌≡◌, ◌≢◌, not, arith, refl, sym, ap, ◌∙◌, ◌⊎◌,
  inl, inr, ltb, ◌==◌, if◌then◌else◌, update, loop, loop_rule, for_range, ne→==,
}
use native.Mathlib.Decide.{ℕ_discrete}
use native.Mathlib.Nat.{
  div-add-mod', mod-lt, div-lt_self, div-le_self, mod-eq_of_lt, lt-div-mul-add,
}
use os_learn.Klibc.{Bytes, Digits, base_char, put_digit, swap_digits, uitoa_internal}

-- The value of a digit's character.
pub digit_value : ℕ → ℕ
digit_value c = if ltb c 58 then c - 48 else c - 87

-- The number that `n` characters from `i` on write in the base, on top of `acc`.
unfoldable pub read_number : ℕ → ℕ → ℕ → ℕ → Bytes → ℕ
unfolding digit_value
read_number zero i base acc str = acc
read_number (suc n) i base acc str =
    read_number n (i + 1) base (acc * base + digit_value (str i)) str

-- The value after `k` digits are taken off.
quotient : ℕ → ℕ → ℕ → ℕ
quotient base v zero = v
quotient base v (suc k) = quotient base v k / base

quotient_next : (base v k : ℕ) → quotient base v (k + 1) ≡ quotient base v k / base
unfolding quotient
quotient_next base v k = let e : k + 1 ≡ suc k = omega arith in ap (quotient base v) e

digit_value-base_char : (d : ℕ) → d < 36 → digit_value (base_char d) ≡ d
unfolding digit_value
digit_value-base_char d h = ground arith

module _ (base : ℕ) (two : 2 ≤ base) (most : base ≤ 36) (v : ℕ) where
  digit : ℕ → ℕ
  unfolding quotient
  digit k = base_char (quotient base v k % base)

  -- The digits up to `s.ptr` are written, the lowest first, and the last of several is not 0.
  Written : Digits → Type 0
  unfolding quotient digit
  Written s =
      (s.value ≡ quotient base v s.ptr)
      × (0 < s.ptr)
      × (1 < s.ptr → quotient base v (s.ptr - 1) ≢ 0)
      × ((k : ℕ) → k < s.ptr → s.str k ≡ digit k)

  first-Written :
      (str : Bytes) → Written (put_digit base (record { value = v; ptr = 0; str = str }))
  unfolding Written
  first-Written str = (refl, omega arith, λ h. absurd (omega arith), λ k h. ground arith)

  put_digit-Written : (s : Digits) → Written s → s.value ≢ 0 → Written (put_digit base s)
  unfolding Written
  put_digit-Written s (e, pos, top, h) more = (
    ap (λ x. x / base) e ∙ sym (quotient_next base v s.ptr),
    omega arith,
    λ two z. more (e ∙ ap (quotient base v) (omega arith) ∙ z),
    λ k l. elim (ℕ_discrete k s.ptr) [
      | yes q ↦ ground (arith, q, ap (λ x. base_char (x % base)) e, ap digit q)
      | no ne ↦ ground (arith, ne, h k (omega (arith, ne)))
    ],
  )

swap-other :
    (ptr i : ℕ) (str : Bytes) (k : ℕ) → k ≢ i → k ≢ ptr - i - 1 → swap_digits ptr i str k ≡ str k
swap-other ptr i str k a b = ground (arith, a, b)

swap-low : (ptr i : ℕ) (str : Bytes) → swap_digits ptr i str i ≡ str (ptr - i - 1)
swap-low ptr i str = ground arith

swap-high : (ptr i : ℕ) (str : Bytes) → swap_digits ptr i str (ptr - i - 1) ≡ str i
swap-high ptr i str = ground arith

-- The swaps from `i` on leave the cells outside alone.
swap_outer :
    (ptr n i : ℕ) (str : Bytes) (k : ℕ)
    → 2 * (i + n) ≤ ptr
    → k < ptr
    → (k < i) ⊎ (ptr - i ≤ k)
    → for_range n i (swap_digits ptr) str k ≡ str k
unfolding for_range
swap_outer ptr zero i str k h l out = refl
swap_outer ptr (suc n) i str k h l out =
    swap_outer ptr n (i + 1) (swap_digits ptr i str) k (omega arith) l (ground (arith, out))
    ∙ swap-other ptr i str k (ground (arith, out)) (ground (arith, out))

swap_inner :
    (ptr n i : ℕ) (str : Bytes) (k : ℕ)
    → 2 * (i + n) ≤ ptr
    → ptr ≤ 2 * (i + n) + 1
    → i ≤ k
    → k < ptr - i
    → for_range n i (swap_digits ptr) str k ≡ str (ptr - 1 - k)
unfolding for_range
swap_inner ptr zero i str k h h' l u = ap str (omega arith)
swap_inner ptr (suc n) i str k h h' l u = elim (ℕ_discrete k i) [
  | yes e ↦
      (rw e (
        swap_outer ptr n (i + 1) (swap_digits ptr i str) i (omega arith) (omega arith)
          (inl (omega arith))
        ∙ swap-low ptr i str
        ∙ ap str (omega arith)))
  | no ne ↦ elim (ℕ_discrete k (ptr - i - 1)) [
    | yes e ↦
        (rw e (
          swap_outer ptr n (i + 1) (swap_digits ptr i str) (ptr - i - 1) (omega arith) (omega arith)
            (inr (omega arith))
          ∙ swap-high ptr i str
          ∙ ap str (omega arith)))
    | no ne' ↦
        (swap_inner ptr n (i + 1) (swap_digits ptr i str) k (omega arith) (omega arith)
            (omega (arith, ne)) (omega (arith, ne'))
          ∙ swap-other ptr i str (ptr - 1 - k) (omega (arith, ne')) (omega (arith, ne)))
  ]
]

reversed :
    (ptr : ℕ) (str : Bytes) (k : ℕ)
    → k < ptr
    → for_range (ptr / 2) 0 (swap_digits ptr) str k ≡ str (ptr - 1 - k)
reversed ptr str k l =
    swap_inner ptr (ptr / 2) 0 str k (omega arith) (omega arith) (omega arith) (omega arith)

module _ (base : ℕ) (two : 2 ≤ base) (most : base ≤ 36) (v : ℕ) where
  -- The characters of the digits, the highest first, read as the number.
  read_quotient :
      (n i acc ptr : ℕ) (str : Bytes)
      → i + n ≡ ptr
      → acc ≡ quotient base v n
      → ((k : ℕ) → k < ptr → str k ≡ digit base two most v (ptr - 1 - k))
      → read_number n i base acc str ≡ v
  unfolding read_number quotient digit
  read_quotient zero i acc ptr str e a h = a
  read_quotient (suc n) i acc ptr str e a h =
      read_quotient n (i + 1) (acc * base + digit_value (str i)) ptr str (omega (arith, e))
        (ap (λ q. q * base + digit_value (str i)) a ∙ step) h
    where
      here : str i ≡ base_char (quotient base v n % base)
      here = h i (omega (arith, e)) ∙ ap (digit base two most v) (omega (arith, e))

      step : quotient base v n / base * base + digit_value (str i) ≡ quotient base v n
      step =
          ap (λ c. quotient base v n / base * base + digit_value c) here
          ∙ ap (λ d. quotient base v n / base * base + d)
              (digit_value-base_char _ (omega (arith, small)))
          ∙ div-add-mod' (quotient base v n) base
        where
          small : quotient base v n % base < base
          small = mod-lt (quotient base v n) (omega arith)

  written : (str : Bytes) → Digits
  written str =
      loop (v + 1) (λ s. not (s.value == 0)) (put_digit base)
        (put_digit base (record { value = v; ptr = 0; str = str }))

  written-Written :
      (str : Bytes) → Written base two most v (written str) × ((written str).value ≡ 0)
  unfolding written
  written-Written str =
      let (kept, off) =
        loop_rule (Written base two most v) (λ s. not (s.value == 0)) (put_digit base)
          (λ s. s.value)
          (λ s k going.
            let more : s.value ≢ 0 = ground (arith, going) in
            (
              put_digit-Written base two most v s k more,
              div-lt_self (omega (arith, more)) (omega arith),
            ))
          (v + 1) (put_digit base (record { value = v; ptr = 0; str = str }))
          (omega (arith, div-le_self v base)) (first-Written base two most v str) in
      (kept, ground (arith, off))

  number_of :
      (s : Digits)
      → Written base two most v s
      → s.value ≡ 0
      → (k : ℕ) → k < s.ptr
      → update (for_range (s.ptr / 2) 0 (swap_digits s.ptr) s.str) s.ptr 0 k
        ≡ digit base two most v (s.ptr - 1 - k)
  unfolding Written
  number_of s (e, pos, top, h) off k l =
      rw (ne→== s.ptr k (omega arith)) (reversed s.ptr s.str k l ∙ h (s.ptr - 1 - k) (omega arith))

  digit-ne-zero : (k : ℕ) → digit base two most v k ≢ 0
  unfolding digit
  digit-ne-zero k = ground arith

  top_digit :
      (k : ℕ) → quotient base v k ≢ 0 → quotient base v (k + 1) ≡ 0 → digit base two most v k ≢ 48
  unfolding digit
  top_digit k more last =
      let small : quotient base v k < base = lt-of-quotient in
      ground (arith, more, mod-eq_of_lt small)
    where
      lt-of-quotient : quotient base v k < base
      lt-of-quotient = omega (
        arith,
        lt-div-mul-add {a = quotient base v k} {b = base} (omega arith),
        ap (λ x. x * base) (sym (quotient_next base v k) ∙ last),
      )

  -- __uitoa_internal, in a base from 2 to 36: the characters of the buffer up to `*size` are not 0
  -- and, read in the base, write the value; a 0 follows them, there is at least one, and the first of
  -- several is not the digit 0.
  pub uitoa-number :
      (str : Bytes)
      → let (size, buf) = uitoa_internal v base str in
        (read_number size 0 base 0 buf ≡ v)
        × (0 < size)
        × (buf size ≡ 0)
        × ((k : ℕ) → k < size → buf k ≢ 0)
        × (1 < size → buf 0 ≢ 48)
  unfolding uitoa_internal written Written
  uitoa-number str =
      let (kept, off) = written-Written str in
      let cells = number_of (written str) kept off in
      let n = (written str).ptr in
      let zero_value : quotient base v n ≡ 0 = sym kept.0 ∙ off in
      (
        read_quotient n 0 0 n _ (omega arith) (sym zero_value) cells,
        kept.1,
        ground arith,
        λ k l z. digit-ne-zero (n - 1 - k) (sym (cells k l) ∙ z),
        λ several z.
            top_digit (n - 1) (kept.2 several) (ap (quotient base v) (omega arith) ∙ zero_value)
              (ap (digit base two most v) (omega arith) ∙ sym (cells 0 kept.1) ∙ z),
      )
