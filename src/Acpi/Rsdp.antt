-- ===== src/Acpi/Rsdp.antt =====
-- hal/acpi/acpi.c: the search for the root pointer, and its checksum.
use os_learn.Base.{
  ℕ, zero, suc, ◌+◌, ◌*◌, ◌%◌, ◌≤◌, ◌<◌, ◌≡◌, inl, inr, true, false, arith, u8, ltb, ◌==◌,
  for_range, Bool-cases, ==→eq, ==→ne, eq→==, ◌↔◌, ap, ◌∙◌,
}
use native.Mathlib.Decide.{ℕ_discrete}
use os_learn.Klibc.{Bytes}
use os_learn.Acpi.{load_word, search_rsdp, search_fuel, acpi_locate_rsdp, acpi_rsdp_validate}

-- The signature is at `a`.
abbrev pub IsSigned : Bytes → ℕ → Type 0
IsSigned m a = load_word a m ≡ 0x2044_5352

-- What the search finds from the step `k` on, below the step `end`.
pub data FirstSigned (m : Bytes) (start k end : ℕ) : ℕ → Type 0 where
  signed :
      (i : ℕ)
      → k ≤ i
      → i < end
      → IsSigned m (start + i * 16)
      → ((j : ℕ) → k ≤ j → j < i → ¬ IsSigned m (start + j * 16))
      → FirstSigned m start k end (start + i * 16)
  unsigned :
      ((j : ℕ) → k ≤ j → j < end → ¬ IsSigned m (start + j * 16)) → FirstSigned m start k end 0

or_here :
    (m : Bytes) (start k j : ℕ)
    → ¬ IsSigned m (start + k * 16)
    → k ≤ j
    → (k + 1 ≤ j → ¬ IsSigned m (start + j * 16))
    → ¬ IsSigned m (start + j * 16)
or_here m start k j ne le later = elim (ℕ_discrete k j) [
  | yes e ↦ rw (ap (λ (i : ℕ). start + i * 16) e) at ne
  | no other ↦ later (omega (arith, le, other))
]

later-FirstSigned :
    (m : Bytes) (start k end a : ℕ)
    → ¬ IsSigned m (start + k * 16)
    → FirstSigned m start (k + 1) end a
    → FirstSigned m start k end a
later-FirstSigned m start k end _ ne (signed i l u s before) =
    signed i (omega (arith, l)) u s (λ j a b. or_here m start k j ne a (λ c. before j c b))
later-FirstSigned m start k end _ ne (unsigned never) =
    unsigned (λ j a b. or_here m start k j ne a (λ c. never j c b))

search_rsdp-FirstSigned :
    (fuel k : ℕ) (m : Bytes)
    → 0xfc00 < k + fuel
    → k ≤ 0xfc00
    → FirstSigned m 0x4000 k 0xfc00 (search_rsdp fuel (0x4000 + k * 16) m)
unfolding search_rsdp
search_rsdp-FirstSigned zero k m enough le = absurd (omega (arith, enough, le))
search_rsdp-FirstSigned (suc fuel) k m enough le = elim (ℕ_discrete k 0xfc00) [
  | yes e ↦
      (let stop : ltb (0x4000 + k * 16) 0x10_0000 ≡ false = ground (arith, e) in
        rw (stop, search_rsdp) (unsigned (λ j a b. absurd (omega (arith, a, b, e)))))
  | no ne ↦
      (let going : ltb (0x4000 + k * 16) 0x10_0000 ≡ true = ground (arith, le, ne) in
        elim (Bool-cases (load_word (0x4000 + k * 16) m == 0x2044_5352)) [
          | inl here ↦
              rw (going, here, search_rsdp)
                (signed k (omega arith) (omega (arith, le, ne)) (==→eq _ _ here)
                  (λ j a b. absurd (omega (arith, a, b))))
          | inr far ↦
              (let next : 0x4000 + k * 16 + 16 ≡ 0x4000 + (k + 1) * 16 = omega arith in
                rw (going, far, next, search_rsdp)
                  (later-FirstSigned m 0x4000 k 0xfc00 _ (==→ne _ _ far) (
                    search_rsdp-FirstSigned fuel (k + 1) m (omega (arith, enough))
                      (omega (arith, le, ne)))))
        ])
]

-- acpi_locate_rsdp: its rounds are enough, and it returns the first address of a multiple of 16 from
-- 0x4000 on and below 1 MiB at which the signature stands, or 0 if there is none.
pub acpi_locate_rsdp-FirstSigned : (m : Bytes) → FirstSigned m 0x4000 0 0xfc00 (acpi_locate_rsdp m)
unfolding acpi_locate_rsdp
acpi_locate_rsdp-FirstSigned m = search_rsdp-FirstSigned search_fuel 0 m (omega arith) (omega arith)

-- The sum of the first `n` bytes at `a`.
unfoldable pub sum_bytes : Bytes → ℕ → ℕ → ℕ
sum_bytes m a zero = 0
sum_bytes m a (suc n) = m a + sum_bytes m (a + 1) n

for_range-sum :
    (m : Bytes) (a n i s : ℕ)
    → for_range n i (λ i sum. u8 (sum + m (a + i))) s % 0x100 ≡ (s + sum_bytes m (a + i) n) % 0x100
unfolding for_range sum_bytes
for_range-sum m a zero i s = omega arith
for_range-sum m a (suc n) i s =
    for_range-sum m a n (i + 1) (u8 (s + m (a + i)))
    ∙ omega (arith, ap (λ (b : ℕ). sum_bytes m b n) next)
  where
    next : a + (i + 1) ≡ a + i + 1
    next = omega arith

for_range-byte :
    (m : Bytes) (a n i s : ℕ) → s < 0x100 → for_range n i (λ i sum. u8 (sum + m (a + i))) s < 0x100
unfolding for_range
for_range-byte m a zero i s h = h
for_range-byte m a (suc n) i s h = for_range-byte m a n (i + 1) (u8 (s + m (a + i))) (omega arith)

-- acpi_rsdp_validate: true just when the first 20 bytes of the root pointer add up to a multiple of 256.
pub acpi_rsdp_validate_lem :
    (rsdp : ℕ) (m : Bytes) → (acpi_rsdp_validate rsdp m ≡ true) ↔ (sum_bytes m rsdp 20 % 0x100 ≡ 0)
unfolding acpi_rsdp_validate
acpi_rsdp_validate_lem rsdp m =
    let at_start : rsdp + 0 ≡ rsdp = omega arith in
    let small = for_range-byte m rsdp 20 0 0 (omega arith) in
    let total : for_range 20 0 (λ i sum. u8 (sum + m (rsdp + i))) 0 % 0x100
        ≡ sum_bytes m rsdp 20 % 0x100 =
      omega (arith, for_range-sum m rsdp 20 0 0, ap (λ (b : ℕ). sum_bytes m b 20) at_start) in
    (λ h. omega (arith, total, ==→eq _ _ h), λ h. eq→== _ _ (omega (arith, total, small, h)))
