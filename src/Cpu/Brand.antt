-- ===== src/Cpu/Brand.antt =====
-- hal/cpu.c: the text that cpu_get_brand writes.
use os_learn.Base.{
  ℕ, zero, suc, ◌+◌, ◌*◌, ◌/◌, ◌%◌, ◌^◌, ◌<◌, ◌≡◌, ◌∙◌, ap, refl, arith, Option, some, none,
  if◌then◌else◌, update, ne→==,
}
use os_learn.Klibc.{Bytes}
use os_learn.Cpu.{
  Cpuid, no_registers, registers_after, store_word, brand_leaf, brand_words, cpu_get_brand,
  cpu_brand_string_supported,
}

-- The four registers in the order that they are written.
unfoldable pub register : Cpuid → ℕ → ℕ
register r zero = r.eax
register r (suc zero) = r.ebx
register r (suc (suc zero)) = r.ecx
register r (suc (suc (suc k))) = r.edx

store_word-inside :
    (a w : ℕ) (m : Bytes) (b : ℕ) → b < 4 → store_word a w m (a + b) ≡ w / 0x100 ^ b % 0x100
store_word-inside a w m zero h = ground arith
store_word-inside a w m (suc zero) h = ground arith
store_word-inside a w m (suc (suc zero)) h = ground arith
store_word-inside a w m (suc (suc (suc zero))) h = ground arith
store_word-inside a w m (suc (suc (suc (suc b)))) h = absurd (omega (arith, h))

store_word-below : (a w : ℕ) (m : Bytes) (x : ℕ) → x < a → store_word a w m x ≡ m x
store_word-below a w m x h = ground (arith, h)

-- The buffer in one round, after each of the four words.
module _ (j : ℕ) (r : Cpuid) (out : Bytes) where
  abbrev after_eax : Bytes
  after_eax = store_word (j * 4) r.eax out

  abbrev after_ebx : Bytes
  after_ebx = store_word ((j + 1) * 4) r.ebx after_eax

  abbrev after_ecx : Bytes
  after_ecx = store_word ((j + 2) * 4) r.ecx after_ebx

  abbrev round : Bytes
  round = store_word ((j + 3) * 4) r.edx after_ecx

-- What one round leaves, and what it writes.
round-below : (j : ℕ) (r : Cpuid) (out : Bytes) (x : ℕ) → x < j * 4 → round j r out x ≡ out x
round-below j r out x h =
    store_word-below ((j + 3) * 4) r.edx (after_ecx j r out) x (omega (arith, h))
    ∙ store_word-below ((j + 2) * 4) r.ecx (after_ebx j r out) x (omega (arith, h))
    ∙ store_word-below ((j + 1) * 4) r.ebx (after_eax j r out) x (omega (arith, h))
    ∙ store_word-below (j * 4) r.eax out x h

round-inside :
    (j : ℕ) (r : Cpuid) (out : Bytes) (k b : ℕ)
    → k < 4
    → b < 4
    → round j r out ((j + k) * 4 + b) ≡ register r k / 0x100 ^ b % 0x100
unfolding register
round-inside j r out zero b h hb =
    store_word-below ((j + 3) * 4) r.edx (after_ecx j r out) ((j + 0) * 4 + b) (omega (arith, hb))
    ∙ store_word-below ((j + 2) * 4) r.ecx (after_ebx j r out) ((j + 0) * 4 + b) (omega (arith, hb))
    ∙ store_word-below ((j + 1) * 4) r.ebx (after_eax j r out) ((j + 0) * 4 + b) (omega (arith, hb))
    ∙ ap (λ t. store_word (j * 4) r.eax out (t * 4 + b)) (omega arith)
    ∙ store_word-inside (j * 4) r.eax out b hb
round-inside j r out (suc zero) b h hb =
    store_word-below ((j + 3) * 4) r.edx (after_ecx j r out) ((j + 1) * 4 + b) (omega (arith, hb))
    ∙ store_word-below ((j + 2) * 4) r.ecx (after_ebx j r out) ((j + 1) * 4 + b) (omega (arith, hb))
    ∙ store_word-inside ((j + 1) * 4) r.ebx (after_eax j r out) b hb
round-inside j r out (suc (suc zero)) b h hb =
    store_word-below ((j + 3) * 4) r.edx (after_ecx j r out) ((j + 2) * 4 + b) (omega (arith, hb))
    ∙ store_word-inside ((j + 2) * 4) r.ecx (after_ebx j r out) b hb
round-inside j r out (suc (suc (suc zero))) b h hb =
    store_word-inside ((j + 3) * 4) r.edx (after_ecx j r out) b hb
round-inside j r out (suc (suc (suc (suc k)))) b h hb = absurd (omega (arith, h))

module _ (get_cpuid : ℕ → Option Cpuid) (get_cpuid_max : ℕ → ℕ) where
  brand_words-below :
      (n i j : ℕ) (old : Cpuid) (out : Bytes) (x : ℕ)
      → x < j * 4
      → brand_words get_cpuid get_cpuid_max n i j old out x ≡ out x
  unfolding brand_words
  brand_words-below zero i j old out x h = refl
  brand_words-below (suc n) i j old out x h =
      brand_words-below n (i + 1) (j + 4) _ _ x (omega (arith, h)) ∙ round-below j _ out x h

  -- The bytes of the `l`-th of the leaves to come.
  brand_words-inside :
      (n i j : ℕ) (old : Cpuid) (out : Bytes) (l k b : ℕ) (r : Cpuid)
      → l < n
      → k < 4
      → b < 4
      → get_cpuid (brand_leaf + (i + l)) ≡ some r
      → brand_words get_cpuid get_cpuid_max n i j old out ((j + (4 * l + k)) * 4 + b)
        ≡ register r k / 0x100 ^ b % 0x100
  unfolding brand_words
  brand_words-inside zero i j old out l k b r h hk hb e = absurd (omega (arith, h))
  brand_words-inside (suc n) i j old out zero k b r h hk hb e =
      brand_words-below n (i + 1) (j + 4) (registers_after (get_cpuid (brand_leaf + i)) old)
        (round j (registers_after (get_cpuid (brand_leaf + i)) old) out) ((j + (4 * 0 + k)) * 4 + b)
        (omega (arith, hk, hb))
      ∙ ap (λ t. round j (registers_after (get_cpuid (brand_leaf + i)) old) out (t * 4 + b))
          {x = j + (4 * 0 + k)} {y = j + k} (omega arith)
      ∙ ap (λ t. round j (registers_after t old) out ((j + k) * 4 + b))
          (ap (λ t. get_cpuid (brand_leaf + t)) {x = i} {y = i + 0} (omega arith) ∙ e)
      ∙ round-inside j r out k b hk hb
  brand_words-inside (suc n) i j old out (suc l) k b r h hk hb e =
      ap
        (λ t.
          brand_words get_cpuid get_cpuid_max n (i + 1) (j + 4)
            (registers_after (get_cpuid (brand_leaf + i)) old)
            (round j (registers_after (get_cpuid (brand_leaf + i)) old) out) (t * 4 + b))
        {x = j + (4 * suc l + k)} {y = j + 4 + (4 * l + k)} (omega arith)
      ∙ brand_words-inside n (i + 1) (j + 4) _ _ l k b r (omega (arith, h)) hk hb
          (ap (λ t. get_cpuid (brand_leaf + t)) (omega arith) ∙ e)

  -- cpu_get_brand where the processor has the text: byte `b` of the register number `k` of the leaf
  -- number `l` of the three is at 16 * l + 4 * k + b, and a 0 follows the 48 bytes.
  pub cpu_get_brand_lem :
      (leaf : ℕ → Cpuid) (out : Bytes)
      → ((l : ℕ) → l < 3 → get_cpuid (brand_leaf + (2 + l)) ≡ some (leaf l))
      → ((l k b : ℕ)
          → l < 3
          → k < 4
          → b < 4
          → cpu_get_brand get_cpuid get_cpuid_max out ((4 * l + k) * 4 + b)
            ≡ register (leaf l) k / 0x100 ^ b % 0x100)
        × (cpu_get_brand get_cpuid get_cpuid_max out 48 ≡ 0)
  unfolding cpu_get_brand
  cpu_get_brand_lem leaf out has = (
    λ l k b hl hk hb. rw (ne→== 48 ((4 * l + k) * 4 + b) (omega (arith, hl, hk, hb))) (
        ap
          (λ t.
            brand_words get_cpuid get_cpuid_max 3 2 0 no_registers
              (if cpu_brand_string_supported get_cpuid get_cpuid_max
                then out
                else update (update out 0 63) 1 0)
              (t * 4 + b))
          {x = 4 * l + k} {y = 0 + (4 * l + k)} (omega arith)
        ∙ brand_words-inside 3 2 0 no_registers _ l k b (leaf l) hl hk hb (has l hl)),
    refl,
  )

  -- cpu_get_brand where the processor does not support the first of the leaves: what is left is the empty text, and
  -- not the question mark that is written first.
  pub cpu_get_brand-unsupported :
      (out : Bytes)
      → get_cpuid (brand_leaf + 2) ≡ none
      → cpu_get_brand get_cpuid get_cpuid_max out 0 ≡ 0
  unfolding cpu_get_brand brand_words
  cpu_get_brand-unsupported out lacks = rw lacks refl
