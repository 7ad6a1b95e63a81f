-- ===== src/Apic/Vectors.antt =====
-- hal/apic.c: what the controller's registers say after apic_init.
use os_learn.Base.{
  ℕ, ◌*◌, ◌/◌, ◌%◌, ◌^◌, ◌<◌, ◌≡◌, ◌≢◌, ◌≤◌, sym, zero, suc, ◌∙◌, ap, refl, arith, false, bit,
  bit-bit_and, bit-bit_or, bit-le-one, bit_or_lowest, bit_or-fields, bit_and-high_mask, bit_and,
  bit_or, ltb, ◌==◌, if◌then◌else◌, table_eq, all_below, [], ◌∷◌,
}
use mathlib.Core.Path.{ap₂}
use native.Mathlib.Nat.{pow-suc}
use os_learn.Interrupts.{end_of_interrupt, serviced}
use os_learn.Apic.{Controller, apic_init, apic_setup_lvts}

-- The vector that a register of the local vector table, or that of the spurious interrupt, holds.
unfoldable pub vector_of : ℕ → ℕ
vector_of reg = reg % 0x100

-- The bits of the register of the spurious interrupt.
abbrev spurious : ℕ → ℕ
spurious old = bit_or (bit_or (bit_and old 0xffff_ff00) 0x100) 203

mask_bits : (k : ℕ) → k < 32 → bit 0xffff_ff00 k ≡ (if ltb k 8 then 0 else 1)
unfolding all_below bit
mask_bits k h = table_eq 32 (λ y. bit 0xffff_ff00 y) (λ y. if ltb y 8 then 0 else 1) k h refl

enable_bits : (k : ℕ) → k < 32 → bit 0x100 k ≡ (if k == 8 then 1 else 0)
unfolding all_below bit
enable_bits k h = table_eq 32 (λ y. bit 0x100 y) (λ y. if y == 8 then 1 else 0) k h refl

vector_bits : (k : ℕ) → k < 32 → bit 203 k ≡ (if ltb k 8 then bit 203 k else 0)
unfolding all_below bit
vector_bits k h = table_eq 32 (λ y. bit 203 y) (λ y. if ltb y 8 then bit 203 y else 0) k h refl

enable_hardware_bits : (k : ℕ) → k < 32 → bit 0x800 k ≡ (if k == 11 then 1 else 0)
unfolding all_below bit
enable_hardware_bits k h = table_eq 32 (λ y. bit 0x800 y) (λ y. if y == 11 then 1 else 0) k h refl

spurious-bits :
    (old k : ℕ)
    → k < 32
    → bit (spurious old) k ≡ (if ltb k 8 then bit 203 k else if k == 8 then 1 else bit old k)
spurious-bits old k h = ground (
  arith,
  bit-bit_or (bit_or (bit_and old 0xffff_ff00) 0x100) 203 k,
  bit-bit_or (bit_and old 0xffff_ff00) 0x100 k,
  bit-bit_and old 0xffff_ff00 k,
  mask_bits k h,
  enable_bits k h,
  vector_bits k h,
  bit-le-one old k,
  bit-le-one 203 k,
)

bit_or-double : (a b : ℕ) → bit_or (a * 2) (b * 2) ≡ bit_or a b * 2
bit_or-double a b = omega (
  arith,
  bit_or_lowest (a * 2) (b * 2),
  ap₂ bit_or {x = a * 2 / 2} {y = a} {u = b * 2 / 2} {v = b} (omega arith) (omega arith),
)

-- `|` on two multiples of `2 ^ k`.
bit_or-times : (k a b : ℕ) → bit_or (a * 2 ^ k) (b * 2 ^ k) ≡ bit_or a b * 2 ^ k
bit_or-times zero a b =
    ap₂ bit_or {x = a * 1} {y = a} {u = b * 1} {v = b} (omega arith) (omega arith) ∙ omega arith
bit_or-times (suc k) a b =
    ap₂ bit_or (times a) (times b)
    ∙ bit_or-double (a * 2 ^ k) (b * 2 ^ k)
    ∙ ap (λ t. t * 2) (bit_or-times k a b)
    ∙ sym (times (bit_or a b))
  where
    times : (n : ℕ) → n * 2 ^ suc k ≡ n * 2 ^ k * 2
    times n = omega (arith, ap (λ (t : ℕ). n * t) (pow-suc 2 k))

spurious-vector : (old : ℕ) → vector_of (spurious old) ≡ 203
unfolding vector_of
spurious-vector old = omega (
  arith,
  ap (λ t. bit_or (bit_or t 0x100) 203) (bit_and-high_mask 8 0xff_ffff old),
  ap (λ t. bit_or t 203) (bit_or-times 8 (bit_and (old / 256) 0xff_ffff) 1),
  bit_or-fields 8 (bit_or (bit_and (old / 256) 0xff_ffff) 1) 203 (omega arith),
)

-- apic_init: the processor takes no interrupts, the old controllers are masked, and the bit that
-- enables the controller is set, the other bits of its word being as before. An interrupt on the
-- first line, and an error, have vectors that the dispatch ends; the second line is masked; the
-- spurious interrupt has the vector that the dispatch does not end, and its register keeps the bits
-- above the one that enables it. No other register changes but that of the priority.
pub apic_init_lem :
    (c : Controller)
    → let c' = apic_init c in
      (c'.interrupts ≡ false)
      × ((c'.port 0xa1 ≡ 0xff) × (c'.port 0x21 ≡ 0xff))
      × ((k : ℕ) → k < 32 → bit (c'.msr 0x1b) k ≡ (if k == 11 then 1 else bit (c.msr 0x1b) k))
      × (end_of_interrupt (vector_of (c'.regs 0x350)) ≡ serviced ∷ [])
      × (end_of_interrupt (vector_of (c'.regs 0x370)) ≡ serviced ∷ [])
      × (bit (c'.regs 0x360) 16 ≡ 1)
      × (end_of_interrupt (vector_of (c'.regs 0xf0)) ≡ [])
      × ((k : ℕ)
          → 8 ≤ k
          → k < 32
          → bit (c'.regs 0xf0) k ≡ (if k == 8 then 1 else bit (c.regs 0xf0) k))
      × ((r : ℕ) → r ≢ 0x80 → r ≢ 0xf0 → r ≢ 0x350 → r ≢ 0x360 → r ≢ 0x370 → c'.regs r ≡ c.regs r)
unfolding apic_init apic_setup_lvts end_of_interrupt vector_of bit
apic_init_lem c = (
  refl,
  (refl, refl),
  λ k h.
      ground (
        arith,
        bit-bit_or (c.msr 0x1b) 0x800 k,
        enable_hardware_bits k h,
        bit-le-one (c.msr 0x1b) k,
      ),
  refl,
  refl,
  refl,
  rw (spurious-vector (c.regs 0xf0)) refl,
  λ k low h. ground (arith, low, spurious-bits (c.regs 0xf0) k h),
  λ r a b d e f. ground (arith, a, b, d, e, f),
)
