-- ===== src/Descriptors/Gate.antt =====
-- kernel/asm/x86/idt.c: what the processor reads from an entry.
use os_learn.Base.{
  ℕ, ◌+◌, ◌*◌, ◌/◌, ◌%◌, ◌^◌, ◌<◌, ◌≡◌, refl, sym, ap, ap₂, ◌∙◌, true, arith, bit_and, bit_or, u32,
  bit_and-high_mask, bit_and-low_mask, bit_or-fields, bit, table_eq, ◌==◌,
}
use os_learn.Descriptors.{u64, idt_attr, idt_entry}

idt_attr_lem : (dpl : ℕ) → idt_attr dpl ≡ 0x8e00 + dpl % 4 * 2 ^ 13
unfolding os_learn.Base.all_below
idt_attr_lem dpl =
    ap (λ x. bit_or (bit_or 0xe00 (x * 2 ^ 13)) 0x8000) (bit_and-low_mask 2 dpl)
    ∙ table_eq 4 (λ x. bit_or (bit_or 0xe00 (x * 2 ^ 13)) 0x8000) (λ x. 0x8e00 + x * 2 ^ 13)
        (dpl % 4) (omega arith) refl

idt_entry_lem :
    (seg_selector offset dpl : ℕ)
    → seg_selector < 2 ^ 16
    → offset < 2 ^ 32
    → idt_entry seg_selector offset dpl
      ≡ (offset / 2 ^ 16 * 2 ^ 16 + (0x8e00 + dpl % 4 * 2 ^ 13)) * 2 ^ 32
        + (seg_selector * 2 ^ 16 + offset % 2 ^ 16)
unfolding idt_entry
idt_entry_lem seg_selector offset dpl hs ho =
    ap₂ (λ x y. bit_or (u64 (x * 2 ^ 32)) y) high low
    ∙ ap (λ x. bit_or x (seg_selector * 2 ^ 16 + offset % 2 ^ 16)) (omega arith)
    ∙ bit_or-fields 32 (offset / 2 ^ 16 * 2 ^ 16 + (0x8e00 + dpl % 4 * 2 ^ 13))
        (seg_selector * 2 ^ 16 + offset % 2 ^ 16) (omega arith)
  where
    high :
        bit_or (bit_and offset 0xffff_0000) (idt_attr dpl)
        ≡ offset / 2 ^ 16 * 2 ^ 16 + (0x8e00 + dpl % 4 * 2 ^ 13)
    high =
        ap₂ bit_or
          (bit_and-high_mask 16 0xffff offset
            ∙ omega (arith, bit_and-low_mask 16 (offset / 2 ^ 16)))
          (idt_attr_lem dpl)
        ∙ bit_or-fields 16 (offset / 2 ^ 16) (0x8e00 + dpl % 4 * 2 ^ 13) (omega arith)

    low :
        bit_or (u32 (seg_selector * 2 ^ 16)) (bit_and offset 0xffff)
        ≡ seg_selector * 2 ^ 16 + offset % 2 ^ 16
    low =
        ap₂ bit_or (omega arith) (bit_and-low_mask 16 offset)
        ∙ bit_or-fields 16 seg_selector (offset % 2 ^ 16) (omega arith)

-- The entry that _set_idt_entry packs gives back the two halves of the routine's address, the
-- selector and the privilege level, and it is a present 32-bit interrupt gate.
pub idt_entry-fields :
    (seg_selector offset dpl : ℕ)
    → seg_selector < 2 ^ 16
    → offset < 2 ^ 32
    → let e = idt_entry seg_selector offset dpl in
      (e % 2 ^ 16 + e / 2 ^ 48 * 2 ^ 16 ≡ offset)
      × (e / 2 ^ 16 % 2 ^ 16 ≡ seg_selector)
      × (e / 2 ^ 45 % 4 ≡ dpl % 4)
      × (e / 2 ^ 47 % 2 ≡ 1)
      × (e / 2 ^ 40 % 32 ≡ 14)
idt_entry-fields seg_selector offset dpl hs ho =
    let e = idt_entry_lem seg_selector offset dpl hs ho in
    (omega (arith, e), omega (arith, e), omega (arith, e), omega (arith, e), omega (arith, e))
