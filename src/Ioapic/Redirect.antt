-- ===== src/Ioapic/Redirect.antt =====
-- hal/ioapic.c: what ioapic_redirect leaves in the registers.
use os_learn.Base.{
  ℕ, ◌+◌, ◌*◌, ◌^◌, ◌<◌, ◌≡◌, ◌≢◌, refl, arith, bit_and, bit_or, u8, u32, eq→==, ne→==,
}
use os_learn.Ioapic.{Ioapic, ioapic_redirect}

-- For one of the 24 lines, ioapic_redirect writes the two words of the line's entry, and leaves every
-- other register as it was.
pub redirect_entry :
    (irq vector dest flags r : ℕ) (c : Ioapic)
    → irq < 24
    → let d = ioapic_redirect irq vector dest flags c in
      (d.regs (16 + irq * 2) ≡ bit_and (bit_or vector flags) 0x1_ffff)
      × (d.regs (17 + irq * 2) ≡ u32 (dest * 2 ^ 24))
      × (r ≢ 16 + irq * 2 → r ≢ 17 + irq * 2 → d.regs r ≡ c.regs r)
unfolding ioapic_redirect
redirect_entry irq vector dest flags r c h =
    let first : u8 (16 + irq * 2) ≡ 16 + irq * 2 = omega arith in
    let second : u8 (u8 (16 + irq * 2) + 1) ≡ 17 + irq * 2 = omega arith in
    (
      rw (
        second,
        first,
        ne→== (17 + irq * 2) (16 + irq * 2) (omega arith),
        eq→== (16 + irq * 2) (16 + irq * 2) refl,
      ),
      rw (second, eq→== (17 + irq * 2) (17 + irq * 2) refl),
      λ a b. rw (
        second,
        first,
        ne→== (17 + irq * 2) r (omega (arith, b)),
        ne→== (16 + irq * 2) r (omega (arith, a)),
      ),
    )
