-- ===== src/Ioapic.antt =====
-- hal/ioapic.c: the redirection of interrupt lines. The controller has a register that selects, and
-- the registers that the window then reads and writes.
pub mod Redirect
mod Tests
use os_learn.Base.{
  ℕ, ◌+◌, ◌*◌, ◌%◌, ◌^◌, Option, some, none, bit_and, bit_or, u8, u32, leb, ◌==◌, if◌then◌else◌,
  update,
}

pub record Ioapic : Type 0 where
  pub select : ℕ
  pub regs : ℕ → ℕ

pub ioapic_write : ℕ → ℕ → Ioapic → Ioapic
ioapic_write sel val c = record { select = sel; regs = update c.regs sel val }

pub ioapic_read : ℕ → Ioapic → ℕ × Ioapic
ioapic_read sel c = (c.regs sel, record c { select = sel })

-- `irq_exception old_irq` is the `gsi` of the override, if there is one.
pub ioapic_get_irq : (ℕ → Option ℕ) → ℕ → ℕ
ioapic_get_irq irq_exception old_irq =
    if leb 24 old_irq
    then old_irq
    else elim (irq_exception old_irq) [ some gsi ↦ u8 gsi | none ↦ old_irq ]

pub ioapic_redirect : ℕ → ℕ → ℕ → ℕ → Ioapic → Ioapic
unfolding ioapic_write
ioapic_redirect irq vector dest flags c =
    let reg_sel = u8 (0x10 + irq * 2) in
    ioapic_write (u8 (reg_sel + 1)) (u32 (dest * 2 ^ 24))
      (ioapic_write reg_sel (bit_and (bit_or vector flags) 0x1_ffff) c)

-- The line of the clock goes to its vector.
pub ioapic_init : (ℕ → Option ℕ) → Ioapic → Ioapic
unfolding ioapic_get_irq ioapic_redirect
ioapic_init irq_exception = ioapic_redirect (ioapic_get_irq irq_exception 8) 210 0 0
