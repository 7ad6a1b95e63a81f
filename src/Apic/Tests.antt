-- ===== src/Apic/Tests.antt =====
-- hal/apic.c: a controller with all bits of a word set, and the theorem at it.
use os_learn.Base.{ℕ, ◌<◌, ◌≤◌, ◌≡◌, ◌≢◌, true, false, bit, ◌==◌, if◌then◌else◌, [], ◌∷◌}
use os_learn.Interrupts.{end_of_interrupt, serviced}
use os_learn.Apic.{Controller, apic_init}
use os_learn.Apic.Vectors.{vector_of, apic_init_lem}

abbrev controller : Controller
controller = record {
  interrupts = true;
  port = λ p. 0;
  msr = λ r. 0xfee0_0100;
  regs = λ r. 0xffff_ffff;
}

apic_init_lem_example :
    let c' = apic_init controller in
    (c'.interrupts ≡ false)
    × ((c'.port 0xa1 ≡ 0xff) × (c'.port 0x21 ≡ 0xff))
    × ((k : ℕ) → k < 32 → bit (c'.msr 0x1b) k ≡ (if k == 11 then 1 else bit 0xfee0_0100 k))
    × (end_of_interrupt (vector_of (c'.regs 0x350)) ≡ serviced ∷ [])
    × (end_of_interrupt (vector_of (c'.regs 0x370)) ≡ serviced ∷ [])
    × (bit (c'.regs 0x360) 16 ≡ 1)
    × (end_of_interrupt (vector_of (c'.regs 0xf0)) ≡ [])
    × ((k : ℕ) → 8 ≤ k → k < 32 → bit (c'.regs 0xf0) k ≡ (if k == 8 then 1 else bit 0xffff_ffff k))
    × ((r : ℕ) → r ≢ 0x80 → r ≢ 0xf0 → r ≢ 0x350 → r ≢ 0x360 → r ≢ 0x370 → c'.regs r ≡ 0xffff_ffff)
apic_init_lem_example = apic_init_lem controller
