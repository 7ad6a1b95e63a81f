-- ===== src/Ioapic/Tests.antt =====
-- hal/ioapic.c: the clock's line, which firmware moved to input 2.
use os_learn.Base.{◌≡◌, refl, some, none, ◌==◌, if◌then◌else◌}
use os_learn.Ioapic.{ioapic_init}

clock_line :
    (ioapic_init (λ i. if i == 8 then some 2 else none) (record { select = 0; regs = λ r. 0 })).regs
      20
    ≡ 210
unfolding ioapic_init
clock_line = refl
