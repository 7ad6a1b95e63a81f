-- ===== src/Kprintf/Tests.antt =====
-- kernel/kprintf.c: a screen, the theorem at it, and a run.
use os_learn.Base.{ℕ, ◌≡◌, refl, List, [], ◌∷◌, some}
use os_learn.Tty.{Tty}
use os_learn.Kprintf.{kprintf, log_level, read_past}

abbrev screen : Tty
screen = record { vga_buffer = 0xb8000; theme_color = 0x0f00; x = 3; y = 24; cells = λ p. 0 }

abbrev no_text : ℕ → List ℕ
no_text a = []

-- An escape character alone is read past its end.
escaped : kprintf (λ i. 7) no_text [] (some (27 ∷ [])) screen ≡ read_past
unfolding kprintf log_level
escaped = refl
