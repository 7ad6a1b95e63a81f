-- ===== src/Tty/Tests.antt =====
-- kernel/tty/tty.c: a screen, and the theorems at it.
use os_learn.Base.{◌%◌, ◌+◌, ◌*◌, ◌≡◌, refl, [], ◌∷◌, arith}
use os_learn.Tty.{Tty, tty_put_char, tty_put_str, tty_scroll_up}
use os_learn.Tty.Screen.{
  OnScreen, SameOutside, cell, scroll_up_lem, put_str-OnScreen, put_char_cell,
}

abbrev screen : Tty
screen = record { vga_buffer = 0x5_c000; theme_color = 0x0f00; x = 79; y = 24; cells = λ p. p % 80 }

screen-OnScreen : OnScreen screen
screen-OnScreen = record { column = omega arith; row = omega arith }

abbrev earlier : Tty
earlier = record screen { y = 3 }

scroll_up_lem_run : cell (tty_scroll_up screen) 24 7 ≡ 0x0f00
scroll_up_lem_run = scroll_up_lem screen 24 7 (omega arith) (omega arith)

put_str-OnScreen_example :
    OnScreen (tty_put_str (65 ∷ 10 ∷ 66 ∷ []) screen)
    × SameOutside screen (tty_put_str (65 ∷ 10 ∷ 66 ∷ []) screen)
put_str-OnScreen_example = put_str-OnScreen (65 ∷ 10 ∷ 66 ∷ []) screen screen-OnScreen

put_char_cell_run :
    let u = tty_put_char 65 earlier in (cell u 3 79 ≡ 0x0f41) × (u.x + u.y * 80 ≡ 320)
put_char_cell_run =
    put_char_cell 65 earlier 3 79 (record { column = omega arith; row = omega arith })
      (refl, refl, refl) (omega arith) (omega arith)
