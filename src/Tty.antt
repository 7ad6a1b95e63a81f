-- ===== src/Tty.antt =====
-- kernel/tty/tty.c: the text screen. The memory counts cells of 16 bits, so that a pointer to a
-- `vga_attribute` is the number of a cell.
pub mod Screen
mod Tests
use os_learn.Base.{
  ℕ, zero, suc, ◌+◌, ◌-◌, ◌*◌, ◌/◌, ◌%◌, ◌^◌, List, [], ◌∷◌, bit_or, u16, u32, ltb, leb, ◌==◌,
  if◌then◌else◌, update, fill,
}
use os_learn.Klibc.{memcpy}

abbrev pub tty_width : ℕ
tty_width = 80

abbrev pub tty_height : ℕ
tty_height = 25

abbrev pub last_line : ℕ
last_line = tty_width * (tty_height - 1)

pub record Tty : Type 0 where
  pub vga_buffer : ℕ
  pub theme_color : ℕ
  pub x : ℕ
  pub y : ℕ
  pub cells : ℕ → ℕ

pub tty_clear : Tty → Tty
tty_clear t = record t {
  cells = fill (tty_width * tty_height) t.vga_buffer t.theme_color t.cells;
  x = 0;
  y = 0;
}

pub tty_init : ℕ → Tty → Tty
unfolding tty_clear
tty_init vga_buf t = tty_clear (record t { vga_buffer = vga_buf })

pub tty_set_buffer : ℕ → Tty → Tty
tty_set_buffer vga_buf t = record t { vga_buffer = vga_buf }

unfoldable pub tty_set_theme : ℕ → ℕ → Tty → Tty
tty_set_theme fg bg t = record t { theme_color = u16 (bit_or (bg * 2 ^ 4) fg * 2 ^ 8) }

pub tty_scroll_up : Tty → Tty
tty_scroll_up t = record t {
  cells =
      fill tty_width (t.vga_buffer + last_line) t.theme_color
        (memcpy t.vga_buffer (t.vga_buffer + tty_width) last_line t.cells);
  y = if t.y == 0 then 0 else tty_height - 1;
}

-- A `char` is signed, and an `int` of it has its sign bit in the upper bits.
abbrev pub char_int : ℕ → ℕ
char_int chr = if ltb chr 128 then chr else 0xffff_ff00 + chr

-- The `switch` on the character: a tab, a line feed, a carriage return, or a cell to write.
pub write_char : ℕ → Tty → Tty
write_char chr t =
    if chr == 9
    then record t { x = u32 (t.x + 4) }
    else if chr == 10
    then record t { y = u16 (t.y + 1); x = 0 }
    else if chr == 13
    then record t { x = 0 }
    else record t {
      cells =
          update t.cells (t.vga_buffer + t.x + t.y * tty_width)
            (u16 (bit_or t.theme_color (char_int chr)));
      x = u32 (t.x + 1);
    }

pub wrap_line : Tty → Tty
wrap_line t = if leb tty_width t.x then record t { x = 0; y = u16 (t.y + 1) } else t

pub tty_put_char : ℕ → Tty → Tty
unfolding write_char wrap_line tty_scroll_up
tty_put_char chr t =
    let u = wrap_line (write_char chr t) in if leb tty_height u.y then tty_scroll_up u else u

pub tty_put_str : List ℕ → Tty → Tty
unfolding tty_put_char
tty_put_str [] t = t
tty_put_str (chr ∷ str) t = tty_put_str str (tty_put_char chr t)

pub tty_clear_line : ℕ → Tty → Tty
tty_clear_line y t = record t {
  cells = fill tty_width (t.vga_buffer + y * tty_width) t.theme_color t.cells;
}

pub tty_set_cpos : ℕ → ℕ → Tty → Tty
tty_set_cpos x y t = record t { x = x % tty_width; y = y % tty_height }

pub tty_get_cpos : Tty → ℕ × ℕ
tty_get_cpos t = (t.x, t.y)

unfoldable pub tty_get_theme : Tty → ℕ
tty_get_theme t = t.theme_color
