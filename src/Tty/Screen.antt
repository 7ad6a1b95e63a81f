-- ===== src/Tty/Screen.antt =====
-- kernel/tty/tty.c: where the cursor stays, and what the cells of the screen hold.
use os_learn.Base.{
  ℕ, ◌+◌, ◌-◌, ◌*◌, ◌≤◌, ◌<◌, ◌≡◌, ◌⊎◌, inl, inr, ◌&&◌, ◌∙◌, refl, List, [], ◌∷◌, true, false,
  arith, bit_or, u16, ltb, leb, leb→le, ◌==◌, if◌then◌else◌, fill_lem, Bool-cases, update, u32,
}
use native.Mathlib.Decide.{ℕ_discrete}
use os_learn.Klibc.{memcpy}
use os_learn.Klibc.Mem.{memcpy_lem}
use os_learn.Tty.{Tty, char_int, tty_scroll_up, write_char, wrap_line, tty_put_char, tty_put_str}

-- The cursor stands on the screen.
pub record OnScreen (t : Tty) : Type 0 where
  pub column : t.x < 80
  pub row : t.y < 25

-- The cell of row `r` and column `c`.
abbrev pub cell : Tty → ℕ → ℕ → ℕ
cell t r c = t.cells (t.vga_buffer + c + r * 80)

-- What an operation leaves alone: the settings and the memory outside the screen.
pub record SameOutside (t u : Tty) : Type 0 where
  pub buffer : u.vga_buffer ≡ t.vga_buffer
  pub theme : u.theme_color ≡ t.theme_color
  pub outside : (p : ℕ) → (p < t.vga_buffer) ⊎ (t.vga_buffer + 2000 ≤ p) → u.cells p ≡ t.cells p

SameOutside-trans : {t u v : Tty} → SameOutside t u → SameOutside u v → SameOutside t v
SameOutside-trans h k = record {
  buffer = k.buffer ∙ h.buffer;
  theme = k.theme ∙ h.theme;
  outside = λ p out. k.outside p (rw h.buffer out) ∙ h.outside p out;
}

scroll_cells :
    (t : Tty) (p : ℕ)
    → (tty_scroll_up t).cells p ≡ (
        if leb (t.vga_buffer + 1920) p && ltb p (t.vga_buffer + 1920 + 80)
        then t.theme_color
        else if leb t.vga_buffer p && ltb p (t.vga_buffer + 1920)
        then t.cells (t.vga_buffer + 80 + (p - t.vga_buffer))
        else t.cells p)
unfolding tty_scroll_up
scroll_cells t p = ground (
  arith,
  fill_lem 80 (t.vga_buffer + 1920) t.theme_color
      (memcpy t.vga_buffer (t.vga_buffer + 80) 1920 t.cells) p,
  memcpy_lem t.vga_buffer (t.vga_buffer + 80) 1920 t.cells p (inl (omega arith)),
)

scroll-SameOutside : (t : Tty) → SameOutside t (tty_scroll_up t)
unfolding tty_scroll_up
scroll-SameOutside t = record {
  buffer = refl;
  theme = refl;
  outside = λ p out. ground (arith, scroll_cells t p);
}

-- tty_scroll_up moves every row up by one and clears the last row in the theme's color.
pub scroll_up_lem :
    (t : Tty) (r c : ℕ)
    → r < 25
    → c < 80
    → cell (tty_scroll_up t) r c ≡ (if ltb r 24 then cell t (r + 1) c else t.theme_color)
scroll_up_lem t r c hr hc =
    rw (scroll-SameOutside t).buffer (ground (arith, scroll_cells t (t.vga_buffer + c + r * 80)))

-- Where the `switch` may leave the cursor: past the end of a row, or on the row below the last.
record Written (t u : Tty) : Type 0 where
  before : u.x < 80 → u.y ≤ 25
  past : 80 ≤ u.x → u.y < 25
  same : SameOutside t u

write_char-Written : (chr : ℕ) (t : Tty) → OnScreen t → Written t (write_char chr t)
unfolding write_char
write_char-Written chr t h = elim (Bool-cases (chr == 9)) [
  | inl tab ↦ rw tab (record {
    before = λ l. omega (arith, h.row);
    past = λ l. h.row;
    same = record { buffer = refl; theme = refl; outside = λ p out. refl };
  })
  | inr a ↦ elim (Bool-cases (chr == 10)) [
    | inl feed ↦
        rw (a, feed)
          (record {
            before = λ l. omega (arith, h.row);
            past = λ l. absurd (omega (arith, l));
            same = record { buffer = refl; theme = refl; outside = λ p out. refl };
          })
    | inr b ↦ elim (Bool-cases (chr == 13)) [
      | inl return ↦
          rw (a, b, return)
            (record {
              before = λ l. omega (arith, h.row);
              past = λ l. h.row;
              same = record { buffer = refl; theme = refl; outside = λ p out. refl };
            })
      | inr d ↦
          rw (a, b, d)
            (record {
              before = λ l. omega (arith, h.row);
              past = λ l. h.row;
              same = record {
                buffer = refl;
                theme = refl;
                outside = λ p out. ground (arith, out, h.row, h.column);
              };
            })
    ]
  ]
]

wrap_line-Written :
    (t u : Tty)
    → Written t u
    → ((wrap_line u).x < 80) × ((wrap_line u).y ≤ 25) × SameOutside t (wrap_line u)
unfolding wrap_line
wrap_line-Written t u w = elim (Bool-cases (leb 80 u.x)) [
  | inl over ↦ rw over (
    omega arith,
    omega (arith, w.past (leb→le 80 u.x over)),
    record { buffer = w.same.buffer; theme = w.same.theme; outside = w.same.outside },
  )
  | inr fits ↦ rw fits (ground (arith, fits), w.before (ground (arith, fits)), w.same)
]

scroll_row : (u : Tty) → (tty_scroll_up u).y < 25
unfolding tty_scroll_up
scroll_row u = ground arith

-- tty_put_char keeps the cursor on the screen, the settings, and the memory outside the screen.
pub put_char-OnScreen :
    (chr : ℕ) (t : Tty)
    → OnScreen t
    → OnScreen (tty_put_char chr t) × SameOutside t (tty_put_char chr t)
unfolding tty_put_char
put_char-OnScreen chr t h =
    let u = wrap_line (write_char chr t) in
    let (column, row, same) = wrap_line-Written t (write_char chr t) (write_char-Written chr t h) in
    elim (Bool-cases (leb 25 u.y)) [
      | inl over ↦ rw over (
        record { column = column; row = scroll_row u },
        SameOutside-trans same (scroll-SameOutside u),
      )
      | inr fits ↦ rw fits (record { column = column; row = ground (arith, fits) }, same)
    ]

-- tty_put_str, for any text: the cursor stays on the screen, and the settings and the memory outside
-- the screen are left as they were.
pub put_str-OnScreen :
    (str : List ℕ) (t : Tty)
    → OnScreen t
    → OnScreen (tty_put_str str t) × SameOutside t (tty_put_str str t)
unfolding tty_put_str
put_str-OnScreen [] t h = (h, record { buffer = refl; theme = refl; outside = λ p out. refl })
put_str-OnScreen (chr ∷ str) t h =
    let (h', same) = put_char-OnScreen chr t h in
    let (h'', same') = put_str-OnScreen str (tty_put_char chr t) h' in
    (h'', SameOutside-trans same same')

-- The screen with the character written at the cursor, and the cursor at `x` and `y`.
abbrev typed : ℕ → Tty → ℕ → ℕ → Tty
typed chr t x y = record t {
  cells =
      update t.cells (t.vga_buffer + t.x + t.y * 80) (u16 (bit_or t.theme_color (char_int chr)));
  x = x;
  y = y;
}

abbrev pub IsPlain : ℕ → Type 0
IsPlain chr = ((chr == 9) ≡ false) × ((chr == 10) ≡ false) × ((chr == 13) ≡ false)

put_char-typed :
    (chr : ℕ) (t : Tty)
    → OnScreen t
    → IsPlain chr
    → t.x + t.y * 80 < 1999
    → tty_put_char chr t
      ≡ (if t.x == 79 then typed chr t 0 (u16 (t.y + 1)) else typed chr t (u32 (t.x + 1)) t.y)
unfolding tty_put_char write_char wrap_line
put_char-typed chr t h (a, b, d) early = elim (Bool-cases (t.x == 79)) [
  | inl last ↦
      (let over : leb 80 (u32 (t.x + 1)) ≡ true = ground (arith, last) in
        let low : leb 25 (u16 (t.y + 1)) ≡ false = ground (arith, last) in
        rw (a, b, d, over, low, last))
  | inr more ↦
      (let fits : leb 80 (u32 (t.x + 1)) ≡ false = ground (arith, more, h.column) in
        let low : leb 25 t.y ≡ false = ground (arith, h.row) in rw (a, b, d, fits, low, more))
]

cell-typed :
    (chr : ℕ) (t : Tty) (x y r c : ℕ)
    → OnScreen t
    → c < 80
    → cell (typed chr t x y) r c
      ≡ (if (r == t.y) && (c == t.x) then u16 (bit_or t.theme_color (char_int chr)) else cell t r c)
cell-typed chr t x y r c h hc = elim (ℕ_discrete r t.y) [
  | yes e ↦ ground (arith, e, h.column)
  | no ne ↦ ground (arith, ne, h.column)
]

-- tty_put_char of a character that is no tab, line feed or carriage return, anywhere but in the last
-- cell: it writes the character in the theme's color at the cursor and no other cell, and the cursor
-- moves on to the next cell, which may be the first of the next row.
pub put_char_cell :
    (chr : ℕ) (t : Tty) (r c : ℕ)
    → OnScreen t
    → IsPlain chr
    → t.x + t.y * 80 < 1999
    → c < 80
    → let u = tty_put_char chr t in
      (cell u r c ≡ (
        if (r == t.y) && (c == t.x) then u16 (bit_or t.theme_color (char_int chr)) else cell t r c))
      × (u.x + u.y * 80 ≡ t.x + t.y * 80 + 1)
put_char_cell chr t r c h plain early hc =
    rw (put_char-typed chr t h plain early) (elim (Bool-cases (t.x == 79)) [
      | inl last ↦ rw last (cell-typed chr t 0 (u16 (t.y + 1)) r c h hc, ground (arith, last))
      | inr more ↦
          (rw more (cell-typed chr t (u32 (t.x + 1)) t.y r c h hc, omega (arith, h.column)))
    ])
