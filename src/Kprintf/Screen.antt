-- ===== src/Kprintf/Screen.antt =====
-- kernel/kprintf.c: what a message leaves of the screen's state.
use os_learn.Base.{ℕ, ◌%◌, ◌≡◌, ◌<◌, ◌≤◌, List, Option, some, length}
use os_learn.Sprintf.{snprintf, sprintf_internal}
use os_learn.Tty.{Tty}
use os_learn.Tty.Screen.{OnScreen, SameOutside}
use os_learn.Kprintf.{Printed, shown, buffer_overrun, level_name, expanded_pattern, expanded_text}

-- A theme: the two colours in the upper byte.
abbrev pub IsTheme : ℕ → Type 0
IsTheme theme = (theme % 0x100 ≡ 0) × (theme < 0x1_0000)

-- The screen with another theme.
with_theme : ℕ → Tty → Tty
with_theme theme t = record t { theme_color = theme }

module _ (vargs : ℕ → ℕ) (text : ℕ → List ℕ) (component : List ℕ) (t : Tty) where
  -- "[%s] (%s) %s" with the name of the level, the component and the message.
  abbrev pub expansion : ℕ → List ℕ → Option (List ℕ)
  expansion level rest =
      snprintf (λ i. i) (expanded_text (level_name level) component rest) 1024 expanded_pattern

  -- What comes of a message with the given level and text. It is shown when its expansion and then the
  -- formatted text each fit into 1024 characters with the final 0, and else a buffer is overrun.
  pub data Shows (level : ℕ) (rest : List ℕ) : Printed → Type 0 where
    on_screen :
        (expanded buf : List ℕ) (t' : Tty)
        → expansion level rest ≡ some expanded
        → length expanded < 1024
        → sprintf_internal vargs text 1024 expanded ≡ some buf
        → length buf < 1024
        → OnScreen t'
        → SameOutside t t'
        → Shows level rest (shown t')
    expansion_full :
        (expanded : List ℕ)
        → expansion level rest ≡ some expanded
        → 1024 ≤ length expanded
        → Shows level rest buffer_overrun
    buffer_full :
        (expanded buf : List ℕ)
        → expansion level rest ≡ some expanded
        → length expanded < 1024
        → sprintf_internal vargs text 1024 expanded ≡ some buf
        → 1024 ≤ length buf
        → Shows level rest buffer_overrun
