-- ===== src/Kprintf.antt =====
-- kernel/kprintf.c: the messages of the kernel, over Sprintf and Tty. A message is `none` for the null
-- pointer; `vargs` and `text` are as in Sprintf. Both buffers have 1024
-- characters; what comes out when they are overrun is not modelled, that they are is an outcome.
pub mod Screen
mod Tests
use os_learn.Base.{
  ℕ, ◌+◌, ◌*◌, ◌/◌, ◌^◌, List, [], ◌∷◌, ◌++◌, Option, some, none, ◌==◌, ltb, length, if◌then◌else◌,
}
use os_learn.Sprintf.{snprintf, sprintf_internal}
use os_learn.Tty.{Tty, tty_set_theme, tty_get_theme, tty_put_str, tty_clear_line, tty_set_cpos}

abbrev pub max_kprintf_buf_size : ℕ
max_kprintf_buf_size = 1024

abbrev pub max_xfmt_size : ℕ
max_xfmt_size = 1024

-- The level and the message after it; `none` for an escape character alone, after which the source reads
-- past the end of the text.
pub log_level : List ℕ → Option (ℕ × List ℕ)
log_level [] = some (48, [])
log_level (c ∷ []) = if c == 27 then none else some (48, c ∷ [])
log_level (c ∷ level ∷ fmt) = if c == 27 then some (level, fmt) else some (48, c ∷ level ∷ fmt)

-- "INFO", "WARN", "EROR" and "LOG".
pub level_name : ℕ → List ℕ
level_name level =
    if level == 48
    then 73 ∷ 78 ∷ 70 ∷ 79 ∷ []
    else if level == 49
    then 87 ∷ 65 ∷ 82 ∷ 78 ∷ []
    else if level == 50
    then 69 ∷ 82 ∷ 79 ∷ 82 ∷ []
    else 76 ∷ 79 ∷ 71 ∷ []

-- The colour of a warning and of an error.
pub level_theme : ℕ → ℕ → Tty → Tty
level_theme level current_theme t =
    if level == 49
    then tty_set_theme 6 (current_theme / 2 ^ 12) t
    else if level == 50
    then tty_set_theme 12 (current_theme / 2 ^ 12) t
    else t

-- "[%s] (%s) %s"
abbrev pub expanded_pattern : List ℕ
expanded_pattern = 91 ∷ 37 ∷ 115 ∷ 93 ∷ 32 ∷ 40 ∷ 37 ∷ 115 ∷ 41 ∷ 32 ∷ 37 ∷ 115 ∷ []

-- The arguments of that pattern.
abbrev pub expanded_text : List ℕ → List ℕ → List ℕ → ℕ → List ℕ
expanded_text level component fmt a = if a == 0 then level else if a == 1 then component else fmt

-- What is in a buffer: a text with its final 0, or more than there is room for.
pub data Buffered : Type 0 where
  written : List ℕ → Buffered
  overrun : Buffered
  out_of_fuel : Buffered

pub in_buffer : ℕ → Option (List ℕ) → Buffered
in_buffer size none = out_of_fuel
in_buffer size (some out) = if ltb (length out) size then written out else overrun

-- What a message does: it is shown, or a buffer is overrun, or the message is read past its end.
pub data Printed : Type 0 where
  shown : Tty → Printed
  buffer_overrun : Printed
  read_past : Printed
  no_fuel : Printed

-- A buffer put on the screen as `show` says.
abbrev pub print : Buffered → (List ℕ → Tty) → Printed
print (written buf) show = shown (show buf)
print overrun show = buffer_overrun
print out_of_fuel show = no_fuel

module _ (vargs : ℕ → ℕ) (text : ℕ → List ℕ) where
  -- The message that `__kprintf` puts together in `expanded_fmt` and then in `buf`.
  pub message : ℕ → List ℕ → List ℕ → Buffered
  unfolding in_buffer
  message level component fmt =
      elim (in_buffer max_xfmt_size (
        snprintf (λ i. i) (expanded_text (level_name level) component fmt) max_xfmt_size
          expanded_pattern)) [
            | written expanded_fmt ↦
                in_buffer max_kprintf_buf_size
                  (sprintf_internal vargs text max_kprintf_buf_size expanded_fmt)
            | overrun ↦ overrun
            | out_of_fuel ↦ out_of_fuel
          ]

  pub kprintf : List ℕ → Option (List ℕ) → Tty → Printed
  unfolding message log_level
  kprintf component none t = shown t
  kprintf component (some fmt) t =
      let current_theme = tty_get_theme t in
      elim (log_level fmt) [
        | none ↦ read_past
        | some (level, rest) ↦ print (message level component rest) (λ buf.
            tty_set_theme (current_theme / 2 ^ 8) (current_theme / 2 ^ 12)
              (tty_put_str buf (level_theme level current_theme t)))
      ]

  pub kprint_panic : List ℕ → Tty → Printed
  unfolding in_buffer
  kprint_panic fmt t =
      let t1 = tty_clear_line 12 (tty_clear_line 11 (tty_clear_line 10 (tty_set_theme 15 4 t))) in
      print (in_buffer max_kprintf_buf_size (sprintf_internal vargs text max_kprintf_buf_size fmt))
        (λ buf. tty_put_str buf (tty_set_cpos 0 11 t1))
