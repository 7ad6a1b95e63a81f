-- ===== src/Acpi/Madt.antt =====
-- hal/acpi/parser/madt_parser.c: the walk over the interrupt controller structures.
use os_learn.Base.{
  ℕ, zero, suc, ◌+◌, ◌≤◌, ◌<◌, ◌≡◌, true, false, arith, ltb, refl, ap, ◌∙◌, List, [], ◌∷◌, ◌++◌,
  some, length, u32, ◌-◌, none, ◌≢◌,
}
use mathlib.Core.List.{append-nil}
use os_learn.Klibc.{Bytes}
use os_learn.Acpi.{
  load_word, MadtToc, parsed, outside, new_array, parse_entry, parse_entries, madt_parse,
}
use os_learn.Acpi.Entries.{
  Entries, InArray, LastOf, is_lapic, is_ioapic, is_override, entered, parse_all, parse_all-LastOf,
  entered-apic, entered-ioapic, entered-irq_exception, entered-irq_array, parse_all-apic_addr,
  parse_entry-entered, parse_entry-outside,
}

module _ (ics_end : ℕ) (m : Bytes) where
  -- The loop runs over the entries `es` and goes on at `q` with those after them.
  parse_entries-through :
      (fuel p : ℕ) (es rest : List ℕ) (toc : MadtToc)
      → toc.irq_array ≢ 0
      → Entries m ics_end p (es ++ rest)
      → InArray m es
      → length es ≤ fuel
      → (q : ℕ) × Entries m ics_end q rest
        × (parse_entries fuel p ics_end m toc
            ≡ parse_entries (fuel - length es) q ics_end m (parse_all m es toc))
  unfolding parse_entries parse_all Entries InArray
  parse_entries-through fuel p [] rest toc array w inside lt =
      (p, w, ap (λ f. parse_entries f p ics_end m toc) {x = fuel} {y = fuel - 0} (omega arith))
  parse_entries-through zero p (e ∷ es) rest toc array w inside lt = absurd (omega (arith, lt))
  parse_entries-through (suc fuel) p (e ∷ es) rest toc array (at, u, pos, fits, w) (ok, inside) lt =
      let going : ltb p ics_end ≡ true = ground (arith, u) in
      let next : u32 (p + m (p + 1)) ≡ p + m (p + 1) = omega (arith, fits) in
      let array' : (entered e m toc).irq_array ≢ 0 = rw (entered-irq_array m e toc) array in
      let (q, w', run) =
        parse_entries-through fuel (p + m (p + 1)) es rest (entered e m toc) array' w inside
          (omega (arith, lt)) in
      let here : parse_entry p m toc ≡ some (entered e m toc) =
        ap (λ x. parse_entry x m toc) at ∙ parse_entry-entered m e toc array ok in
      let one : parse_entries (suc fuel) p ics_end m toc
          ≡ parse_entries fuel (p + m (p + 1)) ics_end m (entered e m toc) =
        rw (going, here, next, parse_entries) refl in
      (
        q,
        w',
        one
            ∙ run
            ∙ ap (λ f. parse_entries f q ics_end m (parse_all m es (entered e m toc)))
                {x = fuel - length es} {y = suc fuel - suc (length es)} (omega arith),
      )

  parse_entries-stop :
      (fuel q : ℕ) (toc : MadtToc)
      → 0 < fuel
      → ics_end ≤ q
      → parse_entries fuel q ics_end m toc ≡ parsed toc
  unfolding parse_entries
  parse_entries-stop zero q toc pos le = absurd (omega (arith, pos))
  parse_entries-stop (suc fuel) q toc pos le =
      let stop : ltb q ics_end ≡ false = ground (arith, le) in rw (stop, parse_entries) refl

  parse_entries-outside :
      (fuel q e : ℕ) (toc : MadtToc)
      → 0 < fuel
      → q ≡ e
      → q < ics_end
      → m e ≡ 2
      → 24 ≤ m (e + 3)
      → parse_entries fuel q ics_end m toc ≡ outside
  unfolding parse_entries
  parse_entries-outside zero q e toc pos at u kind big = absurd (omega (arith, pos))
  parse_entries-outside (suc fuel) q e toc pos at u kind big =
      let going : ltb q ics_end ≡ true = ground (arith, u) in
      let here : parse_entry q m toc ≡ none =
        ap (λ x. parse_entry x m toc) at ∙ parse_entry-outside m e toc kind big in
      rw (going, here, parse_entries) refl

-- madt_parse, on a table whose entries follow one another up to its end and whose overrides have sources
-- below 24, with an array from lxcalloc and more fuel than entries: it comes to its end and writes inside
-- the array; the local controller and the controller of lines are the last entries of their types, those
-- from before where there is none, and the exception of each of the 24 lines is the last override of
-- that line, or 0.
pub madt_parse_lem :
    (fuel array madt : ℕ) (m : Bytes) (toc : MadtToc) (es : List ℕ)
    → length es < fuel
    → array ≢ 0
    → Entries m (u32 (madt + load_word (madt + 4) m)) (madt + 44) es
    → InArray m es
    → (toc' : MadtToc) × (madt_parse fuel array madt m toc ≡ parsed toc')
      × (toc'.apic_addr ≡ load_word (madt + 36) m)
      × LastOf (is_lapic m) es toc.apic toc'.apic
      × LastOf (is_ioapic m) es toc.ioapic toc'.ioapic
      × ((s : ℕ) → s < 24 → LastOf (is_override m s) es 0 (toc'.irq_exception s))
unfolding madt_parse Entries
madt_parse_lem fuel array madt m toc es lt got w inside =
    let begun = new_array array (record toc { apic_addr = load_word (madt + 36) m }) in
    let (q, stop, run) =
      parse_entries-through (u32 (madt + load_word (madt + 4) m)) m fuel (madt + 44) es [] begun got
        (rw (append-nil es) w) inside (omega (arith, lt)) in
    (
      parse_all m es begun,
      run ∙ parse_entries-stop _ m (fuel - length es) q _ (omega (arith, lt)) stop,
      parse_all-apic_addr m es begun,
      parse_all-LastOf m (is_lapic m) (λ t. t.apic) (entered-apic m) es begun,
      parse_all-LastOf m (is_ioapic m) (λ t. t.ioapic) (entered-ioapic m) es begun,
      λ s low.
          let null : ltb s 24 ≡ true = ground (arith, low) in
          (rw null at (
            parse_all-LastOf m (is_override m s) (λ t. t.irq_exception s)
              (entered-irq_exception m s) es begun)),
    )

-- madt_parse, on a table whose entries follow one another up to its end and where an override with a
-- source of 24 or more comes after entries that are no such override, with an array from lxcalloc and
-- more fuel than the entries before it: it writes outside the array.
pub madt_parse-outside :
    (fuel array madt : ℕ) (m : Bytes) (toc : MadtToc) (before : List ℕ) (e : ℕ) (after : List ℕ)
    → length before < fuel
    → array ≢ 0
    → Entries m (u32 (madt + load_word (madt + 4) m)) (madt + 44) (before ++ e ∷ after)
    → InArray m before
    → m e ≡ 2
    → 24 ≤ m (e + 3)
    → madt_parse fuel array madt m toc ≡ outside
unfolding madt_parse Entries
madt_parse-outside fuel array madt m toc before e after lt got w inside kind big =
    let begun = new_array array (record toc { apic_addr = load_word (madt + 36) m }) in
    let (q, (at, u, pos, fits, later), run) =
      parse_entries-through (u32 (madt + load_word (madt + 4) m)) m fuel (madt + 44) before
        (e ∷ after) begun got w inside (omega (arith, lt)) in
    run ∙ parse_entries-outside _ m (fuel - length before) q e _ (omega (arith, lt)) at u kind big
