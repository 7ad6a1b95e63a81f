-- ===== src/Acpi/Entries.antt =====
-- hal/acpi/parser/madt_parser.c: the entries of the table, and what one of them does to the context.
use os_learn.Base.{
  ℕ, ◌+◌, ◌^◌, ◌≤◌, ◌<◌, ◌≡◌, inl, inr, Bool, true, false, arith, ◌==◌, ◌&&◌, if◌then◌else◌,
  Bool-cases, ne→==, eq→==, refl, ap, ◌∙◌, List, [], ◌∷◌, ◌++◌, some, leb, ◌||◌, ==→eq, none, ◌≢◌,
  update,
}
use native.Mathlib.Decide.{ℕ_discrete}
use os_learn.Klibc.{Bytes}
use os_learn.Acpi.{MadtToc, parse_entry}

-- From `p` to the end there are entries at the given addresses, one after the other, each of at least
-- one byte.
unfoldable pub Entries : Bytes → ℕ → ℕ → List ℕ → Type 0
Entries m ics_end p [] = ics_end ≤ p
Entries m ics_end p (e ∷ es) =
    (p ≡ e)
    × (p < ics_end)
    × (0 < m (p + 1))
    × (p + m (p + 1) < 2 ^ 32)
    × Entries m ics_end (p + m (p + 1)) es

-- No entry has the property.
unfoldable pub NoneOf : (ℕ → Bool) → List ℕ → Type 0
NoneOf p [] = Unit {0}
NoneOf p (e ∷ es) = (p e ≡ false) × NoneOf p es

-- The last entry that has the property, or `start` where none has.
pub data LastOf (p : ℕ → Bool) (es : List ℕ) (start : ℕ) : ℕ → Type 0 where
  none_of : NoneOf p es → LastOf p es start start
  last_at :
      (before : List ℕ) (e : ℕ) (after : List ℕ)
      → es ≡ before ++ e ∷ after
      → p e ≡ true
      → NoneOf p after
      → LastOf p es start e

-- An entry that does not have the property, or that is followed by one that has it.
skip-LastOf :
    (p : ℕ → Bool) (e : ℕ) (es : List ℕ) (start v : ℕ)
    → p e ≡ false
    → LastOf p es start v
    → LastOf p (e ∷ es) start v
unfolding NoneOf
skip-LastOf p e es start _ lacks (none_of n) = none_of (lacks, n)
skip-LastOf p e es start _ lacks (last_at before f after eq yes_ n) =
    last_at (e ∷ before) f after (ap (λ l. e ∷ l) eq) yes_ n

take-LastOf :
    (p : ℕ → Bool) (e : ℕ) (es : List ℕ) (start v : ℕ)
    → p e ≡ true
    → LastOf p es e v
    → LastOf p (e ∷ es) start v
take-LastOf p e es start _ has (none_of n) = last_at [] e es refl has n
take-LastOf p e es start _ has (last_at before f after eq yes_ n) =
    last_at (e ∷ before) f after (ap (λ l. e ∷ l) eq) yes_ n

-- What an entry does to the context where nothing is written outside the array.
pub entered : ℕ → Bytes → MadtToc → MadtToc
entered e m toc =
    if m e == 0
    then record toc { apic = e }
    else if m e == 1
    then record toc { ioapic = e }
    else if m e == 2
    then record toc { irq_exception = update toc.irq_exception (m (e + 3)) e }
    else toc

-- The entries in their order.
unfoldable pub parse_all : Bytes → List ℕ → MadtToc → MadtToc
parse_all m [] toc = toc
parse_all m (e ∷ es) toc = parse_all m es (entered e m toc)

-- The overrides among the entries have a source below 24.
unfoldable pub InArray : Bytes → List ℕ → Type 0
InArray m [] = Unit {0}
InArray m (e ∷ es) = (m e ≡ 2 → m (e + 3) < 24) × InArray m es

-- What makes an entry a local controller, a controller of lines, and an override of the line `s`.
abbrev pub is_lapic : Bytes → ℕ → Bool
is_lapic m e = m e == 0

abbrev pub is_ioapic : Bytes → ℕ → Bool
is_ioapic m e = m e == 1

abbrev pub is_override : Bytes → ℕ → ℕ → Bool
is_override m s e = (m e == 2) && (m (e + 3) == s)

-- A field that each entry with the property sets to its own address.
pub parse_all-LastOf :
    (m : Bytes) (p : ℕ → Bool) (get : MadtToc → ℕ)
    → ((e : ℕ) (toc : MadtToc) → get (entered e m toc) ≡ (if p e then e else get toc))
    → (es : List ℕ) (toc : MadtToc) → LastOf p es (get toc) (get (parse_all m es toc))
unfolding parse_all NoneOf
parse_all-LastOf m p get step [] toc = none_of tt
parse_all-LastOf m p get step (e ∷ es) toc =
    let rest = parse_all-LastOf m p get step es (entered e m toc) in
    elim (Bool-cases (p e)) [
      | inl has ↦ take-LastOf p e es _ _ has (rw (step e toc, has) at rest)
      | inr lacks ↦ skip-LastOf p e es _ _ lacks (rw (step e toc, lacks) at rest)
    ]

-- The tests of the `switch`.
data Kind (x : ℕ) : Type 0 where
  lapic_kind : (x == 0) ≡ true → (x == 1) ≡ false → (x == 2) ≡ false → Kind x
  ioapic_kind : (x == 0) ≡ false → (x == 1) ≡ true → (x == 2) ≡ false → Kind x
  intso_kind : (x == 0) ≡ false → (x == 1) ≡ false → (x == 2) ≡ true → Kind x
  other_kind : (x == 0) ≡ false → (x == 1) ≡ false → (x == 2) ≡ false → Kind x

kinds : (x : ℕ) → Kind x
kinds x = elim (ℕ_discrete x 0) [
  | yes a ↦ lapic_kind (eq→== x 0 a) (ne→== x 1 (omega (arith, a))) (ne→== x 2 (omega (arith, a)))
  | no a ↦ elim (ℕ_discrete x 1) [
    | yes b ↦ ioapic_kind (ne→== x 0 a) (eq→== x 1 b) (ne→== x 2 (omega (arith, b)))
    | no b ↦ elim (ℕ_discrete x 2) [
      | yes c ↦ intso_kind (ne→== x 0 a) (ne→== x 1 b) (eq→== x 2 c)
      | no c ↦ other_kind (ne→== x 0 a) (ne→== x 1 b) (ne→== x 2 c)
    ]
  ]
]

pub entered-apic :
    (m : Bytes) (e : ℕ) (toc : MadtToc)
    → (entered e m toc).apic ≡ (if is_lapic m e then e else toc.apic)
unfolding entered
entered-apic m e toc = elim (kinds (m e)) [
  | lapic_kind a b c ↦ rw a refl
  | ioapic_kind a b c ↦ rw (a, b) refl
  | intso_kind a b c ↦ rw (a, b, c) refl
  | other_kind a b c ↦ rw (a, b, c) refl
]

pub entered-ioapic :
    (m : Bytes) (e : ℕ) (toc : MadtToc)
    → (entered e m toc).ioapic ≡ (if is_ioapic m e then e else toc.ioapic)
unfolding entered
entered-ioapic m e toc = elim (kinds (m e)) [
  | lapic_kind a b c ↦ rw (a, b) refl
  | ioapic_kind a b c ↦ rw (a, b) refl
  | intso_kind a b c ↦ rw (a, b, c) refl
  | other_kind a b c ↦ rw (a, b, c) refl
]

pub entered-irq_exception :
    (m : Bytes) (s : ℕ) (e : ℕ) (toc : MadtToc)
    → (entered e m toc).irq_exception s ≡ (if is_override m s e then e else toc.irq_exception s)
unfolding entered
entered-irq_exception m s e toc = elim (kinds (m e)) [
  | lapic_kind a b c ↦ rw (a, c) refl
  | ioapic_kind a b c ↦ rw (a, b, c) refl
  | intso_kind a b c ↦ rw (a, b, c) refl
  | other_kind a b c ↦ rw (a, b, c) refl
]

entered-apic_addr :
    (m : Bytes) (e : ℕ) (toc : MadtToc) → (entered e m toc).apic_addr ≡ toc.apic_addr
unfolding entered
entered-apic_addr m e toc = elim (kinds (m e)) [
  | lapic_kind a b c ↦ rw a refl
  | ioapic_kind a b c ↦ rw (a, b) refl
  | intso_kind a b c ↦ rw (a, b, c) refl
  | other_kind a b c ↦ rw (a, b, c) refl
]

pub parse_all-apic_addr :
    (m : Bytes) (es : List ℕ) (toc : MadtToc) → (parse_all m es toc).apic_addr ≡ toc.apic_addr
unfolding parse_all
parse_all-apic_addr m [] toc = refl
parse_all-apic_addr m (e ∷ es) toc =
    parse_all-apic_addr m es (entered e m toc) ∙ entered-apic_addr m e toc

pub entered-irq_array :
    (m : Bytes) (e : ℕ) (toc : MadtToc) → (entered e m toc).irq_array ≡ toc.irq_array
unfolding entered
entered-irq_array m e toc = elim (kinds (m e)) [
  | lapic_kind a b c ↦ rw a refl
  | ioapic_kind a b c ↦ rw (a, b) refl
  | intso_kind a b c ↦ rw (a, b, c) refl
  | other_kind a b c ↦ rw (a, b, c) refl
]

pub parse_entry-entered :
    (m : Bytes) (e : ℕ) (toc : MadtToc)
    → toc.irq_array ≢ 0
    → (m e ≡ 2 → m (e + 3) < 24)
    → parse_entry e m toc ≡ some (entered e m toc)
unfolding parse_entry entered
parse_entry-entered m e toc array inside = elim (kinds (m e)) [
  | lapic_kind a b c ↦ rw a refl
  | ioapic_kind a b c ↦ rw (a, b) refl
  | intso_kind a b c ↦
      let fits : leb 24 (m (e + 3)) ≡ false = ground (arith, inside (==→eq (m e) 2 c)) in
      rw (a, b, c, ne→== toc.irq_array 0 array, fits) refl
  | other_kind a b c ↦ rw (a, b, c) refl
]

pub parse_entry-outside :
    (m : Bytes) (e : ℕ) (toc : MadtToc) → m e ≡ 2 → 24 ≤ m (e + 3) → parse_entry e m toc ≡ none
unfolding parse_entry
parse_entry-outside m e toc kind big =
    let full : ((toc.irq_array == 0) || leb 24 (m (e + 3))) ≡ true = ground (arith, big) in
    rw
      (
        ne→== (m e) 0 (omega (arith, kind)),
        ne→== (m e) 1 (omega (arith, kind)),
        eq→== (m e) 2 kind,
        full,
      )
      refl
