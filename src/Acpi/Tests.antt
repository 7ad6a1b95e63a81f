-- ===== src/Acpi/Tests.antt =====
-- hal/acpi/acpi.c, hal/acpi/parser/madt_parser.c: a small table, the theorems at it, and runs.
use os_learn.Base.{ℕ, ◌<◌, ◌≡◌, ◌+◌, refl, arith, [], ◌∷◌, true, if◌then◌else◌, ◌==◌, u32}
use os_learn.Klibc.{Bytes}
use os_learn.Acpi.{load_word, MadtToc, parsed, outside, madt_parse, search_rsdp, acpi_rsdp_validate}
use os_learn.Base.{◌↔◌, ◌%◌}
use os_learn.Acpi.{acpi_locate_rsdp}
use os_learn.Acpi.Rsdp.{
  FirstSigned, acpi_locate_rsdp-FirstSigned, sum_bytes, acpi_rsdp_validate_lem,
}
use os_learn.Acpi.Entries.{Entries, LastOf, is_lapic, is_ioapic, is_override, InArray}
use os_learn.Acpi.Madt.{madt_parse_lem, madt_parse-outside}

-- A table at 0x100 of 62 bytes: a local controller at 0x12c, and an override of line 0 at 0x134.
abbrev table : Bytes
table a =
    if a == 0x104
    then 62
    else if a == 0x12d
    then 8
    else if a == 0x134
    then 2
    else if a == 0x135
    then 10
    else if a == 0x138
    then 2
    else 0

abbrev empty : MadtToc
empty = record { apic_addr = 0; apic = 0; ioapic = 0; irq_array = 0; irq_exception = λ i. 0 }

table-Entries : Entries table (u32 (0x100 + load_word 0x104 table)) 0x12c (0x12c ∷ 0x134 ∷ [])
unfolding Entries
table-Entries = (
  refl,
  omega arith,
  omega arith,
  omega arith,
  (refl, omega arith, omega arith, omega arith, omega arith),
)

table-InArray : InArray table (0x12c ∷ 0x134 ∷ [])
unfolding InArray
table-InArray = (λ e. omega arith, (λ e. omega arith, tt))

-- The same table with the source 24.
abbrev wide : Bytes
wide a = if a == 0x137 then 24 else table a

wide-Entries : Entries wide (u32 (0x100 + load_word 0x104 wide)) 0x12c (0x12c ∷ 0x134 ∷ [])
unfolding Entries
wide-Entries = (
  refl,
  omega arith,
  omega arith,
  omega arith,
  (refl, omega arith, omega arith, omega arith, omega arith),
)

madt_parse-outside_example : madt_parse 3 0x8000 0x100 wide empty ≡ outside
unfolding InArray
madt_parse-outside_example =
    madt_parse-outside 3 0x8000 0x100 wide empty (0x12c ∷ []) 0x134 [] (omega arith) (omega arith)
      wide-Entries (λ e. absurd (omega (arith, e)), tt) refl (omega arith)

madt_parse_lem_example :
    (toc' : MadtToc) × (madt_parse 3 0x8000 0x100 table empty ≡ parsed toc')
    × (toc'.apic_addr ≡ load_word 0x124 table)
    × LastOf (is_lapic table) (0x12c ∷ 0x134 ∷ []) 0 toc'.apic
    × LastOf (is_ioapic table) (0x12c ∷ 0x134 ∷ []) 0 toc'.ioapic
    × ((s : ℕ)
        → s < 24
        → LastOf (is_override table s) (0x12c ∷ 0x134 ∷ []) 0 (toc'.irq_exception s))
madt_parse_lem_example =
    madt_parse_lem 3 0x8000 0x100 table empty (0x12c ∷ 0x134 ∷ []) (omega arith) (omega arith)
      table-Entries table-InArray

-- The signature "RSD " at 0x4010.
abbrev signature : Bytes
signature a =
    if a == 0x4010
    then 0x52
    else if a == 0x4011
    then 0x53
    else if a == 0x4012
    then 0x44
    else if a == 0x4013
    then 0x20
    else 0

found : search_rsdp 5 0x4000 signature ≡ 0x4010
unfolding search_rsdp
found = refl

acpi_rsdp_validate_lem_run :
    (acpi_rsdp_validate 0x4000 signature ≡ true) ↔ (sum_bytes signature 0x4000 20 % 0x100 ≡ 0)
acpi_rsdp_validate_lem_run = acpi_rsdp_validate_lem 0x4000 signature

acpi_locate_rsdp-FirstSigned_example :
    FirstSigned signature 0x4000 0 0xfc00 (acpi_locate_rsdp signature)
acpi_locate_rsdp-FirstSigned_example = acpi_locate_rsdp-FirstSigned signature
