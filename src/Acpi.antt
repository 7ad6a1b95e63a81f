-- ===== src/Acpi.antt =====
-- hal/acpi/acpi.c, hal/acpi/parser/madt_parser.c: the tables of the firmware, on a memory of bytes.
-- Structures are read by the offsets of their fields, which are packed; 0 is the null pointer. Printing
-- is left out, and VIRTUAL_BOX_PROBLEM is defined as in the source. What lxcalloc gives for the context
-- and for the array of 24 pointers are arguments, the latter one for each table; a write outside the array,
-- or through the null pointer, is an outcome of its own.
pub mod Rsdp
pub mod Entries
pub mod Madt
mod Tests
use os_learn.Base.{
  ℕ, zero, suc, ◌+◌, ◌-◌, ◌*◌, ◌/◌, ◌%◌, ◌^◌, Bool, true, false, ◌&&◌, ◌||◌, not, Option, some,
  none, u8, u32, ltb, leb, ◌==◌, if◌then◌else◌, update, for_range,
}
use os_learn.Klibc.{Bytes, strncpy}

-- `*((uint32_t*)a)`
abbrev pub load_word : ℕ → Bytes → ℕ
load_word a m = m a + m (a + 1) * 0x100 + m (a + 2) * 0x1_0000 + m (a + 3) * 0x100_0000

abbrev pub acpi_rsdp_sig_l : ℕ
acpi_rsdp_sig_l = 0x2044_5352

abbrev pub acpi_madt_sig : ℕ
acpi_madt_sig = 0x4349_5041

pub acpi_rsdp_validate : ℕ → Bytes → Bool
acpi_rsdp_validate rsdp m = for_range 20 0 (λ i sum. u8 (sum + m (rsdp + i))) 0 == 0

-- The search for the signature from `mem_start` on; the address, or 0.
pub search_rsdp : ℕ → ℕ → Bytes → ℕ
search_rsdp zero mem_start m = 0
search_rsdp (suc fuel) mem_start m =
    let later = search_rsdp fuel (mem_start + 16) m in
    if ltb mem_start 0x10_0000
    then (if load_word mem_start m == acpi_rsdp_sig_l then mem_start else later)
    else 0

-- One round for each step of 16 bytes up to 1 MiB, and one to stop.
abbrev pub search_fuel : ℕ
search_fuel = 0xfc01

pub acpi_locate_rsdp : Bytes → ℕ
acpi_locate_rsdp m = search_rsdp search_fuel 0x4000 m

-- `acpi_madt_toc_t`
pub record MadtToc : Type 0 where
  pub apic_addr : ℕ
  pub apic : ℕ
  pub ioapic : ℕ
  pub irq_array : ℕ
  pub irq_exception : ℕ → ℕ

-- How the parsing ends: with the context, with a write outside the array, or with the fuel used up.
pub data Parsed : Type 0 where
  parsed : MadtToc → Parsed
  outside : Parsed
  out_of_fuel : Parsed

-- The length of the array.
abbrev pub max_pins : ℕ
max_pins = 24

abbrev pub acpi_madt_lapic : ℕ
acpi_madt_lapic = 0

abbrev pub acpi_madt_ioapic : ℕ
acpi_madt_ioapic = 1

abbrev pub acpi_madt_intso : ℕ
acpi_madt_intso = 2

-- The `switch` on the type of the entry; `none` for a write outside the array.
pub parse_entry : ℕ → Bytes → MadtToc → Option MadtToc
parse_entry entry m toc =
    if m entry == acpi_madt_lapic
    then some (record toc { apic = entry })
    else if m entry == acpi_madt_ioapic
    then some (record toc { ioapic = entry })
    else if m entry == acpi_madt_intso
    then (if (toc.irq_array == 0) || leb max_pins (m (entry + 3))
        then none
        else some (record toc { irq_exception = update toc.irq_exception (m (entry + 3)) entry }))
    else some toc

-- The loop of madt_parse.
pub parse_entries : ℕ → ℕ → ℕ → Bytes → MadtToc → Parsed
parse_entries zero ics_start ics_end m toc = out_of_fuel
parse_entries (suc fuel) ics_start ics_end m toc = elim (ltb ics_start ics_end) [
  | true ↦ elim (parse_entry ics_start m toc) [
    | some toc' ↦ parse_entries fuel (u32 (ics_start + m (ics_start + 1))) ics_end m toc'
    | none ↦ outside
  ]
  | false ↦ parsed toc
]

-- The array that lxcalloc gives, at `array`, or 0 where it gives none: its 24 pointers are null.
abbrev pub new_array : ℕ → MadtToc → MadtToc
new_array array toc = record toc {
  irq_array = array;
  irq_exception = λ i. if ltb i max_pins then 0 else toc.irq_exception i;
}

pub madt_parse : ℕ → ℕ → ℕ → Bytes → MadtToc → Parsed
madt_parse fuel array madt m toc =
    parse_entries fuel (madt + 44) (u32 (madt + load_word (madt + 4) m)) m
      (new_array array (record toc { apic_addr = load_word (madt + 36) m }))

-- The loop of acpi_init over the tables, of which `n` are left; `arrays i` is the array for the table `i`.
pub parse_tables : ℕ → (ℕ → ℕ) → ℕ → ℕ → ℕ → Bytes → MadtToc → Parsed
parse_tables fuel arrays zero i entry m toc = parsed toc
parse_tables fuel arrays (suc n) i entry m toc =
    let sdthdr = load_word entry m in
    elim (load_word sdthdr m == acpi_madt_sig) [
      | true ↦ elim (madt_parse fuel (arrays i) sdthdr m toc) [
        | parsed toc' ↦ parse_tables fuel arrays n (i + 1) (entry + 4) m toc'
        | outside ↦ outside
        | out_of_fuel ↦ out_of_fuel
      ]
      | false ↦ parse_tables fuel arrays n (i + 1) (entry + 4) m toc
    ]

-- The text of `oem_id` is at `toc`, the address of the context.
pub acpi_init : ℕ → (ℕ → ℕ) → ℕ → Bytes → Parsed × Bytes
acpi_init fuel arrays toc m =
    let rsdp = acpi_locate_rsdp m in
    let rsdt = load_word (rsdp + 16) m in
    let m' = update (strncpy 7 toc (rsdt + 10) 6 m) (toc + 6) 0 in
    let entry_n = u32 (load_word (rsdt + 4) m' + 2 ^ 32 - 36) / 4 in
    let empty : MadtToc = record {
      apic_addr = 0;
      apic = 0;
      ioapic = 0;
      irq_array = 0;
      irq_exception = λ i. 0;
    } in
    (parse_tables fuel arrays entry_n 0 (rsdt + 36) m' empty, m')
