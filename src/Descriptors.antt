-- ===== src/Descriptors.antt =====
-- kernel/asm/x86/gdt.c and idt.c: the entries of the descriptor tables. A table is a function from an
-- index to an entry of 64 bits.
pub mod Gate
mod Tests
use os_learn.Base.{ℕ, ◌+◌, ◌*◌, ◌/◌, ◌%◌, ◌^◌, bit_and, bit_or, u32, update, ◌==◌, if◌then◌else◌}

-- A 64-bit shift to the left.
abbrev pub u64 : ℕ → ℕ
u64 x = x % 2 ^ 64

-- `_set_gdt_entry`
pub set_gdt_entry : ℕ → ℕ → ℕ → ℕ → (ℕ → ℕ) → ℕ → ℕ
set_gdt_entry index base limit flags gdt =
    let high =
      bit_or (bit_or (bit_or (bit_and base 0xff00_0000) flags) (bit_and limit 0xf_0000))
        (bit_and base 0xff_0000 / 2 ^ 16) in
    let low = bit_or (u32 (bit_and base 0xffff * 2 ^ 16)) (bit_and limit 0xffff) in
    update gdt index (bit_or (u64 (high * 2 ^ 32)) low)

-- `SEG_R0_CODE`, `SEG_R0_DATA`, `SEG_R3_CODE` and `SEG_R3_DATA` as numbers.
pub init_gdt : (ℕ → ℕ) → ℕ → ℕ
unfolding set_gdt_entry
init_gdt gdt = set_gdt_entry 4 0 0xf_ffff 0xc0_f200 (
    set_gdt_entry 3 0 0xf_ffff 0xc0_fa00 (
      set_gdt_entry 2 0 0xf_ffff 0xc0_9200
        (set_gdt_entry 1 0 0xf_ffff 0xc0_9a00 (set_gdt_entry 0 0 0 0 gdt))))

-- `IDT_ATTR(dpl)`
abbrev pub idt_attr : ℕ → ℕ
idt_attr dpl = bit_or (bit_or 0xe00 (bit_and dpl 3 * 2 ^ 13)) 0x8000

pub idt_entry : ℕ → ℕ → ℕ → ℕ
idt_entry seg_selector offset dpl =
    bit_or (u64 (bit_or (bit_and offset 0xffff_0000) (idt_attr dpl) * 2 ^ 32))
      (bit_or (u32 (seg_selector * 2 ^ 16)) (bit_and offset 0xffff))

-- `_set_idt_entry`
pub set_idt_entry : ℕ → ℕ → ℕ → ℕ → (ℕ → ℕ) → ℕ → ℕ
unfolding idt_entry
set_idt_entry vector seg_selector isr dpl idt = update idt vector (idt_entry seg_selector isr dpl)

-- `_init_idt`; `isr` gives the address of the routine that is assembled for a vector, where that of
-- the system panic is numbered 32.
pub init_idt : (ℕ → ℕ) → (ℕ → ℕ) → ℕ → ℕ
unfolding set_idt_entry
init_idt isr idt = set_idt_entry 32 8 (isr 32) 0 (
    set_idt_entry 210 8 (isr 210) 0 (
      set_idt_entry 203 8 (isr 203) 0 (
        set_idt_entry 202 8 (isr 202) 0 (
          set_idt_entry 201 8 (isr 201) 0 (
            set_idt_entry 200 8 (isr 200) 0 (
              set_idt_entry 14 8 (isr 14) 0
                (set_idt_entry 13 8 (isr 13) 0 (set_idt_entry 0 8 (isr 0) 0 idt))))))))
