-- ===== src/Descriptors/Tests.antt =====
-- kernel/asm/x86/idt.c and gdt.c: entries, and the theorem at one.
use os_learn.Base.{◌+◌, ◌*◌, ◌/◌, ◌%◌, ◌^◌, ◌≡◌, refl, arith}
use os_learn.Descriptors.{idt_entry, init_gdt}
use os_learn.Descriptors.Gate.{idt_entry-fields}

idt_entry-fields_example :
    let e = idt_entry 8 0xc010_4a20 0 in
    (e % 2 ^ 16 + e / 2 ^ 48 * 2 ^ 16 ≡ 0xc010_4a20)
    × (e / 2 ^ 16 % 2 ^ 16 ≡ 8)
    × (e / 2 ^ 45 % 4 ≡ 0)
    × (e / 2 ^ 47 % 2 ≡ 1)
    × (e / 2 ^ 40 % 32 ≡ 14)
idt_entry-fields_example = idt_entry-fields 8 0xc010_4a20 0 (omega arith) (omega arith)

-- The kernel's code segment: from 0, with 4 GiB.
kernel_code : init_gdt (λ i. 0) 1 ≡ 0x00cf_9a00_0000_ffff
unfolding init_gdt
kernel_code = refl
