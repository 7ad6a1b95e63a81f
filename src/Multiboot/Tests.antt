-- ===== src/Multiboot/Tests.antt =====
-- arch/x86/hhk.c: a structure at 1000 with a map of three bytes at 3000, saved at 5000.
use os_learn.Base.{ℕ, ◌+◌, ◌%◌, ◌≡◌, refl, ◌==◌, ltb, leb, ◌&&◌, if◌then◌else◌}
use os_learn.Klibc.{Bytes}
use os_learn.Multiboot.{read_word, save_multiboot_info}

abbrev memory : Bytes
memory a =
    if a == 1044
    then 3
    else if a == 1048
    then 0xb8
    else if a == 1049
    then 0x0b
    else if leb 3000 a && ltb a 3003
    then a % 100 + 7
    else 0

saved_map :
    (read_word (save_multiboot_info 1000 5000 memory) 5048 ≡ 5120)
    × (save_multiboot_info 1000 5000 memory 5122 ≡ 9)
unfolding save_multiboot_info os_learn.Base.for_range
saved_map = (refl, refl)
