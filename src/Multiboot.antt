-- ===== src/Multiboot.antt =====
-- arch/x86/hhk.c: the copies of the multiboot structures, on a memory of bytes. A word is four bytes,
-- the lowest first. The offsets are those of `multiboot_info_t` for a 32-bit machine.
pub mod Saved
mod Tests
use os_learn.Base.{ℕ, ◌+◌, ◌*◌, ◌/◌, ◌%◌, ◌^◌, bit_and, u8, u32, ◌==◌, if◌then◌else◌, update}
use os_learn.Klibc.{Bytes, copy_up}

abbrev pub info_size : ℕ
info_size = 120

abbrev pub read_word : Bytes → ℕ → ℕ
read_word m a = m a + m (a + 1) * 2 ^ 8 + m (a + 2) * 2 ^ 16 + m (a + 3) * 2 ^ 24

abbrev pub write_word : ℕ → ℕ → Bytes → Bytes
write_word a w m =
    update (update (update (update m a (u8 w)) (a + 1) (u8 (w / 2 ^ 8))) (a + 2) (u8 (w / 2 ^ 16)))
      (a + 3) (u8 (w / 2 ^ 24))

-- `__save_subset`: the number of bytes copied, and the memory.
pub save_subset : ℕ → ℕ → ℕ → Bytes → ℕ × Bytes
save_subset destination base size m = (size, copy_up destination base size m)

-- The memory map behind the copy of the structure, and its new address in the copy.
pub save_mmap : ℕ → ℕ → Bytes → ℕ × Bytes
unfolding save_subset
save_mmap info destination m =
    let m1 = write_word (destination + 48) (u32 (destination + info_size)) m in
    let (n, m2) =
      save_subset (destination + info_size) (read_word m1 (info + 48)) (read_word m1 (info + 44))
        m1 in
    (info_size + n, m2)

-- The drive information behind that, if the flag says that there is one.
pub save_drives : ℕ → ℕ → ℕ → Bytes → Bytes
unfolding save_subset
save_drives info destination current m =
    if bit_and (read_word m info) 0x80 == 0
    then m
    else (let m1 = write_word (destination + 56) (u32 (destination + current)) m in
        (save_subset (destination + current) (read_word m1 (info + 56)) (read_word m1 (info + 52))
          m1).1)

pub save_multiboot_info : ℕ → ℕ → Bytes → Bytes
unfolding save_mmap save_drives
save_multiboot_info info destination m =
    let (current, m1) = save_mmap info destination (copy_up destination info info_size m) in
    save_drives info destination current m1
