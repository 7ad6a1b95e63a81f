-- ===== src/Multiboot/Saved.antt =====
-- arch/x86/hhk.c: the memory map in the copy.
use os_learn.Base.{ℕ, ◌+◌, ◌-◌, ◌≤◌, ◌≡◌, ◌⊎◌, ◌&&◌, leb, ltb, if◌then◌else◌}
use os_learn.Klibc.{Bytes, memcpy}
use os_learn.Klibc.Mem.{memcpy_lem}
use os_learn.Multiboot.{save_subset}

-- __save_subset copies a region to one that lies apart from it or below it.
pub save_subset_lem :
    (destination base size : ℕ) (m : Bytes) (j : ℕ)
    → (destination ≤ base) ⊎ (base + size ≤ destination)
    → (save_subset destination base size m).1 j ≡ (
        if leb destination j && ltb j (destination + size)
        then m (base + (j - destination))
        else m j)
unfolding save_subset memcpy
save_subset_lem destination base size m j apart = memcpy_lem destination base size m j apart
