-- ===== src/Boot/Tests.antt =====
-- arch/x86/hhk.c: a small kernel, and the theorem at it.
use os_learn.Base.{ℕ, ◌+◌, ◌-◌, ◌/◌, ◌<◌, ◌≡◌, refl, some, none, arith}
use os_learn.Pmm.{Pmm}
use os_learn.Mmu.{walk}
use os_learn.Boot.{Image, Words, kernel_page_count, hhk_page_count, init_page}
use os_learn.Boot.Tables.{Linked}
use os_learn.Boot.Translate.{machine_at, init_page-walk}

abbrev image : Image
image = record { kernel_start = 0xc010_2000; kernel_end = 0xc012_0400; init_hhk_end = 0x10_1800 }

image-Linked : Linked image 0x10_4000
image-Linked = record {
  aligned = refl;
  room = omega arith;
  loader = omega arith;
  page = refl;
  higher = omega arith;
  tables = omega arith;
  pages = omega arith;
}

abbrev pages : Pmm
pages = record { bitmap = λ i. 0xff; max_pg = 0x8000; lookup_ptr = 1 }

init_page-walk_example :
    (m' : Words) × (init_page image 0x10_4000 (λ a. 0) ≡ some m')
    × ((va : ℕ)
        → va / 4096 < 256 + hhk_page_count image
        → walk (machine_at pages 0x10_4000 m') va ≡ some (va / 4096))
    × ((va i : ℕ)
        → i < kernel_page_count image
        → va / 4096 ≡ image.kernel_start / 4096 + i
        → walk (machine_at pages 0x10_4000 m') va ≡ some (va / 4096 - 0xc_0000))
    × (walk (machine_at pages 0x10_4000 m') 0xffff_f000 ≡ some 0x104)
init_page-walk_example = init_page-walk image 0x10_4000 (λ a. 0) pages image-Linked

-- A kernel of more than 3072 pages does not boot.
too_large : init_page (record image { kernel_end = 0xc0d0_3000 }) 0x10_4000 (λ a. 0) ≡ none
unfolding init_page
too_large = refl
