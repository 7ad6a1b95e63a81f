-- ===== src/KInit/Tests.antt =====
-- kernel/k_init.c: a memory map, and the theorem at it.
use os_learn.Base.{ℕ, ◌≤◌, ◌≡◌, ◌≢◌, ◌∙◌, [], ◌∷◌, true, List, arith}
use os_learn.Pmm.{Bitmap, Pmm, pmm_init, mark_chunk_free, mark_chunk_occupied}
use os_learn.Pmm.Chunk.{is_free-mark_chunk_free, is_free-mark_chunk_occupied}
use os_learn.Pmm.Page.{is_free}
use os_learn.KInit.{MemoryMap, free_available, occupy_kernel}
use os_learn.KInit.Available.{Below, Available, setup-Available}

-- 640 KiB from 0, a reserved region, and 15 MiB from 1 MiB.
abbrev map : List MemoryMap
map =
    record { addr_low = 0; len_low = 0xa_0000; kind = 1 }
    ∷ record { addr_low = 0xf_0000; len_low = 0x1_0000; kind = 2 }
    ∷ record { addr_low = 0x10_0000; len_low = 0xf0_0000; kind = 1 }
    ∷ []

abbrev at_boot : Pmm
at_boot = record { bitmap = λ i. 0; max_pg = 0; lookup_ptr = 0 }

map-Below : Below map
unfolding Below
map-Below = (λ e. omega arith, (λ e. omega arith, (λ e. omega arith, tt)))

free_300 :
    is_free
      (occupy_kernel 0xc012_0400 (free_available map (pmm_init at_boot 0x100_0000).bitmap))
      300
    ≡ true
unfolding occupy_kernel free_available
free_300 =
    is_free-mark_chunk_occupied (mark_chunk_occupied (mark_chunk_free low 256 3840) 0 288) 0xb8 1
      300 (omega arith)
    ∙ is_free-mark_chunk_occupied (mark_chunk_free low 256 3840) 0 288 300 (omega arith)
    ∙ is_free-mark_chunk_free low 256 3840 300 (omega arith)
  where
    low : Bitmap
    low = mark_chunk_free (pmm_init at_boot 0x100_0000).bitmap 0 160

setup-Available_example : Available 300 map × (0x120 ≤ 300) × (◌≢◌ {A = ℕ} 300 0xb8)
setup-Available_example =
    setup-Available map 0xc012_0400 0x100_0000 300 at_boot map-Below (omega arith) (omega arith)
      (omega arith) free_300
