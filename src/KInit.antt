-- ===== src/KInit.antt =====
-- kernel/k_init.c: the pages that the memory map makes available, the pages in use from the start,
-- and the mapping of reserved memory. What is printed is left out.
pub mod Available
mod Tests
use os_learn.Base.{
  ℕ, zero, suc, ◌+◌, ◌-◌, ◌*◌, ◌/◌, ◌%◌, ◌^◌, Bool, true, false, List, [], ◌∷◌, u32, ◌==◌,
  if◌then◌else◌,
}
use os_learn.Paging.{pg_align, pg_size_bits, pg_prem_r, pg_prem_rw}
use os_learn.Pmm.{Bitmap, Pmm, mark_chunk_free, mark_chunk_occupied}
use os_learn.Mmu.{Machine, ok, Cmd, pure, ◌>>=◌, ◌>>◌}
use os_learn.Vmm.{vmm_map_page, vmm_set_mapping, vmm_unmap_page, vmm_alloc_page}
use os_learn.Tty.{Tty, tty_set_buffer}

-- `multiboot_memory_map_t`, the fields that are used.
pub record MemoryMap : Type 0 where
  pub addr_low : ℕ
  pub len_low : ℕ
  pub kind : ℕ

-- `MULTIBOOT_MEMORY_AVAILABLE`
abbrev pub memory_available : ℕ
memory_available = 1

abbrev pub vga_buffer_paddr : ℕ
vga_buffer_paddr = 0xb_8000

abbrev pub vga_buffer_vaddr : ℕ
vga_buffer_vaddr = 0xb000_0000

abbrev pub vga_buffer_size : ℕ
vga_buffer_size = 4096

abbrev pub k_stack_size : ℕ
k_stack_size = 65536

abbrev pub k_stack_start : ℕ
k_stack_start = 0xffbf_0000

-- The first and the number of the pages that an available region frees.
abbrev pub first_page : MemoryMap → ℕ
first_page mmap = u32 (mmap.addr_low + 0xfff) / 2 ^ pg_size_bits

abbrev pub page_count : MemoryMap → ℕ
page_count mmap = mmap.len_low / 2 ^ pg_size_bits

-- The first pass of setup_memory.
pub free_available : List MemoryMap → Bitmap → Bitmap
free_available [] bm = bm
free_available (mmap ∷ map) bm =
    let rest = free_available map (
      if mmap.kind == memory_available
      then mark_chunk_free bm (first_page mmap) (page_count mmap)
      else bm) in
    rest

-- The pages of the kernel, which include the low megabyte, and of the screen. `kernel_end` is
-- `&__kernel_end`.
pub occupy_kernel : ℕ → Bitmap → Bitmap
occupy_kernel kernel_end bm =
    let pg_count = u32 (kernel_end + 2 ^ 32 - 0xc000_0000) / 2 ^ pg_size_bits in
    mark_chunk_occupied (mark_chunk_occupied bm 0 pg_count) (vga_buffer_paddr / 2 ^ pg_size_bits)
      (vga_buffer_size / 2 ^ pg_size_bits)

abbrev pub on_bitmap : (Bitmap → Bitmap) → Cmd (Unit {0})
on_bitmap f m = ok tt (record m { pmm = record m.pmm { bitmap = f m.pmm.bitmap } })

pub map_vga : ℕ → ℕ → Cmd (Unit {0})
map_vga zero i = pure tt
map_vga (suc n) i = do
  vmm_map_page (vga_buffer_vaddr + i * 2 ^ pg_size_bits) (vga_buffer_paddr + i * 2 ^ pg_size_bits)
      pg_prem_rw
  map_vga n (i + 1)

pub setup_memory : List MemoryMap → ℕ → Tty → Cmd Tty
unfolding free_available occupy_kernel map_vga
setup_memory map kernel_end t = do
  on_bitmap (free_available map)
  on_bitmap (occupy_kernel kernel_end)
  map_vga (vga_buffer_size / 2 ^ pg_size_bits) 0
  pure (tty_set_buffer vga_buffer_vaddr t)

-- The stack of setup_kernel_runtime; the heap that it then sets up is Kalloc's.
pub alloc_stack : ℕ → ℕ → Cmd (Unit {0})
alloc_stack zero i = pure tt
alloc_stack (suc n) i = do
  vmm_alloc_page (k_stack_start + i * 2 ^ pg_size_bits) pg_prem_rw
  alloc_stack n (i + 1)

pub for_pages : ℕ → ℕ → (ℕ → Cmd (Unit {0})) → Cmd (Unit {0})
for_pages zero pa body = pure tt
for_pages (suc n) pa body = do body pa; for_pages n (u32 (pa + 2 ^ pg_size_bits)) body

-- The loop over the reserved regions, with the page's command.
pub for_reserved : List MemoryMap → (ℕ → Cmd (Unit {0})) → Cmd (Unit {0})
unfolding for_pages
for_reserved [] body = pure tt
for_reserved (mmap ∷ mmaps) body = do
  (if mmap.kind == memory_available
      then pure tt
      else for_pages (u32 (mmap.len_low + 2 ^ pg_size_bits - 1) / 2 ^ pg_size_bits)
          (pg_align mmap.addr_low) body)
  for_reserved mmaps body

pub lock_reserved_memory : List MemoryMap → Cmd (Unit {0})
unfolding for_reserved
lock_reserved_memory mmaps = for_reserved mmaps (λ pa. vmm_set_mapping pa pa pg_prem_r)

pub unlock_reserved_memory : List MemoryMap → Cmd (Unit {0})
unfolding for_reserved
unlock_reserved_memory mmaps = for_reserved mmaps vmm_unmap_page
