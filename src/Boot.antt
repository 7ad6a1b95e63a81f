-- ===== src/Boot.antt =====
-- arch/x86/hhk.c: the first page tables, which the boot loader writes before paging is on, and the
-- copies of the multiboot structures. Memory is a function from the address of a word to the word.
pub mod Tables
pub mod Translate
mod Tests
use os_learn.Base.{
  ℕ, zero, suc, ◌+◌, ◌-◌, ◌*◌, ◌/◌, ◌%◌, ◌^◌, Option, some, none, Bool, ◌&&◌, u32, ltb, leb, ◌==◌,
  if◌then◌else◌, update, fill, for_range,
}
use os_learn.Paging.{
  pg_max_entries, l1_index, l2_index, new_entry, pg_present, pg_prem_rw, t_self_ref_perm,
}

-- The addresses that the linker gives.
pub record Image : Type 0 where
  pub kernel_start : ℕ
  pub kernel_end : ℕ
  pub init_hhk_end : ℕ

abbrev pub Words : Type 0
Words = ℕ → ℕ

-- `PT_ADDR(ptd, pt_index)`
abbrev pub pt_addr : ℕ → ℕ → ℕ
pt_addr ptd pt_index = ptd + (pt_index + 1) * 1024 * 4

-- `SET_PDE` and `SET_PTE`
abbrev pub set_pde : ℕ → ℕ → ℕ → Words → Words
set_pde ptd pde_index pde m = update m (ptd + pde_index * 4) pde

abbrev pub set_pte : ℕ → ℕ → ℕ → ℕ → Words → Words
set_pte ptd pt_index pte_index pte m = update m (pt_addr ptd pt_index + pte_index * 4) pte

abbrev pub kernel_page_count : Image → ℕ
kernel_page_count im = u32 (im.kernel_end + 2 ^ 32 - im.kernel_start + 0x1000 - 1) / 2 ^ 12

abbrev pub hhk_page_count : Image → ℕ
hhk_page_count im = u32 (im.init_hhk_end + 2 ^ 32 - 0x10_0000 + 0x1000 - 1) / 2 ^ 12

-- `V2P(vaddr)`
abbrev pub v2p : ℕ → ℕ
v2p vaddr = u32 (vaddr + 2 ^ 32 - 0xc000_0000)

-- The low megabyte and the loader, mapped to themselves.
pub map_identity : Image → ℕ → Words → Words
map_identity im ptd m =
    let m1 = set_pde ptd 0 (new_entry pg_present (ptd + pg_max_entries * 4)) m in
    let m2 = for_range 256 0 (λ i. set_pte ptd 0 i (new_entry pg_prem_rw (i * 2 ^ 12))) m1 in
    for_range (hhk_page_count im) 0
      (λ i. set_pte ptd 0 (256 + i) (new_entry pg_prem_rw (0x10_0000 + i * 2 ^ 12))) m2

-- The kernel's three tables and its pages.
pub map_kernel : Image → ℕ → Words → Words
map_kernel im ptd m =
    for_range (kernel_page_count im) 0
      (λ i.
        set_pte ptd 1 (l2_index im.kernel_start + i)
          (new_entry pg_prem_rw (v2p im.kernel_start + i * 2 ^ 12)))
      m

pub enter_kernel_tables : Image → ℕ → Words → Words
enter_kernel_tables im ptd m =
    for_range 3 0
      (λ i. set_pde ptd (l1_index im.kernel_start + i) (new_entry pg_prem_rw (pt_addr ptd (1 + i))))
      m

-- `none` is the loop without end that a kernel too large runs into.
pub init_page : Image → ℕ → Words → Option Words
unfolding map_identity enter_kernel_tables map_kernel
init_page im ptd m =
    let m1 = enter_kernel_tables im ptd (map_identity im ptd m) in
    if ltb (3 * pg_max_entries) (kernel_page_count im)
    then none
    else some
        (set_pde ptd (pg_max_entries - 1) (new_entry t_self_ref_perm ptd) (map_kernel im ptd m1))

-- `kpg_size` bytes are cleared, here as words.
pub clear_words : ℕ → ℕ → Words → Words
clear_words kpg kpg_size m a = if leb kpg a && ltb a (kpg + kpg_size) then 0 else m a

pub hhk_init : Image → ℕ → ℕ → Words → Option Words
unfolding init_page clear_words
hhk_init im ptd kpg_size m = init_page im ptd (clear_words ptd kpg_size m)
