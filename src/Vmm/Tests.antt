-- ===== src/Vmm/Tests.antt =====
-- kernel/mm/vmm.c: a small machine, and the theorems at it.
use os_learn.Base.{
  ℕ, ◌/◌, ◌%◌, ◌^◌, ◌<◌, ◌≡◌, ◌≢◌, refl, true, false, arith, ◌&&◌, ltb, ◌==◌, if◌then◌else◌, some,
}
use os_learn.Paging.{
  l1_index, l2_index, pg_offset, v_addr, v_addr-indices, new_entry, pg_entry_addr, pg_entry_flags,
  pg_align, entry_parts, pg_prem_rw,
}
use os_learn.Pmm.Page.{is_free}
use os_learn.Mmu.{Machine, ok, walk}
use os_learn.Vmm.{
  no_mapping, vmm_map_internal, vmm_map_page, vmm_alloc_pages, vmm_set_mapping, vmm_lookup,
  vmm_unmap_page, vmm_v2p,
}
use os_learn.Vmm.Tables.{IsPaged, SameEntries}
use os_learn.Vmm.Map.{Maps, map_internal-Maps}
use os_learn.Vmm.Lookup.{entry_of, v2p-walk, set_mapping-lookup, set_mapping_ignored}
use os_learn.Vmm.Unmap.{IsDataFrame, unmap-lookup}
use os_learn.Vmm.PageRun.{Outcome, vmm_alloc_pages-Outcome}
use os_learn.Vmm.Sample.{manager, machine, only_first, machine-IsPaged}
use os_learn.Vmm.Search.{Ends, vmm_map_page-Ends}

map_internal-Maps_example :
    Maps machine 4 7
      (new_entry pg_prem_rw 0x7000)
      (vmm_map_internal 4 7 0x7000 pg_prem_rw false machine)
map_internal-Maps_example =
    map_internal-Maps machine 4 7 0x7000 pg_prem_rw machine-IsPaged (omega arith) (omega arith) refl

set_mapping-lookup_example :
    (m' : Machine) × (vmm_set_mapping 0x7000 0xa123 pg_prem_rw machine ≡ ok tt m')
    × IsPaged m'
    × (vmm_lookup 0x7000 m' ≡ ok (record { pn = 10; pa = pg_align 0xa123; flags = 3 }) m')
    × (walk m' 0x7000 ≡ some 10)
    × ((vb : ℕ)
        → vb < 2 ^ 32
        → l1_index vb < 1023
        → vb / 4096 ≢ 7
        → entry_of m' vb ≡ entry_of machine vb)
unfolding l1_index l2_index
set_mapping-lookup_example =
    set_mapping-lookup machine 0x7000 0xa123 pg_prem_rw machine-IsPaged (omega arith) (omega arith)
      refl (omega arith) (omega arith) refl

set_mapping_ignored_run :
    (l1_index 0x5000 ≡ 1023 → vmm_set_mapping 0x5000 0xa000 pg_prem_rw machine ≡ ok tt machine)
    × (l1_index 0x5000 < 1023
        → entry_of machine 0x5000 ≢ 0
        → (m' : Machine) × (vmm_set_mapping 0x5000 0xa000 pg_prem_rw machine ≡ ok tt m')
          × IsPaged m'
          × SameEntries machine m')
set_mapping_ignored_run =
    set_mapping_ignored machine 0x5000 0xa000 pg_prem_rw machine-IsPaged (omega arith) refl

v2p-walk_example :
    (pa : ℕ) × (vmm_v2p 0x5abc machine ≡ ok pa machine)
    × (walk machine 0x5abc ≡ some (pa / 4096))
    × (pa % 4096 ≡ 0)
unfolding l1_index l2_index
v2p-walk_example = v2p-walk machine 0x5abc machine-IsPaged (omega arith) refl (omega arith)

six_is_data : IsDataFrame machine 6
six_is_data = (omega arith, λ a h ne. rw (only_first a h ne) (omega arith))

unmap-lookup_example :
    (m' : Machine) × (vmm_unmap_page 0x5000 machine ≡ ok tt m')
    × IsPaged m'
    × (vmm_lookup 0x5000 m' ≡ ok no_mapping m')
    × ((vb : ℕ)
        → vb < 2 ^ 32
        → l1_index vb < 1023
        → vb / 4096 ≢ 5
        → entry_of m' vb ≡ entry_of machine vb)
    × ((q : ℕ)
        → is_free m'.pmm.bitmap q
          ≡ (if true && ltb 0 6 && ltb 6 32 && (6 == q) then true else is_free manager.bitmap q))
unfolding l1_index l2_index
unmap-lookup_example =
    unmap-lookup machine 0x5000 machine-IsPaged (omega arith) (omega arith) (omega arith)
      (λ odd. six_is_data)

v_addr-indices_run :
    v_addr (l1_index 0xc012_3456) (l2_index 0xc012_3456) (pg_offset 0xc012_3456) ≡ 0xc012_3456
v_addr-indices_run = v_addr-indices 0xc012_3456 (omega arith)

entry_parts_run :
    (pg_entry_addr (new_entry 3 0xa123) ≡ pg_align 0xa123)
    × (pg_entry_flags (new_entry 3 0xa123) ≡ 3)
entry_parts_run = entry_parts 3 0xa123 (omega arith)

vmm_map_page-Ends_example : Ends (vmm_map_page 0x5000 0xa000 pg_prem_rw machine)
vmm_map_page-Ends_example = vmm_map_page-Ends 0x5000 0xa000 pg_prem_rw machine (omega arith)

vmm_alloc_pages-Outcome_example :
    Outcome machine 8 2 (vmm_alloc_pages 0x8000 0x2000 pg_prem_rw machine)
vmm_alloc_pages-Outcome_example =
    vmm_alloc_pages-Outcome machine 8 2 pg_prem_rw machine-IsPaged (omega arith) refl
