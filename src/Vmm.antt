-- ===== src/Vmm.antt =====
-- kernel/mm/vmm.c: the virtual memory manager, which reaches the page directory and the page tables
-- through the directory's last entry, which maps the directory itself. `assert` and `assert_msg`
-- are those of a build without __AWAOS_DEBUG__: they evaluate their condition and go on.
pub mod Tables
pub mod Keep
pub mod NewTable
pub mod Map
pub mod Lookup
pub mod Unmap
pub mod Search
pub mod Pages
pub mod Unwind
pub mod PageRun
pub mod MapPage
pub mod AllocPage
pub mod Sample
mod Tests
use os_learn.Base.{
  ℕ, zero, suc, ◌+◌, ◌-◌, ◌*◌, ◌/◌, ◌%◌, ◌^◌, Bool, true, false, ◌&&◌, ◌||◌, not, u32, ltb, ◌==◌,
  if◌then◌else◌,
}
use os_learn.Paging.{
  pg_size, pg_max_entries, pte_null, pg_align, l1_index, l2_index, pg_offset, is_cached, pg_present,
  new_entry, v_addr, pg_entry_flags, pg_entry_addr, has_flags, l1_base_vaddr, l2_vaddr,
  t_self_ref_perm,
}
use os_learn.Mmu.{
  Machine, Run, out_of_fuel, Cmd, pure, ◌>>=◌, ◌>>◌, load, store, clear_page, alloc, free,
}

-- `&table->entry[i]`
abbrev pub entry_vaddr : ℕ → ℕ → ℕ
entry_vaddr table i = u32 (table + i * 4)

-- vmm_init_pd clears the entries of the new directory one by one, through its physical address.
clear_entries : ℕ → ℕ → ℕ → Cmd (Unit {0})
clear_entries zero i dir = pure tt
clear_entries (suc n) i dir = do store (entry_vaddr dir i) pte_null; clear_entries n (i + 1) dir

pub vmm_init_pd : Cmd ℕ
unfolding clear_entries
vmm_init_pd = do
  dir ← alloc
  clear_entries pg_max_entries 0 dir
  store (entry_vaddr dir (pg_max_entries - 1)) (new_entry t_self_ref_perm dir)
  pure dir

-- The directory has no entry: allocate a table, enter it and clear it.
pub new_table : ℕ → ℕ → Cmd Bool
new_table l1_inx attr = do
  page ← alloc
  if page == 0 then pure false else do
    store (entry_vaddr l1_base_vaddr l1_inx) (new_entry attr page)
    clear_page (l2_vaddr l1_inx)
    pure true

-- A forced mapping gives back the page that was mapped.
pub release_old : ℕ → Cmd Bool
release_old l2pte = if has_flags l2pte pg_present then free (pg_align l2pte) else pure true

-- The entry of the table: an old one stays unless forced.
pub enter_page : ℕ → ℕ → ℕ → Bool → Cmd Bool
unfolding release_old
enter_page slot pa attr forced = do
  l2pte ← load slot
  if not (l2pte == 0) && not forced then pure false else do
    (if l2pte == 0 then pure true else release_old l2pte)
    store slot (new_entry attr pa)
    pure true

pub vmm_map_internal : ℕ → ℕ → ℕ → ℕ → Bool → Cmd Bool
unfolding new_table enter_page
vmm_map_internal l1_inx l2_inx pa attr forced = do
  l1pte ← load (entry_vaddr l1_base_vaddr l1_inx)
  ready ← if l1pte == 0 then new_table l1_inx attr else pure true
  if ready then enter_page (entry_vaddr (l2_vaddr l1_inx) l2_inx) pa attr forced else pure false

-- How the search of vmm_map_page ends: with a mapping entered, or by the test of the loop.
pub data Place : Type 0 where
  entered : ℕ → ℕ → Place
  stopped : ℕ → ℕ → Place

-- The variables of the loop at the top of its body, after the step to the next table.
pub record Cursor : Type 0 where
  pub l1 : ℕ
  pub l2 : ℕ
  pub pte : ℕ

pub next_table : Cursor → Cmd Cursor
next_table c =
    if c.l2 == pg_max_entries
    then (do
      e ← load (entry_vaddr l1_base_vaddr (c.l1 + 1))
      pure (record { l1 = c.l1 + 1; l2 = 0; pte = e }))
    else pure c

pub enter_slot : ℕ → ℕ → Cursor → Cmd Place
enter_slot pa attr d = do
  store (entry_vaddr (l2_vaddr d.l1) d.l2) (new_entry attr pa)
  pure (entered d.l1 d.l2)

pub find_slot : ℕ → ℕ → ℕ → Cursor → Cmd Place
find_slot zero pa attr c = λ _. out_of_fuel
find_slot (suc fuel) pa attr c = elim (not (c.pte == 0) && ltb c.l1 pg_max_entries) [
  | false ↦ pure (stopped c.l1 c.l2)
  | true ↦ do
    d ← next_table c
    slot ← load (entry_vaddr (l2_vaddr d.l1) d.l2)
    elim (slot == 0) [
      | true ↦ enter_slot pa attr d
      | false ↦ find_slot fuel pa attr (record d { l2 = d.l2 + 1 })
    ]
]

-- One round for each entry of each table, one for the first entry past them, and one to stop.
scan_fuel : ℕ
scan_fuel = 1024 * 1024 + 2

pub vmm_map_page : ℕ → ℕ → ℕ → Cmd ℕ
unfolding next_table enter_slot find_slot scan_fuel
vmm_map_page va pa tattr = if pa == 0 || va == 0 then pure 0 else do
  l1pte ← load (entry_vaddr l1_base_vaddr (l1_index va))
  place ← find_slot scan_fuel pa tattr (record { l1 = l1_index va; l2 = l2_index va; pte = l1pte })
  elim place [
    | entered l1 l2 ↦ pure (v_addr l1 l2 (pg_offset va))
    | stopped l1 l2 ↦ if ltb pg_max_entries l1 then pure 0 else do
      done ← vmm_map_internal l1 l2 pa tattr false
      pure (if done then v_addr l1 l2 (pg_offset va) else 0)
  ]

pub vmm_fmap_page : ℕ → ℕ → ℕ → Cmd ℕ
vmm_fmap_page va pa tattr = if pa == 0 || va == 0 then pure 0 else do
  done ← vmm_map_internal (l1_index va) (l2_index va) pa tattr true
  pure (if done then v_addr (l1_index va) (l2_index va) (pg_offset va) else 0)

pub vmm_alloc_page : ℕ → ℕ → Cmd ℕ
vmm_alloc_page vpn tattr = do
  pp ← alloc
  result ← vmm_map_page vpn pp tattr
  if result == 0 then (do free pp; pure result) else pure result

pub vmm_unmap_page : ℕ → Cmd (Unit {0})
vmm_unmap_page va = if l1_index va == 1023 then pure tt else do
  l1pte ← load (entry_vaddr l1_base_vaddr (l1_index va))
  if l1pte == 0 then pure tt else do
    l2pte ← load (entry_vaddr (l2_vaddr (l1_index va)) (l2_index va))
    (if is_cached l2pte == 0 then pure true else free l2pte)
    store (entry_vaddr (l2_vaddr (l1_index va)) (l2_index va)) pte_null

pub unmap_pages : ℕ → ℕ → Cmd (Unit {0})
unmap_pages zero va = pure tt
unmap_pages (suc n) va = do vmm_unmap_page va; unmap_pages n (u32 (va + pg_size))

-- The loop of vmm_alloc_pages with `left` rounds to go and `i` pages mapped from `start` on.
pub alloc_pages_from : ℕ → ℕ → ℕ → ℕ → ℕ → Cmd Bool
unfolding unmap_pages
alloc_pages_from zero i start va tattr = pure true
alloc_pages_from (suc left) i start va tattr = do
  pp ← alloc
  done ← if pp == 0 then pure false else vmm_map_internal (l1_index va) (l2_index va) pp tattr false
  elim done [
    | true ↦ alloc_pages_from left (i + 1) start (u32 (va + pg_size)) tattr
    | false ↦ do unmap_pages i start; pure false
  ]

pub vmm_alloc_pages : ℕ → ℕ → ℕ → Cmd Bool
unfolding alloc_pages_from
vmm_alloc_pages va sz tattr = alloc_pages_from (sz / 2 ^ 12) 0 va va tattr

pub vmm_set_mapping : ℕ → ℕ → ℕ → Cmd (Unit {0})
vmm_set_mapping va pa attr =
    if l1_index va == 1023
    then pure tt
    else do vmm_map_internal (l1_index va) (l2_index va) pa attr false; pure tt

-- `v_mapping`
pub record Mapping : Type 0 where
  pub pn : ℕ
  pub pa : ℕ
  pub flags : ℕ

abbrev pub no_mapping : Mapping
no_mapping = record { pn = 0; pa = 0; flags = 0 }

pub vmm_lookup : ℕ → Cmd Mapping
vmm_lookup va = do
  l1pte ← load (entry_vaddr l1_base_vaddr (l1_index va))
  if l1pte == 0 then pure no_mapping else do
    l2pte ← load (entry_vaddr (l2_vaddr (l1_index va)) (l2_index va))
    pure (
        if l2pte == 0 then no_mapping else record {
          pn = pg_entry_addr l2pte / 2 ^ 12;
          pa = pg_entry_addr l2pte;
          flags = pg_entry_flags l2pte;
        })

pub vmm_v2p : ℕ → Cmd ℕ
vmm_v2p va = do m ← vmm_lookup va; pure m.pa
