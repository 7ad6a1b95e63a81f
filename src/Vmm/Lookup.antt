-- ===== src/Vmm/Lookup.antt =====
-- kernel/mm/vmm.c: vmm_lookup, vmm_v2p and vmm_set_mapping against the entries of the page tables
-- and the translation that the machine makes.
use os_learn.Base.{
  ℕ, ◌/◌, ◌%◌, ◌^◌, ◌<◌, ◌≡◌, ◌≢◌, refl, ◌∙◌, ap, Bool, true, false, Option, none, some, arith,
  ◌==◌, if◌then◌else◌, ◌&&◌, ne→==, eq→==,
}
use native.Mathlib.Decide.{ℕ_discrete}
use os_learn.Paging.{
  new_entry, new_entry_lem, l1_index, l2_index, l1_index_lem, l2_index_lem, pg_align, pg_align_lem,
  pg_entry_addr, pg_entry_flags, pg_entry_addr_lem, entry_parts,
}
use os_learn.Mmu.{Machine, ok, walk}
use os_learn.Vmm.{Mapping, no_mapping, vmm_lookup, vmm_v2p, vmm_set_mapping, vmm_map_internal}
use os_learn.Vmm.Tables.{
  IsPaged, dir_entry, table_frame, entry_at, SetsEntry, SameEntries, load_l1, load_l2,
}
use os_learn.Vmm.Map.{Maps, map_internal-Maps}

-- The entry of the page of an address.
abbrev pub entry_of : Machine → ℕ → ℕ
entry_of m va = entry_at m (l1_index va) (l2_index va)

-- What a lookup tells of an entry.
abbrev pub mapping_of : ℕ → Mapping
mapping_of e =
    if e == 0
    then no_mapping
    else record { pn = pg_entry_addr e / 2 ^ 12; pa = pg_entry_addr e; flags = pg_entry_flags e }

module _ (m : Machine) (p : IsPaged m) (va : ℕ) (h : va < 2 ^ 32) where
  pub l1_lt : l1_index va < 1024
  l1_lt = omega (arith, l1_index_lem va h)

  pub l2_lt : l2_index va < 1024
  l2_lt = omega (arith, l2_index_lem va)

  pub present_at : (i : ℕ) → i < 1024 → dir_entry m i ≢ 0 → dir_entry m i % 2 ≡ 1
  present_at i hi ne = elim (ℕ_discrete i 1023) [
    | yes last ↦ rw last p.self.1
    | no other ↦ p.present i (omega arith) ne
  ]

  -- vmm_lookup tells what the entry of the page says, without a fault, and changes nothing.
  pub lookup_lem : vmm_lookup va m ≡ ok (mapping_of (entry_of m va)) m
  unfolding vmm_lookup
  lookup_lem = elim (ℕ_discrete (dir_entry m (l1_index va)) 0) [
    | yes none' ↦ rw (load_l1 m p (l1_index va) l1_lt, eq→== (dir_entry m (l1_index va)) 0 none')
    | no some' ↦ rw (
      load_l1 m p (l1_index va) l1_lt,
      ne→== (dir_entry m (l1_index va)) 0 some',
      load_l2 m p (l1_index va) (l2_index va) l1_lt l2_lt (present_at (l1_index va) l1_lt some'),
    )
  ]

  -- The machine's translation, by the two indices.
  abbrev translate : ℕ → ℕ → Option ℕ
  translate i j =
      if dir_entry m i % 2 == 1
      then (if m.mem (table_frame m i) j % 2 == 1
          then some (m.mem (table_frame m i) j / 4096)
          else none)
      else none

  walk-translate : walk m va ≡ translate (l1_index va) (l2_index va)
  unfolding walk
  walk-translate = rw (l1_index_lem va h, l2_index_lem va)

  translate_entry :
      (i j : ℕ) → i < 1024 → entry_at m i j % 2 ≡ 1 → translate i j ≡ some (entry_at m i j / 4096)
  translate_entry i j hi odd = ground (arith, present_at i hi)

  pub walk_entry : entry_of m va % 2 ≡ 1 → walk m va ≡ some (entry_of m va / 4096)
  walk_entry odd = walk-translate ∙ translate_entry (l1_index va) (l2_index va) l1_lt odd

-- vmm_v2p agrees with the machine in the paged state: for a 32-bit address whose entry is a word with the
-- present bit, it returns the address
-- of the very frame that the machine translates the address to, and changes nothing.
pub v2p-walk :
    (m : Machine) (va : ℕ)
    → IsPaged m
    → va < 2 ^ 32
    → entry_of m va % 2 ≡ 1
    → entry_of m va < 2 ^ 32
    → (pa : ℕ) × (vmm_v2p va m ≡ ok pa m) × (walk m va ≡ some (pa / 4096)) × (pa % 4096 ≡ 0)
unfolding vmm_v2p
v2p-walk m va p h odd word = (
  (mapping_of (entry_of m va)).pa,
  rw (lookup_lem m p va h),
  walk_entry m p va h odd ∙ ap some (ground (arith, pg_entry_addr_lem (entry_of m va) word)),
  ground (arith, pg_entry_addr_lem (entry_of m va) word),
)

module _ (m : Machine) (va pa attr : ℕ) (p : IsPaged m) (h : va < 2 ^ 32) (low : l1_index va < 1023)
    (odd : attr % 2 ≡ 1) where
  abbrev maps :
      Maps m
        (l1_index va)
        (l2_index va)
        (new_entry attr pa)
        (vmm_map_internal (l1_index va) (l2_index va) pa attr false m)
  maps =
      map_internal-Maps m (l1_index va) (l2_index va) pa attr p low (omega (arith, l2_index_lem va))
        odd

  set_mapping-after : vmm_set_mapping va pa attr m ≡ ok tt maps.after
  unfolding vmm_set_mapping
  set_mapping-after = rw (ne→== (l1_index va) 1023 (omega arith), maps.returns)

-- Two pages have other indices.
pub pages_apart :
    (va vb : ℕ)
    → va < 2 ^ 32
    → vb < 2 ^ 32
    → vb / 4096 ≢ va / 4096
    → ((l1_index vb == l1_index va) && (l2_index vb == l2_index va)) ≡ false
pages_apart va vb h hb ne =
    rw (l1_index_lem va h, l1_index_lem vb hb, l2_index_lem va, l2_index_lem vb) (ground arith)

pub entry_set : (m m' : Machine) (i j e : ℕ) → i < 1023 → SetsEntry m i j e m' → entry_at m' i j ≡ e
entry_set m m' i j e h sets = sets i j h ∙ rw (eq→== i i refl, eq→== j j refl)

new_entry-ne-zero : (pa attr : ℕ) → pa < 2 ^ 32 → attr % 2 ≡ 1 → new_entry attr pa ≢ 0
new_entry-ne-zero pa attr hp odd = omega (arith, new_entry_lem attr pa hp)

-- vmm_set_mapping on an address whose region has a table and whose page has no mapping: the lookup
-- then tells the aligned physical address and the flags, the machine translates the address to that
-- frame, every other page outside the recursive region keeps its entry, and the invariant holds.
pub set_mapping-lookup :
    (m : Machine) (va pa attr : ℕ)
    → IsPaged m
    → va < 2 ^ 32
    → l1_index va < 1023
    → attr % 2 ≡ 1
    → pa < 2 ^ 32
    → dir_entry m (l1_index va) ≢ 0
    → entry_of m va ≡ 0
    → (m' : Machine) × (vmm_set_mapping va pa attr m ≡ ok tt m')
      × IsPaged m'
      × (vmm_lookup va m'
          ≡ ok (record { pn = pa / 4096; pa = pg_align pa; flags = attr % 4096 }) m')
      × (walk m' va ≡ some (pa / 4096))
      × ((vb : ℕ)
          → vb < 2 ^ 32
          → l1_index vb < 1023
          → vb / 4096 ≢ va / 4096
          → entry_of m' vb ≡ entry_of m vb)
set_mapping-lookup m va pa attr p h low odd hp there empty =
    let r = maps m va pa attr p h low odd in
    let hit = r.hit (r.succeeds there empty) in
    let now = entry_set m r.after (l1_index va) (l2_index va) (new_entry attr pa) low hit.1 in
    let parts = entry_parts attr pa hp in
    (
      r.after,
      set_mapping-after m va pa attr p h low odd,
      r.keeps,
      lookup_lem r.after r.keeps va h
          ∙ ap (λ e. ok e r.after)
              (ap mapping_of now
                ∙ rw
                    (
                      ne→== (new_entry attr pa) 0 (new_entry-ne-zero pa attr hp odd),
                      parts.0,
                      parts.1,
                    )
                    (ap (λ n. record { pn = n; pa = pg_align pa; flags = attr % 4096 })
                      (omega (arith, pg_align_lem pa hp)))),
      walk_entry r.after r.keeps va h (rw now (omega (arith, new_entry_lem attr pa hp)))
          ∙ ap some (omega (arith, now, new_entry_lem attr pa hp)),
      λ vb hb lowb ne. hit.1 (l1_index vb) (l2_index vb) lowb ∙ rw (pages_apart va vb h hb ne),
    )

-- vmm_set_mapping on an address in the recursive region changes nothing; on an address whose page
-- is mapped it leaves every entry as it was.
pub set_mapping_ignored :
    (m : Machine) (va pa attr : ℕ)
    → IsPaged m
    → va < 2 ^ 32
    → attr % 2 ≡ 1
    → (l1_index va ≡ 1023 → vmm_set_mapping va pa attr m ≡ ok tt m)
      × (l1_index va < 1023
          → entry_of m va ≢ 0
          → (m' : Machine) × (vmm_set_mapping va pa attr m ≡ ok tt m')
            × IsPaged m'
            × SameEntries m m')
set_mapping_ignored m va pa attr p h odd = (
  λ last. unfold vmm_set_mapping in rw (eq→== (l1_index va) 1023 last),
  λ low taken.
      let r = maps m va pa attr p h low odd in
      (
        r.after,
        set_mapping-after m va pa attr p h low odd,
        r.keeps,
        r.miss (not_done r.done λ e. taken (r.hit e).0),
      ),
)
  where
    not_done : (b : Bool) → ¬ (b ≡ true) → b ≡ false
    not_done true no' = absurd (no' refl)
    not_done false no' = refl
