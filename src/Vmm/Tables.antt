-- ===== src/Vmm/Tables.antt =====
-- The invariant of the page tables of kernel/mm/vmm.c, and what the addresses of the recursive
-- mapping reach under it.
use os_learn.Base.{
  ℕ, ◌+◌, ◌*◌, ◌/◌, ◌%◌, ◌^◌, ◌<◌, ◌≡◌, ◌≢◌, ◌∙◌, ap, false, none, some, arith, ◌==◌, if◌then◌else◌,
  ◌&&◌,
}
use os_learn.Paging.{l2_vaddr, l2_vaddr_lem, l1_base_vaddr}
use os_learn.Pmm.{Pmm}
use os_learn.Pmm.Page.{is_free}
use os_learn.Pmm.Alloc
use os_learn.Mmu.{
  Machine, ok, fault, walk, load, store, clear_page, write_word, zero_frame, load_at, load_fault,
  store_at, clear_at,
}
use os_learn.Vmm.{entry_vaddr}

-- The directory's entry for a region, and the frame that it names.
abbrev pub dir_entry : Machine → ℕ → ℕ
dir_entry m i = m.mem m.dir i

abbrev pub table_frame : Machine → ℕ → ℕ
table_frame m i = dir_entry m i / 4096

-- The page tables as a map from the two indices of a page to its entry, 0 where there is none.
abbrev pub entry_at : Machine → ℕ → ℕ → ℕ
entry_at m i j = if dir_entry m i == 0 then 0 else m.mem (table_frame m i) j

-- The directory `d` in frame `dir`. Its last entry maps the directory itself. Every other table
-- that it names is present, is in a frame that is in use, and shares it neither with the directory
-- nor with another table.
pub record IsDirectory (s : Pmm) (dir : ℕ) (d : ℕ → ℕ) : Type 0 where
  pub manager : Alloc.IsValid s
  pub self : (d 1023 / 4096 ≡ dir) × (d 1023 % 2 ≡ 1)
  pub dir_used : is_free s.bitmap dir ≡ false
  pub present : (i : ℕ) → i < 1023 → d i ≢ 0 → d i % 2 ≡ 1
  pub apart : (i : ℕ) → i < 1023 → d i ≢ 0 → d i / 4096 ≢ dir
  pub used : (i : ℕ) → i < 1023 → d i ≢ 0 → is_free s.bitmap (d i / 4096) ≡ false
  pub distinct :
      (i j : ℕ) → i < 1023 → j < 1023 → i ≢ j → d i ≢ 0 → d j ≢ 0 → d i / 4096 ≢ d j / 4096

abbrev pub IsPaged : Machine → Type 0
IsPaged m = IsDirectory m.pmm m.dir (m.mem m.dir)

-- The entries of `m'` are those of `m`, with `e` at the page `i`, `j`.
abbrev pub SetsEntry : Machine → ℕ → ℕ → ℕ → Machine → Type 0
SetsEntry m i j e m' =
    (a b : ℕ) → a < 1023 → entry_at m' a b ≡ (if (a == i) && (b == j) then e else entry_at m a b)

abbrev pub SameEntries : Machine → Machine → Type 0
SameEntries m m' = (a b : ℕ) → a < 1023 → entry_at m' a b ≡ entry_at m a b

-- The frame is in use, and holds neither the directory nor a table.
abbrev pub IsHeld : Machine → ℕ → Type 0
IsHeld m f =
    (is_free m.pmm.bitmap f ≡ false)
    × (f ≢ m.dir)
    × ((a : ℕ) → a < 1023 → dir_entry m a ≢ 0 → f ≢ table_frame m a)

module _ (m : Machine) (p : IsPaged m) where
  -- An address in the region of the last entry leads to the frame that the entry of its middle
  -- bits names.
  walk_self :
      (i offset : ℕ)
      → i < 1024
      → offset < 4096
      → dir_entry m i % 2 ≡ 1
      → walk m (0xffc0_0000 + i * 4096 + offset) ≡ some (table_frame m i)
  unfolding walk
  walk_self i offset h ho odd =
      let top : (0xffc0_0000 + i * 4096 + offset) / 2 ^ 22 ≡ 1023 = omega arith in
      let middle : (0xffc0_0000 + i * 4096 + offset) / 4096 % 1024 ≡ i = omega arith in
      rw (top, middle, p.self.0) (ground (arith, p.self.1))

  walk-none :
      (i offset : ℕ)
      → i < 1024
      → offset < 4096
      → dir_entry m i ≡ 0
      → walk m (0xffc0_0000 + i * 4096 + offset) ≡ none
  unfolding walk
  walk-none i offset h ho empty =
      let top : (0xffc0_0000 + i * 4096 + offset) / 2 ^ 22 ≡ 1023 = omega arith in
      let middle : (0xffc0_0000 + i * 4096 + offset) / 4096 % 1024 ≡ i = omega arith in
      rw (top, middle, p.self.0) (ground (arith, p.self.1))

  l1_vaddr : (i : ℕ) → i < 1024 → entry_vaddr l1_base_vaddr i ≡ 0xffc0_0000 + 1023 * 4096 + i * 4
  l1_vaddr i h = omega arith

  slot_vaddr :
      (i j : ℕ) → i < 1024 → j < 1024 → entry_vaddr (l2_vaddr i) j ≡ 0xffc0_0000 + i * 4096 + j * 4
  slot_vaddr i j h hj = omega (arith, l2_vaddr_lem i h)

  walk_l1 : (i : ℕ) → i < 1024 → walk m (entry_vaddr l1_base_vaddr i) ≡ some m.dir
  walk_l1 i h =
      ap (walk m) (l1_vaddr i h)
      ∙ walk_self 1023 (i * 4) (omega arith) (omega arith) p.self.1
      ∙ ap some p.self.0

  walk_l2 :
      (i j : ℕ)
      → i < 1024
      → j < 1024
      → dir_entry m i % 2 ≡ 1
      → walk m (entry_vaddr (l2_vaddr i) j) ≡ some (table_frame m i)
  walk_l2 i j h hj odd = ap (walk m) (slot_vaddr i j h hj) ∙ walk_self i (j * 4) h (omega arith) odd

  -- Reading an entry of the directory and of a table.
  pub load_l1 : (i : ℕ) → i < 1024 → load (entry_vaddr l1_base_vaddr i) m ≡ ok (dir_entry m i) m
  load_l1 i h = load_at m _ (walk_l1 i h) ∙ ap (λ k. ok (m.mem m.dir k) m) (omega arith)

  pub load_l2 :
      (i j : ℕ)
      → i < 1024
      → j < 1024
      → dir_entry m i % 2 ≡ 1
      → load (entry_vaddr (l2_vaddr i) j) m ≡ ok (m.mem (table_frame m i) j) m
  load_l2 i j h hj odd =
      load_at m _ (walk_l2 i j h hj odd)
      ∙ ap (λ k. ok (m.mem (table_frame m i) k) m) (omega (arith, l2_vaddr_lem i h))

  -- A table that the directory does not name cannot be read.
  pub load_absent :
      (i j : ℕ)
      → i < 1024
      → j < 1024
      → dir_entry m i ≡ 0
      → load (entry_vaddr (l2_vaddr i) j) m ≡ fault
  load_absent i j h hj none' =
      load_fault m _ (ap (walk m) (slot_vaddr i j h hj) ∙ walk-none i (j * 4) h (omega arith) none')

  pub store_l1 :
      (i w : ℕ)
      → i < 1024
      → store (entry_vaddr l1_base_vaddr i) w m ≡ ok tt (write_word m m.dir i w)
  store_l1 i w h =
      store_at m _ w (walk_l1 i h) ∙ ap (λ k. ok tt (write_word m m.dir k w)) (omega arith)

  pub store_l2 :
      (i j w : ℕ)
      → i < 1024
      → j < 1024
      → dir_entry m i % 2 ≡ 1
      → store (entry_vaddr (l2_vaddr i) j) w m ≡ ok tt (write_word m (table_frame m i) j w)
  store_l2 i j w h hj odd =
      store_at m _ w (walk_l2 i j h hj odd)
      ∙ ap (λ k. ok tt (write_word m (table_frame m i) k w)) (omega (arith, l2_vaddr_lem i h))

  -- `memset((void*)L2_VADDR(i), 0, PG_SIZE)`
  pub clear_l2 :
      (i : ℕ)
      → i < 1024
      → dir_entry m i % 2 ≡ 1
      → clear_page (l2_vaddr i) m ≡ ok tt (zero_frame m (table_frame m i))
  clear_l2 i h odd =
      clear_at m _
        (ap (walk m) (omega (arith, l2_vaddr_lem i h)) ∙ walk_self i 0 h (omega arith) odd)
