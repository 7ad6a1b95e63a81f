-- ===== src/Vmm/Unmap.antt =====
-- kernel/mm/vmm.c: vmm_unmap_page.
use os_learn.Base.{
  ℕ, ◌/◌, ◌%◌, ◌^◌, ◌<◌, ◌≡◌, ◌≢◌, ◌∙◌, ap, true, false, arith, ltb, ◌==◌, if◌then◌else◌, ◌&&◌,
  ne→==, eq→==, Bool-cases, inl, inr,
}
use native.Mathlib.Decide.{ℕ_discrete}
use os_learn.Paging.{l1_index, l2_index, is_cached, is_cached_lem, l2_vaddr, pte_null}
use os_learn.Pmm.{pmm_free_page}
use os_learn.Pmm.Page.{is_free}
use os_learn.Pmm.Alloc
use os_learn.Mmu.{Machine, ok, free, store, write_word}
use os_learn.Vmm.{entry_vaddr, no_mapping, vmm_lookup, vmm_unmap_page}
use os_learn.Vmm.Tables.{
  IsPaged, dir_entry, table_frame, SetsEntry, IsHeld, load_l1, load_l2, store_l2,
}
use os_learn.Vmm.Keep.{directory-outside, tables-IsPaged, written-IsPaged, entry_at-written}
use os_learn.Vmm.Lookup.{entry_of, mapping_of, lookup_lem, pages_apart, entry_set, l2_lt}

-- The frame holds neither the directory nor a table.
abbrev pub IsDataFrame : Machine → ℕ → Type 0
IsDataFrame m f = (f ≢ m.dir) × ((a : ℕ) → a < 1023 → dir_entry m a ≢ 0 → f ≢ table_frame m a)

module _ (m : Machine) (p : IsPaged m) (va : ℕ) (h : va < 2 ^ 32) (low : l1_index va < 1023)
    (there : dir_entry m (l1_index va) ≢ 0) where
  abbrev e : ℕ
  e = m.mem (table_frame m (l1_index va)) (l2_index va)

  entry_here : entry_of m va ≡ e
  entry_here = rw (ne→== (dir_entry m (l1_index va)) 0 there)

  -- The machine once the page is released, if it was present.
  abbrev released : Machine
  released = record m { pmm = if is_cached e == 0 then m.pmm else (pmm_free_page e m.pmm).1 }

  abbrev unmapped : Machine
  unmapped = write_word released (table_frame m (l1_index va)) (l2_index va) pte_null

  released_free :
      (q : ℕ)
      → is_free released.pmm.bitmap q ≡ (
          if (e % 2 == 1) && ltb 0 (e / 4096) && ltb (e / 4096) m.pmm.max_pg && (e / 4096 == q)
          then true
          else is_free m.pmm.bitmap q)
  released_free q = ground (arith, is_cached_lem e, Alloc.free_page_lem e m.pmm q)

  module _ (page : e % 2 ≡ 1 → IsDataFrame m (e / 4096)) where
    released-IsPaged : IsPaged released
    released-IsPaged =
        tables-IsPaged m p released.pmm valid (still m.dir p.dir_used (λ odd. (page odd).0))
          (λ i hi ne. still (table_frame m i) (p.used i hi ne) (λ odd. (page odd).1 i hi ne))
      where
        valid : Alloc.IsValid released.pmm
        valid = elim (ℕ_discrete (is_cached e) 0) [
          | yes absent ↦ rw (eq→== (is_cached e) 0 absent) p.manager
          | no present' ↦
              rw (ne→== (is_cached e) 0 present') (Alloc.free_page-IsValid e m.pmm p.manager)
        ]

        still :
            (q : ℕ)
            → is_free m.pmm.bitmap q ≡ false
            → (e % 2 ≡ 1 → e / 4096 ≢ q)
            → is_free released.pmm.bitmap q ≡ false
        still q used other = released_free q ∙ ground (arith, other)

    unmap-unmapped : vmm_unmap_page va m ≡ ok tt unmapped
    unfolding vmm_unmap_page free
    unmap-unmapped =
        rw
          (
            ne→== (l1_index va) 1023 (omega arith),
            load_l1 m p (l1_index va) (omega arith),
            ne→== (dir_entry m (l1_index va)) 0 there,
            load_l2 m p (l1_index va) (l2_index va) (omega arith) (l2_lt m p va h) odd_here,
          )
          (elim (Bool-cases (is_cached e == 0)) [
            | inl absent ↦ rw absent (rw absent at store_now)
            | inr present' ↦ rw present' (rw present' at store_now)
          ])
      where
        odd_here : dir_entry m (l1_index va) % 2 ≡ 1
        odd_here = p.present (l1_index va) low there

        store_now :
            store (entry_vaddr (l2_vaddr (l1_index va)) (l2_index va)) pte_null released
            ≡ ok tt unmapped
        store_now =
            store_l2 released released-IsPaged (l1_index va) (l2_index va) pte_null (omega arith)
              (l2_lt m p va h) odd_here

-- What unmapping a page with a table does to the entries, and to the frames that are held.
pub record Unmaps (m : Machine) (va : ℕ) : Type 0 where
  pub after : Machine
  pub returns : vmm_unmap_page va m ≡ ok tt after
  pub keeps : IsPaged after
  pub sets : SetsEntry m (l1_index va) (l2_index va) 0 after
  pub held :
      (g : ℕ) → IsHeld m g → (entry_of m va % 2 ≡ 1 → entry_of m va / 4096 ≢ g) → IsHeld after g

module _ (m : Machine) (va : ℕ) (p : IsPaged m) (h : va < 2 ^ 32) (low : l1_index va < 1023)
    (there : dir_entry m (l1_index va) ≢ 0)
    (page : entry_of m va % 2 ≡ 1 → IsDataFrame m (entry_of m va / 4096)) where
  pub unmap-Unmaps : Unmaps m va
  unmap-Unmaps =
      let same = entry_here m p va h low there in
      let page' = λ (odd : e m p va h low there % 2 ≡ 1). (rw same at page) odd in
      let keeps = released-IsPaged m p va h low there page' in
      record {
        after = unmapped m p va h low there;
        returns = unmap-unmapped m p va h low there page';
        keeps =
            written-IsPaged (released m p va h low there) keeps (l1_index va) (l2_index va) 0 low
              there;
        sets =
            entry_at-written (released m p va h low there) keeps (l1_index va) (l2_index va) 0 low
              there;
        held = λ g (used, apart, others) other. (
          released_free m p va h low there g ∙ ground (arith, used, rw same at other),
          apart,
          λ a ha ne eq'.
              others a ha (λ z. ne (directory a ∙ z)) (eq' ∙ ap (λ t. t / 4096) (directory a)),
        );
      }
    where
      directory : (a : ℕ) → dir_entry (unmapped m p va h low there) a ≡ dir_entry m a
      directory a =
          ap (λ d. d a)
            (directory-outside m p (table_frame m (l1_index va)) _
              (p.apart (l1_index va) low there))

-- vmm_unmap_page, on an address whose region has a table and whose page, if present, is no
-- directory or table: the lookup then finds no mapping, every other page outside the recursive
-- region keeps its entry, the page that was mapped is free if it is a page of the manager, every
-- other page is as free as it was, and the invariant holds.
pub unmap-lookup :
    (m : Machine) (va : ℕ)
    → IsPaged m
    → va < 2 ^ 32
    → l1_index va < 1023
    → dir_entry m (l1_index va) ≢ 0
    → (entry_of m va % 2 ≡ 1 → IsDataFrame m (entry_of m va / 4096))
    → let f = entry_of m va / 4096 in
      (m' : Machine) × (vmm_unmap_page va m ≡ ok tt m')
      × IsPaged m'
      × (vmm_lookup va m' ≡ ok no_mapping m')
      × ((vb : ℕ)
          → vb < 2 ^ 32
          → l1_index vb < 1023
          → vb / 4096 ≢ va / 4096
          → entry_of m' vb ≡ entry_of m vb)
      × ((q : ℕ)
          → is_free m'.pmm.bitmap q ≡ (
              if (entry_of m va % 2 == 1) && ltb 0 f && ltb f m.pmm.max_pg && (f == q)
              then true
              else is_free m.pmm.bitmap q))
unmap-lookup m va p h low there page =
    let same = entry_here m p va h low there in
    let page' = λ (odd : e m p va h low there % 2 ≡ 1). (rw same at page) odd in
    let keeps = released-IsPaged m p va h low there page' in
    let sets =
      entry_at-written (released m p va h low there) keeps (l1_index va) (l2_index va) 0 low
        there in
    let keeps' =
      written-IsPaged (released m p va h low there) keeps (l1_index va) (l2_index va) 0 low there in
    let after = unmapped m p va h low there in
    (
      after,
      unmap-unmapped m p va h low there page',
      keeps',
      lookup_lem after keeps' va h
          ∙ ap (λ t. ok (mapping_of t) after)
              (entry_set (released m p va h low there) after (l1_index va) (l2_index va) 0 low
                sets),
      λ vb hb lowb ne. sets (l1_index vb) (l2_index vb) lowb ∙ rw (pages_apart va vb h hb ne),
      λ q. rw same (released_free m p va h low there q),
    )
