-- ===== src/Vmm/NewTable.antt =====
-- kernel/mm/vmm.c: the page table that __vmm_map_internal allocates where there is none.
use os_learn.Base.{
  ℕ, ◌*◌, ◌/◌, ◌%◌, ◌^◌, ◌<◌, ◌≤◌, ◌≡◌, ◌≢◌, refl, sym, ◌∙◌, ap, Bool, true, false, arith, ◌==◌,
  if◌then◌else◌, inl, inr, ne→==, eq→==,
}
use native.Mathlib.Decide.{ℕ_discrete}
use os_learn.Paging.{new_entry, new_entry_lem}
use os_learn.Pmm.{pmm_alloc_page}
use os_learn.Pmm.Page.{is_free}
use os_learn.Pmm.Alloc
use os_learn.Mmu.{Machine, Run, ok, write_word, zero_frame, alloc}
use os_learn.Vmm.{new_table}
use os_learn.Vmm.Tables.{
  IsPaged, dir_entry, table_frame, entry_at, SameEntries, IsHeld, store_l1, clear_l2,
}
use os_learn.Vmm.Keep.{
  manager-IsPaged, outside-IsPaged, directory-outside, entry_at-outside, new_entry-IsPaged,
}

-- A table that was missing: allocated, present and empty, or not allocated.
pub record MakesTable (m : Machine) (i : ℕ) (r : Run Bool) : Type 0 where
  pub ready : Bool
  pub after : Machine
  pub returns : r ≡ ok ready after
  pub keeps : IsPaged after
  pub same : SameEntries m after
  pub there : ready ≡ true → dir_entry after i ≢ 0
  pub held : (g : ℕ) → IsHeld m g → IsHeld after g

module _ (m : Machine) (p : IsPaged m) (i attr : ℕ) (h : i < 1023) (empty : dir_entry m i ≡ 0) where
  abbrev page : ℕ
  page = (pmm_alloc_page m.pmm).0

  abbrev allocated : Machine
  allocated = record m { pmm = (pmm_alloc_page m.pmm).1 }

  new_table-fails : page ≡ 0 → new_table i attr m ≡ ok false allocated
  unfolding new_table alloc
  new_table-fails e = rw e

  module _ (f : ℕ) (at : page ≡ f * 2 ^ 12) (pos : 1 ≤ f) (small : f < 0x10_0000)
      (free : is_free m.pmm.bitmap f ≡ true) (takes : Alloc.Takes f m.pmm allocated.pmm)
      (odd : attr % 2 ≡ 1) where
    abbrev e : ℕ
    e = new_entry attr page

    entry_names : (e / 4096 ≡ f) × (e % 2 ≡ 1)
    entry_names = omega (arith, new_entry_lem attr page (omega arith))

    allocated-IsPaged : IsPaged allocated
    allocated-IsPaged =
        manager-IsPaged m p allocated.pmm (Alloc.alloc-IsValid m.pmm p.manager)
          (λ q used. ground (arith, takes q))

    in_use : (g : ℕ) → is_free m.pmm.bitmap g ≡ false → g ≢ f
    in_use g used same = ground (arith, free, ap (is_free m.pmm.bitmap) same)

    abbrev entered_dir : Machine
    entered_dir = write_word allocated m.dir i e

    entered_dir-IsPaged : IsPaged entered_dir
    entered_dir-IsPaged =
        new_entry-IsPaged allocated allocated-IsPaged i e h entry_names.1
          (λ same. in_use m.dir p.dir_used (sym same ∙ entry_names.0))
          (rw entry_names.0 (ground (arith, takes f)))
          (λ a ha ne same. in_use (table_frame m a) (p.used a ha ne) (same ∙ entry_names.0))

    entry_now : dir_entry entered_dir i ≡ e
    entry_now = rw (eq→== m.dir m.dir refl, eq→== i i refl)

    frame_now : table_frame entered_dir i ≡ f
    frame_now = ap (λ t. t / 4096) entry_now ∙ entry_names.0

    abbrev made : Machine
    made = zero_frame entered_dir (table_frame entered_dir i)

    e-ne-zero : e ≢ 0
    e-ne-zero = omega (arith, entry_names.1)

    there_now : dir_entry entered_dir i ≢ 0
    there_now zero' = e-ne-zero (sym entry_now ∙ zero')

    frame_away : table_frame entered_dir i ≢ m.dir
    frame_away = entered_dir-IsPaged.apart i h there_now

    made-IsPaged : IsPaged made
    made-IsPaged =
        outside-IsPaged entered_dir entered_dir-IsPaged (table_frame entered_dir i) _ frame_away

    new_table-made : new_table i attr m ≡ ok true made
    unfolding new_table alloc
    new_table-made = rw (ne→== page 0 (omega arith)) (
        rw (store_l1 allocated allocated-IsPaged i e (omega arith)) (
          rw (
            clear_l2 entered_dir entered_dir-IsPaged i (omega arith)
              (entered_dir-IsPaged.present i h there_now))))

    dir_entry_other : (a : ℕ) → a ≢ i → dir_entry entered_dir a ≡ dir_entry m a
    dir_entry_other a ne = rw (eq→== m.dir m.dir refl, ne→== i a (λ s. ne (sym s)))

    -- The new table is empty, and the other tables are as they were.
    entry_here : (b : ℕ) → entry_at made i b ≡ entry_at m i b
    entry_here b =
        entry_at-outside entered_dir entered_dir-IsPaged (table_frame entered_dir i) _ frame_away i
          b
        ∙ rw (
          ne→== (dir_entry entered_dir i) 0 there_now,
          eq→== (table_frame entered_dir i) (table_frame entered_dir i) refl,
          eq→== (dir_entry m i) 0 empty,
        )

    entry_entered : (a b : ℕ) → a < 1023 → a ≢ i → entry_at entered_dir a b ≡ entry_at m a b
    entry_entered a b ha ne =
        ap (λ t. if t == 0 then 0 else entered_dir.mem (t / 4096) b) (dir_entry_other a ne)
        ∙ elim (ℕ_discrete (dir_entry m a) 0) [
          | yes none' ↦ rw (eq→== (dir_entry m a) 0 none')
          | no some' ↦ rw (
            ne→== (dir_entry m a) 0 some',
            ne→== m.dir (table_frame m a) (λ s. p.apart a ha some' (sym s)),
          )
        ]

    entry_other : (a b : ℕ) → a < 1023 → a ≢ i → entry_at made a b ≡ entry_at m a b
    entry_other a b ha ne =
        entry_at-outside entered_dir entered_dir-IsPaged (table_frame entered_dir i) _ frame_away a
          b
        ∙ ap
            (λ t.
              if t == 0
              then 0
              else (if table_frame entered_dir i == t / 4096 then 0 else entry_at entered_dir a b))
            (dir_entry_other a ne)
        ∙ elim (ℕ_discrete (dir_entry m a) 0) [
          | yes none' ↦ rw (eq→== (dir_entry m a) 0 none')
          | no some' ↦
              rw
                (ne→== (table_frame entered_dir i) (table_frame m a)
                  (λ s. in_use (table_frame m a) (p.used a ha some') (sym s ∙ frame_now)))
                (ap (λ t. if dir_entry m a == 0 then 0 else t) (entry_entered a b ha ne)
                  ∙ rw (ne→== (dir_entry m a) 0 some'))
        ]

    made-MakesTable : MakesTable m i (new_table i attr m)
    made-MakesTable = record {
      ready = true;
      after = made;
      returns = new_table-made;
      keeps = made-IsPaged;
      same = λ a b ha. elim (ℕ_discrete a i) [
        | yes here ↦ rw here (entry_here b)
        | no other ↦ entry_other a b ha other
      ];
      there = λ _ none'. there_now (sym (dir_made i) ∙ none');
      held = λ g (used, apart, others). (
        rw (takes g) (rw (ne→== f g (λ s. in_use g used (sym s))) used),
        apart,
        λ a ha ne same. elim (ℕ_discrete a i) [
          | yes here ↦ in_use g used (
              same
              ∙ ap (λ t. table_frame made t) here
              ∙ ap (λ t. t / 4096) (dir_made i)
              ∙ frame_now)
          | no other ↦
              others a ha (λ z. ne (dir_made a ∙ dir_entry_other a other ∙ z))
                (same ∙ ap (λ t. t / 4096) (dir_made a ∙ dir_entry_other a other))
        ],
      );
    }
      where
        dir_made : (a : ℕ) → dir_entry made a ≡ dir_entry entered_dir a
        dir_made a =
            ap (λ d. d a)
              (directory-outside entered_dir entered_dir-IsPaged (table_frame entered_dir i) _
                frame_away)

  -- For an attribute with the present bit, the new table comes into a frame that was free, or the
  -- allocation fails; the entries stay as they were.
  pub new_table-MakesTable : attr % 2 ≡ 1 → MakesTable m i (new_table i attr m)
  new_table-MakesTable odd = elim (Alloc.alloc-Allocates m.pmm p.manager) [
    | inl (e, same) ↦ record {
      ready = false;
      after = allocated;
      returns = new_table-fails e;
      keeps =
          manager-IsPaged m p allocated.pmm (Alloc.alloc-IsValid m.pmm p.manager)
            (λ q used. rw same used);
      same = λ a b ha. refl;
      there = λ f. absurd (cc);
      held = λ g (used, apart, others). (rw same used, apart, others);
    }
    | inr (f, at, pos, below, free, takes) ↦
        let l = p.manager.small in made-MakesTable f at pos (omega arith) free takes odd
  ]
