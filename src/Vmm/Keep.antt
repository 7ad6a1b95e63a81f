-- ===== src/Vmm/Keep.antt =====
-- The changes that kernel/mm/vmm.c makes to the machine, one by one: each keeps the invariant of
-- the page tables.
use os_learn.Base.{
  ℕ, ◌/◌, ◌%◌, ◌<◌, ◌≡◌, ◌≢◌, refl, sym, ◌∙◌, ap, false, arith, ◌==◌, if◌then◌else◌, update, ◌&&◌,
  ne→==, eq→==,
}
use mathlib.Core.Path.{subst}
use native.Mathlib.Decide.{ℕ_discrete}
use os_learn.Pmm.{Pmm}
use os_learn.Pmm.Page.{is_free}
use os_learn.Pmm.Alloc
use os_learn.Mmu.{Machine, write_word}
use os_learn.Vmm.Tables.{IsDirectory, IsPaged, dir_entry, table_frame, entry_at}

module _ (m : Machine) (p : IsPaged m) where
  -- Only the manager changes, and frees nothing that is in use.
  pub manager-IsPaged :
      (s : Pmm)
      → Alloc.IsValid s
      → ((q : ℕ) → is_free m.pmm.bitmap q ≡ false → is_free s.bitmap q ≡ false)
      → IsPaged (record m { pmm = s })
  manager-IsPaged s v keep = record {
    manager = v;
    self = p.self;
    dir_used = keep m.dir p.dir_used;
    present = p.present;
    apart = p.apart;
    used = λ i h e. keep (table_frame m i) (p.used i h e);
    distinct = p.distinct;
  }

  -- It is enough that the directory and the tables stay in use.
  pub tables-IsPaged :
      (s : Pmm)
      → Alloc.IsValid s
      → is_free s.bitmap m.dir ≡ false
      → ((i : ℕ) → i < 1023 → dir_entry m i ≢ 0 → is_free s.bitmap (table_frame m i) ≡ false)
      → IsPaged (record m { pmm = s })
  tables-IsPaged s v dir_used used = record {
    manager = v;
    self = p.self;
    dir_used = dir_used;
    present = p.present;
    apart = p.apart;
    used = used;
    distinct = p.distinct;
  }

  module _ (f : ℕ) (g : ℕ → ℕ) (away : f ≢ m.dir) where
    abbrev outside : Machine
    outside = record m { mem = update m.mem f g }

    -- A write outside the directory leaves the directory.
    pub directory-outside : outside.mem m.dir ≡ m.mem m.dir
    directory-outside = rw (ne→== f m.dir away)

    pub outside-IsPaged : IsPaged outside
    outside-IsPaged = subst (IsDirectory m.pmm m.dir) (sym directory-outside) p

    -- The entries change only in the tables that are in the frame.
    pub entry_at-outside :
        (a b : ℕ)
        → entry_at outside a b ≡ (
            if dir_entry m a == 0
            then 0
            else (if f == table_frame m a then g b else entry_at m a b))
    entry_at-outside a b =
        rw directory-outside (ground (arith, ap (λ t. m.mem t b) {x = f} {y = table_frame m a}))

  -- A write of one entry of a table.
  module _ (i j w : ℕ) (h : i < 1023) (there : dir_entry m i ≢ 0) where
    abbrev written : Machine
    written = write_word m (table_frame m i) j w

    pub written-IsPaged : IsPaged written
    written-IsPaged = outside-IsPaged (table_frame m i) _ (p.apart i h there)

    pub entry_at-written :
        (a b : ℕ)
        → a < 1023
        → entry_at written a b ≡ (if (a == i) && (b == j) then w else entry_at m a b)
    entry_at-written a b ha =
        entry_at-outside (table_frame m i) _ (p.apart i h there) a b ∙ elim (ℕ_discrete a i) [
          | yes same ↦
              ground (arith, ap (dir_entry m) same, ap (λ t. m.mem t b) (ap (table_frame m) same))
          | no other ↦ ground (arith, p.distinct i a h ha (λ e. other (sym e)) there)
        ]

  -- A new entry of the directory, for a frame that is in use and holds no table.
  pub new_entry-IsPaged :
      (i e : ℕ)
      → i < 1023
      → e % 2 ≡ 1
      → e / 4096 ≢ m.dir
      → is_free m.pmm.bitmap (e / 4096) ≡ false
      → ((a : ℕ) → a < 1023 → dir_entry m a ≢ 0 → table_frame m a ≢ e / 4096)
      → IsPaged (write_word m m.dir i e)
  new_entry-IsPaged i e h odd away use' fresh =
      subst (IsDirectory m.pmm m.dir) (sym dir_now) (record {
        manager = p.manager;
        self = ground (arith, p.self);
        dir_used = p.dir_used;
        present = λ a ha ne. ground (arith, p.present a ha);
        apart = λ a ha ne. ground (arith, p.apart a ha);
        used = λ a ha ne. ground (arith, p.used a ha);
        distinct =
            λ a b ha hb ne na nb. ground (arith, p.distinct a b ha hb ne, fresh a ha, fresh b hb);
      })
    where
      dir_now : (write_word m m.dir i e).mem m.dir ≡ update (m.mem m.dir) i e
      dir_now = rw (eq→== m.dir m.dir refl)
