-- ===== src/Vmm/Map.antt =====
-- kernel/mm/vmm.c: __vmm_map_internal without force, and vmm_set_mapping.
use os_learn.Base.{
  ℕ, ◌/◌, ◌%◌, ◌<◌, ◌≡◌, ◌≢◌, refl, sym, ◌∙◌, ap, Bool, true, false, arith, ◌==◌, if◌then◌else◌,
  ◌&&◌, ne→==, eq→==,
}
use native.Mathlib.Decide.{ℕ_discrete}
use os_learn.Paging.{new_entry, l2_vaddr}
use os_learn.Mmu.{Machine, Run, ok, write_word, pure}
use os_learn.Vmm.{entry_vaddr, enter_page, vmm_map_internal}
use os_learn.Vmm.Tables.{
  IsPaged, dir_entry, table_frame, entry_at, SetsEntry, SameEntries, IsHeld, load_l1, load_l2,
  store_l2,
}
use os_learn.Vmm.NewTable.{new_table-MakesTable}
use os_learn.Vmm.Keep.{directory-outside, written-IsPaged, entry_at-written}

-- What entering an unforced mapping may do: return true and set the entry, which was 0, or return
-- false and leave every entry as it was. It fails only where the entry is taken or there is no
-- table yet. A frame that is held stays so.
pub record Maps (m : Machine) (i j e : ℕ) (r : Run Bool) : Type 0 where
  pub done : Bool
  pub after : Machine
  pub returns : r ≡ ok done after
  pub keeps : IsPaged after
  pub hit : done ≡ true → (entry_at m i j ≡ 0) × SetsEntry m i j e after
  pub miss : done ≡ false → SameEntries m after
  pub held : (f : ℕ) → IsHeld m f → IsHeld after f
  pub succeeds : dir_entry m i ≢ 0 → entry_at m i j ≡ 0 → done ≡ true

module _ (m : Machine) (p : IsPaged m) (i j pa attr : ℕ) (h : i < 1023) (hj : j < 1024) where
  abbrev slot : ℕ
  slot = entry_vaddr (l2_vaddr i) j

  module _ (there : dir_entry m i ≢ 0) where
    enter_page-empty :
        m.mem (table_frame m i) j ≡ 0
        → enter_page slot pa attr false m
          ≡ ok true (write_word m (table_frame m i) j (new_entry attr pa))
    unfolding enter_page
    enter_page-empty empty =
        rw (load_l2 m p i j (omega arith) hj (p.present i h there), empty)
          (rw (store_l2 m p i j (new_entry attr pa) (omega arith) hj (p.present i h there)))

    enter_page-taken : m.mem (table_frame m i) j ≢ 0 → enter_page slot pa attr false m ≡ ok false m
    unfolding enter_page
    enter_page-taken taken = rw (
      load_l2 m p i j (omega arith) hj (p.present i h there),
      ne→== (m.mem (table_frame m i) j) 0 taken,
    )

    entry_there : entry_at m i j ≡ m.mem (table_frame m i) j
    entry_there = rw (ne→== (dir_entry m i) 0 there)

    directory :
        (a : ℕ) → dir_entry (write_word m (table_frame m i) j (new_entry attr pa)) a ≡ dir_entry m a
    directory a = ap (λ d. d a) (directory-outside m p (table_frame m i) _ (p.apart i h there))

    pub enter_page-Maps : Maps m i j (new_entry attr pa) (enter_page slot pa attr false m)
    enter_page-Maps = elim (ℕ_discrete (m.mem (table_frame m i) j) 0) [
      | yes empty ↦ record {
        done = true;
        after = write_word m (table_frame m i) j (new_entry attr pa);
        returns = enter_page-empty empty;
        keeps = written-IsPaged m p i j (new_entry attr pa) h there;
        hit = λ e. (entry_there ∙ empty, entry_at-written m p i j (new_entry attr pa) h there);
        miss = λ e. absurd (cc);
        held = λ f (used, apart, others). (
          used,
          apart,
          λ a ha ne same.
              others a ha (λ z. ne (directory a ∙ z)) (same ∙ ap (λ t. t / 4096) (directory a)),
        );
        succeeds = λ a b. refl;
      }
      | no taken ↦ record {
        done = false;
        after = m;
        returns = enter_page-taken taken;
        keeps = p;
        hit = λ e. absurd (cc);
        miss = λ e a b ha. refl;
        held = λ f h. h;
        succeeds = λ a b. absurd (taken (sym entry_there ∙ b));
      }
    ]

-- The entry after the table has been seen to.
module _ (m : Machine) (i j pa attr : ℕ) (h : i < 1023) (hj : j < 1024)
    (empty : dir_entry m i ≡ 0) where
  after_table :
      (ready : Bool) (after : Machine)
      → IsPaged after
      → SameEntries m after
      → (ready ≡ true → dir_entry after i ≢ 0)
      → ((f : ℕ) → IsHeld m f → IsHeld after f)
      → Maps m i j (new_entry attr pa) (
          (if ready then enter_page (entry_vaddr (l2_vaddr i) j) pa attr false else pure false)
            after)
  after_table false after keeps same there held = record {
    done = false;
    after = after;
    returns = refl;
    keeps = keeps;
    hit = λ e. absurd (cc);
    miss = λ e. same;
    held = held;
    succeeds = λ ne z. absurd (ne empty);
  }
  after_table true after keeps same there held =
      let r = enter_page-Maps after keeps i j pa attr h hj (there refl) in
      record {
        done = r.done;
        after = r.after;
        returns = r.returns;
        keeps = r.keeps;
        hit = λ e. (
          sym (same i j h) ∙ (r.hit e).0,
          λ a b ha.
              (r.hit e).1 a b ha
              ∙ ap (λ t. if (a == i) && (b == j) then new_entry attr pa else t) (same a b ha),
        );
        miss = λ e a b ha. r.miss e a b ha ∙ same a b ha;
        held = λ f h'. r.held f (held f h');
        succeeds = λ ne z. absurd (ne empty);
      }

-- __vmm_map_internal without force, in the paged state, for a region below the recursive one and
-- an attribute with the present bit: no page fault, the invariant is kept, and it returns true and
-- sets exactly the one entry, which was 0, or returns false and leaves every entry as it was. With
-- a table in place it fails only where the entry is taken. A frame in use that is no table and not
-- the directory stays so.
pub map_internal-Maps :
    (m : Machine) (i j pa attr : ℕ)
    → IsPaged m
    → i < 1023
    → j < 1024
    → attr % 2 ≡ 1
    → Maps m i j (new_entry attr pa) (vmm_map_internal i j pa attr false m)
unfolding vmm_map_internal
map_internal-Maps m i j pa attr p h hj odd = elim (ℕ_discrete (dir_entry m i) 0) [
  | yes empty ↦
      let t = new_table-MakesTable m p i attr h empty odd in
      rw (load_l1 m p i (omega arith), eq→== (dir_entry m i) 0 empty, t.returns)
        (after_table m i j pa attr h hj empty t.ready t.after t.keeps t.same t.there t.held)
  | no there ↦
      rw (load_l1 m p i (omega arith), ne→== (dir_entry m i) 0 there)
        (enter_page-Maps m p i j pa attr h hj there)
]
