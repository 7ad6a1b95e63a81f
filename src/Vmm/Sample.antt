-- ===== src/Vmm/Sample.antt =====
-- kernel/mm/vmm.c: a small machine with well-formed page tables, for the tests of what runs on it.
use os_learn.Base.{
  ℕ, ◌+◌, ◌*◌, ◌/◌, ◌%◌, ◌<◌, ◌≤◌, ◌≡◌, ◌≢◌, refl, arith, ◌&&◌, ◌==◌, if◌then◌else◌, ne→==, bit,
}
use os_learn.Pmm.{Pmm}
use os_learn.Pmm.Page.{full_byte}
use os_learn.Pmm.Alloc.{IsValid}
use os_learn.Mmu.{Machine}
use os_learn.Vmm.Tables.{IsPaged, dir_entry}
use os_learn.Vmm.Pages.{entry_page}

-- Of 32 pages, 8 and 9 are free.
abbrev pub manager : Pmm
manager = record { bitmap = λ i. if i == 1 then 0x3f else 0xff; max_pg = 32; lookup_ptr = 1 }

manager-IsValid : IsValid manager
manager-IsValid = record {
  small = omega arith;
  ptr_pos = omega arith;
  beyond = λ q m l. full_byte manager.bitmap q (rw (ne→== (q / 8) 1 (omega arith)));
}

-- The directory in frame 2, and one table in frame 3, which maps page 1 to frame 7
-- and page 5 to frame 6.
abbrev pub machine : Machine
machine = record {
  pmm = manager;
  mem = λ f i.
      if f == 2
      then (if i == 1023 then 2 * 4096 + 19 else if i == 0 then 3 * 4096 + 3 else 0)
      else (if (f == 3) && (i == 5)
          then 6 * 4096 + 3
          else if (f == 3) && (i == 1)
          then 7 * 4096 + 3
          else 0);
  dir = 2;
}

pub only_first : (i : ℕ) → i < 1023 → dir_entry machine i ≢ 0 → i ≡ 0
only_first i h ne = ground arith

pub machine-IsPaged : IsPaged machine
unfolding bit
machine-IsPaged = record {
  manager = manager-IsValid;
  self = (refl, refl);
  dir_used = refl;
  present = λ i h ne. rw (only_first i h ne) refl;
  apart = λ i h ne. rw (only_first i h ne) (omega arith);
  used = λ i h ne. rw (only_first i h ne) refl;
  distinct = λ i j h hj ne ni nj. absurd (omega (arith, only_first i h ni, only_first j hj nj));
}

-- The page from 0x1000 on is present.
pub page_one : (a : ℕ) → 0x1000 ≤ a → a < 0x2000 → entry_page machine (a / 4096) % 2 ≡ 1
unfolding entry_page
page_one a l u = let e : a / 4096 ≡ 1 = omega (arith, l, u) in rw e refl
