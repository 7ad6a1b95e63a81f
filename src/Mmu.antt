-- ===== src/Mmu.antt =====
-- The machine that kernel/mm/vmm.c runs on: physical memory as frames of 1024 words, the frame of
-- the page directory (CR3), and the translation of a 32-bit address by the two levels of tables.
-- A command runs on a machine that also holds the state of the physical memory manager.
-- Access rights and the translation cache are left out.
use os_learn.Base.{ℕ, ◌/◌, ◌%◌, ◌^◌, ◌≡◌, Bool, Option, none, some, ◌==◌, if◌then◌else◌, update}
use os_learn.Pmm.{Pmm, pmm_alloc_page, pmm_free_page}

pub record Machine : Type 0 where
  pub pmm : Pmm
  pub mem : ℕ → ℕ → ℕ
  pub dir : ℕ

-- `fault` is a page fault, `out_of_fuel` a loop that was given too few rounds.
pub data Run (A : Type 0) : Type 0 where
  ok : A → Machine → Run A
  fault : Run A
  out_of_fuel : Run A

abbrev pub Cmd : Type 0 → Type 0
Cmd A = Machine → Run A

abbrev pub pure : {A : Type 0} → A → Cmd A
pure = ok

module _ {A B : Type 0} where
  abbrev pub then_run : Run A → (A → Cmd B) → Run B
  then_run (ok a m) k = k a m
  then_run fault k = fault
  then_run out_of_fuel k = out_of_fuel

  infixl 5 ◌>>=◌ ◌>>◌
  abbrev pub ◌>>=◌ : Cmd A → (A → Cmd B) → Cmd B
  c >>= k = λ m. then_run (c m) k

  abbrev pub ◌>>◌ : Cmd A → Cmd B → Cmd B
  c >> d = c >>= λ _. d

-- The frame that an address is in: both entries on the way must be present.
unfoldable pub walk : Machine → ℕ → Option ℕ
walk m va =
    let pde = m.mem m.dir (va / 2 ^ 22) in
    let pte = m.mem (pde / 4096) (va / 4096 % 1024) in
    if pde % 2 == 1 then (if pte % 2 == 1 then some (pte / 4096) else none) else none

abbrev pub write_word : Machine → ℕ → ℕ → ℕ → Machine
write_word m frame i w = record m { mem = update m.mem frame (update (m.mem frame) i w) }

abbrev pub zero_frame : Machine → ℕ → Machine
zero_frame m frame = record m { mem = update m.mem frame (λ _. 0) }

-- `*p` and `*p = w` for an aligned pointer to a word.
unfoldable pub load : ℕ → Cmd ℕ
load va m = elim (walk m va) [ none ↦ fault | some f ↦ ok (m.mem f (va % 4096 / 4)) m ]

unfoldable pub store : ℕ → ℕ → Cmd (Unit {0})
store va w m = elim (walk m va) [ none ↦ fault | some f ↦ ok tt (write_word m f (va % 4096 / 4) w) ]

-- `memset(p, 0, PG_SIZE)` for a pointer to a page.
unfoldable pub clear_page : ℕ → Cmd (Unit {0})
clear_page va m = elim (walk m va) [ none ↦ fault | some f ↦ ok tt (zero_frame m f) ]

-- The two calls of the physical memory manager.
unfoldable pub alloc : Cmd ℕ
alloc m = let (page, s) = pmm_alloc_page m.pmm in ok page (record m { pmm = s })

unfoldable pub free : ℕ → Cmd Bool
free page m = let (done, s) = pmm_free_page page m.pmm in ok done (record m { pmm = s })

module _ (m : Machine) (va : ℕ) where
  pub load_at : {f : ℕ} → walk m va ≡ some f → load va m ≡ ok (m.mem f (va % 4096 / 4)) m
  unfolding load
  load_at e = rw (e, load)

  pub load_fault : walk m va ≡ none → load va m ≡ fault
  unfolding load
  load_fault e = rw (e, load)

  pub store_at :
      (w : ℕ) {f : ℕ} → walk m va ≡ some f → store va w m ≡ ok tt (write_word m f (va % 4096 / 4) w)
  unfolding store
  store_at w e = rw (e, store)

  pub clear_at : {f : ℕ} → walk m va ≡ some f → clear_page va m ≡ ok tt (zero_frame m f)
  unfolding clear_page
  clear_at e = rw (e, clear_page)
