-- ===== src/Dmm/OnVmm.antt =====
-- kernel/mm/dmm.c on kernel/mm/vmm.c: the pages of the heap are those that vmm_alloc_page and
-- vmm_alloc_pages give on the machine.
use os_learn.Base.{
  ℕ, ◌+◌, ◌-◌, ◌*◌, ◌/◌, ◌%◌, ◌<◌, ◌≤◌, ◌≡◌, refl, ◌∙◌, Bool, true, false, arith, Bool-cases, inl,
  inr, ◌⊎◌, leb, ltb,
}
use mathlib.Core.Path.{subst}
use os_learn.Mmu.{Machine, Run, ok, fault, out_of_fuel}
use os_learn.Vmm.{vmm_alloc_page, vmm_alloc_pages}
use os_learn.Vmm.Tables.{IsPaged}
use os_learn.Vmm.Pages.{page_limit, entry_page, Progress}
use os_learn.Vmm.PageRun.{Outcome, vmm_alloc_pages-Outcome}
use os_learn.Vmm.MapPage.{MapsPage}
use os_learn.Vmm.AllocPage.{vmm_alloc_page-MapsPage}
use os_learn.Dmm.{PageSource, Whole}

-- The result of a run and the machine after it; where there is none, `otherwise` and the machine before.
abbrev pub result_of : {A : Type 0} → A → Machine → Run A → A × Machine
result_of otherwise m (ok a m') = (a, m')
result_of otherwise m fault = (otherwise, m)
result_of otherwise m out_of_fuel = (otherwise, m)

abbrev pub pages_result : ℕ → ℕ → ℕ → Machine → Bool × Machine
pages_result va sz attr m = result_of false m (vmm_alloc_pages va sz attr m)

abbrev pub page_result : ℕ → ℕ → Machine → ℕ × Machine
page_result va attr m = result_of 0 m (vmm_alloc_page va attr m)

-- The page of the address is present, and below the region of the page tables.
abbrev pub IsMapped : Machine → ℕ → Type 0
IsMapped m a = (a < 0xffc0_0000) × (entry_page m (a / 4096) % 2 ≡ 1)

module _ (va sz attr : ℕ) (m : Machine) (w : Whole va sz attr) (paged : IsPaged m) where
  outcome : Outcome m (va / 4096) (sz / 4096) (vmm_alloc_pages va sz attr m)
  outcome =
      subst (λ v. Outcome m (va / 4096) (sz / 4096) (vmm_alloc_pages v sz attr m))
        {x = va / 4096 * 4096} {y = va} (omega (arith, w.0))
        (subst
          (λ z. Outcome m (va / 4096) (sz / 4096) (vmm_alloc_pages (va / 4096 * 4096) z attr m))
          {x = sz / 4096 * 4096} {y = sz} (omega (arith, w.1))
          (vmm_alloc_pages-Outcome m (va / 4096) (sz / 4096) attr paged
            (omega (arith, w.0, w.1, w.2)) w.3))

  -- vmm_alloc_pages of whole pages on well-formed page tables does not fault.
  pub pages_result_lem :
      vmm_alloc_pages va sz attr m ≡ ok (pages_result va sz attr m).0 (pages_result va sz attr m).1
  pages_result_lem = rw outcome.returns refl

  result_now : pages_result va sz attr m ≡ (outcome.done, outcome.after)
  result_now = rw outcome.returns refl

  pub pages-IsPaged : IsPaged (pages_result va sz attr m).1
  pages-IsPaged = rw result_now outcome.paged

  page_in :
      Progress m (va / 4096) 0 (sz / 4096) outcome.after
      → (q : ℕ) → va / 4096 ≤ q
      → q < va / 4096 + sz / 4096
      → entry_page outcome.after q % 2 ≡ 1
  page_in r q l u =
      subst (λ t. entry_page outcome.after t % 2 ≡ 1) {x = va / 4096 + (q - va / 4096)} {y = q}
        (omega (arith, l)) (r.entry (q - va / 4096) (omega arith) (omega (arith, l, u))).1

  pub pages-keeps : (a : ℕ) → IsMapped m a → IsMapped (pages_result va sz attr m).1 a
  pages-keeps a (low, odd) = rw result_now (low, now)
    where
      in_limit : a / 4096 < page_limit
      in_limit = omega (arith, low)

      kept :
          Progress m (va / 4096) 0 (sz / 4096) outcome.after
          → entry_page outcome.after (a / 4096) % 2 ≡ 1
      kept r = elim (Bool-cases (ltb (a / 4096) (va / 4096))) [
        | inl under ↦ rw (r.below (a / 4096) in_limit (ground (arith, under))) odd
        | inr over ↦ elim (Bool-cases (leb (va / 4096 + sz / 4096) (a / 4096))) [
          | inl past ↦ rw (r.above (a / 4096) in_limit (ground (arith, past))) odd
          | inr inside ↦ page_in r (a / 4096) (ground (arith, over)) (ground (arith, inside))
        ]
      ]

      now : entry_page outcome.after (a / 4096) % 2 ≡ 1
      now = elim (Bool-cases outcome.done) [
        | inl hit ↦ kept (outcome.hit hit)
        | inr miss ↦ rw (outcome.miss miss (a / 4096) in_limit) odd
      ]

  pub pages-maps :
      (pages_result va sz attr m).0 ≡ true
      → (a : ℕ) → va ≤ a
      → a < va + sz
      → IsMapped (pages_result va sz attr m).1 a
  pages-maps done a l u = rw result_now (
    omega (arith, u, w.2),
    page_in (outcome.hit (rw result_now at done)) (a / 4096) (omega (arith, l))
        (omega (arith, u, w.0, w.1)),
  )

module _ (va attr : ℕ) (m : Machine) (w : Whole va 4096 attr) (pos : 0 < va) (paged : IsPaged m)
    (vacant : entry_page m (va / 4096) ≡ 0) where
  one_page : MapsPage m (va / 4096) (vmm_alloc_page va attr m)
  one_page =
      subst (λ v. MapsPage m (va / 4096) (vmm_alloc_page v attr m)) {x = va / 4096 * 4096} {y = va}
        (omega (arith, w.0))
        (vmm_alloc_page-MapsPage m (va / 4096) attr paged (omega (arith, w.2))
          (omega (arith, w.0, pos)) w.3 vacant)

  -- vmm_alloc_page of a vacant page on well-formed page tables does not fault.
  pub page_result_lem :
      vmm_alloc_page va attr m ≡ ok (page_result va attr m).0 (page_result va attr m).1
  page_result_lem = rw one_page.returns refl

  pub page-maps :
      IsPaged (page_result va attr m).1
      × (((page_result va attr m).0 ≡ 0)
          ⊎ (((page_result va attr m).0 ≡ va)
              × ((a : ℕ) → va ≤ a → a < va + 4096 → IsMapped (page_result va attr m).1 a)))
  page-maps = rw one_page.returns (
    one_page.paged,
    elim one_page.ends [
      | inl (e, same) ↦ inl e
      | inr (e, odd, others) ↦ inr (
        e ∙ omega (arith, w.0),
        λ a l u. (
          omega (arith, u, w.2),
          subst (λ q. entry_page one_page.after q % 2 ≡ 1) {x = va / 4096} {y = a / 4096}
              (omega (arith, l, u, w.0)) odd,
        ),
      )
    ],
  )

-- The virtual memory manager as the source of the heap's pages.
abbrev pub vmm_pages : PageSource Machine
vmm_pages = record {
  alloc_page = page_result;
  alloc_pages = pages_result;
  IsReady = IsPaged;
  Mapped = IsMapped;
  Vacant = λ m va. entry_page m (va / 4096) ≡ 0;
  stays_ready = pages-IsPaged;
  keeps = pages-keeps;
  maps = pages-maps;
  maps_page = page-maps;
}
