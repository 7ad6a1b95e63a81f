-- ===== src/Boot/Translate.antt =====
-- arch/x86/hhk.c: the machine with the page directory that _init_page leaves.
use os_learn.Base.{
  ℕ, ◌+◌, ◌-◌, ◌*◌, ◌/◌, ◌%◌, ◌^◌, ◌<◌, ◌≡◌, inl, inr, refl, ap, ◌∙◌, some, arith, eq→==,
}
use os_learn.Paging.{new_entry_lem}
use os_learn.Pmm.{Pmm}
use os_learn.Mmu.{Machine, walk}
use os_learn.Boot.{Image, Words, v2p, kernel_page_count, hhk_page_count, init_page}
use os_learn.Boot.Tables.{
  Linked, tables_done, init_page-done, done_below, done_kernel, done_self, entered_outside,
  entered_pde, identity_entry, identity_pde,
}

-- The machine whose memory is `m`, with the page directory at `ptd`.
abbrev pub machine_at : Pmm → ℕ → Words → Machine
machine_at pmm ptd m = record { pmm = pmm; mem = λ f i. m (f * 4096 + i * 4); dir = ptd / 4096 }

walk-entries :
    (m : Machine) (va : ℕ)
    → m.mem m.dir (va / 2 ^ 22) % 2 ≡ 1
    → m.mem (m.mem m.dir (va / 2 ^ 22) / 4096) (va / 4096 % 1024) % 2 ≡ 1
    → walk m va ≡ some (m.mem (m.mem m.dir (va / 2 ^ 22) / 4096) (va / 4096 % 1024) / 4096)
unfolding walk
walk-entries m va odd odd' =
    rw
      (
        eq→== (m.mem m.dir (va / 2 ^ 22) % 2) 1 odd,
        eq→== (m.mem (m.mem m.dir (va / 2 ^ 22) / 4096) (va / 4096 % 1024) % 2) 1 odd',
      )
      refl

walk-values :
    (m : Machine) (va pde pte : ℕ)
    → m.mem m.dir (va / 2 ^ 22) ≡ pde
    → m.mem (pde / 4096) (va / 4096 % 1024) ≡ pte
    → pde % 2 ≡ 1
    → pte % 2 ≡ 1
    → walk m va ≡ some (pte / 4096)
walk-values m va pde pte e e' odd odd' =
    let q = ap (λ p. m.mem (p / 4096) (va / 4096 % 1024)) e ∙ e' in
    walk-entries m va (ap (λ x. x % 2) e ∙ odd) (ap (λ x. x % 2) q ∙ odd')
    ∙ ap (λ x. some (x / 4096)) q

module _ (im : Image) (ptd : ℕ) (m : Words) (l : Linked im ptd) (pmm : Pmm) where
  walk-low :
      (va : ℕ)
      → va / 4096 < 256 + hhk_page_count im
      → walk (machine_at pmm ptd (tables_done im ptd m l)) va ≡ some (va / 4096)
  walk-low va h =
      walk-values (machine_at pmm ptd (tables_done im ptd m l)) va (ptd + 4096 + 1)
        (va / 4096 * 4096 + 3)
        (ap (tables_done im ptd m l) (omega (arith, l.aligned, l.loader))
          ∙ done_below im ptd m l ptd (omega arith) (omega arith)
          ∙ entered_outside im ptd m l ptd (inl (omega arith))
          ∙ identity_pde im ptd m l
          ∙ omega (arith, new_entry_lem 1 (ptd + 4096) (omega (arith, l.room)), l.aligned))
        (ap (tables_done im ptd m l) (omega (arith, l.aligned, l.loader))
          ∙ done_below im ptd m l (ptd + 4096 + va / 4096 * 4) (omega (arith, l.loader))
              (omega arith)
          ∙ entered_outside im ptd m l (ptd + 4096 + va / 4096 * 4) (inr (omega arith))
          ∙ identity_entry im ptd m l (va / 4096) h
          ∙ omega (arith, new_entry_lem 3 (va / 4096 * 4096) (omega (arith, l.loader))))
        (omega (arith, l.aligned)) (omega arith)
      ∙ ap some (omega arith)

  walk-kernel :
      (va i : ℕ)
      → i < kernel_page_count im
      → va / 4096 ≡ im.kernel_start / 4096 + i
      → walk (machine_at pmm ptd (tables_done im ptd m l)) va ≡ some (va / 4096 - 0xc_0000)
  walk-kernel va i h e =
      let j = (im.kernel_start / 4096 % 1024 + i) / 1024 in
      let start : v2p im.kernel_start ≡ im.kernel_start - 0xc000_0000 =
        omega (arith, l.higher, l.tables) in
      let three : j < 3 = omega (arith, l.pages) in
      walk-values (machine_at pmm ptd (tables_done im ptd m l)) va (ptd + (j + 2) * 4096 + 3)
        (im.kernel_start - 0xc000_0000 + i * 4096 + 3)
        (ap (tables_done im ptd m l) (omega (arith, l.aligned, e))
          ∙ done_below im ptd m l (ptd + (im.kernel_start / 2 ^ 22 + j) * 4)
              (omega (arith, l.tables, three)) (omega (arith, l.tables, three))
          ∙ entered_pde im ptd m l j _ three refl
          ∙ omega (
            arith,
            new_entry_lem 3 (ptd + (1 + j + 1) * 1024 * 4) (omega (arith, l.room, three)),
            l.aligned,
          ))
        (ap (tables_done im ptd m l) (omega (arith, l.aligned, e))
          ∙ done_kernel im ptd m l i (ptd + 8192 + (im.kernel_start / 4096 % 1024 + i) * 4) h refl
          ∙ omega (
            arith,
            new_entry_lem 3 (v2p im.kernel_start + i * 2 ^ 12)
                (omega (arith, l.pages, l.tables, start)),
            start,
            l.page,
            l.higher,
          ))
        (omega (arith, l.aligned)) (omega (arith, l.page, l.higher))
      ∙ ap some (omega (arith, l.page, l.higher, e))

  walk_self : walk (machine_at pmm ptd (tables_done im ptd m l)) 0xffff_f000 ≡ some (ptd / 4096)
  walk_self =
      walk-values (machine_at pmm ptd (tables_done im ptd m l)) 0xffff_f000 (ptd + 19) (ptd + 19)
        last (ap (tables_done im ptd m l) (omega (arith, l.aligned)) ∙ last')
        (omega (arith, l.aligned)) (omega (arith, l.aligned))
      ∙ ap some (omega (arith, l.aligned))
    where
      last' : tables_done im ptd m l (ptd + 4092) ≡ ptd + 19
      last' =
          done_self im ptd m l (ptd + 4092) refl
          ∙ omega (arith, new_entry_lem 19 ptd (omega (arith, l.room)), l.aligned)

      last : tables_done im ptd m l (ptd / 4096 * 4096 + 0xffff_f000 / 2 ^ 22 * 4) ≡ ptd + 19
      last = ap (tables_done im ptd m l) (omega (arith, l.aligned)) ∙ last'

-- _init_page, for a loader and a kernel that are linked as they must be: it comes to its end, and
-- with the page directory that it leaves the machine translates every page of the low megabyte and of
-- the loader to itself, the kernel's page number i to the page number i of its physical place, and the
-- page of the directory's own address to the directory.
pub init_page-walk :
    (im : Image) (ptd : ℕ) (m : Words) (pmm : Pmm)
    → Linked im ptd
    → (m' : Words) × (init_page im ptd m ≡ some m')
      × ((va : ℕ)
          → va / 4096 < 256 + hhk_page_count im
          → walk (machine_at pmm ptd m') va ≡ some (va / 4096))
      × ((va i : ℕ)
          → i < kernel_page_count im
          → va / 4096 ≡ im.kernel_start / 4096 + i
          → walk (machine_at pmm ptd m') va ≡ some (va / 4096 - 0xc_0000))
      × (walk (machine_at pmm ptd m') 0xffff_f000 ≡ some (ptd / 4096))
init_page-walk im ptd m pmm l = (
  tables_done im ptd m l,
  init_page-done im ptd m l,
  walk-low im ptd m l pmm,
  walk-kernel im ptd m l pmm,
  walk_self im ptd m l pmm,
)
