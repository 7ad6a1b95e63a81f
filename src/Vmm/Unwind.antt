-- ===== src/Vmm/Unwind.antt =====
-- kernel/mm/vmm.c: the way back of vmm_alloc_pages, and what one allocation of a page gives.
use os_learn.Base.{
  ℕ, zero, suc, ◌+◌, ◌*◌, ◌/◌, ◌%◌, ◌<◌, ◌≤◌, ◌≡◌, ◌≢◌, refl, sym, ◌∙◌, ap, false, arith, eq→==,
  ltb, Bool-cases, inl, inr, u32,
}
use os_learn.Paging.{l1_index, l2_index}
use os_learn.Pmm.{pmm_alloc_page}
use os_learn.Pmm.Page.{is_free}
use os_learn.Pmm.Alloc
use os_learn.Mmu.{Machine, ok}
use os_learn.Vmm.{unmap_pages}
use os_learn.Vmm.Tables.{IsPaged, dir_entry, table_frame, entry_at, IsHeld}
use os_learn.Vmm.Keep.{manager-IsPaged}
use os_learn.Vmm.Unmap.{Unmaps, unmap-Unmaps}
use os_learn.Vmm.Lookup.{entry_of}
use os_learn.Vmm.Pages.{
  page_limit, entry_page, Progress, Progress-unmapped, first_index, second_index, region_lt,
}

entry_here : (m : Machine) (q : ℕ) → q < page_limit → entry_of m (q * 4096) ≡ entry_page m q
unfolding entry_page
entry_here m q h = rw (first_index q h, second_index q h) refl

-- A page with an entry has a table.
has_table : (m : Machine) (i j : ℕ) → entry_at m i j % 2 ≡ 1 → dir_entry m i ≢ 0
has_table m i j odd none' = absurd (omega (arith, rw (eq→== (dir_entry m i) 0 none') at odd))

module _ {m0 : Machine} {p first last : ℕ} {m : Machine} (r : Progress m0 p first last m)
    (lt : first < last) (fits : p + last ≤ page_limit) where
  abbrev va : ℕ
  va = (p + first) * 4096

  below_limit : p + first < page_limit
  below_limit = omega (arith, lt, fits)

  first_entry : (entry_of m va / 4096 ≡ r.frames first) × (entry_of m va % 2 ≡ 1)
  first_entry = rw (entry_here m (p + first) below_limit) (r.entry first (omega arith) lt)

  first-IsHeld : IsHeld m (r.frames first)
  first-IsHeld = r.held first (omega arith) lt

  first-Unmaps : Unmaps m va
  first-Unmaps =
      unmap-Unmaps m va r.paged (omega (arith, below_limit))
        (omega (arith, first_index (p + first) below_limit, region_lt (p + first) below_limit))
        (has_table m (l1_index va) (l2_index va) first_entry.1)
        (λ odd. rw first_entry.0 (first-IsHeld.1, first-IsHeld.2))

  first-Progress : Progress m0 p (first + 1) last first-Unmaps.after
  first-Progress =
      Progress-unmapped r first-Unmaps.after first-Unmaps.keeps lt fits
        (rw (first_index (p + first) below_limit, second_index (p + first) below_limit) at
          first-Unmaps.sets)
        (λ g held other. first-Unmaps.held g held (λ odd. rw first_entry.0 other))

-- The machine after an allocation of a page, and the frame that it takes.
module _ (m : Machine) where
  abbrev pub allocated : Machine
  allocated = record m { pmm = (pmm_alloc_page m.pmm).1 }

  abbrev pub page : ℕ
  page = (pmm_alloc_page m.pmm).0

  module _ (paged : IsPaged m) where
    pub allocated-IsPaged : IsPaged allocated × ((g : ℕ) → IsHeld m g → IsHeld allocated g)
    allocated-IsPaged = (
      manager-IsPaged m paged allocated.pmm (Alloc.alloc-IsValid m.pmm paged.manager) still,
      λ g (used, apart, others). (still g used, apart, others),
    )
      where
        still : (q : ℕ) → is_free m.pmm.bitmap q ≡ false → is_free allocated.pmm.bitmap q ≡ false
        still q used = elim (Alloc.alloc-Allocates m.pmm paged.manager) [
          | inl (e, same) ↦ rw same used
          | inr (f, at, pos, below, free, takes) ↦ ground (arith, takes q, used)
        ]

    -- The frame of a page that was had: held, and none that was held before.
    pub frame_new :
        page ≢ 0
        → (f : ℕ) × (page ≡ f * 4096)
          × (f < 0x10_0000)
          × IsHeld allocated f
          × ((g : ℕ) → IsHeld m g → g ≢ f)
    frame_new got = elim (Alloc.alloc-Allocates m.pmm paged.manager) [
      | inl (e, same) ↦ absurd (got e)
      | inr (f, at, pos, below, free, takes) ↦
          let other : (g : ℕ) → is_free m.pmm.bitmap g ≡ false → g ≢ f =
            λ g used same. ground (arith, free, used, ap (is_free m.pmm.bitmap) same) in
          (
            f,
            at,
            (let l = paged.manager.small in omega (arith, below, l)),
            (
              ground (arith, takes f),
              λ e. other m.dir paged.dir_used (sym e),
              λ a ha ne e. other (table_frame m a) (paged.used a ha ne) (sym e),
            ),
            λ g held. other g held.0,
          )
    ]

-- The pages are as they were.
abbrev pub SamePages : Machine → Machine → Type 0
SamePages m0 m = (q : ℕ) → q < page_limit → entry_page m q ≡ entry_page m0 q

module _ (m0 : Machine) (p : ℕ) where
  pub next_page : (i : ℕ) → p + i < page_limit → u32 ((p + i) * 4096 + 4096) ≡ (p + (i + 1)) * 4096
  next_page i h = omega (arith, h)

  -- The loop back takes all the pages away again.
  pub unmap_pages-restores :
      (n first last : ℕ) (m : Machine)
      → Progress m0 p first last m
      → first + n ≡ last
      → p + last ≤ page_limit
      → (m' : Machine) × (unmap_pages n ((p + first) * 4096) m ≡ ok tt m')
        × IsPaged m'
        × SamePages m0 m'
  unfolding unmap_pages
  unmap_pages-restores zero first last m r e fits = (
    m,
    refl,
    r.paged,
    λ q h. elim (Bool-cases (ltb q (p + first))) [
      | inl low ↦ r.below q h (ground (arith, low))
      | inr high ↦ r.above q h (ground (arith, high, e))
    ],
  )
  unmap_pages-restores (suc n) first last m r e fits =
      let lt : first < last = omega (arith, e) in
      let u = first-Unmaps r lt fits in
      let (m', run, paged, same) =
        unmap_pages-restores n (first + 1) last u.after (first-Progress r lt fits)
          (omega (arith, e)) fits in
      (
        m',
        rw u.returns
            (ap (λ v. unmap_pages n v u.after) (next_page first (omega (arith, lt, fits))) ∙ run),
        paged,
        same,
      )
