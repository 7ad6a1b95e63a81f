-- ===== src/Vmm/AllocPage.antt =====
-- kernel/mm/vmm.c: vmm_alloc_page of a page that has no mapping.
use os_learn.Base.{ℕ, ◌*◌, ◌/◌, ◌%◌, ◌<◌, ◌≡◌, ◌≢◌, ◌⊎◌, refl, false, arith, ne→==, inl, inr}
use mathlib.Core.Path.{subst}
use native.Mathlib.Decide.{ℕ_discrete}
use os_learn.Pmm.{pmm_free_page}
use os_learn.Pmm.Page.{is_free}
use os_learn.Pmm.Alloc
use os_learn.Mmu.{Machine, alloc, free}
use os_learn.Vmm.{vmm_map_page, vmm_alloc_page}
use os_learn.Vmm.Tables.{IsPaged, dir_entry, table_frame, IsHeld}
use os_learn.Vmm.Keep.{tables-IsPaged}
use os_learn.Vmm.Pages.{page_limit, entry_page}
use os_learn.Vmm.Unwind.{allocated, page, allocated-IsPaged, frame_new}
use os_learn.Vmm.MapPage.{MapsPage, vmm_map_page-MapsPage}

-- A held page, or page 0, is given back.
abbrev freed : Machine → ℕ → Machine
freed m pp = record m { pmm = (pmm_free_page pp m.pmm).1 }

freed-IsPaged :
    (m : Machine) (pp : ℕ) → IsPaged m → ((pp ≡ 0) ⊎ IsHeld m (pp / 4096)) → IsPaged (freed m pp)
freed-IsPaged m pp paged given =
    tables-IsPaged m paged (pmm_free_page pp m.pmm).1
      (Alloc.free_page-IsValid pp m.pmm paged.manager) (still m.dir paged.dir_used (apart given))
      (λ i h ne. still (table_frame m i) (paged.used i h ne) (other given i h ne))
  where
    still :
        (q : ℕ)
        → is_free m.pmm.bitmap q ≡ false
        → (0 < pp / 4096 → pp / 4096 ≢ q)
        → is_free (pmm_free_page pp m.pmm).1.bitmap q ≡ false
    still q used ne = ground (arith, Alloc.free_page_lem pp m.pmm q, used, ne)

    apart : ((pp ≡ 0) ⊎ IsHeld m (pp / 4096)) → 0 < pp / 4096 → pp / 4096 ≢ m.dir
    apart (inl e) pos = absurd (omega (arith, e, pos))
    apart (inr h) pos = h.1

    other :
        ((pp ≡ 0) ⊎ IsHeld m (pp / 4096))
        → (i : ℕ) → i < 1023
        → dir_entry m i ≢ 0
        → 0 < pp / 4096
        → pp / 4096 ≢ table_frame m i
    other (inl e) i h ne pos = absurd (omega (arith, e, pos))
    other (inr held) i h ne pos = held.2 i h ne

pub vmm_alloc_page-MapsPage :
    (m : Machine) (q attr : ℕ)
    → IsPaged m
    → q < page_limit
    → 0 < q
    → attr % 2 ≡ 1
    → entry_page m q ≡ 0
    → MapsPage m q (vmm_alloc_page (q * 4096) attr m)
unfolding vmm_alloc_page vmm_map_page alloc free entry_page
vmm_alloc_page-MapsPage m q attr paged h pos odd vacant = elim (ℕ_discrete (page m) 0) [
  | yes none' ↦ rw none' (record {
    result = 0;
    after = freed (allocated m) 0;
    returns = refl;
    paged = freed-IsPaged (allocated m) 0 (allocated-IsPaged m paged).0 (inl refl);
    ends = inl (refl, λ t ht. refl);
  })
  | no got ↦
      let (f, at, small, held, fresh) = frame_new m paged got in
      let (r, kept) =
        vmm_map_page-MapsPage (allocated m) (allocated-IsPaged m paged).0 q (page m) attr h pos
          (omega (arith, at, small)) got odd vacant in
      rw r.returns (elim r.ends [
        | inl (z, same) ↦ rw z (record {
          result = 0;
          after = freed r.after (page m);
          returns = refl;
          paged = freed-IsPaged r.after (page m) r.paged (
              inr (
                subst (IsHeld r.after) {x = f} {y = page m / 4096} (omega (arith, at))
                  (kept z f held)));
          ends = inl (refl, same);
        })
        | inr (e, now, others) ↦
            rw (e, ne→== (q * 4096) 0 (omega (arith, pos)))
              (record {
                result = q * 4096;
                after = r.after;
                returns = refl;
                paged = r.paged;
                ends = inr (refl, now, others);
              })
      ])
]
