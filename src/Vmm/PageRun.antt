-- ===== src/Vmm/PageRun.antt =====
-- kernel/mm/vmm.c: the loop of vmm_alloc_pages.
use os_learn.Base.{
  ℕ, zero, suc, ◌+◌, ◌*◌, ◌/◌, ◌%◌, ◌^◌, ◌<◌, ◌≤◌, ◌≡◌, refl, sym, ◌∙◌, ap, Bool, true, false,
  arith, ne→==, eq→==, Bool-cases, inl, inr,
}
use mathlib.Core.Path.{subst}
use native.Mathlib.Decide.{ℕ_discrete}
use os_learn.Paging.{new_entry, new_entry_lem}
use os_learn.Mmu.{Machine, Run, ok, alloc}
use os_learn.Vmm.{unmap_pages, alloc_pages_from, vmm_alloc_pages}
use os_learn.Vmm.Tables.{IsPaged, entry_at}
use os_learn.Vmm.Map.{map_internal-Maps}
use os_learn.Vmm.Pages.{
  page_limit, entry_page, Progress, Progress-same, Progress-mapped, first_index, second_index,
  region_lt,
}
use os_learn.Vmm.Unwind.{
  SamePages, next_page, unmap_pages-restores, allocated, page, allocated-IsPaged, frame_new,
}

-- What vmm_alloc_pages does for `n` pages from `p` on: it returns true, and the pages have entries that
-- they had not, each for a frame of its own, the other pages being as before; or it returns false, and
-- all the pages are as before. The page tables are well-formed after it.
pub record Outcome (m0 : Machine) (p n : ℕ) (run : Run Bool) : Type 0 where
  pub done : Bool
  pub after : Machine
  pub returns : run ≡ ok done after
  pub paged : IsPaged after
  pub hit : done ≡ true → Progress m0 p 0 n after
  pub miss : done ≡ false → SamePages m0 after

module _ (m0 : Machine) (p n attr : ℕ) (fits : p + n ≤ page_limit) (odd : attr % 2 ≡ 1) where
  back :
      (i : ℕ) (m : Machine)
      → Progress m0 p 0 i m
      → i ≤ n
      → (m' : Machine) × (unmap_pages i (p * 4096) m ≡ ok tt m') × IsPaged m' × SamePages m0 m'
  back i m r le =
      let (m', run, paged, same) =
        unmap_pages-restores m0 p i 0 i m r (omega arith) (omega (arith, fits, le)) in
      (
        m',
        ap (λ v. unmap_pages i v m) {x = p * 4096} {y = (p + 0) * 4096} (omega arith) ∙ run,
        paged,
        same,
      )

  names :
      (f : ℕ) (m : Machine)
      → page m ≡ f * 4096
      → f < 0x10_0000
      → (new_entry attr (page m) / 4096 ≡ f) × (new_entry attr (page m) % 2 ≡ 1)
  names f m at small = omega (arith, odd, new_entry_lem attr (page m) (omega (arith, at, small)))

  empty :
      (i : ℕ) (m : Machine)
      → p + i < page_limit
      → entry_at (allocated m) ((p + i) / 1024) ((p + i) % 1024) ≡ 0
      → entry_page m (p + i) ≡ 0
  unfolding entry_page
  empty i m h e = e

  alloc_pages_from-Outcome :
      (left i : ℕ) (m : Machine)
      → Progress m0 p 0 i m
      → i + left ≡ n
      → Outcome m0 p n (alloc_pages_from left i (p * 4096) ((p + i) * 4096) attr m)
  unfolding alloc_pages_from alloc
  alloc_pages_from-Outcome zero i m r e = record {
    done = true;
    after = m;
    returns = refl;
    paged = r.paged;
    hit = λ _. subst (λ t. Progress m0 p 0 t m) (omega (arith, e)) r;
    miss = λ f. absurd (cc);
  }
  alloc_pages_from-Outcome (suc left) i m r e =
      let (paged, keeps) = allocated-IsPaged m r.paged in
      let here : p + i < page_limit = omega (arith, fits, e) in
      let r' = Progress-same r (allocated m) paged (λ a b h. refl) keeps (omega (arith, here)) in
      let maps =
        map_internal-Maps (allocated m) ((p + i) / 1024) ((p + i) % 1024) (page m) attr paged
          (region_lt (p + i) here) (omega arith) odd in
      elim (ℕ_discrete (page m) 0) [
        | yes none' ↦
            let (m', run, paged', same) = back i (allocated m) r' (omega (arith, e)) in
            rw (eq→== (page m) 0 none', run)
              (record {
                done = false;
                after = m';
                returns = refl;
                paged = paged';
                hit = λ f. absurd (cc);
                miss = λ _. same;
              })
        | no got ↦
            let (f, at, small, held, fresh) = frame_new m r.paged got in
            elim (Bool-cases maps.done) [
              | inl hit ↦
                  let r1 =
                    Progress-mapped r maps.after maps.keeps (new_entry attr (page m)) f
                      (omega arith) here (maps.hit hit).1 (empty i m here (maps.hit hit).0)
                      (λ g h. maps.held g (keeps g h)) (maps.held f held)
                      (λ k a b. fresh (r.frames k) (r.held k a b)) (names f m at small) in
                  rw
                    (
                      ne→== (page m) 0 got,
                      first_index (p + i) here,
                      second_index (p + i) here,
                      maps.returns,
                      hit,
                    )
                    (subst
                      (λ v.
                        Outcome m0 p n (alloc_pages_from left (i + 1) (p * 4096) v attr maps.after))
                      (sym (next_page m0 p i here))
                      (alloc_pages_from-Outcome left (i + 1) maps.after r1 (omega (arith, e))))
              | inr miss ↦
                  let (m', run, paged', same) =
                    back i maps.after
                      (Progress-same r maps.after maps.keeps (maps.miss miss)
                        (λ g h. maps.held g (keeps g h)) (omega (arith, here)))
                      (omega (arith, e)) in
                  rw
                    (
                      ne→== (page m) 0 got,
                      first_index (p + i) here,
                      second_index (p + i) here,
                      maps.returns,
                      miss,
                      run,
                    )
                    (record {
                      done = false;
                      after = m';
                      returns = refl;
                      paged = paged';
                      hit = λ f. absurd (cc);
                      miss = λ _. same;
                    })
            ]
      ]

-- vmm_alloc_pages of `n` pages from page `p` on, in the paged state, for pages below the recursive
-- region and an attribute with the present bit: no page fault, the invariant is kept, and it returns
-- true and every one of the pages has an entry that it had not, present and for a frame of its own that
-- is in use and no table, or it returns false and every page is as before; the pages outside the range
-- are as before in both cases.
pub vmm_alloc_pages-Outcome :
    (m : Machine) (p n attr : ℕ)
    → IsPaged m
    → p + n ≤ page_limit
    → attr % 2 ≡ 1
    → Outcome m p n (vmm_alloc_pages (p * 4096) (n * 4096) attr m)
unfolding vmm_alloc_pages
vmm_alloc_pages-Outcome m p n attr paged fits odd =
    subst (λ c. Outcome m p n (alloc_pages_from c 0 (p * 4096) (p * 4096) attr m)) {x = n}
      {y = n * 4096 / 2 ^ 12} (omega arith)
      (subst (λ v. Outcome m p n (alloc_pages_from n 0 (p * 4096) v attr m)) {x = (p + 0) * 4096}
        {y = p * 4096} (omega arith)
        (alloc_pages_from-Outcome m p n attr fits odd n 0 m start (omega arith)))
  where
    start : Progress m p 0 0 m
    start = record {
      paged = paged;
      frames = λ k. 0;
      held = λ k a b. absurd (omega (arith, b));
      apart = λ k l a b c d. absurd (omega (arith, b));
      entry = λ k a b. absurd (omega (arith, b));
      was = λ k a b. absurd (omega (arith, b));
      below = λ q h l. refl;
      above = λ q h l. refl;
    }
