-- ===== src/Vmm/Pages.antt =====
-- kernel/mm/vmm.c: vmm_alloc_pages, and its way back when a page cannot be had. A page is given by its
-- number, that is its address divided by 4096.
use os_learn.Base.{
  ℕ, ◌+◌, ◌*◌, ◌/◌, ◌%◌, ◌<◌, ◌≤◌, ◌≡◌, ◌≢◌, sym, ◌∙◌, ap, arith, ◌==◌, if◌then◌else◌, ◌&&◌, ne→==,
  eq→==,
}
use native.Mathlib.Decide.{ℕ_discrete}
use os_learn.Paging.{l1_index, l2_index, l1_index_lem, l2_index_lem}
use os_learn.Mmu.{Machine}
use os_learn.Vmm.Tables.{IsPaged, entry_at, SetsEntry, SameEntries, IsHeld}

abbrev pub page_limit : ℕ
page_limit = 0xf_fc00

-- The entry of a page.
unfoldable pub entry_page : Machine → ℕ → ℕ
entry_page m q = entry_at m (q / 1024) (q % 1024)

-- The pages from `p + first` up to `p + last` have entries in `m` that they had not in `m0`: each names
-- a frame of its own that is held. All other pages are as in `m0`.
pub record Progress (m0 : Machine) (p first last : ℕ) (m : Machine) : Type 0 where
  pub paged : IsPaged m
  pub frames : ℕ → ℕ
  pub held : (k : ℕ) → first ≤ k → k < last → IsHeld m (frames k)
  pub apart : (k l : ℕ) → first ≤ k → k < last → first ≤ l → l < last → k ≢ l → frames k ≢ frames l
  pub entry :
      (k : ℕ)
      → first ≤ k
      → k < last
      → (entry_page m (p + k) / 4096 ≡ frames k) × (entry_page m (p + k) % 2 ≡ 1)
  pub was : (k : ℕ) → first ≤ k → k < last → entry_page m0 (p + k) ≡ 0
  pub below : (q : ℕ) → q < page_limit → q < p + first → entry_page m q ≡ entry_page m0 q
  pub above : (q : ℕ) → q < page_limit → p + last ≤ q → entry_page m q ≡ entry_page m0 q

module _ (q : ℕ) (h : q < page_limit) where
  pub first_index : l1_index (q * 4096) ≡ q / 1024
  first_index = omega (arith, h, l1_index_lem (q * 4096) (omega (arith, h)))

  pub second_index : l2_index (q * 4096) ≡ q % 1024
  second_index = omega (arith, l2_index_lem (q * 4096))

  pub region_lt : q / 1024 < 1023
  region_lt = omega (arith, h)

module _ (m m' : Machine) where
  pub same_page : SameEntries m m' → (t : ℕ) → t < page_limit → entry_page m' t ≡ entry_page m t
  unfolding entry_page
  same_page same t h = same (t / 1024) (t % 1024) (omega (arith, h))

  pub set_page :
      (q e : ℕ)
      → SetsEntry m (q / 1024) (q % 1024) e m'
      → (t : ℕ) → t < page_limit
      → entry_page m' t ≡ (if t == q then e else entry_page m t)
  unfolding entry_page
  set_page q e sets t h =
      sets (t / 1024) (t % 1024) (omega (arith, h))
      ∙ ap (λ b. if b then e else entry_page m t) one_page
    where
      one_page : ((t / 1024 == q / 1024) && (t % 1024 == q % 1024)) ≡ (t == q)
      one_page = ground arith

module _ {m0 : Machine} {p first last : ℕ} {m : Machine} (r : Progress m0 p first last m)
    (m' : Machine) (paged : IsPaged m') where
  pub Progress-same :
      SameEntries m m'
      → ((g : ℕ) → IsHeld m g → IsHeld m' g)
      → p + last ≤ page_limit
      → Progress m0 p first last m'
  Progress-same same held fits = record {
    paged = paged;
    frames = r.frames;
    held = λ k a b. held (r.frames k) (r.held k a b);
    apart = r.apart;
    entry = λ k a b. rw (same_page m m' same (p + k) (omega (arith, fits, b))) (r.entry k a b);
    was = r.was;
    below = λ q h l. same_page m m' same q h ∙ r.below q h l;
    above = λ q h l. same_page m m' same q h ∙ r.above q h l;
  }

  -- One page more, at the end.
  pub Progress-mapped :
      (e f : ℕ)
      → first ≤ last
      → p + last < page_limit
      → SetsEntry m ((p + last) / 1024) ((p + last) % 1024) e m'
      → entry_page m (p + last) ≡ 0
      → ((g : ℕ) → IsHeld m g → IsHeld m' g)
      → IsHeld m' f
      → ((k : ℕ) → first ≤ k → k < last → r.frames k ≢ f)
      → (e / 4096 ≡ f) × (e % 2 ≡ 1)
      → Progress m0 p first (last + 1) m'
  Progress-mapped e f le fits sets empty keeps_held f_held fresh names = record {
    paged = paged;
    frames = λ k. if k == last then f else r.frames k;
    held = λ k a b. elim (ℕ_discrete k last) [
      | yes now ↦ rw (eq→== k last now) f_held
      | no old ↦
          rw (ne→== k last old) (keeps_held (r.frames k) (r.held k a (omega (arith, b, old))))
    ];
    apart = λ k l a b c d ne same. elim (ℕ_discrete k last) [
      | yes now ↦
          fresh l c (omega (arith, d, ne, now))
            (sym (rw (ne→== l last (omega (arith, ne, now)), eq→== k last now) at same))
      | no old ↦ elim (ℕ_discrete l last) [
        | yes now ↦
            fresh k a (omega (arith, b, old)) (rw (ne→== k last old, eq→== l last now) at same)
        | no both ↦
            r.apart k l a (omega (arith, b, old)) c (omega (arith, d, both)) ne
              (rw (ne→== k last old, ne→== l last both) at same)
      ]
    ];
    entry = λ k a b. elim (ℕ_discrete k last) [
      | yes now ↦
          rw
            (
              set_page m m' (p + last) e sets (p + k) (omega (arith, fits, b)),
              eq→== (p + k) (p + last) (omega (arith, now)),
              eq→== k last now,
            )
            names
      | no old ↦
          rw
            (
              set_page m m' (p + last) e sets (p + k) (omega (arith, fits, b)),
              ne→== (p + k) (p + last) (omega (arith, old)),
              ne→== k last old,
            )
            (r.entry k a (omega (arith, b, old)))
    ];
    was = λ k a b. elim (ℕ_discrete k last) [
      | yes now ↦ rw now (sym (r.above (p + last) fits (omega arith)) ∙ empty)
      | no old ↦ r.was k a (omega (arith, b, old))
    ];
    below = λ q h l.
        set_page m m' (p + last) e sets q h
        ∙ rw (ne→== q (p + last) (omega (arith, l, le))) (r.below q h l);
    above = λ q h l.
        set_page m m' (p + last) e sets q h
        ∙ rw (ne→== q (p + last) (omega (arith, l))) (r.above q h (omega (arith, l)));
  }

  -- One page fewer, at the start.
  pub Progress-unmapped :
      first < last
      → p + last ≤ page_limit
      → SetsEntry m ((p + first) / 1024) ((p + first) % 1024) 0 m'
      → ((g : ℕ) → IsHeld m g → r.frames first ≢ g → IsHeld m' g)
      → Progress m0 p (first + 1) last m'
  Progress-unmapped lt fits sets keeps_held = record {
    paged = paged;
    frames = r.frames;
    held = λ k a b.
        keeps_held (r.frames k) (r.held k (omega (arith, a)) b)
          (r.apart first k (omega arith) lt (omega (arith, a)) b (omega (arith, a)));
    apart = λ k l a b c d. r.apart k l (omega (arith, a)) b (omega (arith, c)) d;
    entry = λ k a b.
        rw
          (
            set_page m m' (p + first) 0 sets (p + k) (omega (arith, fits, b)),
            ne→== (p + k) (p + first) (omega (arith, a)),
          )
          (r.entry k (omega (arith, a)) b);
    was = λ k a b. r.was k (omega (arith, a)) b;
    below = λ q h l. set_page m m' (p + first) 0 sets q h ∙ elim (ℕ_discrete q (p + first)) [
      | yes now ↦
          rw (eq→== q (p + first) now) (sym (ap (entry_page m0) now ∙ r.was first (omega arith) lt))
      | no old ↦ rw (ne→== q (p + first) old) (r.below q h (omega (arith, l, old)))
    ];
    above = λ q h l.
        set_page m m' (p + first) 0 sets q h
        ∙ rw (ne→== q (p + first) (omega (arith, l, lt))) (r.above q h l);
  }
