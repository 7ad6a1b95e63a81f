-- ===== src/Dmm/Brk.antt =====
-- kernel/mm/dmm.c: what lxbrk gives.
use os_learn.Base.{
  ℕ, ◌+◌, ◌-◌, ◌*◌, ◌/◌, ◌^◌, ◌≤◌, ◌<◌, ◌≡◌, ◌≢◌, inl, inr, refl, true, false, ◌||◌, arith, u32,
  bit_and, bit_and-high_mask, bit_and-low_mask, ltb, leb, ◌==◌, Bool-cases, ne→==, ==→eq, ==→ne,
  ltb→lt, ltb→le, ◌∙◌,
}
use os_learn.Paging.{pg_align, pg_align_lem, pg_size, pg_prem_rw}
use os_learn.Dmm.{PageSource, Whole, HeapContext, roundup, extend, lxbrk}

pub roundup_lem : (v : ℕ) → v ≤ 0xffff_fffc → roundup v ≡ (v + 3) / 4 * 4
unfolding roundup
roundup_lem v h =
    bit_and-high_mask 2 0x3fff_ffff (u32 (v + 3))
    ∙ omega (arith, bit_and-low_mask 30 (u32 (v + 3) / 4))

module _ {ℓ} {S : Type ℓ} (pages : PageSource S) where
  -- The page that holds the end of the heap is mapped, with the addresses from `low` on, and the heap's
  -- limit is below the region of the page tables.
  pub record Backed (low : ℕ) (heap : HeapContext) (s : S) : Type ℓ where
    pub word : heap.brk < 2 ^ 32
    pub pos : 0 < heap.brk
    pub from : low ≤ heap.brk
    pub within : heap.max_addr ≤ 0xffc0_0000
    pub ready : pages.IsReady s
    pub backed : (a : ℕ) → low ≤ a → a < heap.brk / 4096 * 4096 + 4096 → pages.Mapped s a

  -- What lxbrk returns: 0 and the heap as it was, still mapped, or the old end and a heap that is longer by `size`
  -- and ends below the limit, with every page of it mapped.
  pub data Grows (low : ℕ) (heap : HeapContext) (size : ℕ) : ℕ × HeapContext × S → Type ℓ where
    failed : (s' : S) → Backed low heap s' → Grows low heap size (0, heap, s')
    grown :
        (heap' : HeapContext) (s' : S)
        → heap'.brk ≡ heap.brk + size
        → heap'.start ≡ heap.start
        → heap'.max_addr ≡ heap.max_addr
        → heap.brk + size < heap.max_addr
        → Backed low heap' s'
        → Grows low heap size (heap.brk, heap', s')

  module _ (low : ℕ) (heap : HeapContext) (s : S) (b : Backed low heap s) where
    grown-Grows :
        (size : ℕ) (s' : S)
        → heap.brk + size < heap.max_addr
        → heap.brk + size < 2 ^ 32
        → pages.IsReady s'
        → ((a : ℕ) → low ≤ a → a < (heap.brk + size) / 4096 * 4096 + 4096 → pages.Mapped s' a)
        → Grows low heap size (heap.brk, record heap { brk = u32 (heap.brk + size) }, s')
    grown-Grows size s' h w ready m =
        let e : u32 (heap.brk + size) ≡ heap.brk + size = omega (arith, w) in
        grown (record heap { brk = u32 (heap.brk + size) }) s' e refl refl h
          (record {
            word = omega arith;
            pos = omega (arith, b.pos, w);
            from = omega (arith, b.from, w);
            within = b.within;
            ready = ready;
            backed = λ a l u. m a l (omega (arith, u, e));
          })

    extend-Grows :
        (next size : ℕ)
        → next < 2 ^ 32
        → heap.brk + size ≤ next
        → next < heap.max_addr
        → Grows low heap size (extend pages heap next size s)
    unfolding extend
    extend-Grows next size hn le lim =
        let n_page = pg_align_lem next hn in
        let b_page = pg_align_lem heap.brk b.word in
        elim (Bool-cases (u32 (pg_align next + 2 ^ 32 - pg_align heap.brk) == 0)) [
          | inl same ↦
              (let e : next / 4096 ≡ heap.brk / 4096 =
                  omega (arith, n_page, b_page, ==→eq _ _ same, b.word) in
                rw same (
                  grown-Grows size s (omega arith) (omega arith) b.ready
                    (λ a l u. b.backed a l (omega (arith, e, u)))))
          | inr more ↦ elim (Bool-cases (pages.alloc_pages va diff pg_prem_rw s).0) [
            | inl done ↦
                (let d : diff ≡ next / 4096 * 4096 - heap.brk / 4096 * 4096 =
                    omega (arith, n_page, b_page, b.word) in
                  let v : va ≡ heap.brk / 4096 * 4096 + 4096 =
                    omega (arith, n_page, b_page, ==→ne _ _ more, b.word) in
                  rw (more, done)
                    (grown-Grows size (pages.alloc_pages va diff pg_prem_rw s).1 (omega arith)
                      (omega arith) (pages.stays_ready va diff pg_prem_rw s (whole d v) b.ready)
                      (λ a l u. either a l (omega (arith, u)) d v done)))
            | inr out ↦
                (let d : diff ≡ next / 4096 * 4096 - heap.brk / 4096 * 4096 =
                    omega (arith, n_page, b_page, b.word) in
                  let v : va ≡ heap.brk / 4096 * 4096 + 4096 =
                    omega (arith, n_page, b_page, ==→ne _ _ more, b.word) in
                  rw (more, out) (failed _ (still d v)))
          ]
        ]
      where
        diff : ℕ
        diff = u32 (pg_align next + 2 ^ 32 - pg_align heap.brk)

        va : ℕ
        va = u32 (pg_align heap.brk + pg_size)

        whole :
            diff ≡ next / 4096 * 4096 - heap.brk / 4096 * 4096
            → va ≡ heap.brk / 4096 * 4096 + 4096
            → Whole va diff pg_prem_rw
        whole d v =
            (omega (arith, v), omega (arith, d), omega (arith, d, v, le, lim, b.within), refl)

        still :
            diff ≡ next / 4096 * 4096 - heap.brk / 4096 * 4096
            → va ≡ heap.brk / 4096 * 4096 + 4096
            → Backed low heap (pages.alloc_pages va diff pg_prem_rw s).1
        still d v = record {
          word = b.word;
          pos = b.pos;
          from = b.from;
          within = b.within;
          ready = pages.stays_ready va diff pg_prem_rw s (whole d v) b.ready;
          backed = λ a l u. pages.keeps va diff pg_prem_rw s (whole d v) b.ready a (b.backed a l u);
        }

        either :
            (a : ℕ)
            → low ≤ a
            → a < next / 4096 * 4096 + 4096
            → diff ≡ next / 4096 * 4096 - heap.brk / 4096 * 4096
            → va ≡ heap.brk / 4096 * 4096 + 4096
            → (pages.alloc_pages va diff pg_prem_rw s).0 ≡ true
            → pages.Mapped (pages.alloc_pages va diff pg_prem_rw s).1 a
        either a l u d v done = elim (Bool-cases (ltb a va)) [
          | inl old ↦
              (pages.keeps va diff pg_prem_rw s (whole d v) b.ready a
                (b.backed a l (omega (arith, v, ltb→lt a va old))))
          | inr new ↦
              (pages.maps va diff pg_prem_rw s (whole d v) b.ready done a (ltb→le a va new)
                (omega (arith, d, v, u, le, ltb→le a va new)))
        ]

  -- lxbrk, for a nonzero size that ROUNDUP does not wrap, on a heap that is mapped up to the page of
  -- its end, with a limit below the region of the page tables and the page source ready: it returns 0 and
  -- leaves the heap as it was, still mapped, or it returns the old end, and the heap is
  -- longer by the size, ends below the limit, and is mapped up to the page of its new end.
  pub lxbrk-Grows :
      (low : ℕ) (heap : HeapContext) (size : ℕ) (s : S)
      → Backed low heap s
      → size ≢ 0
      → size ≤ 0xffff_fffc
      → Grows low heap size (lxbrk pages heap size s)
  unfolding lxbrk
  lxbrk-Grows low heap size s b ne small =
      elim (Bool-cases (leb heap.max_addr next || ltb next heap.brk)) [
        | inl bad ↦ rw (ne→== size 0 ne, bad) (failed s b)
        | inr good ↦
            (let above : heap.brk ≤ next = ground (arith, good) in
              rw (ne→== size 0 ne, good)
                (extend-Grows low heap s b next size (omega arith)
                  (omega (arith, roundup_lem size small, b.word, b.pos, above))
                  (ground (arith, good))))
      ]
    where
      next : ℕ
      next = u32 (heap.brk + roundup size)

  -- lxbrk, for one of the three sizes that ROUNDUP wraps to 0, on a heap whose end is 4 at least and below
  -- the limit, which is a word: it succeeds and moves the end of the heap back.
  pub lxbrk_wraps :
      (heap : HeapContext) (size : ℕ) (s : S)
      → 0xffff_fffc < size
      → size < 2 ^ 32
      → 4 ≤ heap.brk
      → heap.brk < heap.max_addr
      → heap.max_addr < 2 ^ 32
      → lxbrk pages heap size s ≡ (heap.brk, record heap { brk = heap.brk - (2 ^ 32 - size) }, s)
  unfolding lxbrk extend roundup
  lxbrk_wraps heap size s big word four lim hm =
      let small : u32 (size + 3) ≤ 2 = omega arith in
      let r : bit_and (u32 (size + 3)) 0xffff_fffc ≡ 0 =
        bit_and-high_mask 2 0x3fff_ffff (u32 (size + 3))
        ∙ omega (arith, bit_and-low_mask 30 (u32 (size + 3) / 4)) in
      let next : u32 (heap.brk + 0) ≡ heap.brk = omega (arith, lim, hm) in
      let fits : (leb heap.max_addr heap.brk || ltb heap.brk heap.brk) ≡ false = ground arith in
      let same : (u32 (pg_align heap.brk + 2 ^ 32 - pg_align heap.brk) == 0) ≡ true =
        ground arith in
      let back : u32 (heap.brk + size) ≡ heap.brk - (2 ^ 32 - size) = omega arith in
      rw (ne→== size 0 (omega arith), r, next, fits, same, back)
