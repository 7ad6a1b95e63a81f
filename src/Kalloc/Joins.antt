-- ===== src/Kalloc/Joins.antt =====
-- kernel/mm/kalloc.c: coalesce by its four cases, from the words that it reads.
use os_learn.Base.{
  ℕ, ◌+◌, ◌-◌, ◌^◌, ◌≡◌, ◌≤◌, ◌<◌, ap, ◌∙◌, Bool, true, false, not, arith, ◌==◌, u32,
}
use os_learn.Kalloc.{Words, coalesce, chunk_s, chunk_pf, chunk_a, pack, fptr}
use os_learn.Kalloc.Header.{
  header, IsSize, pf_flag, chunk_s-header, chunk_pf-header, chunk_a-header, pack-free,
}
use os_learn.Kalloc.Layout.{write_free}

-- What coalesce reads: the chunk's header, and the header of what comes next.
module _ (m : Words) (p s u : ℕ) (pf used : Bool) (size : IsSize s) (next : IsSize u)
    (here : m p ≡ header s false pf) (there : m (p + s) ≡ header u used true) where
  size_here : chunk_s (m p) ≡ s
  size_here = ap chunk_s here ∙ chunk_s-header s false pf size

  flag_here : chunk_pf (m p) ≡ pf_flag pf
  flag_here = ap chunk_pf here ∙ chunk_pf-header s false pf size

  size_there : chunk_s (m (p + s)) ≡ u
  size_there = ap chunk_s there ∙ chunk_s-header u used true next

  flag_there : (chunk_a (m (p + s)) == 0) ≡ not used
  flag_there = ap (λ h. chunk_a h == 0) there ∙ chunk_a-header u used true next

  pub coalesce-neither : used ≡ true → pf ≡ false → coalesce p m ≡ (p, m)
  unfolding coalesce
  coalesce-neither a b = rw (size_here, flag_here, flag_there, a, b)

  pub coalesce-next :
      used ≡ false
      → pf ≡ false
      → (4 ≤ s) × (p + s + u < 2 ^ 32)
      → coalesce p m ≡ (p, write_free p (s + u) false m)
  unfolding coalesce write_free
  coalesce-next a b (some_size, fits) =
      rw (size_here, flag_here, flag_there, size_there, a, b, sum, word, last)
    where
      sum : u32 (u + s) ≡ s + u
      sum = omega arith

      word : pack (s + u) 0 ≡ header (s + u) false false
      word = pack-free (s + u) false (omega (arith, size, next), omega arith)

      last : fptr p (s + u) ≡ p + (s + u) - 4
      last = omega arith

  module _ (t : ℕ) (pf' : Bool) (prev_size : IsSize t) (prev : m (p - 4) ≡ header t false pf') where
    size_prev : chunk_s (m (p - 4)) ≡ t
    size_prev = ap chunk_s prev ∙ chunk_s-header t false pf' prev_size

    flag_prev : chunk_pf (m (p - 4)) ≡ pf_flag pf'
    flag_prev = ap chunk_pf prev ∙ chunk_pf-header t false pf' prev_size

    pub coalesce-prev :
        used ≡ true
        → pf ≡ true
        → (4 ≤ s) × (t ≤ p) × (p + s < 2 ^ 32)
        → coalesce p m ≡ (p - t, write_free (p - t) (s + t) pf' m)
    unfolding coalesce write_free
    coalesce-prev a b (some_size, above, fits) =
        rw (size_here, flag_here, flag_there, size_prev, flag_prev, a, b, sum, word, last)
      where
        sum : u32 (t + s) ≡ s + t
        sum = omega arith

        word : pack (s + t) (pf_flag pf') ≡ header (s + t) false pf'
        word = pack-free (s + t) pf' (omega (arith, size, prev_size), omega arith)

        last : fptr p s ≡ p - t + (s + t) - 4
        last = omega arith

    pub coalesce-both :
        used ≡ false
        → pf ≡ true
        → (4 ≤ s) × (t ≤ p) × (p + s + u < 2 ^ 32)
        → coalesce p m ≡ (p - t, write_free (p - t) (s + u + t) pf' m)
    unfolding coalesce write_free
    coalesce-both a b (some_size, above, fits) =
        rw (
          size_here, flag_here, flag_there, size_there, size_prev, flag_prev, a, b, sum, word, last,
        )
      where
        sum : u32 (u + t + s) ≡ s + u + t
        sum = omega arith

        word : pack (s + u + t) (pf_flag pf') ≡ header (s + u + t) false pf'
        word = pack-free (s + u + t) pf' (omega (arith, size, next, prev_size), omega arith)

        last : fptr p (s + u) ≡ p - t + (s + u + t) - 4
        last = omega arith
