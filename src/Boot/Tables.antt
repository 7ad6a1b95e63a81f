-- ===== src/Boot/Tables.antt =====
-- arch/x86/hhk.c: what the machine translates once the first page tables are in use.
use os_learn.Base.{
  ℕ, zero, suc, ◌+◌, ◌-◌, ◌*◌, ◌/◌, ◌%◌, ◌^◌, ◌≤◌, ◌<◌, ◌≡◌, ◌≢◌, ◌⊎◌, inl, inr, refl, ap, ◌∙◌,
  some, false, arith, ltb, update, for_range, ne→==, eq→==, Bool-cases, ltb→lt, ltb→le,
}
use native.Mathlib.Decide.{ℕ_discrete}
use os_learn.Paging.{
  l1_index, l2_index, l1_index_lem, l2_index_lem, new_entry, pg_prem_rw, pg_present,
  t_self_ref_perm,
}
use os_learn.Boot.{
  Image, Words, pt_addr, set_pde, kernel_page_count, hhk_page_count, v2p, map_identity, map_kernel,
  enter_kernel_tables, init_page,
}

-- A loop that writes one word in each round, `g i` to the address `addr i`, the word `i` after `base`.
module _ (base : ℕ) (addr g : ℕ → ℕ) (steps : (i : ℕ) → addr i ≡ base + i * 4) where
  words_outside :
      (n from : ℕ) (m : Words) (a : ℕ)
      → (a < base + from * 4) ⊎ (base + (from + n) * 4 ≤ a)
      → for_range n from (λ i m. update m (addr i) (g i)) m a ≡ m a
  unfolding for_range
  words_outside zero from m a out = refl
  words_outside (suc n) from m a out =
      words_outside n (from + 1) (update m (addr from) (g from)) a (ground (arith, out))
      ∙ rw (ne→== (addr from) a (ground (arith, out, steps from))) refl

  words_inside :
      (n from : ℕ) (m : Words) (k a : ℕ)
      → from ≤ k
      → k < from + n
      → a ≡ base + k * 4
      → for_range n from (λ i m. update m (addr i) (g i)) m a ≡ g k
  unfolding for_range
  words_inside zero from m k a l u e = absurd (omega arith)
  words_inside (suc n) from m k a l u e = elim (ℕ_discrete from k) [
    | yes q ↦
        (words_outside n (from + 1) (update m (addr from) (g from)) a (inl (omega (arith, e, q)))
          ∙ rw (eq→== (addr from) a (omega (arith, steps from, e, q))) (ap g q))
    | no ne ↦
        (words_inside n (from + 1) (update m (addr from) (g from)) k a (omega (arith, ne))
          (omega arith) e)
  ]

-- What the loader and the linker must agree on: the page directory and its tables are aligned and
-- below 4 GiB, the loader fits in the first table, and the kernel is linked to a page of the higher
-- half and fits in its three tables.
pub record Linked (im : Image) (ptd : ℕ) : Type 0 where
  pub aligned : ptd % 4096 ≡ 0
  pub room : ptd + 5 * 4096 ≤ 2 ^ 32
  pub loader : hhk_page_count im ≤ 768
  pub page : im.kernel_start % 4096 ≡ 0
  pub higher : 0xc000_0000 ≤ im.kernel_start
  pub tables : im.kernel_start / 2 ^ 22 + 3 ≤ 1023
  pub pages : im.kernel_start / 4096 % 1024 + kernel_page_count im ≤ 3072

module _ (im : Image) (ptd : ℕ) (m : Words) (l : Linked im ptd) where
  kernel_l1 : l1_index im.kernel_start ≡ im.kernel_start / 2 ^ 22
  kernel_l1 = l1_index_lem im.kernel_start (omega (arith, l.tables))

  kernel_l2 : l2_index im.kernel_start ≡ im.kernel_start / 4096 % 1024
  kernel_l2 = l2_index_lem im.kernel_start

  pub identity : Words
  identity = map_identity im ptd m

  pub identity_entry :
      (k : ℕ)
      → k < 256 + hhk_page_count im
      → map_identity im ptd m (ptd + 4096 + k * 4) ≡ new_entry pg_prem_rw (k * 4096)
  unfolding map_identity
  identity_entry k h = elim (Bool-cases (ltb k 256)) [
    | inl low ↦
        (words_outside (ptd + 4096 + 1024) _ (λ i. new_entry pg_prem_rw (0x10_0000 + i * 2 ^ 12))
            (λ i. omega arith) (hhk_page_count im) 0 _ (ptd + 4096 + k * 4)
            (inl (omega (arith, ltb→lt k 256 low)))
          ∙ words_inside (ptd + 4096) _ (λ i. new_entry pg_prem_rw (i * 2 ^ 12)) (λ i. omega arith)
              256 0 _ k (ptd + 4096 + k * 4) (omega arith) (ltb→lt k 256 low) refl)
    | inr high ↦
        (words_inside (ptd + 4096 + 1024) _ (λ i. new_entry pg_prem_rw (0x10_0000 + i * 2 ^ 12))
            (λ i. omega arith) (hhk_page_count im) 0 _ (k - 256) (ptd + 4096 + k * 4) (omega arith)
            (omega (arith, ltb→le k 256 high)) (omega (arith, ltb→le k 256 high))
          ∙ ap (new_entry pg_prem_rw) (omega (arith, ltb→le k 256 high)))
  ]

  pub identity_pde : map_identity im ptd m ptd ≡ new_entry pg_present (ptd + 4096)
  unfolding map_identity
  identity_pde =
      words_outside (ptd + 4096 + 1024) _ (λ i. new_entry pg_prem_rw (0x10_0000 + i * 2 ^ 12))
        (λ i. omega arith) (hhk_page_count im) 0 _ ptd (inl (omega arith))
      ∙ words_outside (ptd + 4096) _ (λ i. new_entry pg_prem_rw (i * 2 ^ 12)) (λ i. omega arith) 256
          0 _ ptd (inl (omega arith))
      ∙ rw (eq→== (ptd + 0) ptd (omega arith)) refl

  pub entered : Words
  unfolding identity
  entered = enter_kernel_tables im ptd identity

  pub entered_outside : (a : ℕ) → (a ≤ ptd) ⊎ (ptd + 4092 ≤ a) → entered a ≡ map_identity im ptd m a
  unfolding entered identity enter_kernel_tables
  entered_outside a out =
      words_outside (ptd + im.kernel_start / 2 ^ 22 * 4) _
        (λ i. new_entry pg_prem_rw (pt_addr ptd (1 + i))) (λ i. omega (arith, kernel_l1)) 3 0 _ a
        (ground (arith, out, l.tables, l.higher))

  pub entered_pde :
      (j a : ℕ)
      → j < 3
      → a ≡ ptd + (im.kernel_start / 2 ^ 22 + j) * 4
      → entered a ≡ new_entry pg_prem_rw (pt_addr ptd (1 + j))
  unfolding entered identity enter_kernel_tables
  entered_pde j a h e =
      words_inside (ptd + im.kernel_start / 2 ^ 22 * 4) _
        (λ i. new_entry pg_prem_rw (pt_addr ptd (1 + i))) (λ i. omega (arith, kernel_l1)) 3 0 _ j a
        (omega arith) (omega arith) (omega (arith, e))

  -- The memory once _init_page is through.
  pub tables_done : Words
  unfolding entered
  tables_done = set_pde ptd 1023 (new_entry t_self_ref_perm ptd) (map_kernel im ptd entered)

  pub init_page-done : init_page im ptd m ≡ some tables_done
  unfolding init_page tables_done entered identity
  init_page-done =
      let fits : ltb 3072 (kernel_page_count im) ≡ false = ground (arith, l.pages) in rw fits refl

  pub done_below : (a : ℕ) → a < ptd + 8192 → a ≢ ptd + 4092 → tables_done a ≡ entered a
  unfolding tables_done map_kernel
  done_below a h ne = rw (ne→== (ptd + 4092) a (omega (arith, ne))) (
      words_outside (ptd + 8192 + im.kernel_start / 4096 % 1024 * 4) _
        (λ i. new_entry pg_prem_rw (v2p im.kernel_start + i * 2 ^ 12))
        (λ i. omega (arith, kernel_l2)) (kernel_page_count im) 0 _ a (inl (omega arith)))

  pub done_kernel :
      (i a : ℕ)
      → i < kernel_page_count im
      → a ≡ ptd + 8192 + (im.kernel_start / 4096 % 1024 + i) * 4
      → tables_done a ≡ new_entry pg_prem_rw (v2p im.kernel_start + i * 2 ^ 12)
  unfolding tables_done map_kernel
  done_kernel i a h e = rw (ne→== (ptd + 4092) a (omega (arith, e))) (
      words_inside (ptd + 8192 + im.kernel_start / 4096 % 1024 * 4) _
        (λ i. new_entry pg_prem_rw (v2p im.kernel_start + i * 2 ^ 12))
        (λ i. omega (arith, kernel_l2)) (kernel_page_count im) 0 _ i a (omega arith) (omega arith)
        (omega (arith, e)))

  pub done_self : (a : ℕ) → a ≡ ptd + 4092 → tables_done a ≡ new_entry t_self_ref_perm ptd
  unfolding tables_done
  done_self a e = rw (eq→== (ptd + 4092) a (omega (arith, e))) refl
