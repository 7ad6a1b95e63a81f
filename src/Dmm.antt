-- ===== src/Dmm.antt =====
-- kernel/mm/dmm.c: the end of the heap. The pages come from the virtual memory manager, here an
-- interface: its two operations, and the addresses that are mapped.
pub mod Brk
pub mod OnVmm
mod Tests
use os_learn.Base.{
  ℕ, zero, suc, ◌+◌, ◌-◌, ◌*◌, ◌/◌, ◌%◌, ◌^◌, ◌≤◌, ◌<◌, ◌≡◌, ◌⊎◌, Bool, true, false, ◌||◌, not, u32,
  bit_and, ltb, leb, ◌==◌, if◌then◌else◌,
}
use os_learn.Paging.{pg_align, pg_size, pg_prem_rw}

-- The arguments are for whole pages below the region of the page tables, with the present bit.
abbrev pub Whole : ℕ → ℕ → ℕ → Type 0
Whole va sz attr = (va % 4096 ≡ 0) × (sz % 4096 ≡ 0) × (va + sz ≤ 0xffc0_0000) × (attr % 2 ≡ 1)

-- What the heap needs of vmm_alloc_page and vmm_alloc_pages, on a state that is ready and for whole
-- pages: the state stays ready, addresses that are mapped stay mapped, vmm_alloc_pages, where it returns
-- true, has mapped the addresses it was asked for, and vmm_alloc_page of a page without an entry returns
-- 0, or the address it was given, and has then mapped the page.
pub record PageSource {ℓ} (S : Type ℓ) : Type (ℓ ⊔ 1) where
  pub alloc_page : ℕ → ℕ → S → ℕ × S
  pub alloc_pages : ℕ → ℕ → ℕ → S → Bool × S
  pub IsReady : S → Type 0
  pub Mapped : S → ℕ → Type 0
  pub Vacant : S → ℕ → Type 0
  pub stays_ready :
      (va sz attr : ℕ) (s : S) → Whole va sz attr → IsReady s → IsReady (alloc_pages va sz attr s).1
  pub keeps :
      (va sz attr : ℕ) (s : S)
      → Whole va sz attr
      → IsReady s
      → (a : ℕ) → Mapped s a
      → Mapped (alloc_pages va sz attr s).1 a
  pub maps :
      (va sz attr : ℕ) (s : S)
      → Whole va sz attr
      → IsReady s
      → (alloc_pages va sz attr s).0 ≡ true
      → (a : ℕ) → va ≤ a
      → a < va + sz
      → Mapped (alloc_pages va sz attr s).1 a
  pub maps_page :
      (va attr : ℕ) (s : S)
      → Whole va 4096 attr
      → 0 < va
      → IsReady s
      → Vacant s va
      → IsReady (alloc_page va attr s).1
        × (((alloc_page va attr s).0 ≡ 0)
            ⊎ (((alloc_page va attr s).0 ≡ va)
                × ((a : ℕ) → va ≤ a → a < va + 4096 → Mapped (alloc_page va attr s).1 a)))

pub record HeapContext : Type 0 where
  pub start : ℕ
  pub brk : ℕ
  pub max_addr : ℕ

abbrev pub boundary : ℕ
boundary = 4

-- `ROUNDUP(v, BOUNDARY)`
unfoldable pub roundup : ℕ → ℕ
roundup v = bit_and (u32 (v + 3)) 0xffff_fffc

module _ {ℓ} {S : Type ℓ} (pages : PageSource S) where
  unfoldable pub dmm_init : HeapContext → S → Bool × HeapContext × S
  dmm_init heap s =
      let heap' = record heap { brk = heap.start } in
      let (va, s') = pages.alloc_page heap'.brk pg_prem_rw s in (not (va == 0), heap', s')

  -- The part of lxbrk after the checks, for the new end `next`.
  pub extend : HeapContext → ℕ → ℕ → S → ℕ × HeapContext × S
  extend heap next size s =
      let diff = u32 (pg_align next + 2 ^ 32 - pg_align heap.brk) in
      let grown = record heap { brk = u32 (heap.brk + size) } in
      if diff == 0
      then (heap.brk, grown, s)
      else (let (done, s') =
            pages.alloc_pages (u32 (pg_align heap.brk + pg_size)) diff pg_prem_rw s in
          if done then (heap.brk, grown, s') else (0, heap, s'))

  pub lxbrk : HeapContext → ℕ → S → ℕ × HeapContext × S
  unfolding extend
  lxbrk heap size s =
      let next = u32 (heap.brk + roundup size) in
      if size == 0
      then (heap.brk, heap, s)
      else if leb heap.max_addr next || ltb next heap.brk
      then (0, heap, s)
      else extend heap next size s

  pub lxsbrk : HeapContext → ℕ → S → Bool × HeapContext × S
  unfolding lxbrk
  lxsbrk heap addr s =
      let (p, heap', s') = lxbrk heap (u32 (addr + 2 ^ 32 - heap.brk)) s in
      (not (p == 0), heap', s')
