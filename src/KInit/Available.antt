-- ===== src/KInit/Available.antt =====
-- kernel/k_init.c: which pages are free once setup_memory has marked them.
use os_learn.Base.{
  ℕ, ◌+◌, ◌-◌, ◌*◌, ◌/◌, ◌%◌, ◌^◌, ◌≤◌, ◌<◌, ◌≡◌, ◌≢◌, ◌⊎◌, inl, inr, sym, ◌∙◌, true, ◌&&◌, List,
  [], ◌∷◌, arith, u32, ltb, leb, ◌==◌, Bool-cases, ==→eq,
}
use os_learn.Pmm.{Bitmap, Pmm, mark_chunk_free, mark_chunk_occupied, pmm_init}
use os_learn.Pmm.Page.{is_free}
use os_learn.Pmm.Chunk.{covered, is_free-mark_chunk_free, is_free-mark_chunk_occupied}
use os_learn.Pmm.Rounds.{page_limit}
use os_learn.Pmm.Init.{init_none_free}
use os_learn.KInit.{MemoryMap, first_page, page_count, free_available, occupy_kernel}

-- The available regions of the memory map end below 4 GiB.
unfoldable pub Below : List MemoryMap → Type 0
Below [] = Unit {0}
Below (mmap ∷ map) = (mmap.kind ≡ 1 → mmap.addr_low + mmap.len_low ≤ 2 ^ 32) × Below map

-- The page `q` starts in an available region of the map, and where that region starts at a page boundary,
-- the whole page lies in it.
pub data Available (q : ℕ) : List MemoryMap → Type 0 where
  here :
      (mmap : MemoryMap) (map : List MemoryMap)
      → mmap.kind ≡ 1
      → mmap.addr_low ≤ q * 4096
      → q * 4096 < mmap.addr_low + mmap.len_low
      → (mmap.addr_low % 4096 ≡ 0 → q * 4096 + 4096 ≤ mmap.addr_low + mmap.len_low)
      → Available q (mmap ∷ map)
  there : (mmap : MemoryMap) (map : List MemoryMap) → Available q map → Available q (mmap ∷ map)

covered-le : (s n : ℕ) → covered s n ≤ n
covered-le s n = ground arith

free_available-Available :
    (map : List MemoryMap) (bm : Bitmap) (q : ℕ)
    → Below map
    → is_free (free_available map bm) q ≡ true
    → (is_free bm q ≡ true) ⊎ Available q map
unfolding free_available Below
free_available-Available [] bm q w e = inl e
free_available-Available (mmap ∷ map) bm q (l, w) e = elim (free_available-Available map _ q w e) [
  | inr later ↦ inr (there mmap map later)
  | inl now ↦ elim (Bool-cases (mmap.kind == 1)) [
    | inr other ↦ inl (rw other at now)
    | inl free ↦ region free (rw free at now)
  ]
]
  where
    in_region :
        mmap.kind ≡ 1
        → first_page mmap ≤ q
        → q < first_page mmap + page_count mmap
        → Available q (mmap ∷ map)
    in_region kind low high =
        let b : mmap.addr_low + mmap.len_low ≤ 2 ^ 32 = l kind in
        here mmap map kind (omega (arith, low, high, b)) (omega (arith, low, high, b))
          (λ aligned. omega (arith, low, high, b, aligned))

    region :
        (mmap.kind == 1) ≡ true
        → is_free (mark_chunk_free bm (first_page mmap) (page_count mmap)) q ≡ true
        → (is_free bm q ≡ true) ⊎ Available q (mmap ∷ map)
    region free marked =
        elim (Bool-cases (
          leb (first_page mmap) q
          && ltb q (first_page mmap + covered (first_page mmap) (page_count mmap)))) [
            | inl inside ↦
                (inr (
                  in_region (==→eq mmap.kind 1 free) (ground (arith, inside))
                    (ground (arith, inside, covered-le (first_page mmap) (page_count mmap)))))
            | inr outside ↦
                (inl (
                  sym (
                    is_free-mark_chunk_free bm (first_page mmap) (page_count mmap) q (
                      let b : mmap.addr_low + mmap.len_low ≤ 2 ^ 32 = l (==→eq mmap.kind 1 free) in
                      omega (arith, b))
                    ∙ rw outside)
                  ∙ marked))
          ]

occupied-free :
    (pg : ℕ) (bm : Bitmap) (q : ℕ)
    → pg < 2 ^ 20
    → is_free (mark_chunk_occupied (mark_chunk_occupied bm 0 pg) 0xb8 1) q ≡ true
    → (is_free bm q ≡ true) × (pg ≤ q) × (q ≢ 0xb8)
occupied-free pg bm q h e =
    let outer = is_free-mark_chunk_occupied (mark_chunk_occupied bm 0 pg) 0xb8 1 q (omega arith) in
    let inner = is_free-mark_chunk_occupied bm 0 pg q (omega arith) in
    let all : covered 0 pg ≡ pg = ground arith in
    elim (Bool-cases (leb 0xb8 q && ltb q 0xb9)) [
      | inl vga ↦ absurd (ground (arith, outer, vga, e))
      | inr other ↦ elim (Bool-cases (ltb q pg)) [
        | inl low ↦ absurd (ground (arith, outer, inner, other, low, e, all))
        | inr above ↦ (
          ground (arith, outer, inner, other, above, e, all),
          ground (arith, above),
          λ same. ground (arith, other, same),
        )
      ]
    ]

-- The map's pages, the kernel's and the screen's, as setup_memory marks them after pmm_init, for a map
-- whose available regions end below 4 GiB and a kernel that ends in the higher half: a page of the bitmap
-- that is free afterwards starts in an available region of the map, and lies in it where the region
-- starts at a page boundary; it is above the kernel's pages and is not the screen's.
pub setup-Available :
    (map : List MemoryMap) (kernel_end mem_upper_lim q : ℕ) (s : Pmm)
    → Below map
    → 0xc000_0000 ≤ kernel_end
    → kernel_end < 2 ^ 32
    → q < page_limit
    → is_free (occupy_kernel kernel_end (free_available map (pmm_init s mem_upper_lim).bitmap)) q
      ≡ true
    → Available q map × ((kernel_end - 0xc000_0000) / 4096 ≤ q) × (q ≢ 0xb8)
unfolding occupy_kernel
setup-Available map kernel_end mem_upper_lim q s w high word h e =
    let pages : u32 (kernel_end + 2 ^ 32 - 0xc000_0000) / 2 ^ 12
        ≡ (kernel_end - 0xc000_0000) / 4096 =
      omega arith in
    let (free, above, apart) =
      occupied-free ((kernel_end - 0xc000_0000) / 4096)
        (free_available map (pmm_init s mem_upper_lim).bitmap) q (omega arith) (rw pages at e) in
    (
      elim (free_available-Available map (pmm_init s mem_upper_lim).bitmap q w free) [
        | inr a ↦ a
        | inl old ↦ absurd (let none_free = init_none_free s mem_upper_lim q h in cc)
      ],
      above,
      apart,
    )
