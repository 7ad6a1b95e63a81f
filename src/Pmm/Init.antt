-- ===== src/Pmm/Init.antt =====
-- kernel/mm/pmm.c: pmm_init.
use os_learn.Base.{ℕ, ◌<◌, ◌≡◌, arith, false, bit_and-le}
use os_learn.Paging.{pg_align}
use os_learn.Pmm.{Pmm, pmm_init, bmp_max_size}
use os_learn.Pmm.Page.{is_free, is_free-fill-ones}
use os_learn.Pmm.Rounds.{page_limit}
use os_learn.Pmm.Alloc.{IsValid}

-- After pmm_init every page that the bitmap has a bit for is in use.
pub init_none_free :
    (s : Pmm) (lim q : ℕ) → q < page_limit → is_free (pmm_init s lim).bitmap q ≡ false
unfolding pmm_init
init_none_free s lim q h = ground (arith, is_free-fill-ones bmp_max_size 0 s.bitmap q)

-- pmm_init, whatever the memory held and whatever limit it is given, starts a valid manager with
-- the whole bitmap in use.
pub init-IsValid :
    (s : Pmm) (lim : ℕ)
    → IsValid (pmm_init s lim)
      × ((q : ℕ) → q < page_limit → is_free (pmm_init s lim).bitmap q ≡ false)
unfolding pmm_init pg_align
init-IsValid s lim = (
  record {
    small = omega (arith, bit_and-le lim 0xffff_f000);
    ptr_pos = omega arith;
    beyond = λ q m l. init_none_free s lim q l;
  },
  λ q l. init_none_free s lim q l,
)
