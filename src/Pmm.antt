-- ===== src/Pmm.antt =====
-- kernel/mm/pmm.c: the physical page bitmap, in which bit `7 - ppn % 8` of byte `ppn / 8` is set
-- when the page `ppn` is in use. The static variables are the fields of `Pmm`; a function that
-- changes them returns the new state. The bitmap array is a function of its index.
pub mod Page
pub mod Chunk
pub mod Rounds
pub mod Alloc
pub mod Init
mod Tests
use os_learn.Base.{
  ℕ, zero, suc, ◌+◌, ◌-◌, ◌*◌, ◌/◌, ◌%◌, ◌^◌, bit_and, bit_or, Bool, true, false, ◌&&◌, not, u8,
  u32, not32, ltb, leb, ◌==◌, if◌then◌else◌, update, fill, loop,
}
use os_learn.Paging.{pg_align, pg_size_bits}

abbrev pub Bitmap : Type 0
Bitmap = ℕ → ℕ

-- `PM_BMP_MAX_SIZE`
abbrev pub bmp_max_size : ℕ
bmp_max_size = 128 * 1024

pub record Pmm : Type 0 where
  pub bitmap : Bitmap
  pub max_pg : ℕ
  pub lookup_ptr : ℕ

-- `pm_bitmap[group] &= ~mask` and `pm_bitmap[group] |= mask`, stored into a `uint8_t`.
pub clear_bits : Bitmap → ℕ → ℕ → Bitmap
clear_bits bm group mask = update bm group (u8 (bit_and (bm group) (not32 mask)))

pub set_bits : Bitmap → ℕ → ℕ → Bitmap
set_bits bm group mask = update bm group (u8 (bit_or (bm group) mask))

-- `0x80U >> i`
abbrev pub page_mask : ℕ → ℕ
page_mask i = 0x80 / 2 ^ i

pub mark_page_free : Bitmap → ℕ → Bitmap
unfolding clear_bits
mark_page_free bm ppn = clear_bits bm (ppn / 8) (page_mask (ppn % 8))

pub mark_page_occupied : Bitmap → ℕ → Bitmap
unfolding set_bits
mark_page_occupied bm ppn = set_bits bm (ppn / 8) (page_mask (ppn % 8))

-- The variables of MARK_CHUNK_AUX_VAR.
pub record ChunkVars : Type 0 where
  pub group : ℕ
  pub offset : ℕ
  pub group_count : ℕ
  pub remainder : ℕ
  pub leading_shifts : ℕ

abbrev pub chunk_vars : ℕ → ℕ → ChunkVars
chunk_vars start_ppn page_count = record {
  group = start_ppn / 8;
  offset = start_ppn % 8;
  group_count = u32 (page_count + start_ppn % 8) / 8;
  remainder = u32 (page_count + start_ppn % 8) % 8;
  leading_shifts =
      if ltb (u32 (page_count + start_ppn % 8)) 8 then page_count else 8 - start_ppn % 8;
}

-- `((1U << n) - 1) << shift`
abbrev pub run_mask : ℕ → ℕ → ℕ
run_mask n shift = (2 ^ n - 1) * 2 ^ shift

abbrev pub leading_mask : ChunkVars → ℕ
leading_mask v = run_mask v.leading_shifts (8 - v.offset - v.leading_shifts)

abbrev pub trailing_mask : ℕ → ChunkVars → ℕ
trailing_mask page_count v =
    run_mask (if ltb 8 page_count then v.remainder else 0) (8 - v.remainder)

-- The loop over the whole bytes runs `group_count - 1` times, and not at all when that is -1.
pub mark_chunk_free : Bitmap → ℕ → ℕ → Bitmap
unfolding clear_bits
mark_chunk_free bm start_ppn page_count =
    let v = chunk_vars start_ppn page_count in
    let first = clear_bits bm v.group (leading_mask v) in
    let whole = fill (v.group_count - 1) (v.group + 1) 0 first in
    clear_bits whole (v.group + 1 + (v.group_count - 1)) (trailing_mask page_count v)

pub mark_chunk_occupied : Bitmap → ℕ → ℕ → Bitmap
unfolding set_bits
mark_chunk_occupied bm start_ppn page_count =
    let v = chunk_vars start_ppn page_count in
    let first = set_bits bm v.group (leading_mask v) in
    let whole = fill (v.group_count - 1) (v.group + 1) 0xff first in
    set_bits whole (v.group + 1 + (v.group_count - 1)) (trailing_mask page_count v)

-- `LOOKUP_START`
abbrev pub lookup_start : ℕ
lookup_start = 1

-- `PG_ALIGN(addr) >> 12`
abbrev pub page_number : ℕ → ℕ
page_number addr = pg_align addr / 2 ^ pg_size_bits

pub pmm_init : Pmm → ℕ → Pmm
pmm_init s mem_upper_lim = record {
  bitmap = fill bmp_max_size 0 0xff s.bitmap;
  max_pg = page_number mem_upper_lim;
  lookup_ptr = lookup_start;
}

-- The locals of `pmm_alloc_page`, and the two static variables that its loop changes.
pub record Search : Type 0 where
  pub bits : Bitmap
  pub ptr : ℕ
  pub found : ℕ
  pub old_ptr : ℕ
  pub upper_lim : ℕ

-- The `for` over the bits of one byte from `i` on, with `rounds` = `8 - i` rounds left.
pub scan_byte : ℕ → ℕ → ℕ → Search → Search
scan_byte zero chunk i s = s
scan_byte (suc rounds) chunk i s =
    let rest = scan_byte rounds chunk (i + 1) (record s { ptr = s.ptr + 1 }) in
    if bit_and chunk (page_mask i) == 0
    then record s { bits = mark_page_occupied s.bits s.ptr; found = u32 (s.ptr * 2 ^ 12) }
    else rest

-- The `else` branch: the byte is full; at the end of the first interval search below `old_ptr`.
pub skip_byte : Search → Search
skip_byte s =
    let ptr = s.ptr + 8 in
    if leb s.upper_lim ptr && not (s.old_ptr == lookup_start)
    then record s { ptr = lookup_start; upper_lim = s.old_ptr; old_ptr = lookup_start }
    else record s { ptr = ptr }

pub search_goes_on : Search → Bool
search_goes_on s = (s.found == 0) && ltb s.ptr s.upper_lim

pub search_round : Search → Search
unfolding scan_byte skip_byte
search_round s =
    let chunk = s.bits (s.ptr / 8) in
    if not (chunk == 0xff) then scan_byte (8 - s.ptr % 8) chunk (s.ptr % 8) s else skip_byte s

pub search_start : Pmm → Search
search_start s = record {
  bits = s.bitmap;
  ptr = s.lookup_ptr;
  found = 0;
  old_ptr = s.lookup_ptr;
  upper_lim = s.max_pg;
}

-- Each round moves on inside at most two intervals, hence the fuel.
pub search : Pmm → Search
unfolding search_start search_goes_on search_round
search s = loop (s.max_pg + s.lookup_ptr + 2) search_goes_on search_round (search_start s)

-- The address of the page, or 0.
pub pmm_alloc_page : Pmm → ℕ × Pmm
unfolding search
pmm_alloc_page s = let r = search s in (r.found, record s { bitmap = r.bits; lookup_ptr = r.ptr })

pub pmm_free_page : ℕ → Pmm → Bool × Pmm
pmm_free_page page s =
    let pg = page / 2 ^ 12 in
    if not (pg == 0) && ltb pg s.max_pg
    then (true, record s { bitmap = mark_page_free s.bitmap pg })
    else (false, s)
