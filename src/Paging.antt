-- ===== src/Paging.antt =====
-- includes/awa/mm/page.h: the macros that take virtual addresses and page table entries apart and
-- put them together, and what they mean as arithmetic.
use os_learn.Base.{
  ℕ, ◌+◌, ◌*◌, ◌/◌, ◌%◌, ◌^◌, ◌<◌, ◌≡◌, ◌∙◌, ap, ap₂, bit_and, bit_or, Bool, arith, u32, not32,
  ◌==◌, bit_and-low_mask, bit_and-high_mask, bit_or-fields,
}

abbrev pub pg_size_bits : ℕ
pg_size_bits = 12

abbrev pub pg_size : ℕ
pg_size = 2 ^ 12

abbrev pub pg_max_entries : ℕ
pg_max_entries = 1024

abbrev pub pte_null : ℕ
pte_null = 0

unfoldable pub pg_align : ℕ → ℕ
pg_align addr = bit_and addr 0xffff_f000

unfoldable pub l1_index : ℕ → ℕ
l1_index va = bit_and va 0xffc0_0000 / 2 ^ 22

unfoldable pub l2_index : ℕ → ℕ
l2_index va = bit_and va 0x003f_f000 / 2 ^ 12

unfoldable pub pg_offset : ℕ → ℕ
pg_offset va = bit_and va 0x0000_0fff

-- `IS_CACHED`, the present bit.
unfoldable pub is_cached : ℕ → ℕ
is_cached entry = bit_and entry 1

abbrev pub pg_present : ℕ
pg_present = 1

abbrev pub pg_prem_r : ℕ
pg_prem_r = 1

-- `PG_PRESENT | PG_WRITE`
abbrev pub pg_prem_rw : ℕ
pg_prem_rw = 3

-- `PG_PREM_RW | PG_DISABLE_CACHE`
abbrev pub t_self_ref_perm : ℕ
t_self_ref_perm = 19

-- NEW_L1_ENTRY and NEW_L2_ENTRY are the same expression.
unfoldable pub new_entry : ℕ → ℕ → ℕ
unfolding pg_align
new_entry flags addr = bit_or (pg_align addr) (bit_and flags 0xfff)

unfoldable pub v_addr : ℕ → ℕ → ℕ → ℕ
v_addr pd pt offset = bit_or (bit_or (u32 (pd * 2 ^ 22)) (u32 (pt * 2 ^ 12))) offset

unfoldable pub pg_entry_flags : ℕ → ℕ
pg_entry_flags entry = bit_and entry 0xfff

unfoldable pub pg_entry_addr : ℕ → ℕ
pg_entry_addr entry = bit_and entry (not32 0xfff)

unfoldable pub has_flags : ℕ → ℕ → Bool
unfolding pg_entry_flags
has_flags entry flags = bit_and (pg_entry_flags entry) flags == flags

abbrev pub l1_base_vaddr : ℕ
l1_base_vaddr = 0xffff_f000

unfoldable pub l2_vaddr : ℕ → ℕ
l2_vaddr pd_offset = bit_or 0xffc0_0000 (u32 (pd_offset * 2 ^ 12))

-- The parts of a 32-bit address.
pub pg_align_lem : (x : ℕ) → x < 2 ^ 32 → pg_align x ≡ x / 4096 * 4096
unfolding pg_align
pg_align_lem x h = omega (arith, bit_and-high_mask 12 0xf_ffff x, bit_and-low_mask 20 (x / 4096))

pub l1_index_lem : (x : ℕ) → x < 2 ^ 32 → l1_index x ≡ x / 2 ^ 22
unfolding l1_index
l1_index_lem x h = omega (arith, bit_and-high_mask 22 0x3ff x, bit_and-low_mask 10 (x / 2 ^ 22))

pub l2_index_lem : (x : ℕ) → l2_index x ≡ x / 4096 % 1024
unfolding l2_index
l2_index_lem x = omega (arith, bit_and-high_mask 12 0x3ff x, bit_and-low_mask 10 (x / 4096))

pub pg_offset_lem : (x : ℕ) → pg_offset x ≡ x % 4096
unfolding pg_offset
pg_offset_lem x = bit_and-low_mask 12 x

pub is_cached_lem : (x : ℕ) → is_cached x ≡ x % 2
unfolding is_cached
is_cached_lem x = bit_and-low_mask 1 x

pub l2_vaddr_lem : (i : ℕ) → i < 1024 → l2_vaddr i ≡ 0xffc0_0000 + i * 4096
unfolding l2_vaddr
l2_vaddr_lem i h =
    ap (bit_or 0xffc0_0000) {x = u32 (i * 4096)} {y = i * 4096} (omega arith)
    ∙ bit_or-fields 22 1023 (i * 4096) (omega arith)

pub new_entry_lem :
    (flags addr : ℕ) → addr < 2 ^ 32 → new_entry flags addr ≡ addr / 4096 * 4096 + flags % 4096
unfolding new_entry
new_entry_lem flags addr h =
    ap₂ bit_or (unfold pg_align in pg_align_lem addr h) (bit_and-low_mask 12 flags)
    ∙ bit_or-fields 12 (addr / 4096) (flags % 4096) (omega arith)

pub pg_entry_flags_lem : (e : ℕ) → pg_entry_flags e ≡ e % 4096
unfolding pg_entry_flags
pg_entry_flags_lem e = bit_and-low_mask 12 e

pub pg_entry_addr_lem : (e : ℕ) → e < 2 ^ 32 → pg_entry_addr e ≡ e / 4096 * 4096
unfolding pg_entry_addr pg_align
pg_entry_addr_lem e h = pg_align_lem e h

pub v_addr_lem :
    (pd pt offset : ℕ)
    → pd < 1024
    → pt < 1024
    → offset < 4096
    → v_addr pd pt offset ≡ pd * 2 ^ 22 + pt * 4096 + offset
unfolding v_addr
v_addr_lem pd pt offset hd ht ho =
    ap (λ (t : ℕ). bit_or t offset) upper
    ∙ bit_or-fields 12 (pd * 1024 + pt) offset ho
    ∙ omega arith
  where
    high : u32 (pd * 2 ^ 22) ≡ pd * 2 ^ 22
    high = omega arith

    low : u32 (pt * 2 ^ 12) ≡ pt * 2 ^ 12
    low = omega arith

    upper : bit_or (u32 (pd * 2 ^ 22)) (u32 (pt * 2 ^ 12)) ≡ (pd * 1024 + pt) * 2 ^ 12
    upper = ap₂ bit_or high low ∙ bit_or-fields 22 pd (pt * 2 ^ 12) (omega arith) ∙ omega arith

-- An address is put together again from its three parts.
pub v_addr-indices : (va : ℕ) → va < 2 ^ 32 → v_addr (l1_index va) (l2_index va) (pg_offset va) ≡ va
v_addr-indices va h =
    rw (l1_index_lem va h, l2_index_lem va, pg_offset_lem va)
      (v_addr_lem (va / 2 ^ 22) (va / 4096 % 1024) (va % 4096) (omega arith) (omega arith)
          (omega arith)
        ∙ omega arith)

-- An entry gives back the frame's address and the low twelve bits of its flags.
pub entry_parts :
    (flags addr : ℕ)
    → addr < 2 ^ 32
    → (pg_entry_addr (new_entry flags addr) ≡ pg_align addr)
      × (pg_entry_flags (new_entry flags addr) ≡ flags % 4096)
entry_parts flags addr h = (
  pg_entry_addr_lem (new_entry flags addr) (omega (arith, new_entry_lem flags addr h))
      ∙ omega (arith, new_entry_lem flags addr h, pg_align_lem addr h),
  omega (arith, pg_entry_flags_lem (new_entry flags addr), new_entry_lem flags addr h),
)
