-- ===== src/Pmm/Rounds.antt =====
-- kernel/mm/pmm.c: one round of the search of pmm_alloc_page, and the search as a whole.
use os_learn.Base.{
  ℕ, zero, suc, ◌+◌, ◌-◌, ◌*◌, ◌/◌, ◌%◌, ◌^◌, ◌<◌, ◌≤◌, ◌≡◌, refl, ◌∙◌, true, false, arith, ◌⊎◌,
  inl, inr, bit_and, ◌==◌, Bool-cases, if◌then◌else◌, loop_rule, u32,
}
use native.Mathlib.Decide.{dec_lt}
use os_learn.Pmm.{
  Bitmap, Pmm, Search, page_mask, mark_page_occupied, scan_byte, skip_byte, search_goes_on,
  search_round, search_start, search,
}
use os_learn.Pmm.Page.{is_free, page_test}

-- More pages than the bitmap has bits are never in use.
abbrev pub page_limit : ℕ
page_limit = 0x10_0000

-- Nothing was taken.
abbrev pub Missed : Bitmap → Search → Type 0
Missed bm r = (r.found ≡ 0) × (r.bits ≡ bm)

-- The page under the pointer was free, and is the only one taken.
abbrev pub Hit : Bitmap → Search → Type 0
Hit bm r =
    (is_free bm r.ptr ≡ true)
    × (r.bits ≡ mark_page_occupied bm r.ptr)
    × (r.found ≡ r.ptr * 2 ^ 12)
    × (r.ptr < page_limit)

-- What a walk over the bits of byte `g` from `s` on leads to.
pub record Scanned (s : Search) (g : ℕ) (r : Search) : Type 0 where
  pub same_old : r.old_ptr ≡ s.old_ptr
  pub same_lim : r.upper_lim ≡ s.upper_lim
  pub moves : s.ptr ≤ r.ptr
  pub passed : (q : ℕ) → s.ptr ≤ q → q < r.ptr → is_free s.bits q ≡ false
  pub outcome : (Missed s.bits r × (r.ptr ≡ g * 8 + 8)) ⊎ (Hit s.bits r × (r.ptr < g * 8 + 8))

bit_test :
    (bm : Bitmap) (g i : ℕ) → i < 8 → (bit_and (bm g) (page_mask i) == 0) ≡ is_free bm (g * 8 + i)
bit_test bm g i h =
    let div : (g * 8 + i) / 8 ≡ g = omega arith in
    let rem : (g * 8 + i) % 8 ≡ i = omega arith in rw (← page_test bm (g * 8 + i), div, rem)

module _ (rounds chunk i : ℕ) (s : Search) where
  scan_byte-hit :
      (bit_and chunk (page_mask i) == 0) ≡ true
      → scan_byte (suc rounds) chunk i s
        ≡ record s { bits = mark_page_occupied s.bits s.ptr; found = u32 (s.ptr * 2 ^ 12) }
  unfolding scan_byte
  scan_byte-hit free = rw free

  scan_byte-miss :
      (bit_and chunk (page_mask i) == 0) ≡ false
      → scan_byte (suc rounds) chunk i s
        ≡ scan_byte rounds chunk (i + 1) (record s { ptr = s.ptr + 1 })
  unfolding scan_byte
  scan_byte-miss taken = rw taken

pub scan_byte-Scanned :
    (rounds g i : ℕ) (s : Search)
    → i + rounds ≡ 8
    → g * 8 + 8 ≤ page_limit
    → s.ptr ≡ g * 8 + i
    → s.found ≡ 0
    → Scanned s g (scan_byte rounds (s.bits g) i s)
scan_byte-Scanned zero g i s e small at none_yet =
    unfold scan_byte in
    record {
      same_old = refl;
      same_lim = refl;
      moves = omega arith;
      passed = λ q a b. absurd (omega arith);
      outcome = inl ((none_yet, refl), omega arith);
    }
scan_byte-Scanned (suc rounds) g i s e small at none_yet =
    elim (Bool-cases (bit_and (s.bits g) (page_mask i) == 0)) [
      | inl free ↦ rw (scan_byte-hit rounds (s.bits g) i s free) (record {
        same_old = refl;
        same_lim = refl;
        moves = omega arith;
        passed = λ q a b. absurd (omega arith);
        outcome = inr (
          (rw (at, ← bit_test s.bits g i (omega arith)) free, refl, omega arith, omega arith),
          omega arith,
        );
      })
      | inr taken ↦
          let next = record s { ptr = s.ptr + 1 } in
          let r =
            scan_byte-Scanned rounds g (i + 1) next (omega arith) small (omega arith) none_yet in
          rw (scan_byte-miss rounds (s.bits g) i s taken) (record {
            same_old = r.same_old;
            same_lim = r.same_lim;
            moves = omega (arith, r.moves);
            passed = λ q a b. elim (dec_lt s.ptr q) [
              | yes later ↦ r.passed q (omega arith) b
              | no now ↦ rw (eq_here q a now, ← bit_test s.bits g i (omega arith)) taken
            ];
            outcome = r.outcome;
          })
    ]
  where
    eq_here : (q : ℕ) → s.ptr ≤ q → ¬ (s.ptr < q) → q ≡ g * 8 + i
    eq_here q a now = omega arith

-- What every round of the search keeps, from the bitmap that it started with.
pub record Keeps (bm : Bitmap) (s : Search) : Type 0 where
  pub ptr_pos : 1 ≤ s.ptr
  pub old_pos : 1 ≤ s.old_ptr
  pub old_le : (s.found ≡ 0) → s.old_ptr ≤ s.ptr
  pub lim_le : s.upper_lim ≤ page_limit
  pub outcome : Missed bm s ⊎ Hit bm s

-- It falls in every round.
abbrev pub measure : Search → ℕ
measure s = if s.found == 0 then s.upper_lim - s.ptr + s.old_ptr + 1 else 0

module _ {bm : Bitmap} {s : Search} (k : Keeps bm s) (going : search_goes_on s ≡ true) where
  -- The search goes on only while nothing has been taken.
  missed : Missed bm s × (s.ptr < s.upper_lim)
  unfolding search_goes_on
  missed = elim k.outcome [ inl m ↦ (m, ground arith) | inr (f, b, e, l) ↦ absurd (impossible e) ]
    where
      impossible : s.found ≡ s.ptr * 2 ^ 12 → ⊥
      impossible e = let p = k.ptr_pos in ground arith

  skip_byte-Keeps : Keeps bm (skip_byte s) × (measure (skip_byte s) < measure s)
  unfolding skip_byte
  skip_byte-Keeps =
      let (m, below) = missed in
      let p = k.ptr_pos in
      let o = k.old_pos in
      let ole = k.old_le m.0 in
      let l = k.lim_le in
      (
        record {
          ptr_pos = ground arith;
          old_pos = ground arith;
          old_le = λ e. ground arith;
          lim_le = ground arith;
          outcome = inl (ground (arith, m.0), ground (arith, m.1));
        },
        ground arith,
      )

  abbrev scanned_byte : Search
  scanned_byte = scan_byte (8 - s.ptr % 8) (s.bits (s.ptr / 8)) (s.ptr % 8) s

  pub scanned : Scanned s (s.ptr / 8) scanned_byte
  scanned =
      let (m, below) = missed in
      let l = k.lim_le in
      scan_byte-Scanned (8 - s.ptr % 8) (s.ptr / 8) (s.ptr % 8) s (omega arith) (omega arith)
        (omega arith) m.0

  scanned_byte-Keeps : Keeps bm scanned_byte × (measure scanned_byte < measure s)
  scanned_byte-Keeps =
      let (m, below) = missed in
      let c = scanned in
      let p = k.ptr_pos in
      let o = k.old_pos in
      let ole = k.old_le m.0 in
      let l = k.lim_le in
      (
        record {
          ptr_pos = omega (arith, c.moves);
          old_pos = omega (arith, c.same_old);
          old_le = λ e. omega (arith, c.moves, c.same_old);
          lim_le = omega (arith, c.same_lim);
          outcome = elim c.outcome [
            | inl (n, at) ↦ inl (n.0, n.1 ∙ m.1)
            | inr (h, at) ↦ inr (rw (← m.1) h)
          ];
        },
        elim c.outcome [
          | inl (n, at) ↦ ground (arith, c.same_old, c.same_lim, c.moves, n.0, m.0)
          | inr (h, at) ↦ ground (arith, h.2, c.moves, m.0)
        ],
      )

  search_round-Keeps : Keeps bm (search_round s) × (measure (search_round s) < measure s)
  unfolding search_round
  search_round-Keeps = elim (Bool-cases (s.bits (s.ptr / 8) == 0xff)) [
    | inl full ↦ rw full skip_byte-Keeps
    | inr some_free ↦ rw some_free scanned_byte-Keeps
  ]

-- The search ends by its own test, and has taken at most one page, which was free.
pub search_ends :
    (s : Pmm)
    → s.max_pg ≤ page_limit
    → 1 ≤ s.lookup_ptr
    → Keeps s.bitmap (search s) × (search_goes_on (search s) ≡ false)
unfolding search search_start
search_ends s small pos =
    loop_rule (Keeps s.bitmap) search_goes_on search_round measure
      (λ r k going. search_round-Keeps k going) (s.max_pg + s.lookup_ptr + 2) (search_start s)
      (omega arith)
      (record {
        ptr_pos = pos;
        old_pos = pos;
        old_le = λ e. omega arith;
        lim_le = small;
        outcome = inl (refl, refl);
      })
